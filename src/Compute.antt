-- ===== src/Compute.antt =====
-- The compute plane: services/clusters.py, services/cluster_policies.py and
-- services/instance_pools.py, whose module states are read by one another, as one state.
pub mod State
pub mod Clusters
pub mod Policies
pub mod Pools
pub mod Events
pub mod Lifecycle
pub mod References
pub mod Failures
mod Tests
