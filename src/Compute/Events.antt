-- ===== src/Compute/Events.antt =====
-- What reaches the compute plane: one constructor for each handler that changes state, with what it
-- draws from outside, and the resumption of a sleeping transition.
use minilake.Prelude.{ℕ, String, Option, List, [], ◌∷◌, ◌⊎◌}
use minilake.Prelude.Int.{ℤ}
use minilake.Json.{Value}
use minilake.Compute.State.{State, Stored}
use minilake.Compute.Clusters.{
  Spec, create_cluster, edit_cluster, update_cluster, start_cluster, terminate_cluster,
  restart_cluster, resize_cluster, pin_cluster, unpin_cluster, permanent_delete_cluster,
  change_owner, resume, reset_clusters,
}
use minilake.Compute.Policies.{create_policy, edit_policy, delete_policy}
use minilake.Compute.Pools.{create_instance_pool, edit_instance_pool, delete_instance_pool}

pub data Event : Type 0 where
  create : (id token : String) (now : ℕ) (req : Spec) → Event
  edit : (id : String) (req : Spec) → Event
  update : (id : String) (mask : Option String) (payload : Stored) → Event
  start : (token id : String) → Event
  terminate : (token id : String) → Event
  restart : (token : String) (now : ℕ) (id : String) → Event
  resize : (token id : String) (num_workers : Option ℤ) (autoscale : Option Value) → Event
  permanent_delete : (id : String) → Event
  pin : (id : String) → Event
  unpin : (id : String) → Event
  set_owner : (id owner : String) → Event
  wake : (now i : ℕ) → Event
  reset_all_clusters : Event
  add_policy : (id : String) (now : ℕ) (req : Stored) → Event
  change_policy : (id : String) (req : Stored) → Event
  drop_policy : (id : String) → Event
  add_pool : (id : String) (req : Stored) → Event
  change_pool : (id : String) (req : Stored) → Event
  drop_pool : (id : String) → Event

-- The libraries that the handlers call.
module _ {Info : Type 0} (cluster_info : Stored → Option Info)
    (loads : String → String ⊎ Value) where
  -- The state after an event, whether its handler returned or raised.
  unfoldable pub step : Event → State → State
  step (create id token now req) s = (create_cluster id token now req s).1
  step (edit id req) s = (edit_cluster cluster_info id req s).1
  step (update id mask payload) s = (update_cluster cluster_info id mask payload s).1
  step (start token id) s = (start_cluster cluster_info token id s).1
  step (terminate token id) s = (terminate_cluster cluster_info token id s).1
  step (restart token now id) s = (restart_cluster cluster_info token now id s).1
  step (resize token id num_workers autoscale) s =
      (resize_cluster cluster_info token id num_workers autoscale s).1
  step (permanent_delete id) s = (permanent_delete_cluster id s).1
  step (pin id) s = (pin_cluster id s).1
  step (unpin id) s = (unpin_cluster id s).1
  step (set_owner id owner) s = (change_owner id owner s).1
  step (wake now i) s = resume now i s
  step reset_all_clusters s = reset_clusters s
  step (add_policy id now req) s = (create_policy loads id now req s).1
  step (change_policy id req) s = (edit_policy loads id req s).1
  step (drop_policy id) s = (delete_policy id s).1
  step (add_pool id req) s = (create_instance_pool id req s).1
  step (change_pool id req) s = (edit_instance_pool id req s).1
  step (drop_pool id) s = (delete_instance_pool id s).1

  unfoldable pub run : List Event → State → State
  unfolding step
  run [] s = s
  run (e ∷ es) s = run es (step e s)
