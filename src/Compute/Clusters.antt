-- ===== src/Compute/Clusters.antt =====
-- services/clusters.py. A handler gets as arguments the texts it draws from `uuid` and the time.
mod Records
unfoldable pub use Records.*
use mathlib.Core.Option
use minilake.Prelude.{
  ℕ, String, ◌<>◌, Bool, false, not, ◌&&◌, Option, none, some, List, [], ◌∷◌, ◌++◌, ◌==◌, string_eq,
  option_eq, contains, nonempty, select, is_empty, if◌then◌else◌,
}
use minilake.Prelude.Int.{ℤ, pos}
use minilake.Prelude.Dict.{Dict, get, has, put, remove, update, values}
use minilake.Json.{Value, null, int, str, dict, no_entries, opt_str, opt_int, opt_value, or_str}
use minilake.Text.{split, join, strip}
use minilake.Errors.{
  Exec, Result, ok, raised, pure, gets, lift, or_raise, ◌>>=◌, ◌>>◌, modify, raise_if, error,
  invalid_response,
}
use minilake.Compute.State.{State, Stored, Transition, item}

-- One half of `_validate_references`: an id that is given, and not empty, must be known.
unfoldable pub check_reference : String → Dict String Stored → Option String → Result (Unit {0})
check_reference kind known none = ok tt
check_reference kind known (some id) =
    if nonempty id && not (has known id)
    then raised (error "INVALID_PARAMETER_VALUE" (kind <> " '" <> id <> "' not found") 400)
    else ok tt

unfoldable pub validate_references : Option String → Option String → Exec State (Unit {0})
validate_references policy_id instance_pool_id = do
  policies ← gets (λ s. s.policies)
  lift (check_reference "Cluster policy" policies policy_id)
  pools ← gets (λ s. s.pools)
  lift (check_reference "Instance pool" pools instance_pool_id)

unfoldable pub get_or_404 : String → Exec State Stored
get_or_404 id = do
  clusters ← gets (λ s. s.clusters)
  or_raise (get clusters id) (error "NOT_FOUND" ("Cluster '" <> id <> "' not found") 404)

-- Writing to the dict that `_get_or_404` returned writes to the stored cluster.
unfoldable pub store : String → Stored → Exec State (Unit {0})
store id cluster = modify (λ s. record s { clusters = put s.clusters id cluster })

unfoldable pub schedule_transition : String → String → String → Exec State (Unit {0})
schedule_transition id token target = modify λ s. record s {
  transition_tokens = put s.transition_tokens id token;
  tasks = s.tasks ++ record { cluster_id = id; token = token; target_state = target } ∷ [];
}

-- The clusters after a transition has looked its cluster up.
unfoldable pub write_arrival :
    ℕ → Transition → Dict String Stored → Option Stored → Dict String Stored
write_arrival now t clusters none = clusters
write_arrival now t clusters (some cluster) =
    put clusters t.cluster_id (arrive now t.target_state cluster)

-- `_transition` once its sleep is over.
unfoldable pub transition : ℕ → Transition → State → State
unfolding write_arrival
transition now t s =
    if get s.transition_tokens t.cluster_id == some t.token
    then record s {
      transition_tokens = remove s.transition_tokens t.cluster_id;
      clusters = write_arrival now t s.clusters (get s.clusters t.cluster_id);
    }
    else s

-- The event loop resumes the i-th sleeping transition, whichever that is.
unfoldable pub drop_at : ℕ → List Transition → List Transition
drop_at i [] = []
drop_at ℕ.zero (t ∷ ts) = ts
drop_at (ℕ.suc i) (t ∷ ts) = t ∷ drop_at i ts

unfoldable pub task_at : ℕ → List Transition → Option Transition
task_at i [] = none
task_at ℕ.zero (t ∷ ts) = some t
task_at (ℕ.suc i) (t ∷ ts) = task_at i ts

unfoldable pub resume : ℕ → ℕ → State → State
unfolding drop_at task_at
resume now i s = elim (task_at i s.tasks) [
  | none ↦ s
  | some t ↦ transition now t (record s { tasks = drop_at i s.tasks })
]

unfoldable pub create_cluster : String → String → ℕ → Spec → Exec State String
unfolding validate_references store schedule_transition
create_cluster id token now req = do
  validate_references req.policy_id req.instance_pool_id
  store id (new_cluster id now req)
  schedule_transition id token "RUNNING"
  pure id

-- The response model, `ClusterInfo(**cluster)`: pydantic accepts the dict or refuses it.
module _ {Info : Type 0} (cluster_info : Stored → Option Info) where
  unfoldable pub to_info : Stored → Result Info
  to_info cluster = elim (cluster_info cluster) [ none ↦ raised invalid_response | some i ↦ ok i ]

  unfoldable pub edit_cluster : String → Spec → Exec State Info
  unfolding get_or_404 validate_references store
  edit_cluster id req = do
    cluster ← get_or_404 id
    validate_references req.policy_id req.instance_pool_id
    result ← lift (to_info (update cluster (spec_fields req)))
    store id (update cluster (spec_fields req))
    pure result

  -- The mask, with its text cut into fields, and the payload `req.cluster or {}`.
  unfoldable pub apply_mask : String → Stored → List String → Stored → Exec State Info
  unfolding mask_updates to_info store
  apply_mask id cluster fields payload = do
    raise_if (not (is_empty (unknown_fields fields))) (
        error "INVALID_PARAMETER_VALUE"
          ("Unknown update_mask field(s): " <> join ", " (unknown_fields fields)) 400)
    store id (update cluster (mask_updates fields payload))
    lift (to_info (update cluster (mask_updates fields payload)))

  unfoldable pub update_cluster : String → Option String → Stored → Exec State Info
  unfolding get_or_404
  update_cluster id update_mask payload = do
    cluster ← get_or_404 id
    mask ←
        or_raise (or_str update_mask none)
          (error "INVALID_PARAMETER_VALUE" "update_mask is required" 400)
    apply_mask id cluster (mask_fields (split b',' mask)) payload

  unfoldable pub start_cluster : String → String → Exec State Info
  unfolding get_or_404 store schedule_transition to_info
  start_cluster token id = do
    cluster ← get_or_404 id
    state ← lift (item cluster "state")
    if is_one_of state ("RUNNING" ∷ "PENDING" ∷ [])
        then lift (to_info cluster)
        else (store id (starting cluster)
            >> schedule_transition id token "RUNNING"
            >> lift (to_info (starting cluster)))

  unfoldable pub terminate_cluster : String → String → Exec State Info
  unfolding get_or_404 store schedule_transition to_info
  terminate_cluster token id = do
    cluster ← get_or_404 id
    state ← lift (item cluster "state")
    if is_one_of state ("TERMINATED" ∷ "TERMINATING" ∷ [])
        then lift (to_info cluster)
        else (store id (terminating cluster)
            >> schedule_transition id token "TERMINATED"
            >> lift (to_info (terminating cluster)))

  unfoldable pub restart_cluster : String → ℕ → String → Exec State Info
  unfolding get_or_404 store schedule_transition to_info
  restart_cluster token now id = do
    cluster ← get_or_404 id
    store id (restarting now cluster)
    schedule_transition id token "RUNNING"
    lift (to_info (restarting now cluster))

  unfoldable pub resize_cluster : String → String → Option ℤ → Option Value → Exec State Info
  unfolding get_or_404 store schedule_transition to_info
  resize_cluster token id num_workers autoscale = do
    cluster ← get_or_404 id
    store id (resizing num_workers autoscale cluster)
    schedule_transition id token "RUNNING"
    lift (to_info (resizing num_workers autoscale cluster))

  unfoldable pub get_cluster : String → Exec State Info
  unfolding get_or_404 to_info
  get_cluster id = do cluster ← get_or_404 id; lift (to_info cluster)

  unfoldable pub infos : List Stored → Result (List Info)
  unfolding to_info
  infos [] = ok []
  infos (cluster ∷ rest) = elim (to_info cluster) [
    | raised x ↦ raised x
    | ok i ↦ elim (infos rest) [ raised x ↦ raised x | ok is ↦ ok (i ∷ is) ]
  ]

  unfoldable pub list_clusters : Exec State (List Info)
  unfolding infos
  list_clusters = do clusters ← gets (λ s. s.clusters); lift (infos (values clusters))

unfoldable pub pin_cluster : String → Exec State (Unit {0})
unfolding get_or_404 store
pin_cluster id = do
  cluster ← get_or_404 id
  store id (put cluster "pinned_by_user_name" (str "minilake-user"))

unfoldable pub unpin_cluster : String → Exec State (Unit {0})
unfolding get_or_404 store
unpin_cluster id = do cluster ← get_or_404 id; store id (remove cluster "pinned_by_user_name")

unfoldable pub permanent_delete_cluster : String → Exec State (Unit {0})
unfolding get_or_404
permanent_delete_cluster id = do
  get_or_404 id
  modify λ s. record s {
    clusters = remove s.clusters id;
    transition_tokens = remove s.transition_tokens id;
  }

unfoldable pub change_owner : String → String → Exec State (Unit {0})
unfolding get_or_404 store
change_owner id owner = do
  cluster ← get_or_404 id
  store id (put cluster "creator_user_name" (str owner))

-- `restore_state` with a snapshot's clusters, and `reset`; the sleeping transitions stay.
unfoldable pub restore_clusters : Dict String Stored → State → State
restore_clusters saved s = record s { clusters = saved }

unfoldable pub reset_clusters : State → State
reset_clusters s = record s { clusters = []; transition_tokens = [] }
