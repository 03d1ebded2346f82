-- ===== src/Compute/Clusters/Records.antt =====
-- services/clusters.py: the dict of a cluster, and what each handler writes to it.
use mathlib.Core.Option
use minilake.Prelude.{
  ℕ, String, Bool, false, not, ◌&&◌, Option, none, some, List, [], ◌∷◌, ◌++◌, ◌==◌, string_eq,
  option_eq, contains, nonempty, select, if◌then◌else◌,
}
use minilake.Prelude.Int.{ℤ, pos}
use minilake.Prelude.Dict.{get, put}
use minilake.Json.{Value, null, int, str, dict, no_entries, opt_str, opt_int, opt_value, or_str}
use minilake.Text.{strip}
use minilake.Errors.{}
use minilake.Compute.State.{Stored}

-- The configuration fields that `CreateClusterRequest` and `EditClusterRequest` share.
pub record Spec : Type 0 where
  pub cluster_name : Option String
  pub spark_version : String
  pub node_type_id : Option String
  pub driver_node_type_id : Option String
  pub num_workers : Option ℤ
  pub autotermination_minutes : Option ℤ
  pub spark_conf : Option Value
  pub spark_env_vars : Option Value
  pub custom_tags : Option Value
  pub autoscale : Option Value
  pub policy_id : Option String
  pub instance_pool_id : Option String
  pub driver_instance_pool_id : Option String

-- The dict of these fields that `create_cluster` and `edit_cluster` write.
unfoldable pub spec_fields : Spec → Stored
spec_fields req =
    ("cluster_name", opt_str req.cluster_name)
    ∷ ("spark_version", str req.spark_version)
    ∷ ("node_type_id", opt_str req.node_type_id)
    ∷ ("driver_node_type_id", opt_str (or_str req.driver_node_type_id req.node_type_id))
    ∷ ("num_workers", opt_int req.num_workers)
    ∷ ("autotermination_minutes", opt_int req.autotermination_minutes)
    ∷ ("spark_conf", opt_value req.spark_conf)
    ∷ ("spark_env_vars", opt_value req.spark_env_vars)
    ∷ ("custom_tags", opt_value req.custom_tags)
    ∷ ("autoscale", opt_value req.autoscale)
    ∷ ("policy_id", opt_str req.policy_id)
    ∷ ("instance_pool_id", opt_str req.instance_pool_id)
    ∷ ("driver_instance_pool_id", opt_str req.driver_instance_pool_id)
    ∷ []

-- What `_transition` writes to the cluster that it finds.
unfoldable pub arrive : ℕ → String → Stored → Stored
arrive now target cluster =
    let settled = put (put cluster "state" (str target)) "state_message" (str "") in
    if target == "RUNNING"
    then put settled "start_time" (int (pos now))
    else if target == "TERMINATED"
    then put settled "terminated_time" (int (pos now))
    else settled

-- `str(value)` is one of `names`.
abbrev pub is_one_of : Value → List String → Bool
is_one_of (str s) names = contains names s
is_one_of _ names = false

-- What `create_cluster` stores.
unfoldable pub new_cluster : String → ℕ → Spec → Stored
unfolding spec_fields
new_cluster id now req =
    ("cluster_id", str id) ∷ spec_fields req
    ++ ("state", str "PENDING")
      ∷ ("state_message", str "Starting cluster")
      ∷ ("creator_user_name", str "minilake-user")
      ∷ ("start_time", int (pos now))
      ∷ ("terminated_time", null)
      ∷ ("last_restarted_time", null)
      ∷ ("default_tags", dict no_entries)
      ∷ []

-- `_UPDATABLE_FIELDS`
abbrev pub updatable_fields : List String
updatable_fields =
    "cluster_name" ∷ "spark_version" ∷ "node_type_id" ∷ "driver_node_type_id" ∷ "num_workers"
    ∷ "autotermination_minutes" ∷ "spark_conf" ∷ "spark_env_vars" ∷ "custom_tags" ∷ "autoscale"
    ∷ "policy_id" ∷ "instance_pool_id" ∷ "driver_instance_pool_id" ∷ "single_user_name"
    ∷ "data_security_mode" ∷ "runtime_engine" ∷ []

-- `[f.strip() for f in mask.split(",") if f.strip()]`
unfoldable pub mask_fields : List String → List String
mask_fields [] = []
mask_fields (word ∷ words) =
    let rest = mask_fields words in if nonempty (strip word) then strip word ∷ rest else rest

-- `{f: payload.get(f) for f in fields if f in payload}`
-- The value of one key of the comprehension, if the payload has it.
abbrev pub picked : Stored → String → Option Value → Stored
picked acc f none = acc
picked acc f (some v) = put acc f v

unfoldable pub pick : Stored → List String → Stored → Stored
pick payload [] acc = acc
pick payload (f ∷ fs) acc = pick payload fs (picked acc f (get payload f))

unfoldable pub mask_updates : List String → Stored → Stored
unfolding pick
mask_updates fields payload = if contains fields "*" then payload else pick payload fields []

abbrev pub unknown_fields : List String → List String
unknown_fields = select (λ f. not (contains updatable_fields f) && not (f == "*"))

-- What the four lifecycle handlers write to the cluster's dict.
unfoldable pub starting : Stored → Stored
starting cluster =
    put (put (put cluster "state" (str "PENDING")) "state_message" (str "Starting cluster"))
      "terminated_time" null

unfoldable pub terminating : Stored → Stored
terminating cluster =
    put (put cluster "state" (str "TERMINATING")) "state_message" (str "Terminating cluster")

unfoldable pub restarting : ℕ → Stored → Stored
restarting now cluster =
    put (put (put cluster "state" (str "RESTARTING")) "state_message" (str "Restarting cluster"))
      "last_restarted_time" (int (pos now))

abbrev put_given : Stored → String → Option Value → Stored
put_given cluster k none = cluster
put_given cluster k (some v) = put cluster k v

unfoldable pub resizing : Option ℤ → Option Value → Stored → Stored
resizing num_workers autoscale cluster =
    put
      (put
        (put_given (put_given cluster "num_workers" (Option.map int num_workers)) "autoscale"
          autoscale)
        "state" (str "RESIZING"))
      "state_message" (str "Resizing cluster")
