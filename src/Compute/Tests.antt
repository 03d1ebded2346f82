-- ===== src/Compute/Tests.antt =====
-- The compute plane at concrete inputs.
use minilake.Prelude.{
  ℕ, String, ◌≡◌, refl, Option, none, some, List, [], ◌∷◌, ◌⊎◌, inr, text_ne, string_eq, nonempty,
}
use minilake.Prelude.Int.{pos}
use minilake.Prelude.Dict.{get, put}
use minilake.Json.{Value, str, dict, no_entries}
use minilake.Compute.State.{State, Stored, Transition, empty, text_at}
use minilake.Compute.Clusters.{
  Spec, create_cluster, new_cluster, validate_references, check_reference, store,
  schedule_transition, resume, drop_at, task_at, update_cluster, spec_fields,
}
use minilake.Compute.Events.{
  Event, create, restart, wake, add_policy, drop_policy, permanent_delete, step, run,
}
use minilake.Compute.Lifecycle.{IsDriven, goal_of, awaited}
use minilake.Compute.Lifecycle.Runs.{
  run-IsDriven, driven_arrives, schedule_supersedes, empty-IsDriven,
}
use minilake.Compute.References.Writes.{IsLinked}
use minilake.Compute.References.Runs.{run-IsLinked, empty-IsLinked}
use minilake.Compute.Failures.{fails, fails_unchanged, update_unchecked}

-- A response model that accepts every dict, and a decoder that reads an empty document.
abbrev info : Stored → Option Stored
info c = some c

abbrev loads : String → String ⊎ Value
loads t = inr (dict no_entries)

abbrev spec : Option String → Spec
spec policy = record {
  cluster_name = some "etl";
  spark_version = "15.4.x";
  node_type_id = some "local";
  driver_node_type_id = none;
  num_workers = some (pos 2);
  autotermination_minutes = none;
  spark_conf = none;
  spark_env_vars = none;
  custom_tags = none;
  autoscale = none;
  policy_id = policy;
  instance_pool_id = none;
  driver_instance_pool_id = none;
}

abbrev restarts : List Event
restarts = create "c1" "t1" 5 (spec none) ∷ restart "t2" 6 "c1" ∷ wake 7 0 ∷ wake 8 0 ∷ []

run-IsDriven_example : IsDriven (run info loads restarts empty)
run-IsDriven_example =
    run-IsDriven info loads restarts empty (tt, (tt, (tt, (tt, tt)))) empty-IsDriven

abbrev creation : List Event
creation = create "c1" "t1" 5 (spec none) ∷ []

driven_arrives_example :
    (i : ℕ) × ((now : ℕ)
      → (arrived : Stored) × (get (resume now i (run info loads creation empty)).clusters "c1"
          ≡ some arrived)
        × (text_at arrived "state" ≡ some "RUNNING"))
unfolding run step create_cluster new_cluster spec_fields validate_references check_reference store
    schedule_transition get put string_eq nonempty goal_of awaited text_at
driven_arrives_example =
    driven_arrives (run info loads creation empty) "c1" (new_cluster "c1" 5 (spec none)) "RUNNING"
      (run-IsDriven info loads creation empty (tt, tt) empty-IsDriven) refl refl

abbrev older : Transition
older = record { cluster_id = "c1"; token = "t1"; target_state = "RUNNING" }

abbrev one_asleep : State
one_asleep = record {
  clusters = ("c1", ("state", str "PENDING") ∷ []) ∷ [];
  transition_tokens = ("c1", "t1") ∷ [];
  tasks = older ∷ [];
  policies = [];
  pools = [];
}

schedule_supersedes_example :
    let s' = (schedule_transition "c1" "t2" "TERMINATED" one_asleep).1 in
    resume 9 0 s' ≡ record s' { tasks = drop_at 0 s'.tasks }
unfolding task_at
schedule_supersedes_example =
    schedule_supersedes "c1" "t2" "TERMINATED" one_asleep 9 0 older refl refl
      (text_ne "t1" "t2" refl)

abbrev policy_request : Stored
policy_request = ("name", str "small") ∷ []

abbrev linking : List Event
linking =
    add_policy "p1" 3 policy_request
    ∷ create "c1" "t1" 5 (spec (some "p1"))
    ∷ drop_policy "p1"
    ∷ permanent_delete "c1"
    ∷ drop_policy "p1"
    ∷ []

run-IsLinked_example : IsLinked (run info loads linking empty)
run-IsLinked_example =
    run-IsLinked info loads linking empty (tt, (tt, (tt, (tt, (tt, tt))))) empty-IsLinked

fails_unchanged_example : step info loads (create "c1" "t1" 5 (spec (some "p9"))) empty ≡ empty
unfolding fails create_cluster validate_references check_reference get string_eq nonempty
fails_unchanged_example =
    fails_unchanged info loads (create "c1" "t1" 5 (spec (some "p9"))) empty tt refl

abbrev policy_payload : Stored
policy_payload = ("cluster_name", str "other") ∷ ("policy_id", str "p9") ∷ []

update_unchecked_example :
    (update_cluster info "c1" (some "policy_id") policy_payload one_asleep).1.clusters
    ≡ put one_asleep.clusters "c1" (put (("state", str "PENDING") ∷ []) "policy_id" (str "p9"))
unfolding get string_eq
update_unchecked_example =
    update_unchecked info one_asleep "c1" policy_payload (str "p9") (("state", str "PENDING") ∷ [])
      refl refl
