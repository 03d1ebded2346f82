-- ===== src/Jobs/Scheduler.antt =====
-- `_run_if_satisfied` and the scheduling loop of `_execute_run_tasks`. What `_execute_task` answers
-- for a task, and whether a cancellation was seen when a round began, come from outside.
pub mod Coverage
pub mod Acyclic
use minilake.Prelude.{
  ℕ, zero, suc, String, Bool, true, false, not, Option, none, some, List, [], ◌∷◌, string_eq,
  select, all, length, eqb, leb, is_empty, get_or, if◌then◌else◌,
}
use minilake.Prelude.Dict.{Dict, get, has, put}
use minilake.Jobs.Model.{
  Task, RunTaskInfo, RunIf, RunResultState, RunLifeCycleState, all_success, all_done,
  at_least_one_success, all_failed, at_least_one_failed, none_failed, success, failed, timedout,
  canceled, terminated, skipped,
}

abbrev pub is_success : RunTaskInfo → Bool
is_success r = elim r.state [
  | none ↦ false
  | some st ↦ elim st.result_state [ some success ↦ true | _ ↦ false ]
]

abbrev pub is_failure : RunTaskInfo → Bool
is_failure r = elim r.state [
  | none ↦ false
  | some st ↦ elim st.result_state [ some failed ↦ true | some timedout ↦ true | _ ↦ false ]
]

abbrev pub is_done : RunTaskInfo → Bool
is_done r = elim r.state [
  | none ↦ false
  | some st ↦ elim st.life_cycle_state [ terminated ↦ true | skipped ↦ true | _ ↦ false ]
]

-- `sum(1 for r in results if p(r))`
abbrev pub count_if {ℓ} : {A : Type ℓ} → (A → Bool) → List A → ℕ
count_if p [] = 0
count_if p (r ∷ rs) = let rest = count_if p rs in if p r then suc rest else rest

unfoldable pub meets : RunIf → List RunTaskInfo → Bool
meets all_done rs = eqb (count_if is_done rs) (length rs)
meets at_least_one_success rs = leb 1 (count_if is_success rs)
meets all_failed rs = eqb (count_if is_failure rs) (length rs)
meets at_least_one_failed rs = leb 1 (count_if is_failure rs)
meets none_failed rs = eqb (count_if is_failure rs) 0
meets all_success rs = eqb (count_if is_success rs) (length rs)

-- `_run_if_satisfied`
unfoldable pub run_if_satisfied : RunIf → List RunTaskInfo → Bool
unfolding meets
run_if_satisfied run_if [] = true
run_if_satisfied run_if (r ∷ rs) = meets run_if (r ∷ rs)

abbrev pub Results : Type 0
Results = Dict String RunTaskInfo

-- `[d.task_key for d in (t.depends_on or [])]`
abbrev pub depends : Task → List String
depends task = get_or task.depends_on []

-- `[results[d] for d in … if d in results]`
unfoldable pub found_results : Results → List String → List RunTaskInfo
found_results results [] = []
found_results results (d ∷ ds) = elim (get results d) [
  | some r ↦ r ∷ found_results results ds
  | none ↦ found_results results ds
]

abbrev pub state_info :
    String → RunLifeCycleState → Option RunResultState → Option String → RunTaskInfo
state_info key cycle result message = record {
  task_key = key;
  run_id = none;
  state =
      some (record { life_cycle_state = cycle; result_state = result; state_message = message });
}

abbrev pub canceled_info : String → RunTaskInfo
canceled_info key = state_info key terminated (some canceled) none

abbrev pub skipped_info : String → RunTaskInfo
skipped_info key = state_info key skipped none none

abbrev pub stuck_info : String → RunTaskInfo
stuck_info key = state_info key skipped none (some "Unresolvable dependency or cycle")

module _ (perform : Task → RunTaskInfo) where
  -- `run_one`, on the results of the rounds before.
  unfoldable pub run_one : Bool → Results → Task → RunTaskInfo
  run_one cancel_requested results task =
      if cancel_requested
      then canceled_info task.task_key
      else if run_if_satisfied (get_or task.run_if all_success)
          (found_results results (depends task))
      then perform task
      else skipped_info task.task_key

  -- The tasks of `ready` run side by side: each sees the results from before the round.
  unfoldable pub gather : Bool → Results → List Task → Results → Results
  gather cancel_requested before [] results = results
  gather cancel_requested before (task ∷ ready) results =
      gather cancel_requested before ready
        (put results task.task_key (run_one cancel_requested before task))

  unfoldable pub is_ready : Results → Task → Bool
  is_ready results task = all (has results) (depends task)

  abbrev pub waits : Results → Task → Bool
  waits results task = not (is_ready results task)

  unfoldable pub mark_stuck : List Task → Results → Results
  mark_stuck [] results = results
  mark_stuck (task ∷ pending) results =
      mark_stuck pending (put results task.task_key (stuck_info task.task_key))

  -- `while pending: …`. The answer is the results and `unschedulable`; `none` means that the fuel
  -- ran out. `cancelled n` is the flag `_cancel_requested` n rounds before the fuel's end.
  unfoldable pub schedule : (ℕ → Bool) → ℕ → List Task → Results → Option (Results × Bool)
  schedule cancelled fuel [] results = some (results, false)
  schedule cancelled zero (task ∷ pending) results = none
  schedule cancelled (suc fuel) (task ∷ pending) results =
      let ready = select (is_ready results) (task ∷ pending) in
      let rest =
        schedule cancelled fuel (select (waits results) (task ∷ pending))
          (gather (cancelled fuel) results ready results) in
      if is_empty ready then some (mark_stuck (task ∷ pending) results, true) else rest

  -- The loop on the tasks of a run, each of which is pending at first.
  unfoldable pub run_tasks : (ℕ → Bool) → List Task → Option (Results × Bool)
  run_tasks cancelled tasks = schedule cancelled (length tasks) tasks []
