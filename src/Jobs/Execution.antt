-- ===== src/Jobs/Execution.antt =====
-- The execution of a run: `_execute_run` and `_execute_run_tasks`, with the scheduler inside.
pub mod Ends
pub mod Success
use mathlib.Core.Option
use minilake.Prelude.{
  ℕ, String, Bool, ◌||◌, Option, none, some, List, [], ◌∷◌, nat_eq, string_eq, option_eq, any,
  if◌then◌else◌,
}
use minilake.Prelude.Dict.{Dict, get}
use minilake.Jobs.Model.{
  Job, Run, Task, RunTaskInfo, RunState, RunResultState, running, terminated, skipped, success,
  failed, canceled,
}
use minilake.Jobs.Graph.{task_graph_error}
use minilake.Jobs.Crud.{tasks_from_settings}
use minilake.Jobs.Scheduler.{Results, is_failure, run_tasks, state_info}

-- The tasks that a run executes: its own, or its job's.
unfoldable pub task_source : Run → Dict ℕ Job → List Task
unfolding tasks_from_settings
task_source run jobs = elim run.own_tasks [
  | some ts ↦ ts
  | none ↦ elim run.job_id [
    | none ↦ []
    | some id ↦ elim (get jobs id) [ none ↦ [] | some job ↦ tasks_from_settings job.settings ]
  ]
]

-- `_execute_run` up to its first wait.
unfoldable pub start_run : ℕ → Run → Run
start_run now run = record run {
  state = record { life_cycle_state = running; result_state = none; state_message = none };
  start_time = now;
}

unfoldable pub final_state : RunResultState → Option String → RunState
final_state result message = record {
  life_cycle_state = terminated;
  result_state = some result;
  state_message = message;
}

-- `[results[t.task_key] for t in tasks]`, if every task has a result.
unfoldable pub collect : List Task → Results → Option (List RunTaskInfo)
collect [] results = some []
collect (task ∷ tasks) results = elim (get results task.task_key) [
  | none ↦ none
  | some r ↦ Option.map (λ rs. r ∷ rs) (collect tasks results)
]

-- What `_execute_run_tasks` writes to a run when the loop is over.
unfoldable pub finish_run : ℕ → Bool → Bool → List RunTaskInfo → Run → Run
unfolding final_state
finish_run now cancelled unschedulable infos run = record run {
  tasks = infos;
  end_time = some now;
  state =
      if cancelled
      then final_state canceled (some "Run canceled")
      else if any is_failure infos || unschedulable
      then final_state failed (some "One or more tasks failed")
      else final_state success none;
}

unfoldable pub rejected : String → List Task → List RunTaskInfo
rejected message [] = []
rejected message (task ∷ rest) =
    state_info task.task_key skipped none (some message) ∷ rejected message rest

-- A graph that cannot be scheduled: no task runs.
unfoldable pub reject_run : ℕ → String → List Task → Run → Run
unfolding final_state rejected
reject_run now message ts run = record run {
  tasks = rejected message ts;
  end_time = some now;
  state = final_state failed (some message);
}

-- The outcome of `_execute_run_tasks`; `none` if a task that the loop should have covered has none,
-- where the source's `results[t.task_key]` would raise.
unfoldable pub execute_run_tasks :
    (Task → RunTaskInfo) → (ℕ → Bool) → ℕ → Bool → List Task → Run → Option Run
unfolding collect
execute_run_tasks perform cancelled now cancel_requested ts run = elim (task_graph_error ts) [
  | some message ↦ some (reject_run now message ts run)
  | none ↦ elim (run_tasks perform cancelled ts) [
    | none ↦ none
    | some (results, unschedulable) ↦
        Option.map (λ infos. finish_run now cancel_requested unschedulable infos run)
          (collect ts results)
  ]
]
