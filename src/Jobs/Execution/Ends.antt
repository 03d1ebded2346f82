-- ===== src/Jobs/Execution/Ends.antt =====
-- How a run's execution ends.
use minilake.Prelude.{
  ℕ, suc, String, ◌≡◌, inl, inr, refl, ap, Bool, true, some, List, [], ◌∷◌, arith, string_eq,
  length, is_some, Option-cases,
}
use minilake.Prelude.Dict.{get, has}
use minilake.Jobs.Model.{Task, Run, RunTaskInfo, terminated}
use minilake.Jobs.Graph.{task_graph_error}
use minilake.Jobs.Scheduler.{Results}
use minilake.Jobs.Scheduler.Coverage.{KeyOf, run_tasks_total}
use minilake.Jobs.Execution.{
  collect, rejected, reject_run, finish_run, final_state, execute_run_tasks,
}

collect_total :
    (ts : List Task) (results : Results)
    → ((k : String) → KeyOf k ts → has results k ≡ true)
    → (infos : List RunTaskInfo) × (collect ts results ≡ some infos) × (length infos ≡ length ts)
unfolding collect
collect_total [] results covers = ([], refl, refl)
collect_total (task ∷ ts) results covers =
    let (infos, e, l) = collect_total ts results (λ k h. covers k (inr h)) in
    elim (Option-cases (get results task.task_key)) [
      | inl missing ↦ absurd (ground (arith, missing, covers task.task_key (inl refl)))
      | inr (r, found) ↦ (r ∷ infos, rw (found, collect) (rw e refl), ap suc l)
    ]

length-rejected : (message : String) (ts : List Task) → length (rejected message ts) ≡ length ts
unfolding rejected
length-rejected message [] = refl
length-rejected message (task ∷ ts) = ap suc (length-rejected message ts)

-- A run that is over: its state is final, it has an end and one entry for each task.
abbrev pub IsOver : ℕ → List Task → Run → Type 0
IsOver now ts run =
    (run.state.life_cycle_state ≡ terminated)
    × (is_some run.state.result_state ≡ true)
    × (run.end_time ≡ some now)
    × (length run.tasks ≡ length ts)

finish-IsOver :
    (now : ℕ) (cancelled unschedulable : Bool) (infos : List RunTaskInfo) (ts : List Task)
    (run : Run)
    → length infos ≡ length ts
    → IsOver now ts (finish_run now cancelled unschedulable infos run)
unfolding finish_run final_state
finish-IsOver now cancelled unschedulable infos ts run l = ground arith

reject-IsOver :
    (now : ℕ) (message : String) (ts : List Task) (run : Run)
    → IsOver now ts (reject_run now message ts run)
unfolding reject_run final_state
reject-IsOver now message ts run = (refl, refl, refl, length-rejected message ts)

-- Where the execution of each task answers, the execution of a run ends, whatever its task graph, the
-- outcomes of its tasks and the cancellations: with a run that is terminated, has a result state and
-- an end time, and lists one entry for each task.
pub execute_run_tasks_ends :
    (perform : Task → RunTaskInfo) (cancelled : ℕ → Bool) (now : ℕ) (cancel_requested : Bool)
    (ts : List Task) (run : Run)
    → (final : Run) × (execute_run_tasks perform cancelled now cancel_requested ts run ≡ some final)
      × IsOver now ts final
unfolding execute_run_tasks
execute_run_tasks_ends perform cancelled now cancel_requested ts run =
    elim (Option-cases (task_graph_error ts)) [
      | inr (message, e) ↦ (
        reject_run now message ts run,
        rw (e, execute_run_tasks) refl,
        reject-IsOver now message ts run,
      )
      | inl e ↦
          let (results, unschedulable, done, covers) = run_tasks_total perform cancelled ts in
          let (infos, collected, l) = collect_total ts results covers in
          (
            finish_run now cancel_requested unschedulable infos run,
            rw (e, execute_run_tasks) (rw done (rw collected refl)),
            finish-IsOver now cancel_requested unschedulable infos ts run l,
          )
    ]
