-- ===== src/Jobs/Tests.antt =====
-- Jobs and runs at concrete inputs.
use minilake.Jobs.Graph.Accepted.{run_tasks-validate_task_graph, task_graph_error-IsRanked}
use minilake.Prelude.{
  ◌↔◌, All, ℕ, String, ◌≡◌, refl, Bool, true, false, none, some, List, [], ◌∷◌, ◌==◌, arith,
  if◌then◌else◌, inl, inr, nat_eq, string_eq,
}
use minilake.Prelude.Dict.{get, has, put}
use minilake.Json.{null}
use minilake.Errors.{ok}
use minilake.Jobs.Model.{success, State, Run, Task, RunTaskInfo, tasks, terminated, failed, initial}
use minilake.Jobs.Graph.{
  task_graph_error, validate_task_graph, distinct, dependencies, task_keys, repeated_key,
  first_unknown, unknown_dependency, dependencies_by_key, dependents_of, initially_ready, relax,
  visit, cycle_error,
}
use minilake.Jobs.Crud.{tasks_from_settings, take_run_id}
use minilake.Jobs.Events.{Event, create, trigger_run, cancel, drop_run, run}
use minilake.Jobs.Scheduler.{run_tasks, state_info, Results}
use minilake.Jobs.Scheduler.Coverage.{KeyOf, run_tasks_total}
use minilake.Jobs.Scheduler.{schedule, gather, run_one, is_ready, run_if_satisfied, found_results}
use minilake.Jobs.Scheduler.Acyclic.{IsRanked, run_tasks_acyclic}
use minilake.Jobs.Execution.Success.{Unfailed, execute_run_tasks_succeeds}
use minilake.Jobs.Execution.{collect, finish_run, final_state, execute_run_tasks}
use minilake.Jobs.Execution.Ends.{IsOver, execute_run_tasks_ends}
use minilake.Jobs.Runs.{pending_state, run_now, trigger, begin_run}
use minilake.Jobs.Runs.Tokens.{run_now_twice}
use minilake.Jobs.Stored.{IsSound}
use minilake.Jobs.Stored.Requests.{run-IsSound, initial-IsSound}

abbrev task : String → List String → Task
task key deps = record { task_key = key; depends_on = some deps; run_if = none; body = null }

abbrev diamond : List Task
diamond = task "a" [] ∷ task "b" ("a" ∷ []) ∷ task "c" ("a" ∷ []) ∷ task "d" ("b" ∷ "c" ∷ []) ∷ []

abbrev looped : List Task
looped = task "a" ("b" ∷ []) ∷ task "b" ("a" ∷ []) ∷ []

task_graph_error-diamond : task_graph_error diamond ≡ none
unfolding task_graph_error distinct dependencies task_keys repeated_key first_unknown
    unknown_dependency dependencies_by_key dependents_of initially_ready relax visit cycle_error get
    put string_eq
task_graph_error-diamond = refl

task_graph_error-looped : task_graph_error looped ≡ some "Task dependencies contain a cycle."
unfolding task_graph_error distinct dependencies task_keys repeated_key first_unknown
    unknown_dependency dependencies_by_key dependents_of initially_ready relax visit cycle_error get
    put string_eq
task_graph_error-looped = refl

-- The place of each task of the diamond in its order.
abbrev diamond_rank : String → ℕ
diamond_rank k = if k == "a" then 0 else if k == "d" then 2 else 1

diamond-IsRanked : IsRanked diamond_rank diamond
unfolding string_eq
diamond-IsRanked = (
  tt,
  (
    ((inl refl, omega arith), tt),
    (
      ((inl refl, omega arith), tt),
      (((inr (inl refl), omega arith), ((inr (inr (inl refl)), omega arith), tt)), tt),
    ),
  ),
)

-- Every task fails.
abbrev failing : Task → RunTaskInfo
failing t = state_info t.task_key terminated (some failed) none

abbrev never : ℕ → Bool
never n = false

run_tasks_total_example :
    (final : Results) × (unschedulable : Bool) × (run_tasks failing never looped
      ≡ some (final, unschedulable))
    × ((k : String) → KeyOf k looped → has final k ≡ true)
run_tasks_total_example = run_tasks_total failing never looped

run_tasks_acyclic_example :
    (final : Results) × (run_tasks failing never diamond ≡ some (final, false))
run_tasks_acyclic_example = run_tasks_acyclic failing diamond_rank never diamond diamond-IsRanked

accepted : validate_task_graph diamond ≡ ok tt
unfolding validate_task_graph task_graph_error repeated_key unknown_dependency first_unknown
    dependencies distinct task_keys cycle_error visit relax dependencies_by_key initially_ready
    dependents_of get put string_eq
accepted = refl

run_tasks-validate_task_graph_example :
    (final : Results) × (run_tasks failing never diamond ≡ some (final, false))
run_tasks-validate_task_graph_example =
    run_tasks-validate_task_graph failing never diamond tt accepted

task_graph_error-IsRanked_example : (rank : String → ℕ) × IsRanked rank diamond
unfolding task_graph_error repeated_key unknown_dependency first_unknown dependencies distinct
    task_keys cycle_error visit relax dependencies_by_key initially_ready dependents_of get put
    string_eq
task_graph_error-IsRanked_example = task_graph_error-IsRanked diamond refl

abbrev new_run : Run
new_run = record {
  run_id = 1;
  job_id = none;
  run_name = none;
  state = pending_state;
  start_time = 4;
  end_time = none;
  tasks = [];
  cancel_requested = false;
  own_tasks = some diamond;
}

execute_run_tasks_ends_example :
    (final : Run) × (execute_run_tasks failing never 9 false diamond new_run ≡ some final)
    × IsOver 9 diamond final
execute_run_tasks_ends_example = execute_run_tasks_ends failing never 9 false diamond new_run

abbrev requests : List Event
requests =
    create 3 (("tasks", tasks diamond) ∷ [])
    ∷ create 4 (("tasks", tasks looped) ∷ [])
    ∷ trigger_run 5 1 (some "key") none none none
    ∷ cancel 1
    ∷ drop_run 1
    ∷ []

run-IsSound_example : IsSound (run requests initial)
run-IsSound_example = run-IsSound requests initial initial-IsSound

-- A state with one job, which has one task.
abbrev one_job : State
one_job = record initial {
  jobs =
      (
        1,
        record {
          job_id = 1;
          created_time = 3;
          creator_user_name = "minilake-user";
          settings = ("tasks", tasks (task "a" [] ∷ [])) ∷ [];
        },
      )
      ∷ [];
}

run_now_twice_example :
    let s' = (run_now 5 1 (some "key") none none none one_job).1 in
    run_now 6 2 (some "key") none none none s' ≡ (ok 1, s')
unfolding run_now trigger begin_run take_run_id tasks_from_settings validate_task_graph
    task_graph_error distinct dependencies task_keys repeated_key first_unknown unknown_dependency
    dependencies_by_key dependents_of initially_ready relax visit cycle_error get put string_eq
    nat_eq
run_now_twice_example = run_now_twice 5 1 "key" none none none one_job 1 refl 6 2 none none none

-- Every task succeeds.
abbrev passing : Task → RunTaskInfo
passing t = state_info t.task_key terminated (some success) none

abbrev one_task : List Task
one_task = task "a" [] ∷ []

abbrev won : Run
won = record new_run {
  tasks = state_info "a" terminated (some success) none ∷ [];
  end_time = some 9;
  state = record {
    life_cycle_state = terminated;
    result_state = some success;
    state_message = none;
  };
}

execute_run_tasks_succeeds_example :
    (won.state.result_state ≡ some success)
    ↔ ((task_graph_error one_task ≡ none) × ((false ≡ false) × All Unfailed won.tasks))
unfolding execute_run_tasks collect finish_run final_state run_tasks schedule gather run_one
    is_ready run_if_satisfied found_results task_graph_error distinct dependencies task_keys
    repeated_key first_unknown unknown_dependency dependencies_by_key dependents_of initially_ready
    relax visit cycle_error get put string_eq
execute_run_tasks_succeeds_example =
    execute_run_tasks_succeeds passing never 9 false one_task new_run won refl
