-- ===== src/Jobs/Runs.antt =====
-- The handlers on runs.
pub mod Tokens
use minilake.Prelude.{
  ℕ, String, ◌<>◌, Bool, true, false, not, ◌&&◌, Option, none, some, List, [], ◌∷◌, ◌++◌, ◌==◌,
  nat_eq, string_eq, option_eq, is_empty, get_or, nonempty, if◌then◌else◌,
}
use minilake.Prelude.Dict.{Dict, get, has, put, remove}
use minilake.Json.{str}
use minilake.Text.{show}
use minilake.Errors.{
  Exec, Exception, pure, raise, gets, lift, or_raise, ◌>>=◌, ◌>>◌, modify, raise_if, error,
}
use minilake.Jobs.Model.{
  State, Run, Task, RunState, RunLifeCycleState, Setting, other, pending, running, terminating,
  terminated, skipped, internal_error,
}
use minilake.Jobs.Graph.{validate_task_graph}
use minilake.Jobs.Crud.{tasks_from_settings, take_run_id, job_not_found}

-- `f"{key}={value}"` for the entries of an optional dict
unfoldable pub assignments : List (String × String) → List String
assignments [] = []
assignments ((key, value) ∷ entries) = (key <> "=" <> value) ∷ assignments entries

abbrev pub Params : Type 0
Params = List (String × String)

all_assignments : List (Option Params) → List String
all_assignments [] = []
all_assignments (d ∷ ds) = assignments (get_or d []) ++ all_assignments ds

-- `_params_to_argv`
unfoldable pub params_to_argv :
    Option (List String) → Option Params → Option (List String) → List (Option Params) → List String
unfolding assignments all_assignments
params_to_argv static_list static_dict runtime_list runtime_dicts =
    get_or static_list []
    ++ (assignments (get_or static_dict [])
        ++ (get_or runtime_list [] ++ all_assignments runtime_dicts))

abbrev pub run_not_found : ℕ → Exception
run_not_found id = error "NOT_FOUND" ("Run " <> show id <> " not found") 404

abbrev pub pending_state : RunState
pending_state = record { life_cycle_state = pending; result_state = none; state_message = none }

-- The record of a new run, and the background task that will execute it.
unfoldable pub begin_run : Run → List String → Exec State (Unit {0})
begin_run run argv = modify λ s. record s {
  runs = put s.runs run.run_id run;
  started = s.started ++ (run.run_id, argv) ∷ [];
}

-- `run_now` where no earlier run answers.
unfoldable pub trigger : ℕ → ℕ → Option String → List String → Exec State ℕ
unfolding begin_run take_run_id
trigger now job_id token argv = do
  jobs ← gets (λ s. s.jobs)
  job ← or_raise (get jobs job_id) (job_not_found job_id)
  lift (validate_task_graph (tasks_from_settings job.settings))
  run_id ← take_run_id
  begin_run
      (record {
        run_id = run_id;
        job_id = some job_id;
        run_name = get job.settings "name";
        state = pending_state;
        start_time = now;
        end_time = none;
        tasks = [];
        cancel_requested = false;
        own_tasks = none;
      })
      argv
  modify λ s. record s {
    run_now_tokens = elim token [
      | none ↦ s.run_now_tokens
      | some t ↦ put s.run_now_tokens t run_id
    ];
  }
  pure run_id

-- The run that an idempotency token stands for.
abbrev pub known_run : Dict String ℕ → Option String → Option ℕ
known_run tokens none = none
known_run tokens (some token) = get tokens token

unfoldable pub run_now :
    ℕ → ℕ → Option String → Option (List String) → Option Params → Option Params → Exec State ℕ
run_now now job_id token python_params notebook_params job_parameters = do
  tokens ← gets (λ s. s.run_now_tokens)
  runs ← gets (λ s. s.runs)
  elim (known_run tokens token) [
    | some run_id ↦
        if has runs run_id
        then pure run_id
        else raise
            (error "NOT_FOUND" ("Run " <> show run_id <> " for idempotency token was deleted") 404)
    | none ↦
        trigger now job_id token
          (params_to_argv none none python_params (notebook_params ∷ job_parameters ∷ []))
  ]

-- A token counts in `submit_run` unless it is absent or empty.
abbrev pub used_token : Option String → Option String
used_token none = none
used_token (some t) = if nonempty t then some t else none

abbrev pub run_label : Option String → ℕ → Setting
run_label name run_id =
    other (str (elim (used_token name) [ some n ↦ n | none ↦ "submit-" <> show run_id ]))

unfoldable pub submit_new : ℕ → List Task → Option String → Option String → Exec State ℕ
unfolding begin_run take_run_id
submit_new now tasks run_name token = do
  lift (validate_task_graph tasks)
  run_id ← take_run_id
  begin_run
      (record {
        run_id = run_id;
        job_id = none;
        run_name = some (run_label run_name run_id);
        state = pending_state;
        start_time = now;
        end_time = none;
        tasks = [];
        cancel_requested = false;
        own_tasks = some tasks;
      })
      []
  modify λ s. record s {
    submit_tokens = elim token [ none ↦ s.submit_tokens | some t ↦ put s.submit_tokens t run_id ];
  }
  pure run_id

unfoldable pub submit_run : ℕ → Option (List Task) → Option String → Option String → Exec State ℕ
submit_run now tasks run_name token = do
  raise_if (is_empty (get_or tasks []))
      (error "INVALID_PARAMETER_VALUE" "tasks is required and must not be empty" 400)
  tokens ← gets (λ s. s.submit_tokens)
  elim (known_run tokens (used_token token)) [
    | some run_id ↦ pure run_id
    | none ↦ submit_new now (get_or tasks []) run_name (used_token token)
  ]

unfoldable pub get_run : ℕ → Exec State Run
get_run id = do runs ← gets (λ s. s.runs); or_raise (get runs id) (run_not_found id)

unfoldable pub cancel_run : ℕ → Exec State (Unit {0})
unfolding get_run
cancel_run id = do
  run ← get_run id
  modify (λ s. record s { runs = put s.runs id (record run { cancel_requested = true }) })

abbrev pub still_active : RunLifeCycleState → Bool
still_active pending = true
still_active running = true
still_active terminating = true
still_active _ = false

unfoldable pub delete_run : ℕ → Exec State (Unit {0})
unfolding get_run
delete_run id = do
  run ← get_run id
  raise_if (still_active run.state.life_cycle_state)
      (error "INVALID_STATE" ("Run " <> show id <> " is still active") 400)
  modify (λ s. record s { runs = remove s.runs id })

-- `list_runs`
abbrev pub is_active : RunLifeCycleState → Bool
is_active terminated = false
is_active skipped = false
is_active internal_error = false
is_active _ = true

unfoldable pub listed : Option ℕ → Bool → Bool → Run → Bool
listed job_id active_only completed_only run =
    (elim job_id [ none ↦ true | some j ↦ run.job_id == some j ])
    && (not (active_only && not (is_active run.state.life_cycle_state))
        && not (completed_only && is_active run.state.life_cycle_state))

unfoldable pub list_runs : Option ℕ → Bool → Bool → List Run → List Run
unfolding listed
list_runs job_id active_only completed_only [] = []
list_runs job_id active_only completed_only (run ∷ runs) =
    let rest = list_runs job_id active_only completed_only runs in
    if listed job_id active_only completed_only run then run ∷ rest else rest
