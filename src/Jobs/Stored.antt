-- ===== src/Jobs/Stored.antt =====
-- What every stored job and run should satisfy, and the handlers on jobs one by one.
pub mod Requests
pub mod Runs
use minilake.Prelude.{
  ℕ, zero, suc, ◌+◌, ◌≤◌, ◌<◌, String, ◌≡◌, ◌≢◌, ◌⊎◌, inl, inr, refl, sym, Bool, true, false, not,
  ◌&&◌, Option, none, some, List, [], ◌∷◌, ◌++◌, ◌==◌, arith, nat_eq, string_eq, Option-cases,
  Bool-cases, is_empty, get_or, if◌then◌else◌,
}
use minilake.Prelude.Dict.{Dict, get, has, put, remove, get-put_nat, get-remove_nat}
use minilake.Errors.{Exception, error, Result, ok, raised, Exec, ◌>>=◌}
use minilake.Jobs.Model.{State, Job, Run, Task, Settings, initial}
use minilake.Jobs.Graph.{task_graph_error, validate_task_graph}
use minilake.Jobs.Crud.{
  tasks_from_settings, take_job_id, take_run_id, create_job, get_job, put_settings, merged,
  update_job, reset_job, delete_job,
}
use minilake.Jobs.Runs.{
  Params, begin_run, trigger, run_now, submit_new, submit_run, get_run, cancel_run, delete_run,
  known_run, used_token, params_to_argv, pending_state, run_label, still_active,
}
use minilake.Jobs.Events.{
  Event, create, update, reset, drop, trigger_run, submit, cancel, drop_run, step, run,
}

-- Every stored job has a task graph without an error, and no id that is stored is given again.
pub record IsSound (s : State) : Type 0 where
  pub graph :
      (id : ℕ) (job : Job)
      → get s.jobs id ≡ some job
      → task_graph_error (tasks_from_settings job.settings) ≡ none
  pub job_bound : (id : ℕ) → has s.jobs id ≡ true → id < s.next_job_id
  pub run_bound : (id : ℕ) → has s.runs id ≡ true → id < s.next_run_id

-- A refused graph raises, an accepted one has no error.
pub validate_cases :
    (ts : List Task)
    → (validate_task_graph ts ≡ ok tt) × (task_graph_error ts ≡ none)
      ⊎ (x : Exception) × (validate_task_graph ts ≡ raised x)
unfolding validate_task_graph
validate_cases ts = elim (Option-cases (task_graph_error ts)) [
  | inl e ↦ inl (rw (e, validate_task_graph) refl, e)
  | inr (m, e) ↦ inr (error "INVALID_PARAMETER_VALUE" m 400, rw (e, validate_task_graph) refl)
]

abbrev new_job : ℕ → Settings → State → Job
new_job now req s = record {
  job_id = s.next_job_id;
  created_time = now;
  creator_user_name = "minilake-user";
  settings = req;
}

add_job : Job → State → State
add_job job s = record s { jobs = put s.jobs s.next_job_id job; next_job_id = s.next_job_id + 1 }

add_job-IsSound :
    (job : Job) (s : State)
    → task_graph_error (tasks_from_settings job.settings) ≡ none
    → IsSound s
    → IsSound (add_job job s)
unfolding add_job
add_job-IsSound job s good h = record {
  graph = λ k j found. ground (arith, h.graph k j, get-put_nat s.jobs s.next_job_id job k);
  job_bound = λ k found. ground (arith, h.job_bound k, get-put_nat s.jobs s.next_job_id job k);
  run_bound = h.run_bound;
}

create_job-ok :
    (now : ℕ) (req : Settings) (s : State)
    → validate_task_graph (tasks_from_settings req) ≡ ok tt
    → (create_job now req s).1 ≡ add_job (new_job now req s) s
unfolding create_job take_job_id add_job
create_job-ok now req s h = rw h refl

create_job-raised :
    (now : ℕ) (req : Settings) (s : State) (x : Exception)
    → validate_task_graph (tasks_from_settings req) ≡ raised x
    → (create_job now req s).1 ≡ s
unfolding create_job
create_job-raised now req s x h = rw h refl

pub create-IsSound :
    (now : ℕ) (req : Settings) (s : State) → IsSound s → IsSound (create_job now req s).1
create-IsSound now req s h = elim (validate_cases (tasks_from_settings req)) [
  | inl (e, good) ↦ rw (create_job-ok now req s e) (add_job-IsSound (new_job now req s) s good h)
  | inr (x, e) ↦ rw (create_job-raised now req s x e) h
]

put_settings-IsSound :
    (id : ℕ) (job : Job) (settings : Settings) (s : State)
    → task_graph_error (tasks_from_settings settings) ≡ none
    → get s.jobs id ≡ some job
    → IsSound s
    → IsSound (put_settings id job settings s).1
unfolding put_settings
put_settings-IsSound id job settings s good known h = record {
  graph = λ k j found.
      ground (arith, h.graph k j, get-put_nat s.jobs id (record job { settings = settings }) k);
  job_bound = λ k found.
      ground (arith, h.job_bound k, get-put_nat s.jobs id (record job { settings = settings }) k);
  run_bound = h.run_bound;
}

replaced :
    (id : ℕ) (job : Job) (settings : Settings) (s : State)
    → get s.jobs id ≡ some job
    → IsSound s
    → IsSound (elim (validate_task_graph (tasks_from_settings settings)) [
      | ok _ ↦ (put_settings id job settings s).1
      | raised _ ↦ s
    ])
replaced id job settings s known h = elim (validate_cases (tasks_from_settings settings)) [
  | inl (e, good) ↦ rw e (put_settings-IsSound id job settings s good known h)
  | inr (x, e) ↦ rw e h
]

pub delete-IsSound : (id : ℕ) (s : State) → IsSound s → IsSound (delete_job id s).1
unfolding delete_job get_job
delete-IsSound id s h = record {
  graph = λ k j found. ground (arith, h.graph k j, get-remove_nat s.jobs id k);
  job_bound = λ k found. ground (arith, h.job_bound k, get-remove_nat s.jobs id k);
  run_bound = λ k found. ground (arith, h.run_bound k);
}

-- Each handler on a job that is there, and on one that is not.
pub replacing : Option Job → ℕ → (Job → Settings) → State → State
replacing none id settings s = s
replacing (some job) id settings s =
    elim (validate_task_graph (tasks_from_settings (settings job))) [
      | ok _ ↦ (put_settings id job (settings job) s).1
      | raised _ ↦ s
    ]

pub replacing-IsSound :
    (id : ℕ) (settings : Job → Settings) (s : State)
    → IsSound s
    → IsSound (replacing (get s.jobs id) id settings s)
unfolding replacing
replacing-IsSound id settings s h = elim (Option-cases (get s.jobs id)) [
  | inl e ↦ rw (e, replacing) h
  | inr (job, e) ↦ rw (e, replacing) (replaced id job (settings job) s e h)
]

pub update_job-replaces :
    (id : ℕ) (sent : Option Settings) (fields : List String) (s : State)
    → (update_job id sent fields s).1
      ≡ replacing (get s.jobs id) id (λ job. merged job.settings sent fields) s
unfolding update_job get_job put_settings replacing
update_job-replaces id sent fields s = ground arith

pub reset_job-replaces :
    (id : ℕ) (new_settings : Settings) (s : State)
    → (reset_job id new_settings s).1 ≡ replacing (get s.jobs id) id (λ _. new_settings) s
unfolding reset_job get_job put_settings replacing
reset_job-replaces id new_settings s = ground arith
