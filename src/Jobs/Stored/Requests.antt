-- ===== src/Jobs/Stored/Requests.antt =====
-- The stored jobs and runs over every sequence of requests.
use minilake.Prelude.{
  ℕ, String, ◌≡◌, ◌⊎◌, inl, inr, refl, false, Option, none, some, List, [], ◌∷◌, arith, nat_eq,
  string_eq, Option-cases, get_or,
}
use minilake.Prelude.Dict.{Dict, get, put}
use minilake.Jobs.Model.{State, Job, Run, Task, initial}
use minilake.Jobs.Crud.{tasks_from_settings, take_run_id, merged}
use minilake.Jobs.Runs.{
  Params, begin_run, trigger, run_now, submit_new, submit_run, known_run, used_token,
  params_to_argv, pending_state, run_label,
}
use minilake.Jobs.Events.{
  Event, create, update, reset, drop, trigger_run, submit, cancel, drop_run, step, run,
}
use minilake.Jobs.Stored.Runs.{cancel-IsSound, drop_run-IsSound, NewRun, NewRun-IsSound}
use minilake.Jobs.Stored.{
  IsSound, validate_cases, create-IsSound, delete-IsSound, replacing-IsSound, update_job-replaces,
  reset_job-replaces,
}

-- The run that `run_now` creates.
abbrev job_run : ℕ → ℕ → Job → ℕ → Run
job_run now id job run_id = record {
  run_id = run_id;
  job_id = some id;
  run_name = get job.settings "name";
  state = pending_state;
  start_time = now;
  end_time = none;
  tasks = [];
  cancel_requested = false;
  own_tasks = none;
}

abbrev noted : Dict String ℕ → Option String → ℕ → Dict String ℕ
noted tokens token run_id = elim token [ none ↦ tokens | some t ↦ put tokens t run_id ]

-- The run that `submit_run` creates.
abbrev submitted_run : ℕ → List Task → Option String → ℕ → Run
submitted_run now ts name run_id = record {
  run_id = run_id;
  job_id = none;
  run_name = some (run_label name run_id);
  state = pending_state;
  start_time = now;
  end_time = none;
  tasks = [];
  cancel_requested = false;
  own_tasks = some ts;
}

trigger-NewRun :
    (now id : ℕ) (token : Option String) (argv : List String) (s : State)
    → NewRun s (trigger now id token argv s).1
unfolding trigger begin_run take_run_id
trigger-NewRun now id token argv s = elim (Option-cases (get s.jobs id)) [
  | inl e ↦ inl (rw e refl)
  | inr (job, e) ↦ elim (validate_cases (tasks_from_settings job.settings)) [
    | inl (v, good) ↦ inr (
      job_run now id job s.next_run_id,
      argv,
      noted s.run_now_tokens token s.next_run_id,
      s.submit_tokens,
      refl,
      rw e (rw v refl),
    )
    | inr (x, v) ↦ inl (rw e (rw v refl))
  ]
]

-- `run_now` with a token that it knows, and otherwise.
run_now-known :
    (now id : ℕ) (token : Option String) (p : Option (List String)) (n j : Option Params)
    (s : State) (r : ℕ)
    → known_run s.run_now_tokens token ≡ some r
    → (run_now now id token p n j s).1 ≡ s
unfolding run_now
run_now-known now id token p n j s r e = ground (arith, e)

run_now-new :
    (now id : ℕ) (token : Option String) (p : Option (List String)) (n j : Option Params)
    (s : State)
    → known_run s.run_now_tokens token ≡ none
    → run_now now id token p n j s
      ≡ trigger now id token (params_to_argv none none p (n ∷ j ∷ [])) s
unfolding run_now
run_now-new now id token p n j s e = ground (arith, e)

run_now-IsSound :
    (now id : ℕ) (token : Option String) (p : Option (List String)) (n j : Option Params)
    (s : State)
    → IsSound s
    → IsSound (run_now now id token p n j s).1
run_now-IsSound now id token p n j s h = elim (Option-cases (known_run s.run_now_tokens token)) [
  | inl e ↦ rw (run_now-new now id token p n j s e) (
      NewRun-IsSound s _ (trigger-NewRun now id token (params_to_argv none none p (n ∷ j ∷ [])) s)
        h)
  | inr (r, e) ↦ rw (run_now-known now id token p n j s r e) h
]

submit_new-NewRun :
    (now : ℕ) (ts : List Task) (name token : Option String) (s : State)
    → NewRun s (submit_new now ts name token s).1
unfolding submit_new begin_run take_run_id
submit_new-NewRun now ts name token s = elim (validate_cases ts) [
  | inl (v, good) ↦ inr (
    submitted_run now ts name s.next_run_id,
    [],
    s.run_now_tokens,
    noted s.submit_tokens token s.next_run_id,
    refl,
    rw v refl,
  )
  | inr (x, v) ↦ inl (rw v refl)
]

submit_run-cases :
    (now : ℕ) (tasks : Option (List Task)) (name token : Option String) (s : State)
    → ((submit_run now tasks name token s).1 ≡ s)
      ⊎ ((submit_run now tasks name token s).1
          ≡ (submit_new now (get_or tasks []) name (used_token token) s).1)
unfolding submit_run
submit_run-cases now tasks name token s = ground arith

submit-IsSound :
    (now : ℕ) (tasks : Option (List Task)) (name token : Option String) (s : State)
    → IsSound s
    → IsSound (submit_run now tasks name token s).1
submit-IsSound now tasks name token s h = elim (submit_run-cases now tasks name token s) [
  | inl e ↦ rw e h
  | inr e ↦
      rw e
        (NewRun-IsSound s _ (submit_new-NewRun now (get_or tasks []) name (used_token token) s) h)
]

step-IsSound : (e : Event) (s : State) → IsSound s → IsSound (step e s)
unfolding step
step-IsSound (create now req) s h = create-IsSound now req s h
step-IsSound (update id sent fields) s h =
    rw update_job-replaces (replacing-IsSound id (λ job. merged job.settings sent fields) s h)
step-IsSound (reset id new_settings) s h =
    rw reset_job-replaces (replacing-IsSound id (λ _. new_settings) s h)
step-IsSound (drop id) s h = delete-IsSound id s h
step-IsSound (trigger_run now id token p n j) s h = run_now-IsSound now id token p n j s h
step-IsSound (submit now ts name token) s h = submit-IsSound now ts name token s h
step-IsSound (cancel id) s h = cancel-IsSound id s h
step-IsSound (drop_run id) s h = drop_run-IsSound id s h

-- After any requests, from a state in which this holds (the initial one), every stored job has a
-- task graph in which `_task_graph_error` finds nothing, and every stored job and run has an id
-- below the next one, so that no new job or run takes the place of a stored one.
pub run-IsSound : (es : List Event) (s : State) → IsSound s → IsSound (run es s)
unfolding run
run-IsSound [] s h = h
run-IsSound (e ∷ es) s h = run-IsSound es (step e s) (step-IsSound e s h)

pub initial-IsSound : IsSound initial
unfolding get
initial-IsSound = record {
  graph = λ id job found. absurd (cc found);
  job_bound = λ id found. absurd (cc found);
  run_bound = λ id found. absurd (cc found);
}
