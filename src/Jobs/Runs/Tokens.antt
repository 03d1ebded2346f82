-- ===== src/Jobs/Runs/Tokens.antt =====
-- The idempotency tokens of `run_now`.
use minilake.Prelude.{
  ℕ, String, ◌≡◌, inl, inr, refl, true, false, Option, none, some, List, [], ◌∷◌, arith, nat_eq,
  string_eq, Option-cases, if_pos,
}
use minilake.Prelude.Dict.{get, has, put, get-put_text, get-put_nat}
use minilake.Errors.{ok}
use minilake.Jobs.Model.{State, Job, Run}
use minilake.Jobs.Crud.{take_run_id}
use minilake.Jobs.Runs.{Params, pending_state, begin_run, trigger, run_now, params_to_argv}

-- The token stands for a run that is stored.
abbrev pub Remembers : State → String → ℕ → Type 0
Remembers s t r = (get s.run_now_tokens t ≡ some r) × (has s.runs r ≡ true)

run_now-remembered :
    (s : State) (t : String) (r : ℕ)
    → Remembers s t r
    → (now id : ℕ) (p : Option (List String)) (n j : Option Params)
    → run_now now id (some t) p n j s ≡ (ok r, s)
unfolding run_now
run_now-remembered s t r (known, stored) now id p n j = ground (arith, known, stored)

run_now-new :
    (s : State) (t : String)
    → get s.run_now_tokens t ≡ none
    → (now id : ℕ) (p : Option (List String)) (n j : Option Params)
    → run_now now id (some t) p n j s
      ≡ trigger now id (some t) (params_to_argv none none p (n ∷ j ∷ [])) s
unfolding run_now
run_now-new s t unknown now id p n j = ground (arith, unknown)

run_now-gone :
    (s : State) (t : String) (r q : ℕ)
    → get s.run_now_tokens t ≡ some q
    → (now id : ℕ) (p : Option (List String)) (n j : Option Params)
    → (run_now now id (some t) p n j s).0 ≡ ok r
    → Remembers (run_now now id (some t) p n j s).1 t r
unfolding run_now
run_now-gone s t r q known now id p n j answered = ground (arith, known)

-- What a trigger that answers has written.
trigger-ok :
    (now id : ℕ) (t : String) (argv : List String) (s : State) (r : ℕ)
    → (trigger now id (some t) argv s).0 ≡ ok r
    → (run : Run) × ((trigger now id (some t) argv s).1.run_now_tokens ≡ put s.run_now_tokens t r)
      × ((trigger now id (some t) argv s).1.runs ≡ put s.runs r run)
unfolding trigger begin_run take_run_id
trigger-ok now id t argv s r answered = elim (Option-cases (get s.jobs id)) [
  | inl e ↦ absurd (ground (arith, e))
  | inr (job, e) ↦ (triggered_run now id job r, ground (arith, e), ground (arith, e))
]
  where
    triggered_run : ℕ → ℕ → Job → ℕ → Run
    triggered_run now id job run_id = record {
      run_id = run_id;
      job_id = some id;
      run_name = get job.settings "name";
      state = pending_state;
      start_time = now;
      end_time = none;
      tasks = [];
      cancel_requested = false;
      own_tasks = none;
    }

trigger-Remembers :
    (now id : ℕ) (t : String) (argv : List String) (s : State) (r : ℕ)
    → (trigger now id (some t) argv s).0 ≡ ok r
    → Remembers (trigger now id (some t) argv s).1 t r
trigger-Remembers now id t argv s r answered =
    let (run, tokens, runs) = trigger-ok now id t argv s r answered in
    (rw (tokens, get-put_text, if_pos _ refl) refl, rw (runs, get-put_nat, if_pos _ refl) refl)

run_now-Remembers :
    (now id : ℕ) (t : String) (p : Option (List String)) (n j : Option Params) (s : State) (r : ℕ)
    → (run_now now id (some t) p n j s).0 ≡ ok r
    → Remembers (run_now now id (some t) p n j s).1 t r
run_now-Remembers now id t p n j s r answered = elim (Option-cases (get s.run_now_tokens t)) [
  | inl e ↦
      let same = run_now-new s t e now id p n j in
      rw same (
        trigger-Remembers now id t (params_to_argv none none p (n ∷ j ∷ [])) s r
          (rw same at answered))
  | inr (q, e) ↦ run_now-gone s t r q e now id p n j answered
]

-- Once `run_now` has answered a request that carries an idempotency token with a run, the next
-- request, if it carries the same token, is answered with that run and changes nothing, whatever
-- else it asks for.
pub run_now_twice :
    (now id : ℕ) (t : String) (p : Option (List String)) (n j : Option Params) (s : State) (r : ℕ)
    → (run_now now id (some t) p n j s).0 ≡ ok r
    → (later other : ℕ) (p' : Option (List String)) (n' j' : Option Params)
    → let s' = (run_now now id (some t) p n j s).1 in
      run_now later other (some t) p' n' j' s' ≡ (ok r, s')
run_now_twice now id t p n j s r answered later other p' n' j' =
    run_now-remembered (run_now now id (some t) p n j s).1 t r
      (run_now-Remembers now id t p n j s r answered) later other p' n' j'
