-- ===== src/Jobs/Execution/Success.antt =====
-- What a run that ends with SUCCESS has gone through.
use minilake.Prelude.{
  ℕ, String, ◌≡◌, ◌≢◌, ◌↔◌, ap, All, [], ◌∷◌, refl, sym, ◌∙◌, ◌⊎◌, inl, inr, Bool, false, none,
  some, List, arith, any, string_eq, Option-cases,
}
use mathlib.Core.Option.{some-injective}
use minilake.Jobs.Model.{Task, Run, RunState, RunTaskInfo, success, failed, timedout}
use minilake.Jobs.Graph.{task_graph_error}
use minilake.Jobs.Scheduler.{is_failure}
use minilake.Jobs.Scheduler.Acyclic.{run_tasks_acyclic}
use minilake.Jobs.Graph.Accepted.{task_graph_error-IsRanked}
use minilake.Jobs.Execution.{collect, reject_run, finish_run, final_state, execute_run_tasks}

-- An entry of a run whose result is neither FAILED nor TIMEDOUT.
abbrev pub Unfailed : RunTaskInfo → Type 0
Unfailed r =
    (st : RunState)
    → r.state ≡ some st
    → (st.result_state ≢ some failed) × (st.result_state ≢ some timedout)

Unfailed-is_failure : (r : RunTaskInfo) → Unfailed r → is_failure r ≡ false
Unfailed-is_failure r h = elim (Option-cases r.state) [
  | inl e ↦ ground (arith, e)
  | inr (st, e) ↦ ground (arith, e, (h st e).0, (h st e).1)
]

is_failure-Unfailed : (r : RunTaskInfo) → is_failure r ≡ false → Unfailed r
is_failure-Unfailed r h st e =
    (λ f. absurd (ground (arith, h, e, f)), λ t. absurd (ground (arith, h, e, t)))

any-All : (rs : List RunTaskInfo) → any is_failure rs ≡ false → All Unfailed rs
any-All [] h = tt
any-All (r ∷ rs) h = (is_failure-Unfailed r (ground (arith, h)), any-All rs (ground (arith, h)))

All-any : (rs : List RunTaskInfo) → All Unfailed rs → any is_failure rs ≡ false
All-any [] h = refl
All-any (r ∷ rs) (h, hs) = ground (arith, Unfailed-is_failure r h, All-any rs hs)

finish_run-success :
    (now : ℕ) (cancelled : Bool) (infos : List RunTaskInfo) (run : Run)
    → (finish_run now cancelled false infos run).state.result_state ≡ some success
    → (cancelled ≡ false) × (any is_failure infos ≡ false)
unfolding finish_run final_state
finish_run-success now cancelled infos run h = ground arith

finish_run-succeeds :
    (now : ℕ) (cancelled : Bool) (infos : List RunTaskInfo) (run : Run)
    → cancelled ≡ false
    → any is_failure infos ≡ false
    → (finish_run now cancelled false infos run).state.result_state ≡ some success
unfolding finish_run final_state
finish_run-succeeds now cancelled infos run c h = ground arith

finish_run_tasks :
    (now : ℕ) (cancelled : Bool) (infos : List RunTaskInfo) (run : Run)
    → (finish_run now cancelled false infos run).tasks ≡ infos
unfolding finish_run
finish_run_tasks now cancelled infos run = refl

reject_run-fails :
    (now : ℕ) (message : String) (ts : List Task) (run : Run)
    → (reject_run now message ts run).state.result_state ≡ some failed
unfolding reject_run final_state
reject_run-fails now message ts run = refl

-- The two ways in which an execution ends. The tasks of a graph without an error are never stuck.
execute_cases :
    (perform : Task → RunTaskInfo) (cancelled : ℕ → Bool) (now : ℕ) (cancel_requested : Bool)
    (ts : List Task) (run final : Run)
    → execute_run_tasks perform cancelled now cancel_requested ts run ≡ some final
    → ((task_graph_error ts ≢ none)
        × ((message : String) × (final ≡ reject_run now message ts run)))
      ⊎ (task_graph_error ts ≡ none)
        × (infos : List RunTaskInfo) × (final ≡ finish_run now cancel_requested false infos run)
unfolding execute_run_tasks
execute_cases perform cancelled now cancel_requested ts run final ends =
    elim (Option-cases (task_graph_error ts)) [
      | inr (message, e) ↦ inl (
        λ good. cc (e, good),
        (message, sym (some-injective _ _ (rw (e, execute_run_tasks) at ends))),
      )
      | inl e ↦
          let (rank, ranked) = task_graph_error-IsRanked ts e in
          let (results, done) = run_tasks_acyclic perform rank cancelled ts ranked in
          let ends' = rw (e, execute_run_tasks) at ends in
          let ends'' = rw done at ends' in
          elim (Option-cases (collect ts results)) [
            | inl gone ↦ absurd (cc (rw gone at ends''))
            | inr (infos, c) ↦ inr (e, infos, sym (some-injective _ _ (rw c at ends'')))
          ]
    ]

-- An execution of which this run is the outcome has the result SUCCESS exactly if its task graph has
-- no error, no cancellation was requested and no entry of the run has the result FAILED or TIMEDOUT.
pub execute_run_tasks_succeeds :
    (perform : Task → RunTaskInfo) (cancelled : ℕ → Bool) (now : ℕ) (cancel_requested : Bool)
    (ts : List Task) (run final : Run)
    → execute_run_tasks perform cancelled now cancel_requested ts run ≡ some final
    → (final.state.result_state ≡ some success)
      ↔ ((task_graph_error ts ≡ none) × ((cancel_requested ≡ false) × All Unfailed final.tasks))
execute_run_tasks_succeeds perform cancelled now cancel_requested ts run final ends =
    elim (execute_cases perform cancelled now cancel_requested ts run final ends) [
      | inl (wrong, (message, same)) ↦ (
        λ won. absurd (differ (sym (reject_run-fails now message ts run) ∙ (rw same at won))),
        λ (good, _). absurd (wrong good),
      )
      | inr (good, infos, same) ↦
          let tasks = ap (λ r. r.tasks) same ∙ finish_run_tasks now cancel_requested infos run in
          (
            λ won.
                let (c, f) = finish_run-success now cancel_requested infos run (rw same at won) in
                (good, (c, rw tasks (any-All infos f))),
            λ (_, (c, all)). rw same (
                finish_run-succeeds now cancel_requested infos run c
                  (All-any infos (rw tasks at all))),
          )
    ]
  where
    differ : some failed ≡ some success → ⊥
    differ h = cc h
