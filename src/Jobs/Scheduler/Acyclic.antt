-- ===== src/Jobs/Scheduler/Acyclic.antt =====
-- The scheduling loop on a task graph without a cycle.
use minilake.Prelude.{
  ℕ, zero, suc, ◌≤◌, ◌<◌, String, ◌≡◌, refl, sym, ap, ◌⊎◌, inl, inr, subst, Bool, true, false, some,
  List, [], ◌∷◌, arith, string_eq, select, all, length, is_empty, Bool-cases, All,
}
use minilake.Prelude.Dict.{has}
use minilake.Jobs.Model.{Task, RunTaskInfo}
use minilake.Jobs.Scheduler.{Results, depends, gather, is_ready, waits, schedule, run_tasks}
use minilake.Jobs.Scheduler.Coverage.{KeyOf, Accounted, round-Accounted, fewer}

-- One of the tasks.
abbrev OneOf : Task → List Task → Type 0
OneOf task [] = ⊥
OneOf task (t ∷ ts) = (t ≡ task) ⊎ OneOf task ts

All-OneOf {κ} :
    (P : Task → Type κ) (ts : List Task) (task : Task) → All P ts → OneOf task ts → P task
All-OneOf P [] task hs h = elim h [ ]
All-OneOf P (t ∷ ts) task (p, ps) (inl same) = subst P same p
All-OneOf P (t ∷ ts) task (p, ps) (inr h) = All-OneOf P ts task ps h

All-map {ℓ κ λ'} :
    {A : Type ℓ} {P : A → Type κ} {Q : A → Type λ'}
    → ((a : A) → P a → Q a)
    → (xs : List A) → All P xs
    → All Q xs
All-map f [] _ = tt
All-map f (x ∷ xs) (p, ps) = (f x p, All-map f xs ps)

All-select {ℓ κ} :
    {A : Type ℓ} (P : A → Type κ) (p : A → Bool) (xs : List A) → All P xs → All P (select p xs)
All-select P p [] _ = tt
All-select P p (x ∷ xs) (h, hs) = elim (Bool-cases (p x)) [
  | inl e ↦ rw e (h, All-select P p xs hs)
  | inr e ↦ rw e (All-select P p xs hs)
]

KeyOf-OneOf :
    (k : String) (ts : List Task) → KeyOf k ts → (task : Task) × OneOf task ts × (task.task_key ≡ k)
KeyOf-OneOf k [] h = elim h [ ]
KeyOf-OneOf k (t ∷ ts) (inl e) = (t, inl refl, e)
KeyOf-OneOf k (t ∷ ts) (inr h) =
    let (task, member, same) = KeyOf-OneOf k ts h in (task, inr member, same)

nonempty-select :
    (p : Task → Bool) (ts : List Task) (task : Task)
    → OneOf task ts
    → p task ≡ true
    → is_empty (select p ts) ≡ false
nonempty-select p [] task h yes_p = elim h [ ]
nonempty-select p (t ∷ ts) task (inl same) yes_p =
    rw (subst (λ x. p x ≡ true) (sym same) yes_p) refl
nonempty-select p (t ∷ ts) task (inr h) yes_p =
    let rest = nonempty-select p ts task h yes_p in ground (arith, rest)

-- A dependency that has no result yet.
missing {κ} :
    (P : String → Type κ) (results : Results) (ds : List String)
    → All P ds
    → all (has results) ds ≡ false
    → (d : String) × P d × (has results d ≡ false)
missing P results [] ps h = absurd (cc h)
missing P results (d ∷ ds) (p, ps) h = elim (Bool-cases (has results d)) [
  | inl there ↦ missing P results ds ps (rw there at h)
  | inr gone ↦ (d, p, gone)
]

-- Every dependency of each task is in sight and comes before the task in the ranking.
abbrev Before : (String → ℕ) → List Task → Results → Task → Type 0
Before rank pending results task =
    All (λ d. Accounted d pending results × (rank d < rank task.task_key)) (depends task)

-- The tasks' dependencies are tasks of a lower rank: the graph has no cycle.
abbrev pub IsRanked : (String → ℕ) → List Task → Type 0
IsRanked rank ts = All (λ t. All (λ d. KeyOf d ts × (rank d < rank t.task_key)) (depends t)) ts

module _ (perform : Task → RunTaskInfo) (rank : String → ℕ) where
  -- Below any pending task there is one that is ready.
  some_ready :
      (n : ℕ) (pending : List Task) (results : Results) (task : Task)
      → All (Before rank pending results) pending
      → OneOf task pending
      → rank task.task_key < n
      → is_empty (select (is_ready perform results) pending) ≡ false
  unfolding is_ready
  some_ready zero pending results task befores member bound = absurd (omega (arith, bound))
  some_ready (suc n) pending results task befores member bound =
      elim (Bool-cases (all (has results) (depends task))) [
        | inl now ↦ nonempty-select (is_ready perform results) pending task member now
        | inr later ↦
            let (d, (known, lower), gone) =
              missing (λ d. Accounted d pending results × (rank d < rank task.task_key)) results
                (depends task) (All-OneOf (Before rank pending results) pending task befores member)
                later in
            elim known [
              | inr there ↦ absurd (cc (there, gone))
              | inl waiting ↦
                  let (other, member', same) = KeyOf-OneOf d pending waiting in
                  some_ready n pending results other befores member'
                    (omega (arith, ap rank same, lower, bound))
            ]
      ]

  schedule_acyclic :
      (cancelled : ℕ → Bool) (fuel : ℕ) (pending : List Task) (results : Results)
      → length pending ≤ fuel
      → All (Before rank pending results) pending
      → (final : Results) × (schedule perform cancelled fuel pending results ≡ some (final, false))
  unfolding schedule
  schedule_acyclic cancelled fuel [] results bound befores = (results, refl)
  schedule_acyclic cancelled zero (task ∷ pending) results bound befores = absurd (omega arith)
  schedule_acyclic cancelled (suc fuel) (task ∷ pending) results bound befores =
      let all_tasks = task ∷ pending in
      let ready =
        some_ready (suc (rank task.task_key)) all_tasks results task befores (inl refl)
          (omega arith) in
      let results' =
        gather perform (cancelled fuel) results (select (is_ready perform results) all_tasks)
          results in
      let (final, done) =
        schedule_acyclic cancelled fuel (select (waits perform results) all_tasks) results'
          (fewer (is_ready perform results) all_tasks fuel ready bound)
          (All-map
            (λ t before.
              All-map
                (λ d (known, lower).
                  (round-Accounted perform d (cancelled fuel) all_tasks results known, lower))
                (depends t) before)
            (select (waits perform results) all_tasks)
            (All-select (Before rank all_tasks results) (waits perform results) all_tasks
              befores)) in
      (final, rw ready done)

  -- On a task graph without a cycle, whatever the outcomes and the cancellations, the loop never finds
  -- a round without a ready task: no task is left as unresolvable and `unschedulable` stays false. A
  -- graph has no cycle here if each dependency is the key of one of the tasks and has a lower rank
  -- than the task that waits for it, for some ranking.
  pub run_tasks_acyclic :
      (cancelled : ℕ → Bool) (ts : List Task)
      → IsRanked rank ts
      → (final : Results) × (run_tasks perform cancelled ts ≡ some (final, false))
  unfolding run_tasks
  run_tasks_acyclic cancelled ts ranked =
      schedule_acyclic cancelled (length ts) ts [] (omega arith) (
        All-map (λ t before. All-map (λ d (known, lower). (inl known, lower)) (depends t) before) ts
          ranked)
