-- ===== src/Jobs/Scheduler/Coverage.antt =====
-- How the scheduling loop ends, and which tasks have a result then.
use minilake.Prelude.{
  ℕ, zero, suc, ◌+◌, ◌≤◌, String, ◌≡◌, refl, ◌⊎◌, inl, inr, Bool, true, false, not, some, List, [],
  ◌∷◌, arith, string_eq, select, length, is_empty, Bool-cases,
}
use minilake.Prelude.Dict.{has, put, get-put_text}
use minilake.Jobs.Model.{Task, RunTaskInfo}
use minilake.Jobs.Scheduler.{
  Results, run_one, gather, is_ready, waits, mark_stuck, stuck_info, schedule, run_tasks,
}

-- The key of one of the tasks.
abbrev pub KeyOf : String → List Task → Type 0
KeyOf k [] = ⊥
KeyOf k (task ∷ tasks) = (task.task_key ≡ k) ⊎ KeyOf k tasks

-- A key has a result or is the key of a pending task.
abbrev pub Accounted : String → List Task → Results → Type 0
Accounted k tasks results = KeyOf k tasks ⊎ (has results k ≡ true)

has-put :
    (results : Results) (j k : String) (r : RunTaskInfo)
    → (j ≡ k) ⊎ (has results k ≡ true)
    → has (put results j r) k ≡ true
has-put results j k r h = ground (arith, get-put_text results j r k)

-- One task of the list gets its result.
Accounted-put :
    (k : String) (task : Task) (tasks : List Task) (results : Results) (r : RunTaskInfo)
    → Accounted k (task ∷ tasks) results
    → Accounted k tasks (put results task.task_key r)
Accounted-put k task tasks results r (inl (inl e)) = inr (has-put results task.task_key k r (inl e))
Accounted-put k task tasks results r (inl (inr later)) = inl later
Accounted-put k task tasks results r (inr h) = inr (has-put results task.task_key k r (inr h))

length-select {ℓ} :
    {A : Type ℓ} (p : A → Bool) (xs : List A)
    → length (select p xs) + length (select (λ x. not (p x)) xs) ≡ length xs
length-select p [] = omega arith
length-select p (x ∷ xs) = ground (arith, length-select p xs)

pos_of_nonempty {ℓ} : {A : Type ℓ} (xs : List A) → is_empty xs ≡ false → 1 ≤ length xs
pos_of_nonempty [] h = absurd (cc h)
pos_of_nonempty (x ∷ xs) h = omega arith

-- A round whose `ready` is not empty leaves fewer tasks.
pub fewer {ℓ} :
    {A : Type ℓ} (p : A → Bool) (xs : List A) (n : ℕ)
    → is_empty (select p xs) ≡ false
    → length xs ≤ suc n
    → length (select (λ x. not (p x)) xs) ≤ n
fewer p xs n some_ready bound =
    omega (arith, length-select p xs, pos_of_nonempty (select p xs) some_ready)

KeyOf-select :
    (k : String) (p : Task → Bool) (tasks : List Task)
    → KeyOf k tasks
    → KeyOf k (select p tasks) ⊎ KeyOf k (select (λ t. not (p t)) tasks)
KeyOf-select k p [] h = elim h [ ]
KeyOf-select k p (task ∷ tasks) (inl e) = elim (Bool-cases (p task)) [
  | inl b ↦ inl (rw b (inl e))
  | inr b ↦ inr (rw b (inl e))
]
KeyOf-select k p (task ∷ tasks) (inr h) = elim (Bool-cases (p task)) [
  | inl b ↦ rw b (elim (KeyOf-select k p tasks h) [ inl l ↦ inl (inr l) | inr r ↦ inr r ])
  | inr b ↦ rw b (elim (KeyOf-select k p tasks h) [ inl l ↦ inl l | inr r ↦ inr (inr r) ])
]

module _ (perform : Task → RunTaskInfo) where
  mark_stuck-has :
      (k : String) (tasks : List Task) (results : Results)
      → Accounted k tasks results
      → has (mark_stuck perform tasks results) k ≡ true
  unfolding mark_stuck
  mark_stuck-has k [] results (inl h) = elim h [ ]
  mark_stuck-has k [] results (inr h) = h
  mark_stuck-has k (task ∷ tasks) results h =
      mark_stuck-has k tasks (put results task.task_key (stuck_info task.task_key))
        (Accounted-put k task tasks results (stuck_info task.task_key) h)

  gather-has :
      (k : String) (flag : Bool) (before : Results) (tasks : List Task) (results : Results)
      → Accounted k tasks results
      → has (gather perform flag before tasks results) k ≡ true
  unfolding gather
  gather-has k flag before [] results (inl h) = elim h [ ]
  gather-has k flag before [] results (inr h) = h
  gather-has k flag before (task ∷ tasks) results h =
      gather-has k flag before tasks (put results task.task_key (run_one perform flag before task))
        (Accounted-put k task tasks results (run_one perform flag before task) h)

  -- A round leaves every key accounted for.
  pub round-Accounted :
      (k : String) (flag : Bool) (pending : List Task) (results : Results)
      → Accounted k pending results
      → Accounted k
          (select (waits perform results) pending)
          (gather perform flag results (select (is_ready perform results) pending) results)
  round-Accounted k flag pending results (inl h) =
      elim (KeyOf-select k (is_ready perform results) pending h) [
        | inl now ↦ inr (gather-has k flag results _ results (inl now))
        | inr later ↦ inl later
      ]
  round-Accounted k flag pending results (inr h) = inr (gather-has k flag results _ results (inr h))

  schedule_total :
      (cancelled : ℕ → Bool) (fuel : ℕ) (pending : List Task) (results : Results)
      → length pending ≤ fuel
      → (final : Results) × (unschedulable : Bool) × (schedule perform cancelled fuel pending
            results
          ≡ some (final, unschedulable))
        × ((k : String) → Accounted k pending results → has final k ≡ true)
  unfolding schedule
  schedule_total cancelled fuel [] results bound =
      (results, false, refl, λ k h. elim h [ inl p ↦ absurd p | inr q ↦ q ])
  schedule_total cancelled zero (task ∷ pending) results bound = absurd (omega arith)
  schedule_total cancelled (suc fuel) (task ∷ pending) results bound =
      elim (Bool-cases (is_empty (select (is_ready perform results) (task ∷ pending)))) [
        | inl stuck ↦ (
          mark_stuck perform (task ∷ pending) results,
          true,
          rw stuck,
          λ k h. mark_stuck-has k (task ∷ pending) results h,
        )
        | inr some_ready ↦
            let (final, unschedulable, done, covers) =
              schedule_total cancelled fuel (select (waits perform results) (task ∷ pending))
                (gather perform (cancelled fuel) results
                  (select (is_ready perform results) (task ∷ pending)) results)
                (fewer (is_ready perform results) (task ∷ pending) fuel some_ready bound) in
            (
              final,
              unschedulable,
              rw some_ready done,
              λ k h. covers k (round-Accounted k (cancelled fuel) (task ∷ pending) results h),
            )
      ]

  -- Whatever the graph, the outcomes and the cancellations: the loop ends, and then every task of
  -- the run has a result.
  pub run_tasks_total :
      (cancelled : ℕ → Bool) (tasks : List Task)
      → (final : Results) × (unschedulable : Bool) × (run_tasks perform cancelled tasks
          ≡ some (final, unschedulable))
        × ((k : String) → KeyOf k tasks → has final k ≡ true)
  unfolding run_tasks
  run_tasks_total cancelled tasks =
      let (final, unschedulable, done, covers) =
        schedule_total cancelled (length tasks) tasks [] (omega arith) in
      (final, unschedulable, done, λ k h. covers k (inl h))
