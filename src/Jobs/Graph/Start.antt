-- ===== src/Jobs/Graph/Start.antt =====
-- The state of Kahn's algorithm before its first round.
use minilake.Prelude.{
  suc, String, ◌≡◌, inl, inr, refl, sym, ap, ◌∙◌, subst, true, false, none, some, List, [], ◌∷◌,
  ◌==◌, string_eq, arith, contains, is_empty, length, Bool-cases,
}
use minilake.Prelude.Dict.{get}
use minilake.Prelude.Members.{Distinct}
use minilake.Jobs.Model.{Task}
use minilake.Jobs.Graph.{
  dependencies, dependencies_by_key, task_keys, repeated_key, initially_ready,
}
use minilake.Jobs.Graph.Relaxation.{same_key}
use minilake.Jobs.Graph.Order.{depends_on, first-depends_on, empty-contains}
use minilake.Jobs.Graph.Visits.{IsVisit}

pub repeated_key-Distinct :
    (seen : List String) (ts : List Task)
    → repeated_key seen ts ≡ none
    → Distinct (task_keys ts)
      × ((k : String) → contains seen k ≡ true → contains (task_keys ts) k ≡ false)
unfolding repeated_key task_keys
repeated_key-Distinct seen [] h = (tt, λ k s. refl)
repeated_key-Distinct seen (t ∷ ts) h = elim (Bool-cases (contains seen t.task_key)) [
  | inl old ↦ absurd (some_none (rw (old, repeated_key) at h))
  | inr new ↦
      let (u, apart) = repeated_key-Distinct (t.task_key ∷ seen) ts (rw (new, repeated_key) at h) in
      ((apart t.task_key (ground arith), u), λ k old. ground (arith, old, new, apart k))
]
  where
    some_none : {k : String} → some k ≡ none → ⊥
    some_none e = cc e

initially_ready-cases :
    (ts : List Task) (k : String)
    → Distinct (task_keys ts)
    → contains (initially_ready (dependencies_by_key ts)) k ≡ true
    → (contains (task_keys ts) k ≡ true) × (is_empty (depends_on ts k) ≡ true)
unfolding initially_ready dependencies_by_key task_keys get
initially_ready-cases [] k u h = absurd (cc h)
initially_ready-cases (t ∷ ts) k (fresh, u) h = elim (Bool-cases (k == t.task_key)) [
  | inl same ↦ elim (Bool-cases (is_empty (dependencies t))) [
    | inl free ↦ (rw same refl, ap is_empty (first-depends_on t ts k) ∙ rw same free)
    | inr waits ↦
        let later = (initially_ready-cases ts k u (rw waits at h)).0 in
        absurd (
          cc (
            later,
            subst (λ j. contains (task_keys ts) j ≡ false) (sym (same_key k t.task_key same)) fresh,
          ))
  ]
  | inr other ↦
      let (within, free) = initially_ready-cases ts k u (ground (arith, h, other)) in
      (rw other within, ap is_empty (first-depends_on t ts k) ∙ rw other free)
]

initially_ready-Distinct :
    (ts : List Task) → Distinct (task_keys ts) → Distinct (initially_ready (dependencies_by_key ts))
unfolding initially_ready dependencies_by_key task_keys
initially_ready-Distinct [] u = tt
initially_ready-Distinct (t ∷ ts) (fresh, u) = elim (Bool-cases (is_empty (dependencies t))) [
  | inl e ↦ rw e (
    elim (Bool-cases (contains (initially_ready (dependencies_by_key ts)) t.task_key)) [
      | inl found ↦ absurd (cc (fresh, (initially_ready-cases ts t.task_key u found).0))
      | inr new ↦ new
    ],
    initially_ready-Distinct ts u,
  )
  | inr e ↦ rw e (initially_ready-Distinct ts u)
]

pub first-IsVisit :
    (ts : List Task)
    → Distinct (task_keys ts)
    → IsVisit ts (dependencies_by_key ts) (initially_ready (dependencies_by_key ts)) []
first-IsVisit ts u = record {
  waits = λ k d. ground arith;
  idle = λ k h d. elim h [
    | inl ready ↦ empty-contains (depends_on ts k) d (initially_ready-cases ts k u ready).1
    | inr never ↦ absurd (cc never)
  ];
  apart = λ k h. refl;
  ready_distinct = initially_ready-Distinct ts u;
  done_distinct = tt;
  known = λ k h. elim h [
    | inl ready ↦ (initially_ready-cases ts k u ready).0
    | inr never ↦ absurd (cc never)
  ];
  ordered = tt;
}

pub length-task_keys : (ts : List Task) → length (task_keys ts) ≡ length ts
unfolding task_keys
length-task_keys [] = refl
length-task_keys (t ∷ ts) = ap suc (length-task_keys ts)
