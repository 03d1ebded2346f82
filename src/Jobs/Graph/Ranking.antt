-- ===== src/Jobs/Graph/Ranking.antt =====
-- The place of a visited key, which is above those of its dependencies.
use minilake.Prelude.{
  ℕ, suc, ◌≤◌, ◌<◌, String, ◌≡◌, inl, inr, sym, subst, true, false, List, [], ◌∷◌, ◌==◌, string_eq,
  arith, contains, length, Bool-cases, if◌then◌else◌,
}
use minilake.Prelude.Members.{Distinct, pigeonhole}
use minilake.Jobs.Model.{Task}
use minilake.Jobs.Graph.{task_keys}
use minilake.Jobs.Graph.Relaxation.{same_key}
use minilake.Jobs.Graph.Order.{depends_on, IsOrdered}
use minilake.Jobs.Graph.Start.{length-task_keys}

-- The place of a key in an order, counted from its end; 0 for a key that is not in it.
unfoldable pub rank_in : List String → String → ℕ
rank_in [] k = 0
rank_in (x ∷ xs) k = let later = rank_in xs k in if k == x then suc (length xs) else later

rank_in-bound : (xs : List String) (k : String) → rank_in xs k ≤ length xs
unfolding rank_in
rank_in-bound [] k = omega arith
rank_in-bound (x ∷ xs) k = ground (arith, rank_in-bound xs k)

pub not_first :
    (x : String) (xs : List String) (d : String)
    → contains xs x ≡ false
    → contains xs d ≡ true
    → (d == x) ≡ false
not_first x xs d fresh within = elim (Bool-cases (d == x)) [
  | inr differ ↦ differ
  | inl same ↦
      absurd (cc (within, subst (λ j. contains xs j ≡ false) (sym (same_key d x same)) fresh))
]

pub rank_in-lower :
    (ts : List Task) (order : List String) (k d : String)
    → Distinct order
    → IsOrdered ts order
    → contains order k ≡ true
    → contains (depends_on ts k) d ≡ true
    → (contains order d ≡ true) × (rank_in order d < rank_in order k)
unfolding rank_in
rank_in-lower ts [] k d u o h e = absurd (cc h)
rank_in-lower ts (x ∷ order) k d (fresh, u) (before, o) h e = elim (Bool-cases (k == x)) [
  | inl same ↦
      let here =
        before d (subst (λ j. contains (depends_on ts j) d ≡ true) (same_key k x same) e) in
      let differ = not_first x order d fresh here in
      (rw differ here, rw (same, differ) (ground (arith, rank_in-bound order d)))
  | inr other ↦
      let (within, lower) = rank_in-lower ts order k d u o (rw other at h) e in
      let differ = not_first x order d fresh within in (rw differ within, rw (other, differ) lower)
]

-- Every key is visited when as many are as there are tasks.
pub all_visited :
    (ts : List Task) (order : List String) (k : String)
    → Distinct order
    → ((j : String) → contains order j ≡ true → contains (task_keys ts) j ≡ true)
    → length order ≡ length ts
    → contains (task_keys ts) k ≡ true
    → contains order k ≡ true
all_visited ts order k u known count h = elim (Bool-cases (contains order k)) [
  | inl there ↦ there
  | inr gone ↦ absurd (too_many (pigeonhole (k ∷ order) (task_keys ts) (gone, u) within))
]
  where
    within : (j : String) → contains (k ∷ order) j ≡ true → contains (task_keys ts) j ≡ true
    within j here = elim (Bool-cases (j == k)) [
      | inl same ↦ subst (λ i. contains (task_keys ts) i ≡ true) (sym (same_key j k same)) h
      | inr other ↦ known j (rw other at here)
    ]

    too_many : suc (length order) ≤ length (task_keys ts) → ⊥
    too_many more = omega (arith, more, count, length-task_keys ts)
