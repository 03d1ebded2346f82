-- ===== src/Jobs/Graph/Members.antt =====
-- Statements on each task by its key and its dependencies.
use minilake.Prelude.{
  String, ◌≡◌, inl, inr, refl, sym, ◌∙◌, subst, true, false, not, ◌&&◌, List, [], ◌∷◌, ◌==◌,
  string_eq, arith, contains, Bool-cases, All,
}
use minilake.Prelude.Members.{Distinct}
use minilake.Jobs.Model.{Task}
use minilake.Jobs.Graph.{distinct, dependencies, task_keys}
use minilake.Jobs.Graph.Relaxation.{same_key}
use minilake.Jobs.Graph.Order.{depends_on, first-depends_on}
use minilake.Jobs.Scheduler.{depends}
use minilake.Jobs.Scheduler.Coverage.{KeyOf}
use minilake.Jobs.Graph.Ranking.{not_first}

contains-distinct :
    (seen ks : List String) (d : String)
    → contains (distinct seen ks) d ≡ (contains ks d && not (contains seen d))
unfolding distinct
contains-distinct seen [] d = refl
contains-distinct seen (k ∷ ks) d = elim (Bool-cases (contains seen k)) [
  | inl old ↦ rw old (
      contains-distinct seen ks d ∙ elim (Bool-cases (d == k)) [
        | inl same ↦
            let seen_d = subst (λ j. contains seen j ≡ true) (sym (same_key d k same)) old in
            rw (same, seen_d) (ground arith)
        | inr other ↦ rw other refl
      ])
  | inr new ↦ rw new (elim (Bool-cases (d == k)) [
    | inl same ↦
        let new_d = subst (λ j. contains seen j ≡ false) (sym (same_key d k same)) new in
        rw (same, new_d) refl
    | inr other ↦ rw other (contains-distinct (k ∷ seen) ks d ∙ rw other refl)
  ])
]

pub dependencies-depends :
    (t : Task) (d : String) → contains (depends t) d ≡ true → contains (dependencies t) d ≡ true
unfolding dependencies
dependencies-depends t d h = contains-distinct [] (depends t) d ∙ ground (arith, h)

pub KeyOf-contains : (ts : List Task) (k : String) → contains (task_keys ts) k ≡ true → KeyOf k ts
unfolding task_keys
KeyOf-contains [] k h = absurd (cc h)
KeyOf-contains (t ∷ ts) k h = elim (Bool-cases (k == t.task_key)) [
  | inl same ↦ inl (sym (same_key k t.task_key same))
  | inr other ↦ inr (KeyOf-contains ts k (rw other at h))
]

pub All-contains {κ} :
    (P : String → Type κ) (ds : List String)
    → ((d : String) → contains ds d ≡ true → P d)
    → All P ds
All-contains P [] h = tt
All-contains P (d ∷ ds) h =
    (h d (ground arith), All-contains P ds (λ e within. h e (ground (arith, within))))

-- A statement on each task, by its key and its dependencies.
pub All-depends_on {κ} :
    (P : Task → Type κ) (ts : List Task)
    → Distinct (task_keys ts)
    → ((t : Task)
        → contains (task_keys ts) t.task_key ≡ true
        → depends_on ts t.task_key ≡ dependencies t
        → P t)
    → All P ts
unfolding task_keys
All-depends_on P [] u h = tt
All-depends_on P (t ∷ ts) (fresh, u) h = (
  h t (ground arith) (first-depends_on t ts t.task_key ∙ ground arith),
  All-depends_on P ts u (λ other within e.
      let differ = not_first t.task_key (task_keys ts) other.task_key fresh within in
      h other (rw differ within) (first-depends_on t ts other.task_key ∙ rw differ e)),
)
