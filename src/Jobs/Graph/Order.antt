-- ===== src/Jobs/Graph/Order.antt =====
-- The keys that Kahn's algorithm has taken off the queue, in their order.
use minilake.Prelude.{
  String, ◌≡◌, inl, inr, refl, ap, ◌∙◌, true, false, List, [], ◌∷◌, ◌==◌, string_eq, arith,
  contains, is_empty, Bool-cases, if◌then◌else◌,
}
use minilake.Prelude.Dict.{get}
use minilake.Prelude.Members.{Distinct}
use minilake.Jobs.Model.{Task}
use minilake.Jobs.Graph.{dependencies, dependencies_by_key, dependents_of, task_keys}
use minilake.Jobs.Graph.Relaxation.{waits_for}

-- The dependencies of a key.
abbrev pub depends_on : List Task → String → List String
depends_on tasks k = waits_for (dependencies_by_key tasks) k

pub first-depends_on :
    (t : Task) (ts : List Task) (k : String)
    → depends_on (t ∷ ts) k ≡ (if k == t.task_key then dependencies t else depends_on ts k)
unfolding dependencies_by_key get
first-depends_on t ts k = ground arith

pub depends_on-unknown :
    (ts : List Task) (k : String) → contains (task_keys ts) k ≡ false → depends_on ts k ≡ []
unfolding task_keys dependencies_by_key get
depends_on-unknown [] k h = refl
depends_on-unknown (t ∷ ts) k h =
    first-depends_on t ts k ∙ ground (arith, h, depends_on-unknown ts k)

pub contains-dependents_of :
    (key : String) (ts : List Task) (k : String)
    → Distinct (task_keys ts)
    → contains (dependents_of key ts) k ≡ contains (depends_on ts k) key
unfolding dependents_of task_keys dependencies_by_key get
contains-dependents_of key [] k u = refl
contains-dependents_of key (t ∷ ts) k (fresh, u) = elim (Bool-cases (k == t.task_key)) [
  | inl same ↦
      let gone = depends_on-unknown ts k (ground (arith, same, fresh)) in
      let rest = contains-dependents_of key ts k u in
      rw (first-depends_on t ts k, same)
        (ground (arith, same, rest, ap (λ ds. contains ds key) gone))
  | inr other ↦
      let rest = contains-dependents_of key ts k u in
      rw (first-depends_on t ts k, other) (ground (arith, other, rest))
]

pub dependents_of-known :
    (key : String) (ts : List Task) (k : String)
    → contains (dependents_of key ts) k ≡ true
    → contains (task_keys ts) k ≡ true
unfolding dependents_of task_keys
dependents_of-known key [] k h = absurd (cc h)
dependents_of-known key (t ∷ ts) k h = ground (arith, h, dependents_of-known key ts k)

pub dependents_of-Distinct :
    (key : String) (ts : List Task) → Distinct (task_keys ts) → Distinct (dependents_of key ts)
unfolding dependents_of task_keys
dependents_of-Distinct key [] u = tt
dependents_of-Distinct key (t ∷ ts) (fresh, u) = elim (Bool-cases (contains (dependencies t) key)) [
  | inl e ↦ rw e (
    elim (Bool-cases (contains (dependents_of key ts) t.task_key)) [
      | inl found ↦ absurd (cc (fresh, dependents_of-known key ts t.task_key found))
      | inr new ↦ new
    ],
    dependents_of-Distinct key ts u,
  )
  | inr e ↦ rw e (dependents_of-Distinct key ts u)
]

-- Each key comes after its dependencies; the last one is first in the list.
abbrev pub IsOrdered : List Task → List String → Type 0
IsOrdered tasks [] = Unit
IsOrdered tasks (k ∷ done) =
    ((d : String) → contains (depends_on tasks k) d ≡ true → contains done d ≡ true)
    × IsOrdered tasks done

pub empty-contains : (xs : List String) (d : String) → is_empty xs ≡ true → contains xs d ≡ false
empty-contains [] d h = refl
empty-contains (x ∷ xs) d h = absurd (cc h)
