-- ===== src/Jobs/Graph/Relaxation.antt =====
-- One round of Kahn's algorithm: what taking a key out of the dependents' sets leaves.
use minilake.Prelude.{
  String, ◌≡◌, inl, inr, refl, sym, ap, ◌∙◌, subst, true, false, not, ◌&&◌, ◌||◌, List, [], ◌∷◌,
  ◌++◌, ◌==◌, string_eq, arith, contains, select, is_empty, get_or, Bool-cases, if◌then◌else◌,
}
use minilake.Prelude.Dict.{Dict, get, put, get-put_text}
use minilake.Prelude.Members.{Distinct}
use minilake.Jobs.Graph.{relax}

-- What a key still waits for.
abbrev pub waits_for : Dict String (List String) → String → List String
waits_for waiting k = get_or (get waiting k) []

-- A list without a key.
abbrev pub but : String → List String → List String
but key ds = select (λ d. not (d == key)) ds

pub contains-but :
    (key : String) (ds : List String) (d : String)
    → contains (but key ds) d ≡ (contains ds d && not (d == key))
contains-but key [] d = refl
contains-but key (x ∷ ds) d = ground (arith, contains-but key ds d)

pub contains-append :
    (xs : List String) (y k : String) → contains (xs ++ y ∷ []) k ≡ (contains xs k || k == y)
contains-append [] y k = ground arith
contains-append (x ∷ xs) y k = ground (arith, contains-append xs y k)

append-Distinct :
    (xs : List String) (y : String) → Distinct xs → contains xs y ≡ false → Distinct (xs ++ y ∷ [])
append-Distinct [] y u fresh = (refl, tt)
append-Distinct (x ∷ xs) y (here, u) fresh = (
  ground (arith, here, fresh, contains-append xs y x),
  append-Distinct xs y u (ground (arith, fresh)),
)

waits_for-put :
    (waiting : Dict String (List String)) (key : String) (ds : List String) (k : String)
    → waits_for (put waiting key ds) k ≡ (if k == key then ds else waits_for waiting k)
waits_for-put waiting key ds k = ground (arith, get-put_text waiting key ds k)

-- The dependents lose the key, and those that wait for nothing more become ready.
pub record IsRelaxed (key : String) (dependents : List String) (waiting : Dict String (List String))
    (ready : List String) (waiting' : Dict String (List String)) (ready' : List String)
    : Type 0 where
  pub waits :
      (k : String)
      → waits_for waiting' k
        ≡ (if contains dependents k then but key (waits_for waiting k) else waits_for waiting k)
  pub readied :
      (k : String)
      → contains ready' k
        ≡ (contains ready k || contains dependents k && is_empty (but key (waits_for waiting k)))
  pub apart :
      Distinct ready
      → ((k : String) → contains dependents k ≡ true → contains ready k ≡ false)
      → Distinct ready'

unfoldable readied_one : List String → String → List String → List String
readied_one ready x left = if is_empty left then ready ++ x ∷ [] else ready

contains-readied_one :
    (ready : List String) (x : String) (left : List String) (k : String)
    → contains (readied_one ready x left) k ≡ (contains ready k || k == x && is_empty left)
unfolding readied_one
contains-readied_one ready x [] k = contains-append ready x k ∙ ground arith
contains-readied_one ready x (y ∷ left) k = ground arith

readied_one-Distinct :
    (ready : List String) (x : String) (left : List String)
    → Distinct ready
    → contains ready x ≡ false
    → Distinct (readied_one ready x left)
unfolding readied_one
readied_one-Distinct ready x [] u fresh = append-Distinct ready x u fresh
readied_one-Distinct ready x (y ∷ left) u fresh = u

pub same_key : (k x : String) → (k == x) ≡ true → k ≡ x
same_key k x e = ground (arith, e)

-- The same for the first of the dependents.
module _ (key x k : String) (dependents : List String) (waiting : Dict String (List String))
    (ready : List String) (fresh : contains dependents x ≡ false) where
  abbrev left : List String
  left = but key (waits_for waiting x)

  first-waits :
      (if contains dependents k
        then but key (waits_for (put waiting x left) k)
        else waits_for (put waiting x left) k)
      ≡ (if contains (x ∷ dependents) k then but key (waits_for waiting k) else waits_for waiting k)
  first-waits = elim (Bool-cases (k == x)) [
    | inl same ↦
        let e = same_key k x same in
        let gone = subst (λ j. contains dependents j ≡ false) (sym e) fresh in
        rw (waits_for-put waiting x left k, same, gone)
          (ap (λ j. but key (waits_for waiting j)) (sym e))
    | inr other ↦ rw (waits_for-put waiting x left k, other) refl
  ]

  first-readied :
      (contains (readied_one ready x left) k
        || contains dependents k && is_empty (but key (waits_for (put waiting x left) k)))
      ≡ (contains ready k
          || contains (x ∷ dependents) k && is_empty (but key (waits_for waiting k)))
  first-readied = elim (Bool-cases (k == x)) [
    | inl same ↦
        let e = same_key k x same in
        let gone = subst (λ j. contains dependents j ≡ false) (sym e) fresh in
        rw (contains-readied_one ready x left k, same, gone)
          (ap (λ j. (contains ready k || is_empty (but key (waits_for waiting j))) || false) (sym e)
            ∙ ground arith)
    | inr other ↦
        rw (contains-readied_one ready x left k, waits_for-put waiting x left k, other)
          (ground arith)
  ]

  first-apart :
      contains dependents k ≡ true
      → contains ready k ≡ false
      → contains (readied_one ready x left) k ≡ false
  first-apart within h = elim (Bool-cases (k == x)) [
    | inl same ↦
        absurd
          (cc (within, subst (λ j. contains dependents j ≡ false) (sym (same_key k x same)) fresh))
    | inr other ↦ rw (contains-readied_one ready x left k, h, other) refl
  ]

pub relax-IsRelaxed :
    (key : String) (dependents : List String) (waiting : Dict String (List String))
    (ready : List String)
    → Distinct dependents
    → IsRelaxed key dependents waiting ready
        (relax key dependents waiting ready).0
        (relax key dependents waiting ready).1
unfolding relax readied_one
relax-IsRelaxed key [] waiting ready u = record {
  waits = λ k. refl;
  readied = λ k. ground arith;
  apart = λ d h. d;
}
relax-IsRelaxed key (x ∷ dependents) waiting ready (fresh, u) =
    let left = but key (waits_for waiting x) in
    let r = relax-IsRelaxed key dependents (put waiting x left) (readied_one ready x left) u in
    record {
      waits = λ k. r.waits k ∙ first-waits key x k dependents waiting ready fresh;
      readied = λ k. r.readied k ∙ first-readied key x k dependents waiting ready fresh;
      apart = λ d h. r.apart (readied_one-Distinct ready x left d (h x (ground arith))) (λ k within.
          first-apart key x k dependents waiting ready fresh within (h k (ground (arith, within))));
    }
