-- ===== src/Prelude/Members.antt =====
-- Lists without repetition, and how many elements fit into a list.
use Prim.Native.Nat.{suc, ◌≤◌}
use native.Mathlib.Omega.{arith}
use mathlib.Core.Path.{◌≡◌}
use mathlib.Core.Logic.{◌≢◌}
use mathlib.Core.Bool.{true, false}
use mathlib.Core.List.{List, [], ◌∷◌}
use minilake.Prelude.Tests.{if◌then◌else◌, length}
use minilake.Prelude.Equality.{Eq, ◌==◌, contains}

module _ {ℓ} {A : Type ℓ} ⦃e : Eq A⦄ where
  abbrev pub Distinct : List A → Type 0
  Distinct [] = Unit
  Distinct (x ∷ xs) = (contains xs x ≡ false) × Distinct xs

  -- The list without the first occurrence of an element.
  abbrev without : List A → A → List A
  without [] a = []
  without (x ∷ xs) a = let rest = without xs a in if a == x then xs else x ∷ rest

  length-without :
      (xs : List A) (a : A) → contains xs a ≡ true → length xs ≡ suc (length (without xs a))
  length-without [] a h = absurd (cc h)
  length-without (x ∷ xs) a h = ground (arith, length-without xs a)

  contains-without :
      (xs : List A) (a b : A) → contains xs b ≡ true → b ≢ a → contains (without xs a) b ≡ true
  contains-without [] a b h ne = h
  contains-without (x ∷ xs) a b h ne = ground (arith, contains-without xs a b)

  -- A list without repetition is no longer than one that contains all its elements.
  pub pigeonhole :
      (ys xs : List A)
      → Distinct ys
      → ((b : A) → contains ys b ≡ true → contains xs b ≡ true)
      → length ys ≤ length xs
  pigeonhole [] xs distinct within = omega arith
  pigeonhole (y ∷ ys) xs (fresh, distinct) within =
      let here = within y (ground arith) in
      let smaller =
        pigeonhole ys (without xs y) distinct
          (λ b h. contains-without xs y b (within b (ground (arith, h))) (differs b h)) in
      ground (arith, smaller, length-without xs y here)
    where
      differs : (b : A) → contains ys b ≡ true → b ≢ y
      differs b h same = cc (h, same, fresh)
