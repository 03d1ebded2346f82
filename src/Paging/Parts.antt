-- ===== src/Paging/Parts.antt =====
-- How `take` and `drop` fit together.
use minilake.Prelude.{
  ℕ, zero, suc, ◌+◌, ◌-◌, ◌≤◌, ◌<◌, ◌≡◌, refl, ap, ◌∙◌, true, false, List, [], ◌∷◌, ◌++◌, arith,
  leb, length,
}
use minilake.Paging.{drop, take}

module _ {ℓ} {A : Type ℓ} where
  pub take-drop : (n : ℕ) (xs : List A) → take n xs ++ drop n xs ≡ xs
  take-drop zero xs = refl
  take-drop (suc n) [] = refl
  take-drop (suc n) (x ∷ xs) = ap (λ ys. x ∷ ys) (take-drop n xs)

  drop_eq : (xs : List A) (m n : ℕ) → m ≡ n → drop m xs ≡ drop n xs
  drop_eq xs m n e = ap (λ k. drop k xs) e

  pub drop-drop : (m n : ℕ) (xs : List A) → drop n (drop m xs) ≡ drop (m + n) xs
  drop-drop zero n xs = drop_eq xs n (0 + n) (omega arith)
  drop-drop (suc m) zero [] = drop_eq [] (suc m) (suc m + 0) (omega arith)
  drop-drop (suc m) (suc n) [] = drop_eq [] (suc (m + suc n)) (suc m + suc n) (omega arith)
  drop-drop (suc m) n (x ∷ xs) =
      drop-drop m n xs ∙ drop_eq (x ∷ xs) (suc (m + n)) (suc m + n) (omega arith)

  pub take_all : (n : ℕ) (xs : List A) → length xs ≤ n → take n xs ≡ xs
  take_all zero [] h = refl
  take_all zero (x ∷ xs) h = absurd (omega arith)
  take_all (suc n) [] h = refl
  take_all (suc n) (x ∷ xs) h = ap (λ ys. x ∷ ys) (take_all n xs (omega arith))

  pub length-drop : (n : ℕ) (xs : List A) → length (drop n xs) ≡ length xs - n
  length-drop zero xs = omega arith
  length-drop (suc n) [] = omega arith
  length-drop (suc n) (x ∷ xs) = length-drop n xs ∙ omega arith

  pub drop_all : (n : ℕ) (xs : List A) → length xs ≤ n → drop n xs ≡ []
  drop_all zero [] h = refl
  drop_all (suc n) [] h = refl
  drop_all zero (x ∷ xs) h = absurd (omega arith)
  drop_all (suc n) (x ∷ xs) h = drop_all n xs (omega arith)

  pub take-length : (n : ℕ) (xs : List A) → take (length (take n xs)) xs ≡ take n xs
  take-length zero xs = refl
  take-length (suc n) [] = refl
  take-length (suc n) (x ∷ xs) = ap (λ ys. x ∷ ys) (take-length n xs)

pub leb-true : (a b : ℕ) → a ≤ b → leb a b ≡ true
leb-true a b h = ground arith

pub leb-false : (a b : ℕ) → b < a → leb a b ≡ false
leb-false a b h = ground arith
