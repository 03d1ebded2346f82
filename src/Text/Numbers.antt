-- ===== src/Text/Numbers.antt =====
-- `int(text)`, and that it reads back what `str(n)` writes. The digits are the ASCII ones.
use Prim.Native.Char.{Char, code}
use Prim.Native.String.{String}
use minilake.Prelude.{
  ℕ, zero, suc, ◌+◌, ◌*◌, ◌-◌, ◌/◌, ◌%◌, ◌≤◌, ◌<◌, Bool, true, false, ◌&&◌, ◌||◌, Option, none,
  some, leb, eqb, ◌≡◌, refl, sym, ap, subst, ◌⊎◌, inl, inr, ◌∙◌, arith, if◌then◌else◌, Bool-cases,
}
use minilake.Prelude.Int.{ℤ, pos, negsuc}
use minilake.Text.{digit, decimal, show, strip, lstrip, rstrip, is_space}

abbrev is_digit : Char → Bool
is_digit c = leb b'0' (code c) && leb (code c) b'9'

-- The digits of a number, with single underscores between them; `started` says whether the last
-- character was a digit.
unfoldable pub digits : Bool → ℕ → String → Option ℕ
digits started acc String.[] = if started then some acc else none
digits started acc (String.◌∷◌ c s) =
    let rest = digits (is_digit c) (if is_digit c then acc * 10 + (code c - b'0') else acc) s in
    if is_digit c || started && eqb (code c) b'_' then rest else none

abbrev negated : ℕ → ℤ
negated zero = pos 0
negated (suc n) = negsuc n

abbrev positive : Option ℕ → Option ℤ
positive none = none
positive (some n) = some (pos n)

abbrev negative : Option ℕ → Option ℤ
negative none = none
negative (some n) = some (negated n)

unfoldable pub signed : String → Option ℤ
unfolding digits
signed String.[] = none
signed (String.◌∷◌ c s) =
    if eqb (code c) b'-'
    then negative (digits false 0 s)
    else if eqb (code c) b'+'
    then positive (digits false 0 s)
    else positive (digits false 0 (String.◌∷◌ c s))

-- `int(text)`, with none for its `ValueError`.
unfoldable pub parse_int : String → Option ℤ
unfolding signed
parse_int text = signed (strip text)

parse_example : parse_int " -1_20 " ≡ some (negsuc 119)
unfolding parse_int signed digits strip lstrip rstrip is_space
parse_example = refl

below_ten :
    (d : ℕ)
    → d ≤ 9
    → (d ≡ 0)
      ⊎ (d ≡ 1)
      ⊎ (d ≡ 2)
      ⊎ (d ≡ 3)
      ⊎ (d ≡ 4)
      ⊎ (d ≡ 5)
      ⊎ (d ≡ 6)
      ⊎ (d ≡ 7)
      ⊎ (d ≡ 8)
      ⊎ (d ≡ 9)
below_ten d h = ground arith

-- A statement on every digit.
for_digits {ℓ} :
    (P : ℕ → Type ℓ)
    → P 0
    → P 1
    → P 2
    → P 3
    → P 4
    → P 5
    → P 6
    → P 7
    → P 8
    → P 9
    → (d : ℕ) → d ≤ 9
    → P d
for_digits P p0 p1 p2 p3 p4 p5 p6 p7 p8 p9 d h = elim (below_ten d h) [
  | inl e ↦ subst P (sym e) p0
  | inr (inl e) ↦ subst P (sym e) p1
  | inr (inr (inl e)) ↦ subst P (sym e) p2
  | inr (inr (inr (inl e))) ↦ subst P (sym e) p3
  | inr (inr (inr (inr (inl e)))) ↦ subst P (sym e) p4
  | inr (inr (inr (inr (inr (inl e))))) ↦ subst P (sym e) p5
  | inr (inr (inr (inr (inr (inr (inl e)))))) ↦ subst P (sym e) p6
  | inr (inr (inr (inr (inr (inr (inr (inl e))))))) ↦ subst P (sym e) p7
  | inr (inr (inr (inr (inr (inr (inr (inr (inl e)))))))) ↦ subst P (sym e) p8
  | inr (inr (inr (inr (inr (inr (inr (inr (inr (e))))))))) ↦ subst P (sym e) p9
]

digits-digit :
    (started : Bool) (acc : ℕ) (t : String) (d : ℕ)
    → d ≤ 9
    → digits started acc (String.◌∷◌ (digit d) t) ≡ digits true (acc * 10 + d) t
unfolding digits digit
digits-digit started acc t =
    for_digits (λ d. digits started acc (String.◌∷◌ (digit d) t) ≡ digits true (acc * 10 + d) t)
      refl refl refl refl refl refl refl refl refl refl

digits-decimal :
    (fuel n : ℕ) (t : String) → n < fuel → digits false 0 (decimal fuel n t) ≡ digits true n t
unfolding decimal
digits-decimal zero n t h = absurd (omega arith)
digits-decimal (suc fuel) n t h = elim (Bool-cases (leb n 9)) [
  | inl small ↦
      rw (small, decimal)
        (digits-digit false 0 t n (ground (arith, small)) ∙ ap (λ m. digits true m t) (omega arith))
  | inr large ↦
      rw (large, decimal)
        (digits-decimal fuel (n / 10) (String.◌∷◌ (digit (n % 10)) t) (ground (arith, large, h))
          ∙ (digits-digit true (n / 10) t (n % 10) (omega arith)
              ∙ ap (λ m. digits true m t) (omega arith)))
]

-- What `strip` and the sign leave alone: digits up to the end.
abbrev AllDigits : String → Type 0
AllDigits String.[] = Unit
AllDigits (String.◌∷◌ c s) =
    (is_space (code c) ≡ false)
    × (eqb (code c) b'-' ≡ false)
    × (eqb (code c) b'+' ≡ false)
    × AllDigits s

digit-AllDigits : (t : String) → AllDigits t → (d : ℕ) → d ≤ 9 → AllDigits (String.◌∷◌ (digit d) t)
unfolding digit is_space
digit-AllDigits t h =
    for_digits (λ d. AllDigits (String.◌∷◌ (digit d) t)) (refl, refl, refl, h) (refl, refl, refl, h)
      (refl, refl, refl, h) (refl, refl, refl, h) (refl, refl, refl, h) (refl, refl, refl, h)
      (refl, refl, refl, h) (refl, refl, refl, h) (refl, refl, refl, h) (refl, refl, refl, h)

decimal-AllDigits :
    (fuel n : ℕ) (t : String) → n < fuel → AllDigits t → AllDigits (decimal fuel n t)
unfolding decimal
decimal-AllDigits zero n t h all = all
decimal-AllDigits (suc fuel) n t h all = elim (Bool-cases (leb n 9)) [
  | inl small ↦ rw (small, decimal) (digit-AllDigits t all n (ground (arith, small)))
  | inr large ↦
      rw (large, decimal)
        (decimal-AllDigits fuel (n / 10) (String.◌∷◌ (digit (n % 10)) t) (ground (arith, large, h))
          (digit-AllDigits t all (n % 10) (omega arith)))
]

rstrip-AllDigits : (s : String) → AllDigits s → rstrip s ≡ s
unfolding rstrip
rstrip-AllDigits String.[] all = refl
rstrip-AllDigits (String.◌∷◌ c String.[]) (no_space, _, _, all) = rw no_space refl
rstrip-AllDigits (String.◌∷◌ c (String.◌∷◌ d s)) (no_space, _, _, all) =
    rw (rstrip-AllDigits (String.◌∷◌ d s) all, rstrip) refl

strip-AllDigits : (s : String) → AllDigits s → strip s ≡ s
unfolding strip lstrip
strip-AllDigits String.[] all = rstrip-AllDigits String.[] all
strip-AllDigits (String.◌∷◌ c s) (no_space, m, p, all) =
    rw no_space (rstrip-AllDigits (String.◌∷◌ c s) (no_space, m, p, all))

signed-AllDigits : (s : String) → AllDigits s → signed s ≡ positive (digits false 0 s)
unfolding signed
signed-AllDigits String.[] all = refl
signed-AllDigits (String.◌∷◌ c s) (no_space, m, p, all) = rw m (rw p refl)

-- `int(str(n))` is n, for a natural number n.
pub parse_int-show : (n : ℕ) → parse_int (show n) ≡ some (pos n)
unfolding parse_int show
parse_int-show n =
    let all = decimal-AllDigits (suc n) n "" (omega arith) tt in
    rw (strip-AllDigits (decimal (suc n) n "") all) (
      signed-AllDigits (decimal (suc n) n "") all
      ∙ ap positive (digits-decimal (suc n) n "" (omega arith) ∙ ended n))
  where
    ended : (n : ℕ) → digits true n "" ≡ some n
    ended n = refl
