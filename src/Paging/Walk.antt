-- ===== src/Paging/Walk.antt =====
-- A client that asks for one page after the other.
use minilake.Prelude.{
  ℕ, zero, suc, ◌+◌, ◌-◌, ◌≤◌, ◌<◌, String, ◌≡◌, refl, sym, ap, ◌∙◌, inl, inr, true, Option, none,
  some, List, ◌++◌, arith, leb, length, nonempty, nonempty-false, Bool-cases,
}
use mathlib.Core.Option
use minilake.Prelude.Int.{ℤ, pos}
use minilake.Text.{strip, lstrip, rstrip, show, strip, lstrip, rstrip}
use minilake.Text.Numbers.{signed, parse_int, parse_int-show, signed}
use minilake.Errors.{Result, ok, raised}
use minilake.Paging.Parts.{take-drop, drop-drop, take_all, length-drop, leb-true, leb-false}
use minilake.Paging.{drop, take, page_limit, page_offset, page_at, list_page}

-- What a client does with one response: it asks for the next page, if there is one.
abbrev continue {ℓ} :
    {A : Type ℓ} → (String → Option (List A)) → Result (List A × Option String) → Option (List A)
continue ask (raised x) = none
continue ask (ok (items, none)) = some items
continue ask (ok (items, some next)) = Option.map (λ later. items ++ later) (ask next)

-- The pages from this token on, put together: `none` if a request is refused or the fuel runs out.
abbrev pub walk {ℓ} :
    {A : Type ℓ} → String → ℕ → List A → Option ℤ → Option String → Option (List A)
walk what zero entries size token = none
walk what (suc fuel) entries size token =
    continue (λ next. walk what fuel entries size (some next)) (list_page what entries size token)

minus : (m n : ℕ) → m + n - m ≡ n
minus m n = omega arith

page_offset-none : page_offset none ≡ some (pos 0)
unfolding page_offset
page_offset-none = refl

parse_int-empty : parse_int "" ≡ none
unfolding parse_int signed strip lstrip rstrip
parse_int-empty = refl

nonempty-show : (n : ℕ) → nonempty (show n) ≡ true
nonempty-show n = elim (Bool-cases (nonempty (show n))) [
  | inl h ↦ h
  | inr h ↦ absurd (cc (parse_int-empty, parse_int-show n, nonempty-false (show n) h))
]

page_offset-show : (n : ℕ) → page_offset (some (show n)) ≡ some (pos n)
unfolding page_offset
page_offset-show n = rw (nonempty-show n) (parse_int-show n)

module _ {ℓ} {A : Type ℓ} (what : String) (entries : List A) (size : Option ℤ) (n : ℕ)
    (sized : page_limit size ≡ some (suc n)) where
  list_page-page_at :
      (token : Option String) (m : ℤ)
      → page_offset token ≡ some m
      → list_page what entries size token ≡ ok (page_at entries m (suc n))
  unfolding list_page
  list_page-page_at token m read = rw (sized, list_page) (rw (read, list_page) refl)

  last_page :
      (m : ℕ)
      → length entries ≤ m + suc n
      → page_at entries (pos m) (suc n) ≡ (drop m entries, none)
  unfolding page_at
  last_page m h =
      let all =
        take_all (m + suc n - m) (drop m entries) (rw (length-drop m entries) (omega arith)) in
      let past = leb-true (length entries) (m + suc n) h in rw (all, past) refl

  next_page :
      (m : ℕ)
      → m + suc n < length entries
      → page_at entries (pos m) (suc n) ≡ (take (suc n) (drop m entries), some (show (m + suc n)))
  unfolding page_at
  next_page m h =
      let size = minus m (suc n) in
      let before = leb-false (length entries) (m + suc n) h in rw (size, before) refl

  walk_from :
      (fuel m : ℕ) (token : Option String)
      → page_offset token ≡ some (pos m)
      → length entries < m + fuel
      → m ≤ length entries
      → walk what fuel entries size token ≡ some (drop m entries)
  walk_from zero m token read h inside = absurd (omega arith)
  walk_from (suc fuel) m token read h inside =
      elim (Bool-cases (leb (length entries) (m + suc n))) [
        | inl past ↦
            rw (list_page-page_at token (pos m) read, walk, last_page m (ground (arith, past))) refl
        | inr more ↦
            rw
              (
                list_page-page_at token (pos m) read,
                walk,
                next_page m (ground (arith, more)),
                walk_from fuel (m + suc n) (some (show (m + suc n))) (page_offset-show (m + suc n))
                    (ground (arith, more)) (ground (arith, more)),
              )
              (ap (λ xs. some (take (suc n) (drop m entries) ++ xs))
                  (sym (drop-drop m (suc n) entries))
                ∙ ap some (take-drop (suc n) (drop m entries)))
      ]

-- A client that asks for a page, and then for the page of each token it is given, gets every entry
-- once and in order, in at most as many requests as there are entries and one more; its page size
-- is absent or between 1 and 1000.
pub walk_lem {ℓ} :
    {A : Type ℓ} (what : String) (entries : List A) (size : Option ℤ) (n : ℕ)
    → page_limit size ≡ some (suc n)
    → walk what (suc (length entries)) entries size none ≡ some entries
walk_lem what entries size n sized =
    walk_from what entries size n sized (suc (length entries)) 0 none (page_offset-none)
      (omega arith) (omega arith)
