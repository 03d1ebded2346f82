-- ===== src/Paging.antt =====
-- The pages of services/saved_queries.py, services/alerts.py and the query history of
-- services/sql_statements.py, which are cut out of a list by the same code.
pub mod Parts
pub mod Walk
use minilake.Prelude.{
  ℕ, zero, suc, ◌+◌, ◌-◌, String, ◌<>◌, Bool, true, false, not, ◌&&◌, ◌||◌, Option, none, some,
  List, [], ◌∷◌, leb, length, nonempty, if◌then◌else◌,
}
use minilake.Prelude.Int.{ℤ, pos, negsuc}
use minilake.Text.{show}
use minilake.Text.Numbers.{parse_int}
use minilake.Errors.{Result, ok, raised, error}

abbrev pub drop {ℓ} : {A : Type ℓ} → ℕ → List A → List A
drop zero xs = xs
drop (suc n) [] = []
drop (suc n) (x ∷ xs) = drop n xs

abbrev pub take {ℓ} : {A : Type ℓ} → ℕ → List A → List A
take zero xs = []
take (suc n) [] = []
take (suc n) (x ∷ xs) = x ∷ take n xs

-- `str` of an integer
abbrev pub show_int : ℤ → String
show_int (pos n) = show n
show_int (negsuc n) = "-" <> show (suc n)

-- `a + b` of an integer and a natural number
abbrev pub plus : ℤ → ℕ → ℤ
plus (pos a) b = pos (a + b)
plus (negsuc a) b = if leb (suc a) b then pos (b - suc a) else negsuc (a - b)

-- Where a slice of a list of this length begins or ends: a negative bound counts from the end.
abbrev pub bound : ℕ → ℤ → ℕ
bound size (pos n) = n
bound size (negsuc n) = size - suc n

-- `xs[start:stop]`
abbrev pub slice {ℓ} : {A : Type ℓ} → List A → ℤ → ℤ → List A
slice xs start stop =
    take (bound (length xs) stop - bound (length xs) start) (drop (bound (length xs) start) xs)

-- `a < n`
abbrev pub below : ℤ → ℕ → Bool
below (pos a) n = not (leb n a)
below (negsuc a) n = true

-- `page_size if page_size is not None else 100`, between 1 and 1000
unfoldable pub page_limit : Option ℤ → Option ℕ
page_limit none = some 100
page_limit (some (negsuc n)) = none
page_limit (some (pos n)) = if leb 1 n && leb n 1000 then some n else none

-- `int(page_token) if page_token else 0`
unfoldable pub page_offset : Option String → Option ℤ
page_offset none = some (pos 0)
page_offset (some token) = if nonempty token then parse_int token else some (pos 0)

abbrev token_text : Option String → String
token_text none = ""
token_text (some t) = t

unfoldable pub page_at {ℓ} : {A : Type ℓ} → List A → ℤ → ℕ → List A × Option String
page_at entries offset limit = (
  slice entries offset (plus offset limit),
  if below (plus offset limit) (length entries) then some (show_int (plus offset limit)) else none,
)

-- The page of a request, and the token of the next one; `what` is the name of the size parameter.
unfoldable pub list_page {ℓ} :
    {A : Type ℓ} → String → List A → Option ℤ → Option String → Result (List A × Option String)
unfolding page_limit page_offset page_at
list_page what entries page_size page_token = elim (page_limit page_size) [
  | none ↦ raised (error "INVALID_PARAMETER_VALUE" (what <> " must be between 1 and 1000") 400)
  | some limit ↦ elim (page_offset page_token) [
    | none ↦ raised (
        error "INVALID_PARAMETER_VALUE" ("Invalid page_token '" <> token_text page_token <> "'")
          400)
    | some offset ↦ ok (page_at entries offset limit)
  ]
]
