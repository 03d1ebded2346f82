-- ===== src/Text.antt =====
-- The methods of Python's `str` that the services call.
pub mod Numbers
use Prim.Native.Char.{Char, code}
use Prim.Native.String.{String}
use minilake.Prelude.{
  ℕ, zero, suc, ◌/◌, ◌%◌, Bool, ◌&&◌, ◌||◌, List, [], ◌∷◌, leb, eqb, ◌<>◌, ◌≡◌, refl, if◌then◌else◌,
}

-- The first piece and the others of a text cut at each `c`.
abbrev pub glue : Char → String × List String → String × List String
glue d (word, rest) = (String.◌∷◌ d word, rest)

abbrev pub break : String × List String → String × List String
break (word, rest) = (String.[], word ∷ rest)

unfoldable pub pieces : ℕ → String → String × List String
pieces c String.[] = (String.[], [])
pieces c (String.◌∷◌ d s) =
    let later = pieces c s in if eqb (code d) c then break later else glue d later

-- `s.split(c)` for a separator of one character, given by its code: at least one piece.
unfoldable pub split : ℕ → String → List String
unfolding pieces
split c s = let (word, rest) = pieces c s in word ∷ rest

-- `sep.join(words)`
unfoldable pub join : String → List String → String
join sep [] = ""
join sep (word ∷ []) = word
join sep (word ∷ next ∷ words) = word <> sep <> join sep (next ∷ words)

-- `str.isspace` for one character
unfoldable pub is_space : ℕ → Bool
is_space c =
    leb 9 c && leb c 13
    || leb 28 c && leb c 32
    || eqb c 133
    || eqb c 160
    || eqb c 5760
    || leb 8192 c && leb c 8202
    || leb 8232 c && leb c 8233
    || eqb c 8239
    || eqb c 8287
    || eqb c 12288

unfoldable pub lstrip : String → String
unfolding is_space
lstrip String.[] = String.[]
lstrip (String.◌∷◌ d s) = let rest = lstrip s in if is_space (code d) then rest else String.◌∷◌ d s

-- A space is dropped where nothing but spaces follows.
unfoldable pub rstrip : String → String
unfolding is_space
rstrip String.[] = String.[]
rstrip (String.◌∷◌ d s) = elim (rstrip s) [
  | String.[] ↦ if is_space (code d) then String.[] else String.◌∷◌ d String.[]
  | String.◌∷◌ e t ↦ String.◌∷◌ d (String.◌∷◌ e t)
]

-- `s.strip()`
unfoldable pub strip : String → String
unfolding lstrip rstrip
strip s = rstrip (lstrip s)

split_example : split b',' "a,,b" ≡ "a" ∷ "" ∷ "b" ∷ []
unfolding split
split_example = refl

strip_example : strip "  a b " ≡ "a b"
unfolding strip
strip_example = refl

-- `str(n)` for a natural number: its last digit goes in front of what is written already. The fuel
-- is above the number.
unfoldable pub digit : ℕ → Char
digit d =
    if eqb d 0
    then "0"
    else if eqb d 1
    then "1"
    else if eqb d 2
    then "2"
    else if eqb d 3
    then "3"
    else if eqb d 4
    then "4"
    else if eqb d 5
    then "5"
    else if eqb d 6
    then "6"
    else if eqb d 7
    then "7"
    else if eqb d 8
    then "8"
    else "9"

unfoldable pub decimal : ℕ → ℕ → String → String
unfolding digit
decimal zero n later = later
decimal (suc fuel) n later =
    if leb n 9
    then String.◌∷◌ (digit n) later
    else decimal fuel (n / 10) (String.◌∷◌ (digit (n % 10)) later)

unfoldable pub show : ℕ → String
unfolding decimal
show n = decimal (suc n) n ""

show_example : show 1205 ≡ "1205"
unfolding show
show_example = refl
