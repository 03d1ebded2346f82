-- ===== src/ColumnTypes/Splitting.antt =====
-- How uc_types.py takes the text of a type apart: `_split_head_args` and `_split_top_level`.
use Prim.Native.Char.{Char, code}
use Prim.Native.String.{String}
use minilake.Prelude.{
  ℕ, suc, ◌&&◌, ◌||◌, Option, none, some, List, [], ◌∷◌, eqb, nonempty, string_eq, get_or,
  if◌then◌else◌, ◌≡◌, refl,
}
use minilake.Text.{glue, break, strip, lstrip, rstrip, is_space}

-- `len(text)`
unfoldable pub size : String → ℕ
size String.[] = 0
size (String.◌∷◌ d s) = suc (size s)

-- `text.find(c)`, as what stands before and after the first `c`.
abbrev pub led : Char → Option (String × String) → Option (String × String)
led d none = none
led d (some (before, after)) = some (String.◌∷◌ d before, after)

unfoldable pub cut : ℕ → String → Option (String × String)
cut c String.[] = none
cut c (String.◌∷◌ d s) =
    let later = led d (cut c s) in if eqb (code d) c then some (String.[], s) else later

-- `text.partition(c)`, without the separator.
unfoldable pub partition : ℕ → String → String × String
partition c s = get_or (cut c s) (s, String.[])

-- `text[:-1]` where the text ends with `c`.
abbrev pub kept_after : Char → Option String → Option String
kept_after d none = none
kept_after d (some kept) = some (String.◌∷◌ d kept)

unfoldable pub drop_last : ℕ → String → Option String
drop_last c String.[] = none
drop_last c (String.◌∷◌ d String.[]) = if eqb (code d) c then some String.[] else none
drop_last c (String.◌∷◌ d (String.◌∷◌ e s)) = kept_after d (drop_last c (String.◌∷◌ e s))

-- `raw[:-2]` where `raw.endswith("[]")`
unfoldable pub drop_brackets : String → Option String
drop_brackets raw = elim (drop_last b']' raw) [
  | none ↦ none
  | some shorter ↦ drop_last b'[' shorter
]

-- The depth is the number of opening brackets less that of closing ones, which may be negative.
unfoldable pub opened_after : ℕ → ℕ → ℕ
opened_after c opened = if eqb c b'<' || eqb c b'(' then suc opened else opened

unfoldable pub closed_after : ℕ → ℕ → ℕ
closed_after c closed = if eqb c b'>' || eqb c b')' then suc closed else closed

unfoldable pub top_pieces : ℕ → ℕ → String → String × List String
top_pieces opened closed String.[] = (String.[], [])
top_pieces opened closed (String.◌∷◌ d s) =
    let opened' = opened_after (code d) opened in
    let closed' = closed_after (code d) closed in
    let later = top_pieces opened' closed' s in
    if eqb (code d) b',' && eqb opened' closed' then break later else glue d later

-- `[p.strip() for p in parts if p.strip()]`
unfoldable pub stripped : List String → List String
stripped [] = []
stripped (p ∷ parts) =
    let rest = stripped parts in if nonempty (strip p) then strip p ∷ rest else rest

unfoldable pub split_top_level : String → List String
unfolding opened_after closed_after top_pieces stripped
split_top_level text = let (word, rest) = top_pieces 0 0 text in stripped (word ∷ rest)

-- The head and the arguments once an opening bracket is found between `before` and `after`.
unfoldable pub bracketed : ℕ → String → String → String → String × List String
bracketed close_ch text before after = elim (drop_last close_ch (rstrip after)) [
  | none ↦ (strip text, [])
  | some inner ↦ (strip before, split_top_level inner)
]

unfoldable pub split_head_args : String → String × List String
unfolding bracketed
split_head_args text = elim (cut b'<' text) [
  | some (before, after) ↦ bracketed b'>' text before after
  | none ↦ elim (cut b'(' text) [
    | some (before, after) ↦ bracketed b')' text before after
    | none ↦ (strip text, [])
  ]
]

split_head_args_example :
    split_head_args "map<int, array<int>>" ≡ ("map", "int" ∷ "array<int>" ∷ [])
unfolding split_head_args split_top_level cut drop_last strip lstrip rstrip is_space nonempty
    string_eq
split_head_args_example = refl
