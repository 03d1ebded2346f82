-- ===== src/Names/Candidates.antt =====
-- The names that the resolution of a display name tries, and the stored names.
use minilake.Prelude.{
  ℕ, zero, suc, ◌+◌, ◌≤◌, ◌<◌, String, ◌<>◌, ◌≡◌, inl, inr, refl, sym, ap, ◌∙◌, true, Option, none,
  some, List, [], ◌∷◌, ◌==◌, string_eq, contains, length, any, Bool-cases, arith,
}
use minilake.Prelude.Dict.{get, values}
use minilake.Prelude.Members.{Distinct}
use minilake.Prelude.Int.{pos}
use minilake.Text.{show}
use minilake.Text.Numbers.{parse_int, parse_int-show}
use minilake.Json.{Value, null, bool, int, float, str, list, dict}
use minilake.Names.{Fields, State, is_text, has_name, name_taken, numbered}
use text.Mathlib.TextLemmas.{append_cancel_left, append_cancel_right}

show-injective : (m n : ℕ) → show m ≡ show n → m ≡ n
show-injective m n e = same m n (sym (parse_int-show m) ∙ ap parse_int e ∙ parse_int-show n)
  where
    same : (m n : ℕ) → some (pos m) ≡ some (pos n) → m ≡ n
    same m n h = cc h

pub numbered-injective : (base : String) (m n : ℕ) → numbered base m ≡ numbered base n → m ≡ n
unfolding numbered
numbered-injective base m n e = show-injective m n (
    append_cancel_right (show m) (show n) ")" (
      append_cancel_left " (" (show m <> ")") (show n <> ")")
        (append_cancel_left base (" (" <> show m <> ")") (" (" <> show n <> ")") e)))

abbrev text_of : Option Value → String
text_of (some (str s)) = s
text_of _ = ""

is_text-text_of : (v : Option Value) (s : String) → is_text v (some s) ≡ true → s ≡ text_of v
unfolding is_text
is_text-text_of none s h = absurd (cc h)
is_text-text_of (some null) s h = absurd (cc h)
is_text-text_of (some (bool _)) s h = absurd (cc h)
is_text-text_of (some (int _)) s h = absurd (cc h)
is_text-text_of (some (float _)) s h = absurd (cc h)
is_text-text_of (some (str t)) s h = ground (arith, h)
is_text-text_of (some (list _)) s h = absurd (cc h)
is_text-text_of (some (dict _)) s h = absurd (cc h)

abbrev name_text : Fields → String
name_text fields = text_of (get fields "display_name")

abbrev pub names : List Fields → List String
names [] = []
names (fields ∷ rest) = name_text fields ∷ names rest

pub length-names : (state : State) → length (names (values state)) ≡ length state
unfolding values
length-names [] = refl
length-names ((id, fields) ∷ state) = ap suc (length-names state)

has_name-name_text :
    (name : String) (exclude : Option String) (fields : Fields)
    → has_name name exclude fields ≡ true
    → name ≡ name_text fields
unfolding has_name
has_name-name_text name exclude fields h =
    is_text-text_of (get fields "display_name") name (ground (arith, h))

contains-any :
    (name : String) (exclude : Option String) (objects : List Fields)
    → any (has_name name exclude) objects ≡ true
    → contains (names objects) name ≡ true
contains-any name exclude [] h = absurd (cc h)
contains-any name exclude (fields ∷ rest) h =
    ground (arith, h, contains-any name exclude rest, has_name-name_text name exclude fields)

pub name_taken-contains :
    (state : State) (name : String) (exclude : Option String)
    → name_taken state (some name) exclude ≡ true
    → contains (names (values state)) name ≡ true
unfolding name_taken
name_taken-contains state name exclude h =
    contains-any name exclude (values state) (ground (arith, h))

-- The candidates from this suffix on.
abbrev pub candidates : String → ℕ → ℕ → List String
candidates base zero suffix = []
candidates base (suc n) suffix = numbered base suffix ∷ candidates base n (suc suffix)

pub length-candidates : (base : String) (n suffix : ℕ) → length (candidates base n suffix) ≡ n
length-candidates base zero suffix = refl
length-candidates base (suc n) suffix = ap suc (length-candidates base n (suc suffix))

pub contains-candidates :
    (base : String) (n suffix : ℕ) (name : String)
    → contains (candidates base n suffix) name ≡ true
    → (j : ℕ) × (suffix ≤ j) × (j < suffix + n) × (name ≡ numbered base j)
contains-candidates base zero suffix name h = absurd (cc h)
contains-candidates base (suc n) suffix name h = elim (Bool-cases (name == numbered base suffix)) [
  | inl same ↦ (suffix, omega arith, omega arith, ground (arith, same))
  | inr differ ↦
      let (j, low, high, e) =
        contains-candidates base n (suc suffix) name (ground (arith, h, differ)) in
      (j, omega arith, omega arith, e)
]

pub candidates-Distinct : (base : String) (n suffix : ℕ) → Distinct (candidates base n suffix)
candidates-Distinct base zero suffix = tt
candidates-Distinct base (suc n) suffix = (
  elim (Bool-cases (contains (candidates base n (suc suffix)) (numbered base suffix))) [
    | inr fresh ↦ fresh
    | inl found ↦
        let (j, low, high, e) =
          contains-candidates base n (suc suffix) (numbered base suffix) found in
        absurd (not_above (numbered-injective base suffix j e) low)
  ],
  candidates-Distinct base n (suc suffix),
)
  where
    not_above : {i j : ℕ} → i ≡ j → suc i ≤ j → ⊥
    not_above e h = omega arith
