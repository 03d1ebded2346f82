-- ===== src/Names.antt =====
-- The display names of services/saved_queries.py and services/alerts.py: both keep objects with a
-- display name, and resolve a name that is taken with the same code.
pub mod Candidates
pub mod Fresh
use minilake.Prelude.{
  ℕ, zero, suc, String, ◌<>◌, Bool, true, false, not, ◌&&◌, Option, none, some, List, ◌==◌,
  string_eq, option_eq, any, length, nonempty, if◌then◌else◌,
}
use minilake.Prelude.Dict.{Dict, get, values}
use minilake.Text.{show}
use minilake.Json.{Value, null, bool, int, str, list, dict}

-- The fields of a stored object, and the objects by their id.
abbrev pub Fields : Type 0
Fields = Dict String Value

abbrev pub State : Type 0
State = Dict String Fields

-- Whether what a field holds equals an optional text.
unfoldable pub is_text : Option Value → Option String → Bool
is_text none none = true
is_text (some null) none = true
is_text (some (str s)) (some t) = s == t
is_text _ _ = false

unfoldable pub has_name : String → Option String → Fields → Bool
has_name name exclude fields =
    is_text (get fields "display_name") (some name) && not (is_text (get fields "id") exclude)

unfoldable pub name_taken : State → Option String → Option String → Bool
name_taken state none exclude = false
name_taken state (some name) exclude = nonempty name && any (has_name name exclude) (values state)

-- `f"{base} ({suffix})"`
unfoldable pub numbered : String → ℕ → String
numbered base suffix = base <> " (" <> show suffix <> ")"

-- `while …: suffix += 1`
unfoldable pub free_name : ℕ → State → String → ℕ → Option String → String
free_name zero state base suffix exclude = numbered base suffix
free_name (suc fuel) state base suffix exclude =
    let later = free_name fuel state base (suc suffix) exclude in
    if name_taken state (some (numbered base suffix)) exclude then later else numbered base suffix

-- `name or fallback`
unfoldable pub base_name : String → Option String → String
base_name fallback none = fallback
base_name fallback (some name) = if nonempty name then name else fallback

-- The fuel is the number of objects, which a taken name each would use up.
unfoldable pub resolve_name : String → State → Option String → Option String → String
unfolding base_name
resolve_name fallback state name exclude =
    let base = base_name fallback name in
    let free = free_name (length state) state base 1 exclude in
    if name_taken state (some base) exclude then free else base
