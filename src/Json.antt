-- ===== src/Json.antt =====
-- The values of a Python dict that a request or a snapshot carries.
use minilake.Prelude.{String, Bool, true, false, Option, none, some, nonempty}
use minilake.Prelude.Int.{ℤ}

mutual
  pub data Value : Type 0 where
    null : Value
    bool : Bool → Value
    int : ℤ → Value
    -- a number with a fraction or an exponent, by its text
    float : String → Value
    str : String → Value
    list : Values → Value
    dict : Entries → Value

  pub data Values : Type 0 where
    no_values : Values
    value : Value → Values → Values

  pub data Entries : Type 0 where
    no_entries : Entries
    entry : String → Value → Entries → Entries

abbrev pub opt_str : Option String → Value
opt_str none = null
opt_str (some s) = str s

abbrev pub opt_int : Option ℤ → Value
opt_int none = null
opt_int (some n) = int n

abbrev pub opt_value : Option Value → Value
opt_value none = null
opt_value (some v) = v

-- `a or b` on two optional texts, where an empty text counts as absent
abbrev pub or_str : Option String → Option String → Option String
or_str none b = b
or_str (some s) b = elim (nonempty s) [ true ↦ some s | false ↦ b ]
