-- ===== src/ColumnTypes/Parser.antt =====
-- The parser of uc_types.py. `upper` and `lower` are `str.upper` and `str.lower`; `int(text)` reads
-- ASCII digits, and the depth of Python's recursion is not limited.
use minilake.Prelude.{
  ℕ, zero, suc, String, ◌<>◌, ◌&&◌, ◌||◌, Option, none, some, List, [], ◌∷◌, ◌==◌, string_eq,
  nonempty, if◌then◌else◌,
}
use minilake.Prelude.Int.{ℤ, pos}
use minilake.Prelude.Dict.{get}
use minilake.Text.{strip, join}
use minilake.Text.Numbers.{parse_int}
use minilake.Paging.{show_int}
use minilake.Errors.{Result, ok, raised}
use minilake.ColumnTypes.Splitting.{partition, size, partition, drop_brackets, split_head_args}
use minilake.ColumnTypes.Specs.{
  SparkFields, Parsed, named, struct, no_fields, field, scalars, bad_type, array_of, map_of,
}

-- A parse on fuel: none where the fuel is used up.
abbrev pub Attempt {ℓ} : Type ℓ → Type ℓ
Attempt A = Option (Result A)

abbrev pub pure {ℓ} : {A : Type ℓ} → A → Attempt A
pure a = some (ok a)

infixl 5 ◌>>=◌
unfoldable pub ◌>>=◌ {ℓ κ} : {A : Type ℓ} {B : Type κ} → Attempt A → (A → Attempt B) → Attempt B
none >>= f = none
(some (ok a)) >>= f = f a
(some (raised x)) >>= f = some (raised x)

-- The name and the type of one field of a STRUCT, written with a colon or with a space.
unfoldable pub field_of : String → Option (String × String)
field_of arg =
    let (colon_name, colon_text) = partition b':' arg in
    let (name, text) =
      if nonempty colon_text then (colon_name, colon_text) else partition b' ' (strip arg) in
    if nonempty (strip name) && nonempty (strip text) then some (strip name, strip text) else none

abbrev pub Fields : Type 0
Fields = List (String × Parsed)

unfoldable pub ddl_parts : Fields → List String
ddl_parts [] = []
ddl_parts ((name, f) ∷ fields) = ("\"" <> name <> "\" " <> f.duckdb) ∷ ddl_parts fields

unfoldable pub canon_parts : Fields → List String
canon_parts [] = []
canon_parts ((name, f) ∷ fields) = (name <> ":" <> f.canonical) ∷ canon_parts fields

unfoldable pub spark_fields : Fields → SparkFields
spark_fields [] = no_fields
spark_fields ((name, f) ∷ fields) = field name f.spark_json (spark_fields fields)

unfoldable pub struct_of : Fields → Parsed
struct_of fields = record {
  duckdb = "STRUCT(" <> join ", " (ddl_parts fields) <> ")";
  type_name = "STRUCT";
  canonical = "struct<" <> join "," (canon_parts fields) <> ">";
  spark_json = struct (spark_fields fields);
  precision = none;
  scale = none;
}

-- `_decimal_args`: the precision and the scale.
unfoldable pub decimal_args : List String → String → String → Result (ℤ × ℤ)
decimal_args [] text column = ok (pos 10, pos 0)
decimal_args (p ∷ rest) text column =
    let scale : Option ℤ = elim rest [ [] ↦ some (pos 0) | s ∷ more ↦ parse_int (strip s) ] in
    elim (parse_int (strip p)) [
      | none ↦ raised (bad_type text column "DECIMAL precision and scale must be integers")
      | some precision ↦ elim scale [
        | none ↦ raised (bad_type text column "DECIMAL precision and scale must be integers")
        | some scale ↦ elim rest [
          | s ∷ more ∷ others ↦ raised (bad_type text column "DECIMAL takes at most two arguments")
          | _ ↦ ok (precision, scale)
        ]
      ]
    ]

unfoldable pub decimal_of : ℤ × ℤ → Parsed
decimal_of (precision, scale) =
    let arguments = "(" <> show_int precision <> "," <> show_int scale <> ")" in
    record {
      duckdb = "DECIMAL" <> arguments;
      type_name = "DECIMAL";
      canonical = "decimal" <> arguments;
      spark_json = named ("decimal" <> arguments);
      precision = some precision;
      scale = some scale;
    }

-- The `type_text` of a CHAR or VARCHAR with arguments keeps the first of them.
unfoldable pub scalar_of :
    (String → String) → String → List String → String × String × String × String → Parsed
scalar_of lower kind args (duckdb, type_name, spark_json, canonical) =
    let plain : Parsed = record {
      duckdb = duckdb;
      type_name = type_name;
      canonical = canonical;
      spark_json = named spark_json;
      precision = none;
      scale = none;
    } in
    elim args [
      | [] ↦ plain
      | arg ∷ rest ↦
          if kind == "CHAR" || kind == "VARCHAR"
          then record plain { canonical = lower kind <> "(" <> strip arg <> ")" }
          else plain
    ]

-- The types of the fields, in the order of the text: the first that is malformed raises.
unfoldable pub fields_of :
    (String → Attempt Parsed) → String → String → List String → Attempt Fields
fields_of parse text column [] = pure []
fields_of parse text column (arg ∷ args) =
    let later = fields_of parse text column args in
    elim (field_of arg) [
      | none ↦ some (raised (bad_type text column ("malformed STRUCT field '" <> strip arg <> "'")))
      | some (name, field_text) ↦ do f ← parse field_text; fields ← later; pure ((name, f) ∷ fields)
    ]

module _ (upper : String → String) (lower : String → String) (column : String) where
  unfoldable pub parse_array : (String → Attempt Parsed) → String → List String → Attempt Parsed
  parse_array parse text (element ∷ []) = do e ← parse element; pure (array_of e)
  parse_array parse text args =
      some (raised (bad_type text column "ARRAY takes exactly one element type"))

  unfoldable pub parse_map : (String → Attempt Parsed) → String → List String → Attempt Parsed
  parse_map parse text (key ∷ value ∷ []) = do k ← parse key; v ← parse value; pure (map_of k v)
  parse_map parse text args =
      some (raised (bad_type text column "MAP takes exactly two types: MAP<KEY,VALUE>"))

  unfoldable pub parse_struct : (String → Attempt Parsed) → String → List String → Attempt Parsed
  parse_struct parse text [] =
      some (raised (bad_type text column "STRUCT needs at least one field"))
  parse_struct parse text (arg ∷ args) = do
    fields ← fields_of parse text column (arg ∷ args)
    pure (struct_of fields)

  unfoldable pub parse_scalar : String → String → List String → Result Parsed
  parse_scalar text head args = elim (get scalars (upper head)) [
    | none ↦ raised (bad_type text column ("unknown type '" <> head <> "'"))
    | some scalar ↦ ok (scalar_of lower (upper head) args scalar)
  ]

  unfoldable pub parse_decimal : String → List String → Result Parsed
  parse_decimal text args = elim (decimal_args args text column) [
    | raised x ↦ raised x
    | ok arguments ↦ ok (decimal_of arguments)
  ]

  -- What follows once the text is split into its head and arguments.
  unfoldable pub parse_head :
      (String → Attempt Parsed) → String → String → List String → Attempt Parsed
  parse_head parse text head args =
      if upper head == "ARRAY"
      then parse_array parse text args
      else if upper head == "MAP"
      then parse_map parse text args
      else if upper head == "STRUCT"
      then parse_struct parse text args
      else if upper head == "DECIMAL" || upper head == "NUMERIC"
      then some (parse_decimal text args)
      else some (parse_scalar text head args)

  -- One call of `_parse`; `parse` stands for the calls that it makes.
  unfoldable pub parse_with : (String → Attempt Parsed) → String → Attempt Parsed
  parse_with parse text =
      if nonempty (strip text)
      then (elim (drop_brackets (strip text)) [
        | some inner ↦ do e ← parse inner; pure (array_of e)
        | none ↦ let (head, args) = split_head_args (strip text) in parse_head parse text head args
      ])
      else some (raised (bad_type text column "type is empty"))

  unfoldable pub parse_type : ℕ → String → Attempt Parsed
  parse_type zero text = none
  parse_type (suc fuel) text = parse_with (parse_type fuel) text

  -- Every text that is taken out of a text is shorter than it, so that its length is fuel enough.
  unfoldable pub normalize_column_type : String → Attempt Parsed
  normalize_column_type text = parse_type (suc (size text)) text
