-- ===== src/UnityCatalog/Columns.antt =====
-- The columns that a request for a table declares. `upper` and `lower` are the methods of `str`, and
-- `type_json` is kept before json.dumps.
use minilake.Prelude.{
  ℕ, suc, String, ◌<>◌, Bool, ◌&&◌, Option, none, some, List, [], ◌∷◌, ◌==◌, string_eq, get_or,
  is_some, nonempty, if◌then◌else◌,
}
use minilake.Prelude.Int.{ℤ, pos}
use minilake.Paging.{show_int}
use minilake.Errors.{Result, ok, raised, error, value_error}
use minilake.ColumnTypes.Parser.{Attempt, normalize_column_type}
use minilake.ColumnTypes.Specs.{Parsed, validate_identifier}
use minilake.UnityCatalog.State.{Column}

-- models/unity_catalog.py's `ColumnInfo` in a request
pub record ColumnInfo : Type 0 where
  pub name : String
  pub type_text : Option String
  pub type_name : Option String
  pub type_precision : Option ℤ
  pub type_scale : Option ℤ
  pub nullable : Bool
  pub comment : Option String

abbrev pub given : Option String → String
given none = ""
given (some s) = s

-- The ends of a parse. That it is out of fuel is an end of its own here.
unfoldable pub parsed : Attempt Parsed → Result Parsed
parsed none = raised (value_error "out of fuel")
parsed (some r) = r

-- The columns of a table and, beside each, its DDL.
abbrev pub Columns : Type 0
Columns = List (Column × String)

unfoldable pub column_defs : Columns → List String
column_defs [] = []
column_defs ((c, ddl) ∷ columns) = ("\"" <> c.name <> "\" " <> ddl) ∷ column_defs columns

unfoldable pub without_ddl : Columns → List Column
without_ddl [] = []
without_ddl ((c, ddl) ∷ columns) = c ∷ without_ddl columns

module _ (upper : String → String) (lower : String → String) where
  unfoldable pub resolved_type_text : ColumnInfo → Result String
  resolved_type_text c =
      if nonempty (given c.type_text)
      then ok (given c.type_text)
      else if nonempty (given c.type_name)
      then (if upper (given c.type_name) == "DECIMAL" && is_some c.type_precision
          then ok (
              "DECIMAL("
              <> show_int (get_or c.type_precision (pos 0))
              <> ","
              <> show_int (get_or c.type_scale (pos 0))
              <> ")")
          else ok (given c.type_name))
      else raised (
          error "INVALID_REQUEST" ("Column '" <> c.name <> "' needs either type_text or type_name")
            400)

  -- One round of the loop over the columns.
  unfoldable pub described : ℕ → ColumnInfo → Result (Column × String)
  unfolding resolved_type_text parsed
  described position c = elim (resolved_type_text c) [
    | raised x ↦ raised x
    | ok text ↦ elim (parsed (normalize_column_type upper lower c.name text)) [
      | raised x ↦ raised x
      | ok spec ↦ elim (validate_identifier c.name "column") [
        | raised x ↦ raised x
        | ok _ ↦ ok (
          record {
            name = c.name;
            type_text = spec.canonical;
            type_name = spec.type_name;
            type_precision = spec.precision;
            type_scale = spec.scale;
            type_json = spec.spark_json;
            position = position;
            nullable = c.nullable;
            comment = c.comment;
          },
          spec.duckdb,
        )
      ]
    ]
  ]

  unfoldable pub describe_all : ℕ → List ColumnInfo → Result Columns
  unfolding described
  describe_all position [] = ok []
  describe_all position (c ∷ cs) =
      let later = describe_all (suc position) cs in
      elim (described position c) [
        | raised x ↦ raised x
        | ok column ↦ elim later [ raised x ↦ raised x | ok columns ↦ ok (column ∷ columns) ]
      ]
