-- ===== src/UnityCatalog/Description.antt =====
-- The columns that a table is answered with: those that DuckDB or the Delta log has, with what the
-- registry declares of them. A key that a described column lacks is none, the default of the answer.
use minilake.Prelude.{
  ℕ, zero, suc, String, Bool, Option, none, some, List, [], ◌∷◌, ◌==◌, string_eq, is_empty,
  nonempty, if◌then◌else◌,
}
use minilake.Prelude.Int.{ℤ}
use minilake.Prelude.Dict.{Dict, get, put}
use minilake.Errors.{Result, api, ok, raised}
use minilake.ColumnTypes.Parser.{normalize_column_type}
use minilake.ColumnTypes.Specs.{SparkType, Parsed}
use minilake.UnityCatalog.State.{Column}
use minilake.UnityCatalog.Columns.{parsed}

-- A column as DuckDB or the Delta log describes it.
pub record PhysicalColumn : Type 0 where
  pub name : String
  pub type_text : String
  pub nullable : Bool

-- The types of a column in an answer
pub record TypeInfo : Type 0 where
  pub type_text : String
  pub type_name : Option String
  pub type_precision : Option ℤ
  pub type_scale : Option ℤ
  pub type_json : Option SparkType

pub record DescribedColumn : Type 0 where
  pub name : String
  pub type_info : TypeInfo
  pub position : ℕ
  pub nullable : Bool
  pub comment : Option String

unfoldable pub info_of : Parsed → TypeInfo
info_of spec = record {
  type_text = spec.canonical;
  type_name = some spec.type_name;
  type_precision = spec.precision;
  type_scale = spec.scale;
  type_json = some spec.spark_json;
}

-- The spelling of DuckDB, for a type without an equivalent.
unfoldable pub raw_info : String → TypeInfo
raw_info raw_type = record {
  type_text = raw_type;
  type_name = none;
  type_precision = none;
  type_scale = none;
  type_json = none;
}

-- A declared column as it is answered where there is no physical schema.
unfoldable pub declared_only : List Column → List DescribedColumn
declared_only [] = []
declared_only (c ∷ declared) =
    record {
      name = c.name;
      type_info = record {
        type_text = c.type_text;
        type_name = some c.type_name;
        type_precision = c.type_precision;
        type_scale = c.type_scale;
        type_json = some c.type_json;
      };
      position = c.position;
      nullable = c.nullable;
      comment = c.comment;
    }
    ∷ declared_only declared

-- `{c["name"]: c for c in declared}`, added to a dict
unfoldable pub by_name : Dict String Column → List Column → Dict String Column
by_name d [] = d
by_name d (c ∷ declared) = by_name (put d c.name c) declared

-- The declared type where it fits; a `DatabricksError` leaves the physical one.
unfoldable pub fitting : Parsed → Result Parsed → Result Parsed
fitting physical (ok declared) =
    ok (if declared.duckdb == physical.duckdb then declared else physical)
fitting physical (raised (api _)) = ok physical
fitting physical (raised x) = raised x

-- `except DatabricksError` of the loop
unfoldable pub or_raw : String → Result Parsed → Result TypeInfo
unfolding info_of raw_info
or_raw raw_type (ok spec) = ok (info_of spec)
or_raw raw_type (raised (api _)) = ok (raw_info raw_type)
or_raw raw_type (raised x) = raised x

abbrev pub declared_type : Option Column → String
declared_type none = ""
declared_type (some c) = c.type_text

abbrev pub declared_comment : Option Column → Option String
declared_comment none = none
declared_comment (some c) = c.comment

abbrev pub described_column : ℕ → PhysicalColumn → Option Column → TypeInfo → DescribedColumn
described_column position column declared_column info = record {
  name = column.name;
  type_info = info;
  position = position;
  nullable = column.nullable;
  comment = declared_comment declared_column;
}

-- One round of the loop, with what the later rounds give.
unfoldable pub appended :
    (TypeInfo → DescribedColumn)
    → Result TypeInfo
    → Result (List DescribedColumn)
    → Result (List DescribedColumn)
appended described (raised x) later = raised x
appended described (ok info) (raised x) = raised x
appended described (ok info) (ok columns) = ok (described info ∷ columns)

module _ (upper : String → String) (lower : String → String) where
  -- `declared_type_text` is empty where it is missing.
  unfoldable pub prefer_declared : Parsed → String → String → Result Parsed
  unfolding fitting parsed
  prefer_declared physical declared_type_text column =
      if nonempty declared_type_text
      then fitting physical (parsed (normalize_column_type upper lower column declared_type_text))
      else ok physical

  unfoldable pub described_type : PhysicalColumn → Option Column → Result TypeInfo
  unfolding prefer_declared or_raw parsed
  described_type column declared_column =
      or_raw column.type_text
        (elim (parsed (normalize_column_type upper lower column.name column.type_text)) [
          | ok spec ↦ prefer_declared spec (declared_type declared_column) column.name
          | raised x ↦ raised x
        ])

  -- The loop over the physical columns, from a position on.
  unfoldable pub merged :
      ℕ → Dict String Column → List PhysicalColumn → Result (List DescribedColumn)
  unfolding described_type appended
  merged position declared [] = ok []
  merged position declared (column ∷ actual) =
      let declared_column = get declared column.name in
      appended (described_column position column declared_column)
        (described_type column declared_column) (merged (suc position) declared actual)

  unfoldable pub describe_columns :
      List Column → List PhysicalColumn → Result (List DescribedColumn)
  unfolding merged declared_only by_name
  describe_columns declared actual =
      if is_empty actual
      then ok (declared_only declared)
      else merged zero (by_name [] declared) actual
