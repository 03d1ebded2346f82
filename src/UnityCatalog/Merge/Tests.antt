-- ===== src/UnityCatalog/Merge/Tests.antt =====
-- The description of a table with a column of a type that is declared and one that DuckDB alone has.
use minilake.Prelude.{
  String, ◌≡◌, refl, true, none, some, List, [], ◌∷◌, ◌==◌, string_eq, nonempty, if◌then◌else◌,
}
use minilake.Errors.{Result, ok, raised}
use minilake.Prelude.Dict.{get, put}
use minilake.Text.{strip}
use minilake.ColumnTypes.Parser.{
  normalize_column_type, parse_type, parse_with, parse_head, parse_scalar, scalar_of,
}
use minilake.ColumnTypes.Splitting.{cut, drop_brackets, drop_last, split_head_args}
use minilake.ColumnTypes.Specs.{named}
use minilake.UnityCatalog.State.{Column}
use minilake.UnityCatalog.Description.{PhysicalColumn, DescribedColumn, describe_columns}
use minilake.UnityCatalog.Merge.{Describes, describe_columns-Describes}

abbrev upper : String → String
upper s = if s == "timestamp_ntz" then "TIMESTAMP_NTZ" else s

abbrev lower : String → String
lower s = s

abbrev declared : List Column
declared =
    record {
      name = "a";
      type_text = "timestamp_ntz";
      type_name = "TIMESTAMP_NTZ";
      type_precision = none;
      type_scale = none;
      type_json = named "timestamp_ntz";
      position = 0;
      nullable = true;
      comment = some "when";
    }
    ∷ []

abbrev first : PhysicalColumn
first = record { name = "a"; type_text = "TIMESTAMP"; nullable = true }

abbrev second : PhysicalColumn
second = record { name = "b"; type_text = "HUGEINT"; nullable = true }

abbrev type_texts : Result (List DescribedColumn) → List String
type_texts (raised x) = []
type_texts (ok []) = []
type_texts (ok (c ∷ columns)) = c.type_info.type_text ∷ type_texts (ok columns)

spelling_example :
    type_texts (describe_columns upper lower declared (first ∷ second ∷ []))
    ≡ "timestamp_ntz" ∷ "HUGEINT" ∷ []
unfolding describe_columns normalize_column_type parse_type parse_with nonempty string_eq strip
    drop_brackets drop_last parse_head split_head_args cut parse_scalar get put scalar_of
spelling_example = refl

describe_columns-Describes_example :
    (columns : List DescribedColumn) × ((describe_columns upper lower declared (first ∷ second ∷ [])
        ≡ ok columns)
      × Describes upper lower declared 0 (first ∷ second ∷ []) columns)
describe_columns-Describes_example =
    describe_columns-Describes upper lower declared first (second ∷ [])
