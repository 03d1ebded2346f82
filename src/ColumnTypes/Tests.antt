-- ===== src/ColumnTypes/Tests.antt =====
-- Column types at concrete texts.
use minilake.Prelude.{
  String, ◌<◌, ◌≡◌, refl, none, some, ◌==◌, string_eq, nonempty, if◌then◌else◌, arith,
}
use minilake.Prelude.Dict.{get}
use minilake.Text.{strip, show, join}
use minilake.Text.Numbers.{parse_int}
use minilake.Errors.{Result, ok, raised}
use minilake.ColumnTypes.Parser.{
  Attempt, normalize_column_type, parse_type, parse_with, parse_head, parse_struct, parse_array,
  parse_decimal, parse_scalar, fields_of, field_of, struct_of, decimal_of, decimal_args, scalar_of,
  ddl_parts, canon_parts, spark_fields, ◌>>=◌,
}
use minilake.ColumnTypes.Specs.{Parsed, named, array, struct, no_fields, field, bad_type, array_of}
use minilake.ColumnTypes.Splitting.{
  size, cut, partition, drop_last, drop_brackets, split_head_args, split_top_level,
}
use minilake.ColumnTypes.Returns.{normalize_column_type-returns}

abbrev upper : String → String
upper s =
    if s == "struct"
    then "STRUCT"
    else if s == "int"
    then "INT"
    else if s == "array"
    then "ARRAY"
    else if s == "decimal"
    then "DECIMAL"
    else s

abbrev lower : String → String
lower s = s

abbrev nested : String
nested = "struct<a:int, b:array<decimal(4,2)>>"

nested_example :
    normalize_column_type upper lower "c" nested
    ≡ some (
        ok (record {
          duckdb = "STRUCT(\"a\" INTEGER, \"b\" DECIMAL(4,2)[])";
          type_name = "STRUCT";
          canonical = "struct<a:int,b:array<decimal(4,2)>>";
          spark_json =
              struct
                (field "a" (named "integer") (field "b" (array (named "decimal(4,2)")) no_fields));
          precision = none;
          scale = none;
        }))
unfolding normalize_column_type parse_type parse_with nonempty string_eq strip drop_brackets
    drop_last parse_head split_head_args cut split_top_level ◌>>=◌ size get parse_scalar parse_array
    parse_struct fields_of field_of partition parse_decimal decimal_args parse_int decimal_of show
    scalar_of struct_of ddl_parts canon_parts spark_fields array_of join
nested_example = refl

unknown_example :
    normalize_column_type upper lower "" "array<huge>"
    ≡ some (raised (bad_type "huge" "" "unknown type 'huge'"))
unfolding normalize_column_type parse_type parse_with nonempty string_eq strip drop_brackets
    drop_last parse_head split_head_args cut split_top_level ◌>>=◌ size get parse_scalar parse_array
unknown_example = refl

abbrev duckdb_of : Attempt Parsed → String
duckdb_of (some (ok parsed)) = parsed.duckdb
duckdb_of _ = ""

-- The name of a field goes into the DDL as it is, with its quotes.
quote_example :
    duckdb_of (normalize_column_type upper lower "c" "struct<a\" int \"b:int>")
    ≡ "STRUCT(\"a\" int \"b\" INTEGER)"
unfolding normalize_column_type parse_type parse_with nonempty string_eq strip drop_brackets
    drop_last parse_head split_head_args cut split_top_level ◌>>=◌ size get parse_scalar
    parse_struct fields_of field_of partition scalar_of struct_of ddl_parts join
quote_example = refl

nested_size : size nested < 40
unfolding size
nested_size = omega arith

normalize_column_type-returns_example :
    ((r : Result Parsed) × (normalize_column_type upper lower "c" nested ≡ some r))
    × (parse_type upper lower "c" 40 nested ≡ normalize_column_type upper lower "c" nested)
normalize_column_type-returns_example =
    normalize_column_type-returns upper lower "c" nested 40 nested_size
