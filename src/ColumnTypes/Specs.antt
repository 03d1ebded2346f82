-- ===== src/ColumnTypes/Specs.antt =====
-- What uc_types.py makes of a column type, and the names that it accepts.
use Prim.Native.Char.{code}
use minilake.Prelude.{
  ℕ, String, ◌<>◌, Bool, true, false, ◌&&◌, ◌||◌, Option, none, [], ◌∷◌, string_eq, eqb, leb,
  nonempty, if◌then◌else◌,
}
use minilake.Prelude.Int.{ℤ}
use minilake.Prelude.Dict.{Dict}
use minilake.Errors.{Exception, Result, ok, raised, error}

-- `type_json` of a type, before json.dumps.
mutual
  pub data SparkType : Type 0 where
    named : String → SparkType
    array : SparkType → SparkType
    map : (key_type : SparkType) (value_type : SparkType) → SparkType
    struct : SparkFields → SparkType

  pub data SparkFields : Type 0 where
    no_fields : SparkFields
    field : String → SparkType → SparkFields → SparkFields

pub record Parsed : Type 0 where
  pub duckdb : String
  pub type_name : String
  pub canonical : String
  pub spark_json : SparkType
  pub precision : Option ℤ
  pub scale : Option ℤ

-- `_SCALARS`
abbrev pub scalars : Dict String (String × String × String × String)
scalars =
    ("STRING", ("VARCHAR", "STRING", "string", "string"))
    ∷ ("VARCHAR", ("VARCHAR", "STRING", "string", "string"))
    ∷ ("TEXT", ("VARCHAR", "STRING", "string", "string"))
    ∷ ("CHAR", ("VARCHAR", "STRING", "string", "string"))
    ∷ ("INT", ("INTEGER", "INT", "integer", "int"))
    ∷ ("INTEGER", ("INTEGER", "INT", "integer", "int"))
    ∷ ("LONG", ("BIGINT", "LONG", "long", "bigint"))
    ∷ ("BIGINT", ("BIGINT", "LONG", "long", "bigint"))
    ∷ ("SHORT", ("SMALLINT", "SHORT", "short", "smallint"))
    ∷ ("SMALLINT", ("SMALLINT", "SHORT", "short", "smallint"))
    ∷ ("BYTE", ("TINYINT", "BYTE", "byte", "tinyint"))
    ∷ ("TINYINT", ("TINYINT", "BYTE", "byte", "tinyint"))
    ∷ ("FLOAT", ("FLOAT", "FLOAT", "float", "float"))
    ∷ ("REAL", ("FLOAT", "FLOAT", "float", "float"))
    ∷ ("DOUBLE", ("DOUBLE", "DOUBLE", "double", "double"))
    ∷ ("BOOLEAN", ("BOOLEAN", "BOOLEAN", "boolean", "boolean"))
    ∷ ("BOOL", ("BOOLEAN", "BOOLEAN", "boolean", "boolean"))
    ∷ ("DATE", ("DATE", "DATE", "date", "date"))
    ∷ ("TIMESTAMP", ("TIMESTAMP", "TIMESTAMP", "timestamp", "timestamp"))
    ∷ ("TIMESTAMP_NTZ", ("TIMESTAMP", "TIMESTAMP_NTZ", "timestamp_ntz", "timestamp_ntz"))
    ∷ ("BINARY", ("BLOB", "BINARY", "binary", "binary"))
    ∷ ("BLOB", ("BLOB", "BINARY", "binary", "binary"))
    ∷ ("INTERVAL", ("INTERVAL", "INTERVAL", "interval", "interval"))
    ∷ ("VARIANT", ("VARIANT", "VARIANT", "variant", "variant"))
    ∷ ("NULL", ("VARCHAR", "NULL", "void", "void"))
    ∷ []

is_letter : ℕ → Bool
is_letter c = leb b'A' c && leb c b'Z' || leb b'a' c && leb c b'z' || eqb c b'_'

is_word : String → Bool
unfolding is_letter
is_word String.[] = true
is_word (String.◌∷◌ d s) =
    (is_letter (code d) || leb b'0' (code d) && leb (code d) b'9') && is_word s

-- `_IDENTIFIER_RE.fullmatch(name)`
unfoldable pub is_identifier : String → Bool
unfolding is_letter is_word
is_identifier String.[] = false
is_identifier (String.◌∷◌ d s) = is_letter (code d) && is_word s

unfoldable pub validate_identifier : String → String → Result String
validate_identifier name kind =
    if is_identifier name
    then ok name
    else raised (
        error "INVALID_REQUEST"
          ("Invalid " <> kind <> " name '" <> name
            <> "': must start with a letter or underscore and contain only letters, digits and underscores")
          400)

abbrev pub bad_type : String → String → String → Exception
bad_type text column reason =
    error "INVALID_REQUEST"
      ("Unsupported column type '"
        <> text
        <> "'"
        <> (if nonempty column then " for column '" <> column <> "'" else "")
        <> ": "
        <> reason
        <> ". Supported: STRING, INT, LONG, SHORT, BYTE, FLOAT, DOUBLE, BOOLEAN, DATE, "
        <> "TIMESTAMP, TIMESTAMP_NTZ, BINARY, INTERVAL, VARIANT, DECIMAL(p,s), "
        <> "ARRAY<T>, MAP<K,V>, STRUCT<a:T,...> (DuckDB spellings also accepted)")
      400

unfoldable pub array_of : Parsed → Parsed
array_of element = record {
  duckdb = element.duckdb <> "[]";
  type_name = "ARRAY";
  canonical = "array<" <> element.canonical <> ">";
  spark_json = array element.spark_json;
  precision = none;
  scale = none;
}

unfoldable pub map_of : Parsed → Parsed → Parsed
map_of key value = record {
  duckdb = "MAP(" <> key.duckdb <> ", " <> value.duckdb <> ")";
  type_name = "MAP";
  canonical = "map<" <> key.canonical <> "," <> value.canonical <> ">";
  spark_json = map key.spark_json value.spark_json;
  precision = none;
  scale = none;
}
