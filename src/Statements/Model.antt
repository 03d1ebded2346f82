-- ===== src/Statements/Model.antt =====
-- The state of services/sql_statements.py and the records of models/sql.py that it makes.
use minilake.Prelude.{ℕ, String, Bool, Option, List, string_eq}
use minilake.Prelude.Dict.{Dict}

pub data StatementState : Type 0 where
  pending : StatementState
  running : StatementState
  succeeded : StatementState
  failed : StatementState
  canceled : StatementState
  closed : StatementState

pub record ColumnInfo : Type 0 where
  pub name : String
  pub type_text : Option String
  pub type_name : Option String
  pub position : ℕ

pub record ExternalLink : Type 0 where
  pub chunk_index : ℕ
  pub row_offset : ℕ
  pub row_count : ℕ
  pub byte_count : ℕ
  pub external_link : String
  pub next_chunk_index : Option ℕ
  pub next_chunk_internal_link : Option String

pub record ResultData (Row : Type 0) : Type 0 where
  pub columns : Option (List ColumnInfo)
  pub data_array : Option (List Row)
  pub external_links : Option (List ExternalLink)
  pub row_count : ℕ
  pub truncated : Bool

pub record ChunkInfo : Type 0 where
  pub chunk_index : ℕ
  pub row_offset : ℕ
  pub row_count : ℕ

pub record ResultManifest : Type 0 where
  pub format : String
  pub column_count : ℕ
  pub columns : List ColumnInfo
  pub total_chunk_count : ℕ
  pub total_row_count : ℕ
  pub truncated : Bool
  pub chunks : List ChunkInfo

pub record ExecuteStatementRequest : Type 0 where
  pub warehouse_id : String
  pub statement : String
  pub catalog : Option String
  pub schema_name : Option String
  pub disposition : Option String
  pub format : Option String

-- An entry of `_state["statements"]`
pub record Statement (Row : Type 0) : Type 0 where
  pub id : String
  pub sql : String
  pub warehouse_id : String
  pub status : StatementState
  pub result : Option (ResultData Row)
  pub raw_columns : List String
  pub raw_column_types : List (Option String)
  pub raw_rows : List Row
  pub raw_arrow_chunks : List String
  pub row_count : ℕ
  pub disposition : String
  pub format : String
  pub error_code : Option String
  pub error_message : Option String
  pub created_at : ℕ
  pub started_at : ℕ
  pub ended_at : ℕ

abbrev pub State : Type 0 → Type 0
State Row = Dict String (Statement Row)

-- What csv, json and pyarrow make of the rows of a chunk in a format, with its content type, and the
-- bytes of a stored Arrow chunk.
pub record Wire (Row : Type 0) (Bytes : Type 0) : Type 0 where
  pub serialize : List String → List Row → String → Bytes × String
  pub decode : String → Bytes
  pub size : Bytes → ℕ
