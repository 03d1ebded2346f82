-- ===== src/Statements/Chunks.antt =====
-- The chunks of a result: its manifest, its first chunk and the others.
pub mod Whole
use minilake.Prelude.{
  ℕ, zero, suc, ◌+◌, ◌*◌, String, ◌<>◌, Bool, true, false, not, ◌&&◌, Option, none, some, List, [],
  ◌∷◌, ◌==◌, string_eq, leb, length, is_empty, get_or, if◌then◌else◌,
}
use minilake.Prelude.Int.{ℤ, pos, negsuc}
use minilake.Prelude.Dict.{get}
use minilake.Text.{show}
use minilake.Paging.{take, drop, show_int}
use minilake.Errors.{Result, ok, raised, Exception, error}
use minilake.Statements.Model.{
  ColumnInfo, ExternalLink, ResultData, ChunkInfo, ResultManifest, Statement, State, Wire,
}

-- `_CHUNK_SIZE`
abbrev pub chunk_size : ℕ
chunk_size = 100000

-- `xs[i]` for an index that is not negative
abbrev pub nth {ℓ} : {A : Type ℓ} → List A → ℕ → Option A
nth [] i = none
nth (x ∷ xs) zero = some x
nth (x ∷ xs) (suc i) = nth xs i

-- `[rows[i : i + size] for i in range(start, len(rows), size)]`. The fuel is the number of rows.
unfoldable pub chunks_from {ℓ} : {A : Type ℓ} → ℕ → ℕ → ℕ → List A → List (List A)
chunks_from size zero start rows = []
chunks_from size (suc fuel) start rows =
    let later = chunks_from size fuel (start + size) rows in
    if leb (length rows) start then [] else take size (drop start rows) ∷ later

-- `… or [[]]`
abbrev pub or_one_empty {ℓ} : {A : Type ℓ} → List (List A) → List (List A)
or_one_empty [] = [] ∷ []
or_one_empty (c ∷ cs) = c ∷ cs

unfoldable pub chunks_of {ℓ} : {A : Type ℓ} → ℕ → List A → List (List A)
chunks_of size rows = or_one_empty (chunks_from size (length rows) 0 rows)

-- `types[i] if i < len(types) else None`
abbrev type_at : List (Option String) → ℕ → Option String
type_at types i = get_or (nth types i) none

unfoldable pub column_infos : ℕ → List String → List (Option String) → List ColumnInfo
column_infos i [] types = []
column_infos i (name ∷ names) types =
    record { name = name; type_text = type_at types i; type_name = type_at types i; position = i }
    ∷ column_infos (suc i) names types

unfoldable pub chunk_infos {ℓ} : {A : Type ℓ} → ℕ → ℕ → List (List A) → List ChunkInfo
chunk_infos size i [] = []
chunk_infos size i (chunk ∷ chunks) =
    record { chunk_index = i; row_offset = i * size; row_count = length chunk }
    ∷ chunk_infos size (suc i) chunks

-- The manifest for chunks of this size; `build_manifest` has the code's.
unfoldable pub manifest_of {ℓ} :
    {A : Type ℓ} → ℕ → List String → List A → String → List (Option String) → ResultManifest
manifest_of size columns rows fmt types = record {
  format = fmt;
  column_count = length (column_infos 0 columns types);
  columns = column_infos 0 columns types;
  total_chunk_count = length (chunks_of size rows);
  total_row_count = length rows;
  truncated = false;
  chunks = chunk_infos size 0 (chunks_of size rows);
}

unfoldable pub build_manifest {ℓ} :
    {A : Type ℓ} → List String → List A → String → List (Option String) → ResultManifest
build_manifest = manifest_of chunk_size

abbrev pub chunk_path : String → ℕ → String
chunk_path statement_id i =
    "/api/2.0/sql/statements/" <> statement_id <> "/result/chunks/" <> show i

abbrev pub not_found : String → Exception
not_found id = error "NOT_FOUND" ("Statement '" <> id <> "' not found") 404

abbrev pub no_chunk : String → ℤ → Exception
no_chunk id i =
    error "NOT_FOUND" ("Chunk " <> show_int i <> " not found for statement '" <> id <> "'") 404

-- `base` is the server's URL without a slash at its end.
module _ {Row Bytes : Type 0} (wire : Wire Row Bytes) (base : String) where
  -- The link of one chunk among so many.
  unfoldable pub link_of : String → ℕ → ℕ → List Row → Bytes → ExternalLink
  link_of id count i rows content = record {
    chunk_index = i;
    row_offset = i * chunk_size;
    row_count = length rows;
    byte_count = wire.size content;
    external_link = base <> chunk_path id i <> "/data";
    next_chunk_index = if leb count (suc i) then none else some (suc i);
    next_chunk_internal_link = if leb count (suc i) then none else some (chunk_path id (suc i));
  }

  unfoldable pub serialize_stored_chunk :
      List String → List String → List Row → String → ℕ → Bytes × String
  serialize_stored_chunk arrow columns rows fmt i =
      if fmt == "ARROW_STREAM" then stored (nth arrow i) else wire.serialize columns rows fmt
    where
      stored : Option String → Bytes × String
      stored none = wire.serialize columns rows fmt
      stored (some chunk) = (wire.decode chunk, "application/vnd.apache.arrow.stream")

  abbrev first_of : List (List Row) → List Row
  first_of chunks = get_or (nth chunks 0) []

  -- What the statement itself answers: every row, or a link to the first chunk.
  unfoldable pub build_result_data :
      String
      → List String
      → List Row
      → String
      → String
      → List (Option String)
      → List String
      → ResultData Row
  build_result_data id columns rows disposition fmt types arrow =
      if disposition == "EXTERNAL_LINKS" then linked (chunks_of chunk_size rows) else record {
        columns = some (column_infos 0 columns types);
        data_array = some rows;
        external_links = none;
        row_count = length rows;
        truncated = false;
      }
    where
      linked : List (List Row) → ResultData Row
      linked chunks =
          let content = (serialize_stored_chunk arrow columns (first_of chunks) fmt 0).0 in
          record {
            columns = some (column_infos 0 columns types);
            data_array = none;
            external_links = some (link_of id (length chunks) 0 (first_of chunks) content ∷ []);
            row_count = length rows;
            truncated = false;
          }

  abbrev chunk_at : List Row → ℤ → Option (List Row)
  chunk_at rows (pos i) = nth (chunks_of chunk_size rows) i
  chunk_at rows (negsuc i) = none

  abbrev index_of : ℤ → ℕ
  index_of (pos i) = i
  index_of (negsuc i) = 0

  unfoldable pub chunk_result : String → Statement Row → ℕ → List Row → ResultData Row
  chunk_result id stmt i rows =
      if stmt.disposition == "EXTERNAL_LINKS"
      then record {
        columns = none;
        data_array = none;
        external_links = some (
            link_of id (length (chunks_of chunk_size stmt.raw_rows)) i rows
              (serialize_stored_chunk stmt.raw_arrow_chunks stmt.raw_columns rows stmt.format i).0
            ∷ []);
        row_count = length rows;
        truncated = false;
      }
      else record {
        columns = some (column_infos 0 stmt.raw_columns stmt.raw_column_types);
        data_array = some rows;
        external_links = none;
        row_count = length rows;
        truncated = false;
      }

  unfoldable pub get_result_chunk : State Row → String → ℤ → Result (ResultData Row)
  get_result_chunk s id i = elim (get s id) [
    | none ↦ raised (not_found id)
    | some stmt ↦ elim (chunk_at stmt.raw_rows i) [
      | none ↦ raised (no_chunk id i)
      | some rows ↦ ok (chunk_result id stmt (index_of i) rows)
    ]
  ]

  unfoldable pub get_result_chunk_data : State Row → String → ℤ → Result (Bytes × String)
  get_result_chunk_data s id i = elim (get s id) [
    | none ↦ raised (not_found id)
    | some stmt ↦ elim (chunk_at stmt.raw_rows i) [
      | none ↦ raised (no_chunk id i)
      | some rows ↦ ok (
          serialize_stored_chunk stmt.raw_arrow_chunks stmt.raw_columns rows stmt.format
            (index_of i))
    ]
  ]
