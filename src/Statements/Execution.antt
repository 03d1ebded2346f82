-- ===== src/Statements/Execution.antt =====
-- The cache of executed statements, and the handlers that execute, answer and cancel one.
pub mod Eviction
pub mod Cancellation
use minilake.Prelude.{
  ℕ, zero, suc, String, ◌<>◌, Bool, true, false, not, ◌&&◌, ◌||◌, Option, none, some, List, [], ◌∷◌,
  ◌==◌, string_eq, leb, length, contains, nonempty, get_or, if◌then◌else◌,
}
use minilake.Prelude.Int.{ℤ, pos, negsuc}
use minilake.Prelude.Dict.{Dict, get, put, has}
use minilake.Errors.{
  Exec, Exception, DatabricksError, api, Result, ok, raised, pure, raise, gets, or_raise, ◌>>=◌,
  ◌>>◌, modify, raise_if, error,
}
use minilake.Warehouses
use minilake.Statements.Model.{
  StatementState, succeeded, failed, canceled, ResultData, ResultManifest, ExecuteStatementRequest,
  Statement, State, Wire,
}
use minilake.Statements.Chunks.{build_manifest, build_result_data, not_found}

-- `max(1, n)`
abbrev pub at_least_one : ℤ → ℕ
at_least_one (pos zero) = 1
at_least_one (pos (suc n)) = suc n
at_least_one (negsuc n) = 1

-- `while len(statements) > limit: del statements[next(iter(statements))]`
unfoldable pub evict {ℓ} : {A : Type ℓ} → ℕ → List A → List A
evict limit [] = []
evict limit (x ∷ xs) =
    let rest = evict limit xs in if leb (length (x ∷ xs)) limit then x ∷ xs else rest

-- `cache_size` is `settings.statement_cache_size`.
unfoldable pub record_statement : {Row : Type 0} → ℤ → Statement Row → State Row → State Row
record_statement cache_size entry s = evict (at_least_one cache_size) (put s entry.id entry)

abbrev pub or_text : Option String → String → String
or_text none b = b
or_text (some s) b = if nonempty s then s else b

abbrev pub valid_formats : List String
valid_formats = "JSON_ARRAY" ∷ "ARROW_STREAM" ∷ "CSV" ∷ []

abbrev pub inline_only_formats : List String
inline_only_formats = "JSON_ARRAY" ∷ []

abbrev pub disposition_of : ExecuteStatementRequest → String
disposition_of req = or_text req.disposition "INLINE"

abbrev pub format_of : ExecuteStatementRequest → String
format_of req = or_text req.format "JSON_ARRAY"

-- The first guards of `execute_statement`, up to the execution.
unfoldable pub rejected : Warehouses.State → ExecuteStatementRequest → Option Exception
rejected warehouses req =
    let disposition = disposition_of req in
    let fmt = format_of req in
    if not (has warehouses.warehouses req.warehouse_id)
    then some (error "INVALID_REQUEST" ("Warehouse '" <> req.warehouse_id <> "' not found") 400)
    else if not (contains ("INLINE" ∷ "EXTERNAL_LINKS" ∷ []) disposition)
    then some
        (error "NOT_IMPLEMENTED" ("Disposition '" <> disposition <> "' is not implemented") 501)
    else if not (contains valid_formats fmt)
    then some (error "NOT_IMPLEMENTED" ("Format '" <> fmt <> "' is not implemented") 501)
    else if disposition == "INLINE" && not (contains inline_only_formats fmt)
    then some (
        error "INVALID_REQUEST"
          ("Format '" <> fmt
            <> "' requires disposition=EXTERNAL_LINKS (INLINE only supports JSON_ARRAY)")
          400)
    else none

-- How the execution of the SQL ends: with columns, their types, rows and Arrow chunks, with a
-- `DatabricksError`, or with another exception of this text.
pub data Outcome (Row : Type 0) : Type 0 where
  executed : List String → List (Option String) → List Row → List String → Outcome Row
  refused : DatabricksError → Outcome Row
  crashed : String → Outcome Row

pub record ExecuteStatementResponse (Row : Type 0) : Type 0 where
  pub statement_id : String
  pub state : StatementState
  pub manifest : ResultManifest
  pub result : ResultData Row

module _ {Row Bytes : Type 0} (wire : Wire Row Bytes) (base : String) (cache_size : ℤ) (id : String)
    (now ended : ℕ) (req : ExecuteStatementRequest) where
  unfoldable pub failed_entry : Option String → Option String → Statement Row
  failed_entry code message = record {
    id = id;
    sql = req.statement;
    warehouse_id = req.warehouse_id;
    status = failed;
    result = none;
    raw_columns = [];
    raw_column_types = [];
    raw_rows = [];
    raw_arrow_chunks = [];
    row_count = 0;
    disposition = disposition_of req;
    format = format_of req;
    error_code = code;
    error_message = message;
    created_at = now;
    started_at = now;
    ended_at = ended;
  }

  unfoldable pub record_failure : Option String → Option String → State Row → State Row
  record_failure code message s = record_statement cache_size (failed_entry code message) s

  unfoldable pub result_of :
      List String → List (Option String) → List Row → List String → ResultData Row
  result_of columns types rows arrow =
      build_result_data wire base id columns rows (disposition_of req) (format_of req) types arrow

  unfoldable pub succeeded_entry :
      List String → List (Option String) → List Row → List String → Statement Row
  succeeded_entry columns types rows arrow = record {
    id = id;
    sql = req.statement;
    warehouse_id = req.warehouse_id;
    status = succeeded;
    result = some (result_of columns types rows arrow);
    raw_columns = columns;
    raw_column_types = types;
    raw_rows = rows;
    raw_arrow_chunks = arrow;
    row_count = length rows;
    disposition = disposition_of req;
    format = format_of req;
    error_code = none;
    error_message = none;
    created_at = now;
    started_at = now;
    ended_at = ended;
  }

  -- What follows the execution.
  unfoldable pub finish_statement : Outcome Row → Exec (State Row) (ExecuteStatementResponse Row)
  finish_statement (executed columns types rows arrow) s = (
    ok (record {
      statement_id = id;
      state = succeeded;
      manifest = build_manifest columns rows (format_of req) types;
      result = result_of columns types rows arrow;
    }),
    record_statement cache_size (succeeded_entry columns types rows arrow) s,
  )
  finish_statement (refused e) s =
      (raised (api e), record_failure (some e.error_code) (some e.message) s)
  finish_statement (crashed text) s =
      let message = "Failed to execute statement: " <> text in
      (
        raised (error "INTERNAL_ERROR" message 500),
        record_failure (some "INTERNAL_ERROR") (some message) s,
      )

  -- `execute` runs the statement in a warehouse with a catalog and a schema, with an Arrow table if
  -- the last argument says so.
  unfoldable pub execute_statement :
      Warehouses.State
      → (String → String → Option String → Option String → Bool → Outcome Row)
      → Exec (State Row) (ExecuteStatementResponse Row)
  execute_statement warehouses execute s = elim (rejected warehouses req) [
    | some x ↦ (raised x, s)
    | none ↦
        finish_statement
          (execute req.warehouse_id req.statement req.catalog req.schema_name
            (format_of req == "ARROW_STREAM"))
          s
  ]

pub record GetStatementResponse (Row : Type 0) : Type 0 where
  pub statement_id : String
  pub state : StatementState
  pub error : Option (Option String × String)
  pub manifest : ResultManifest
  pub result : Option (ResultData Row)
  pub created_at : ℕ
  pub started_at : ℕ
  pub ended_at : ℕ

unfoldable pub response_of : {Row : Type 0} → String → Statement Row → GetStatementResponse Row
response_of id stmt = record {
  statement_id = id;
  state = stmt.status;
  error = failure stmt.error_code stmt.error_message;
  manifest = build_manifest stmt.raw_columns stmt.raw_rows stmt.format stmt.raw_column_types;
  result = stmt.result;
  created_at = stmt.created_at;
  started_at = stmt.started_at;
  ended_at = stmt.ended_at;
}
  where
    failure : Option String → Option String → Option (Option String × String)
    failure code none = none
    failure code (some message) = if nonempty message then some (code, message) else none

unfoldable pub get_statement :
    {Row : Type 0} → String → State Row → Result (GetStatementResponse Row)
get_statement id s = elim (get s id) [
  | none ↦ raised (not_found id)
  | some stmt ↦ ok (response_of id stmt)
]

unfoldable pub cancel_statement : {Row : Type 0} → ℕ → String → Exec (State Row) (Unit {0})
cancel_statement {Row} now id = do
  found ← gets (λ (s : State Row). get s id)
  stmt ← or_raise found (not_found id)
  modify (λ (s : State Row). put s id (record stmt { status = canceled; ended_at = now }))

unfoldable pub reset : {Row : Type 0} → State Row → State Row
reset s = []
