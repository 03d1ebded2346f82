-- ===== src/Statements/Tests.antt =====
-- Statements at concrete requests.
use minilake.Prelude.{
  ℕ, ◌-◌, ◌≤◌, String, ◌≡◌, refl, Bool, true, false, Option, none, some, List, [], ◌∷◌, ◌++◌,
  string_eq, length, nonempty,
}
use minilake.Prelude.Int.{pos}
use minilake.Prelude.Dict.{get}
use minilake.Paging.{drop}
use minilake.Warehouses
use minilake.Warehouses.{Warehouse, running}
use minilake.Statements.Model.{Statement, State, Wire, ExecuteStatementRequest, succeeded}
use minilake.Statements.Chunks.{build_manifest}
use minilake.Statements.Chunks.Whole.{read_chunks, read_chunks-build_manifest}
use minilake.Statements.Execution.{
  at_least_one, record_statement, rejected, Outcome, executed, execute_statement,
}
use minilake.Statements.Execution.Eviction.{record_statement-drop}
use minilake.Statements.History.Newest.{ShowsFirst, execute_statement-ShowsFirst}

abbrev entry : String → List ℕ → Statement ℕ
entry id rows = record {
  id = id;
  sql = "select 1";
  warehouse_id = "w";
  status = succeeded;
  result = none;
  raw_columns = "n" ∷ [];
  raw_column_types = some "INTEGER" ∷ [];
  raw_rows = rows;
  raw_arrow_chunks = [];
  row_count = length rows;
  disposition = "INLINE";
  format = "JSON_ARRAY";
  error_code = none;
  error_message = none;
  created_at = 1;
  started_at = 1;
  ended_at = 2;
}

abbrev cache : State ℕ
cache = ("s1", entry "s1" (7 ∷ 8 ∷ [])) ∷ ("s2", entry "s2" []) ∷ []

abbrev lengths : Wire ℕ ℕ
lengths = record {
  serialize = λ columns rows fmt. (length rows, "application/json");
  decode = λ s. 0;
  size = λ n. n;
}

read_chunks-build_manifest_example :
    read_chunks lengths "http://localhost" cache "s1"
      (build_manifest {A = ℕ} ("n" ∷ []) (7 ∷ 8 ∷ []) "JSON_ARRAY" (some "INTEGER" ∷ [])).chunks
    ≡ some (7 ∷ 8 ∷ [])
unfolding get string_eq
read_chunks-build_manifest_example =
    read_chunks-build_manifest lengths "http://localhost" cache "s1" (entry "s1" (7 ∷ 8 ∷ [])) refl
      refl

record_statement-drop_example :
    (record_statement (pos 2) (entry "s3" []) cache
      ≡ drop (3 - at_least_one (pos 2)) (cache ++ ("s3", entry "s3" []) ∷ []))
    × (length (record_statement (pos 2) (entry "s3" []) cache) ≤ at_least_one (pos 2))
    × (get (record_statement (pos 2) (entry "s3" []) cache) "s3" ≡ some (entry "s3" []))
unfolding get string_eq
record_statement-drop_example = record_statement-drop (pos 2) (entry "s3" []) cache refl

abbrev known_warehouse : Warehouse
known_warehouse = record {
  id = "w";
  name = "w";
  cluster_size = "2X-Small";
  state = running;
  comment = none;
  created_at = 0;
  updated_at = 0;
  auto_stop_mins = pos 10;
  min_num_clusters = pos 1;
  max_num_clusters = pos 1;
  num_clusters = pos 1;
  enable_photon = true;
  enable_serverless_compute = false;
  spot_instance_policy = "COST_OPTIMIZED";
  warehouse_type = "PRO";
  creator_name = "minilake-user";
  odbc_path = "/sql/1.0/warehouses/w";
}

abbrev one_warehouse : Warehouses.State
one_warehouse = record {
  warehouses = ("w", known_warehouse) ∷ [];
  has_pool = false;
  connections = [];
}

abbrev request : ExecuteStatementRequest
request = record {
  warehouse_id = "w";
  statement = "select 1";
  catalog = none;
  schema_name = none;
  disposition = none;
  format = some "JSON_ARRAY";
}

abbrev run_sql : String → String → Option String → Option String → Bool → Outcome ℕ
run_sql warehouse sql catalog schema arrow = executed ("1" ∷ []) (some "INTEGER" ∷ []) (1 ∷ []) []

passes : rejected one_warehouse request ≡ none
unfolding rejected get string_eq nonempty
passes = refl

execute_statement-ShowsFirst_example :
    ShowsFirst lengths "http://localhost"
      (pos 2)
      (λ sql. some "SELECT")
      (λ text. none)
      "s3"
      4
      5
      request
      cache
      (execute_statement lengths "http://localhost"
        (pos 2)
        "s3"
        4
        5
        request
        one_warehouse
        run_sql
        cache)
unfolding get string_eq
execute_statement-ShowsFirst_example =
    execute_statement-ShowsFirst lengths "http://localhost" (pos 2) (λ sql. some "SELECT")
      (λ text. none) "s3" 4 5 request cache one_warehouse run_sql passes refl
