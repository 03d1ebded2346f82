-- ===== src/UnityCatalog/Tests.antt =====
-- The registry at concrete requests, with a pool that counts the statements that it runs.
use minilake.Prelude.{
  ℕ, suc, String, ◌≡◌, refl, Bool, true, false, none, some, List, [], ◌∷◌, ◌==◌, string_eq,
  nonempty, if◌then◌else◌,
}
use minilake.Prelude.Dict.{get, put, remove, keys}
use minilake.Errors.{raised}
use minilake.Names.{Fields}
use minilake.Text.{strip}
use minilake.Grants.{delete_grants_for_parent}
use minilake.ColumnTypes.Parser.{
  normalize_column_type, parse_type, parse_with, parse_head, parse_scalar, scalar_of,
}
use minilake.ColumnTypes.Specs.{validate_identifier, is_identifier}
use minilake.ColumnTypes.Splitting.{cut, drop_brackets, drop_last, split_head_args, size}
use minilake.UnityCatalog.State.{
  State, World, done, requiring, registered, look_up, with_pool, trying, or_error, outside,
  register, ◌then◌,
}
use minilake.UnityCatalog.Pool.{
  attach_catalog, detach_catalog, detach_attached, detach_checked, detach_file,
}
use minilake.UnityCatalog.Children.{
  not_empty_error, schema_has_registered_children, has_members, directory_has_children,
  remove_directory, catalog_removed, without_members, without_below,
}
use minilake.UnityCatalog.Catalogs.{
  CreateCatalogRequest, CreateSchemaRequest, create_catalog, create_schema, empty, new_catalog,
  new_schema,
}
use minilake.UnityCatalog.Removal.{delete_schema, delete_catalog, two_parts}
use minilake.UnityCatalog.Tables.{CreateTableRequest, create_table, new_table, is_external_delta}
use minilake.UnityCatalog.Columns.{without_ddl, column_defs, describe_all}
use minilake.UnityCatalog.Integrity.{IsIntegral, empty-IsIntegral}
use minilake.UnityCatalog.Requests
use minilake.UnityCatalog.Requests.{Request, step, run, run-IsIntegral}
use minilake.UnityCatalog.Deletion.Schemas
use minilake.UnityCatalog.Deletion.Catalogs

abbrev counting : World ℕ
counting = record {
  has_pool = λ w. true;
  execute = λ sql w. (done tt, suc w);
  attachment = λ name w. (done (some ("catalogs/c.duckdb", true)), w);
  catalog_has_children = λ name w. (done false, w);
  schema_has_children = λ c s w. (done false, w);
  table_exists = λ c s t w. (done false, w);
  backing_file = λ name. "catalogs/c.duckdb";
  resolved_file = λ name. "/data/catalogs/c.duckdb";
  unlink_file = λ name w. (done tt, w);
  entries = λ path w. [];
  exists = λ path w. false;
  make_dir = λ path w. (done tt, w);
  remove_tree = λ path w. (done tt, w);
  make_writable = λ path w. (done tt, w);
}

abbrev start : State ℕ
start = record { registry = empty []; world = 0 }

abbrev all_valid : Fields → Bool
all_valid f = true

abbrev upper : String → String
upper s = if s == "int" then "INT" else s

abbrev lower : String → String
lower s = s

abbrev sales : CreateCatalogRequest
sales = record { name = "sales"; comment = none; properties = none }

abbrev raw : CreateSchemaRequest
raw = record { name = "raw"; catalog_name = "sales"; comment = none; properties = none }

abbrev orders : CreateTableRequest
orders = record {
  name = "orders";
  catalog_name = "sales";
  schema_name = "raw";
  table_type = "MANAGED";
  data_source_format = none;
  storage_location = none;
  columns = some (
      record {
        name = "id";
        type_text = some "int";
        type_name = none;
        type_precision = none;
        type_scale = none;
        nullable = true;
        comment = none;
      }
      ∷ []);
  comment = none;
  properties = none;
}

abbrev requests : List Request
requests =
    Requests.creating_catalog 1 1 sales
    ∷ Requests.creating_schema 2 raw
    ∷ Requests.creating_table "t1" 3 orders
    ∷ Requests.deleting_schema "sales.raw" false
    ∷ []

abbrev filled : State ℕ
filled = run counting all_valid upper lower requests start

-- The deletion without force is refused, so that the table is still registered; with force the
-- deletion of the catalog takes it.
deletions_example :
    ((delete_schema counting upper "sales.raw" false filled).0
      ≡ raised (not_empty_error "Schema" "sales.raw"))
    × (keys filled.registry.tables ≡ "sales.raw.orders" ∷ [])
    × (keys (delete_catalog counting upper "sales" true filled).1.registry.tables ≡ [])
unfolding run step delete_schema create_table create_schema create_catalog delete_catalog empty
    requiring registered look_up with_pool trying or_error outside register attach_catalog
    detach_catalog detach_attached detach_checked detach_file ◌then◌ validate_identifier
    is_identifier get put remove keys string_eq nonempty two_parts cut
    schema_has_registered_children has_members directory_has_children remove_directory
    catalog_removed without_members without_below delete_grants_for_parent new_catalog new_schema
    new_table without_ddl column_defs describe_all normalize_column_type parse_type parse_with strip
    drop_brackets drop_last parse_head split_head_args size parse_scalar scalar_of is_external_delta
deletions_example = (refl, refl, refl)

run-IsIntegral_example : IsIntegral filled.registry
run-IsIntegral_example =
    run-IsIntegral counting all_valid upper lower requests start (empty-IsIntegral [])

-- Before the schema has a table, and before the catalog has a schema of its own.
abbrev early : State ℕ
early =
    run counting all_valid upper lower
      (Requests.creating_catalog 1 1 sales ∷ Requests.creating_schema 2 raw ∷ []) start

abbrev first : State ℕ
first = run counting all_valid upper lower (Requests.creating_catalog 1 1 sales ∷ []) start

delete_schema-Unforced_example :
    Schemas.Unforced counting upper "sales.raw" early
      (delete_schema counting upper "sales.raw" false early)
delete_schema-Unforced_example = Schemas.delete_schema-Unforced counting upper "sales.raw" early

delete_catalog-Unforced_example :
    Catalogs.Unforced counting upper "sales" first
      (delete_catalog counting upper "sales" false first)
delete_catalog-Unforced_example = Catalogs.delete_catalog-Unforced counting upper "sales" first
