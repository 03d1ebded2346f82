-- ===== src/UnityCatalog/Tables.antt =====
-- The handlers on tables. `table_id` is drawn from `uuid`; `upper` and `lower` are the methods of
-- `str`.
use minilake.Prelude.{
  ℕ, String, ◌<>◌, Bool, true, false, not, ◌&&◌, ◌||◌, Option, List, [], ◌∷◌, ◌==◌, string_eq,
  get_or, is_empty, nonempty, if◌then◌else◌,
}
use minilake.Prelude.Dict.{Dict, get, has, put, remove}
use minilake.Text.{split, join}
use minilake.Errors.{Exec, Exception, Result, ok, raised, pure, lift, ◌>>=◌, ◌>>◌, raise_if, error}
use minilake.ColumnTypes.Specs.{validate_identifier}
use minilake.UnityCatalog.State.{
  Column, Table, ExternalTable, done, failed, World, State, trying, outside, registered, register,
  or_error, requiring, look_up, with_pool,
}
use minilake.UnityCatalog.Catalogs.{or_kept}
use minilake.UnityCatalog.Columns.{
  ColumnInfo, given, Columns, column_defs, without_ddl, describe_all,
}

pub record CreateTableRequest : Type 0 where
  pub name : String
  pub catalog_name : String
  pub schema_name : String
  pub table_type : String
  pub data_source_format : Option String
  pub storage_location : Option String
  pub columns : Option (List ColumnInfo)
  pub comment : Option String
  pub properties : Option (Dict String String)

pub record UpdateTableRequest : Type 0 where
  pub comment : Option String
  pub properties : Option (Dict String String)
  pub owner : Option String

-- `_split_three_part`; `label` is the kind with a capital.
unfoldable pub split_three_part : String → String → String → Result (String × String × String)
split_three_part full_name label kind = elim (split b'.' full_name) [
  | c ∷ s ∷ n ∷ [] ↦ ok (c, s, n)
  | _ ↦
      raised
        (error "INVALID_REQUEST" (label <> " name must be in format: catalog.schema." <> kind) 400)
]

abbrev pub table_not_found : String → Exception
table_not_found full_name = error "NOT_FOUND" ("Table '" <> full_name <> "' not found") 404

-- A name for three parts.
abbrev pub full_name_of : String → String → String → String
full_name_of catalog_name schema_name name = catalog_name <> "." <> schema_name <> "." <> name

unfoldable pub is_external_delta : (String → String) → CreateTableRequest → Bool
is_external_delta upper req =
    req.table_type == "EXTERNAL" && upper (given req.data_source_format) == "DELTA"

unfoldable pub new_table : String → ℕ → CreateTableRequest → List Column → Table
new_table table_id now req columns = record {
  name = req.name;
  catalog_name = req.catalog_name;
  schema_name = req.schema_name;
  full_name = full_name_of req.catalog_name req.schema_name req.name;
  table_id = table_id;
  table_type = req.table_type;
  data_source_format = req.data_source_format;
  storage_location = req.storage_location;
  comment = req.comment;
  columns = columns;
  properties = get_or req.properties [];
  owner = "minilake-user";
  created_at = now;
  updated_at = now;
}

unfoldable pub new_external_table : ℕ → CreateTableRequest → ExternalTable
new_external_table now req = record {
  name = req.name;
  catalog_name = req.catalog_name;
  schema_name = req.schema_name;
  storage_location = given req.storage_location;
  created_at = now;
}

module _ {W : Type 0} (world : World W) where
  -- `_managed_table_exists`: a failure counts as no.
  unfoldable pub managed_table_exists : String → String → String → Exec (State W) Bool
  managed_table_exists catalog_name schema_name table_name =
      with_pool world
        (do
          outcome ← trying (world.table_exists catalog_name schema_name table_name)
          pure (elim outcome [ done found ↦ found | failed _ ↦ false ]))
        (pure false)

  -- An EXTERNAL Delta table is registered only; its data stay where they are.
  unfoldable pub register_external : ℕ → CreateTableRequest → Exec (State W) (Unit {0})
  register_external now req = do
    raise_if (not (nonempty (given req.storage_location)))
        (error "INVALID_REQUEST" "EXTERNAL Delta tables require storage_location" 400)
    outside (world.make_writable (given req.storage_location))
    register (λ r. record r {
      external_tables =
          put r.external_tables (full_name_of req.catalog_name req.schema_name req.name)
            (new_external_table now req);
    })

  unfoldable pub create_managed : CreateTableRequest → Columns → Exec (State W) (Unit {0})
  create_managed req columns = do
    raise_if (is_empty columns) (
        error "INVALID_REQUEST"
          ("Table '"
            <> full_name_of req.catalog_name req.schema_name req.name
            <> "' requires at least one column")
          400)
    with_pool world
        (trying (
            world.execute (
              "CREATE TABLE \""
              <> req.catalog_name
              <> "\".\""
              <> req.schema_name
              <> "\".\""
              <> req.name
              <> "\" ("
              <> join ", " (column_defs columns)
              <> ")"))
          >>= λ outcome.
              or_error outcome
                (λ text. error "INVALID_REQUEST" ("Failed to create table: " <> text) 400))
        (pure tt)

  -- What follows once the schema is known to be there.
  unfoldable pub create_in_schema :
      (String → String) → (String → String) → String → ℕ → CreateTableRequest → Exec (State W) Table
  unfolding register_external create_managed managed_table_exists
  create_in_schema upper lower table_id now req = do
    let full_name = full_name_of req.catalog_name req.schema_name req.name
    r ← registered
    found ←
        if has r.tables full_name
        then pure true
        else managed_table_exists req.catalog_name req.schema_name req.name
    raise_if found (error "ALREADY_EXISTS" ("Table '" <> full_name <> "' already exists") 409)
    columns ← lift (describe_all upper lower 0 (get_or req.columns []))
    if is_external_delta upper req then register_external now req else create_managed req columns
    register (λ r. record r {
      tables = put r.tables full_name (new_table table_id now req (without_ddl columns));
    })
    pure (new_table table_id now req (without_ddl columns))

  unfoldable pub create_table :
      (String → String) → (String → String) → String → ℕ → CreateTableRequest → Exec (State W) Table
  unfolding create_in_schema
  create_table upper lower table_id now req = do
    lift (validate_identifier req.name "table")
    requiring (λ r. has r.schemas (req.catalog_name <> "." <> req.schema_name))
        (error "INVALID_REQUEST"
          ("Schema '" <> req.catalog_name <> "." <> req.schema_name <> "' does not exist") 400)
        (create_in_schema upper lower table_id now req)

  unfoldable pub update_table : ℕ → String → UpdateTableRequest → Exec (State W) Table
  update_table now full_name req = do
    lift (split_three_part full_name "Table" "table")
    table ← look_up (λ r. get r.tables full_name) (table_not_found full_name)
    let changed = record table {
      comment = or_kept req.comment table.comment;
      properties = get_or req.properties table.properties;
      owner = get_or req.owner table.owner;
      updated_at = now;
    }
    register (λ r. record r { tables = put r.tables full_name changed })
    pure changed

  -- DROP TABLE, whose failure is only logged.
  unfoldable pub drop_table : String × String × String → Exec (State W) (Unit {0})
  drop_table (c, s, n) =
      with_pool world
        (trying
            (world.execute ("DROP TABLE IF EXISTS \"" <> c <> "\".\"" <> s <> "\".\"" <> n <> "\""))
          >> pure tt)
        (pure tt)

  unfoldable pub delete_table : String → Exec (State W) (Unit {0})
  unfolding managed_table_exists drop_table
  delete_table full_name = do
    parts ← lift (split_three_part full_name "Table" "table")
    r ← registered
    known ←
        if has r.tables full_name || has r.external_tables full_name
        then pure true
        else managed_table_exists parts.0 parts.1 parts.2
    raise_if (not known) (table_not_found full_name)
    register (λ r. record r { tables = remove r.tables full_name })
    if has r.external_tables full_name
        then register (λ r. record r { external_tables = remove r.external_tables full_name })
        else drop_table parts
