-- ===== src/UnityCatalog/Catalogs.antt =====
-- The handlers on catalogs and schemas. `now` is the time, and `upper` is `str.upper`.
use minilake.Prelude.{
  ℕ, String, ◌<>◌, Option, none, some, List, [], ◌∷◌, ◌==◌, string_eq, get_or, select,
  if◌then◌else◌,
}
use minilake.Prelude.Dict.{Dict, get, has, put, keys, values}
use minilake.Errors.{Exec, Exception, pure, lift, ◌>>=◌, ◌>>◌, raise_if, error}
use minilake.Grants
use minilake.ColumnTypes.Specs.{validate_identifier}
use minilake.UnityCatalog.State.{
  Catalog, Schema, Registry, World, State, trying, registered, register, or_error, requiring,
  look_up, with_pool, ◌then◌,
}
use minilake.UnityCatalog.Pool.{attach_catalog, detach_catalog}
use minilake.UnityCatalog.Children.{}

pub record CreateCatalogRequest : Type 0 where
  pub name : String
  pub comment : Option String
  pub properties : Option (Dict String String)

pub record CreateSchemaRequest : Type 0 where
  pub name : String
  pub catalog_name : String
  pub comment : Option String
  pub properties : Option (Dict String String)

-- What PATCH changes of a catalog or a schema.
pub record UpdateRequest : Type 0 where
  pub comment : Option String
  pub properties : Option (Dict String String)

abbrev pub or_kept : Option String → Option String → Option String
or_kept none old = old
or_kept (some new) old = some new

unfoldable pub new_catalog : ℕ → CreateCatalogRequest → Catalog
new_catalog now req = record {
  name = req.name;
  comment = req.comment;
  properties = get_or req.properties [];
  owner = "minilake-user";
  created_at = now;
  updated_at = now;
}

unfoldable pub new_schema : ℕ → CreateSchemaRequest → Schema
new_schema now req = record {
  name = req.name;
  catalog_name = req.catalog_name;
  full_name = req.catalog_name <> "." <> req.name;
  comment = req.comment;
  properties = get_or req.properties [];
  owner = "minilake-user";
  created_at = now;
  updated_at = now;
}

abbrev pub default_schema : String → CreateSchemaRequest
default_schema catalog_name = record {
  name = "default";
  catalog_name = catalog_name;
  comment = none;
  properties = none;
}

abbrev pub catalog_not_found : String → Exception
catalog_not_found name = error "NOT_FOUND" ("Catalog '" <> name <> "' not found") 404

abbrev pub schema_not_found : String → Exception
schema_not_found name = error "NOT_FOUND" ("Schema '" <> name <> "' not found") 404

module _ {W : Type 0} (world : World W) where
  -- CREATE SCHEMA in the catalog's database, whose failure is only logged.
  unfoldable pub create_duckdb_schema : String → String → Exec (State W) (Unit {0})
  create_duckdb_schema catalog_name name =
      with_pool world
        (trying (
            world.execute
              ("CREATE SCHEMA IF NOT EXISTS \"" <> catalog_name <> "\".\"" <> name <> "\""))
          >> pure tt)
        (pure tt)

  unfoldable pub create_schema : ℕ → CreateSchemaRequest → Exec (State W) Schema
  unfolding create_duckdb_schema
  create_schema now req =
      requiring (λ r. has r.catalogs req.catalog_name)
        (error "INVALID_REQUEST" ("Catalog '" <> req.catalog_name <> "' does not exist") 400)
        do
          lift (validate_identifier req.name "schema")
          r ← registered
          raise_if (has r.schemas (req.catalog_name <> "." <> req.name)) (
              error "ALREADY_EXISTS"
                ("Schema '" <> req.catalog_name <> "." <> req.name <> "' already exists") 409)
          create_duckdb_schema req.catalog_name req.name
          register (λ r. record r {
            schemas = put r.schemas (req.catalog_name <> "." <> req.name) (new_schema now req);
          })
          pure (new_schema now req)

  unfoldable pub attach_new : String → Exec (State W) (Unit {0})
  attach_new name =
      with_pool world
        (trying (attach_catalog world name) >>= λ outcome.
          or_error outcome
            (λ text. error "INVALID_REQUEST" ("Failed to create catalog database: " <> text) 400))
        (pure tt)

  unfoldable pub create_catalog : ℕ → ℕ → CreateCatalogRequest → Exec (State W) Catalog
  unfolding attach_new
  create_catalog now later req = do
    lift (validate_identifier req.name "catalog")
    r ← registered
    raise_if (has r.catalogs req.name)
        (error "ALREADY_EXISTS" ("Catalog '" <> req.name <> "' already exists") 409)
    attach_new req.name
    register (λ r. record r { catalogs = put r.catalogs req.name (new_catalog now req) })
    create_schema later (default_schema req.name)
    pure (new_catalog now req)

module _ {W : Type 0} where
  unfoldable pub get_catalog : String → Exec (State W) Catalog
  get_catalog name = look_up (λ r. get r.catalogs name) (catalog_not_found name)

  unfoldable pub get_schema : String → Exec (State W) Schema
  get_schema full_name = look_up (λ r. get r.schemas full_name) (schema_not_found full_name)

  unfoldable pub list_catalogs : State W → List Catalog
  list_catalogs s = values s.registry.catalogs

  unfoldable pub list_schemas : String → State W → List Schema
  list_schemas catalog_name s =
      select (λ (x : Schema). x.catalog_name == catalog_name) (values s.registry.schemas)

  unfoldable pub update_catalog : ℕ → String → UpdateRequest → Exec (State W) Catalog
  unfolding get_catalog
  update_catalog now name req = do
    catalog ← get_catalog name
    let changed = record catalog {
      comment = or_kept req.comment catalog.comment;
      properties = get_or req.properties catalog.properties;
      updated_at = now;
    }
    register (λ r. record r { catalogs = put r.catalogs name changed })
    pure changed

  unfoldable pub update_schema : ℕ → String → UpdateRequest → Exec (State W) Schema
  unfolding get_schema
  update_schema now full_name req = do
    schema ← get_schema full_name
    let changed = record schema {
      comment = or_kept req.comment schema.comment;
      properties = get_or req.properties schema.properties;
      updated_at = now;
    }
    register (λ r. record r { schemas = put r.schemas full_name changed })
    pure changed

-- `reset`: each catalog is detached, where a failure is only logged, and the registry is emptied. The
-- grants are not part of it.
unfoldable pub empty : Grants.State → Registry
empty grants = record {
  catalogs = [];
  schemas = [];
  tables = [];
  volumes = [];
  functions = [];
  external_tables = [];
  grants = grants;
}

module _ {W : Type 0} (world : World W) where
  unfoldable pub detach_all : List String → W → W
  detach_all [] w = w
  detach_all (name ∷ names) w = detach_all names (detach_catalog world name none w).1

  unfoldable pub reset : State W → State W
  unfolding detach_all
  reset s = record {
    registry = empty s.registry.grants;
    world =
        if world.has_pool s.world then detach_all (keys s.registry.catalogs) s.world else s.world;
  }
