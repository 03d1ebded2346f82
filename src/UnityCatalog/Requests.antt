-- ===== src/UnityCatalog/Requests.antt =====
-- What reaches the registry: every handler that writes it, with what it draws from outside.
use minilake.Prelude.{ℕ, String, Bool, Option, List, [], ◌∷◌}
use minilake.Names.{Fields}
use minilake.UnityCatalog.State.{World, State}
use minilake.UnityCatalog.Catalogs.{
  CreateCatalogRequest, CreateSchemaRequest, UpdateRequest, create_catalog, update_catalog,
  create_schema, update_schema, reset,
}
use minilake.UnityCatalog.Removal.{delete_catalog, delete_schema}
use minilake.UnityCatalog.Tables.{
  CreateTableRequest, UpdateTableRequest, create_table, update_table, delete_table,
}
use minilake.UnityCatalog.Volumes.{
  CreateVolumeRequest, UpdateVolumeRequest, create_volume, update_volume, delete_volume,
}
use minilake.UnityCatalog.Functions.{create_function, update_function, delete_function}
use minilake.UnityCatalog.Integrity.{IsIntegral, empty-IsIntegral}
use minilake.UnityCatalog.Keeps.{Keeps}
use minilake.UnityCatalog.Keeps.Catalogs.{
  create_catalog-Keeps, update_catalog-Keeps, delete_catalog-Keeps, create_schema-Keeps,
  update_schema-Keeps, delete_schema-Keeps,
}
use minilake.UnityCatalog.Keeps.Tables.{create_table-Keeps, update_table-Keeps, delete_table-Keeps}
use minilake.UnityCatalog.Keeps.Members.{
  create_volume-Keeps, update_volume-Keeps, delete_volume-Keeps, create_function-Keeps,
  update_function-Keeps, delete_function-Keeps,
}

pub data Request : Type 0 where
  creating_catalog : (now later : ℕ) → CreateCatalogRequest → Request
  updating_catalog : (now : ℕ) (name : String) → UpdateRequest → Request
  deleting_catalog : (name : String) (force : Bool) → Request
  creating_schema : (now : ℕ) → CreateSchemaRequest → Request
  updating_schema : (now : ℕ) (full_name : String) → UpdateRequest → Request
  deleting_schema : (full_name : String) (force : Bool) → Request
  creating_table : (table_id : String) (now : ℕ) → CreateTableRequest → Request
  updating_table : (now : ℕ) (full_name : String) → UpdateTableRequest → Request
  deleting_table : (full_name : String) → Request
  creating_volume : (now : ℕ) → CreateVolumeRequest → Request
  updating_volume : (now : ℕ) (full_name : String) → UpdateVolumeRequest → Request
  deleting_volume : (full_name : String) → Request
  creating_function : (function_id : String) (now : ℕ) (payload : Fields) → Request
  updating_function : (now : ℕ) (full_name : String) (owner : Option String) → Request
  deleting_function : (full_name : String) → Request
  resetting : Request

-- What the handlers call outside.
module _ {W : Type 0} (world : World W) (is_valid : Fields → Bool) (upper : String → String)
    (lower : String → String) where
  -- The state after a request, whether its handler returned or raised.
  unfoldable pub step : Request → State W → State W
  step (creating_catalog now later req) s = (create_catalog world now later req s).1
  step (updating_catalog now name req) s = (update_catalog now name req s).1
  step (deleting_catalog name force) s = (delete_catalog world upper name force s).1
  step (creating_schema now req) s = (create_schema world now req s).1
  step (updating_schema now full_name req) s = (update_schema now full_name req s).1
  step (deleting_schema full_name force) s = (delete_schema world upper full_name force s).1
  step (creating_table id now req) s = (create_table world upper lower id now req s).1
  step (updating_table now full_name req) s = (update_table world now full_name req s).1
  step (deleting_table full_name) s = (delete_table world full_name s).1
  step (creating_volume now req) s = (create_volume world now req s).1
  step (updating_volume now full_name req) s = (update_volume world now full_name req s).1
  step (deleting_volume full_name) s = (delete_volume world full_name s).1
  step (creating_function id now payload) s =
      (create_function world is_valid upper id now payload s).1
  step (updating_function now full_name owner) s =
      (update_function world is_valid now full_name owner s).1
  step (deleting_function full_name) s = (delete_function world is_valid full_name s).1
  step resetting s = reset world s

  unfoldable pub run : List Request → State W → State W
  run [] s = s
  run (r ∷ rs) s = run rs (step r s)

  step-IsIntegral :
      (r : Request) (s : State W) → IsIntegral s.registry → IsIntegral (step r s).registry
  unfolding step reset Keeps
  step-IsIntegral (creating_catalog now later req) s i =
      create_catalog-Keeps world now later req s i
  step-IsIntegral (updating_catalog now name req) s i = update_catalog-Keeps world now name req s i
  step-IsIntegral (deleting_catalog name force) s i =
      delete_catalog-Keeps world upper name force s i
  step-IsIntegral (creating_schema now req) s i = create_schema-Keeps world now req s i
  step-IsIntegral (updating_schema now full_name req) s i =
      update_schema-Keeps world now full_name req s i
  step-IsIntegral (deleting_schema full_name force) s i =
      delete_schema-Keeps world upper full_name force s i
  step-IsIntegral (creating_table id now req) s i =
      create_table-Keeps world upper lower id now req s i
  step-IsIntegral (updating_table now full_name req) s i =
      update_table-Keeps world now full_name req s i
  step-IsIntegral (deleting_table full_name) s i = delete_table-Keeps world full_name s i
  step-IsIntegral (creating_volume now req) s i = create_volume-Keeps world now req s i
  step-IsIntegral (updating_volume now full_name req) s i =
      update_volume-Keeps world now full_name req s i
  step-IsIntegral (deleting_volume full_name) s i = delete_volume-Keeps world full_name s i
  step-IsIntegral (creating_function id now payload) s i =
      create_function-Keeps world is_valid upper id now payload s i
  step-IsIntegral (updating_function now full_name owner) s i =
      update_function-Keeps world is_valid now full_name owner s i
  step-IsIntegral (deleting_function full_name) s i =
      delete_function-Keeps world is_valid full_name s i
  step-IsIntegral resetting s i = empty-IsIntegral s.registry.grants

  -- After any requests on an integral registry, whatever DuckDB and the disk answer and whether the
  -- handlers return or raise, the registry is integral: the name of each schema is that of a
  -- registered catalog, a dot and a name, and the name of each table, external table, volume and
  -- function is that of a registered schema, a dot and a name.
  pub run-IsIntegral :
      (rs : List Request) (s : State W) → IsIntegral s.registry → IsIntegral (run rs s).registry
  unfolding run
  run-IsIntegral [] s i = i
  run-IsIntegral (r ∷ rs) s i = run-IsIntegral rs (step r s) (step-IsIntegral r s i)
