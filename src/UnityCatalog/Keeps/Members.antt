-- ===== src/UnityCatalog/Keeps/Members.antt =====
-- Each handler on volumes and functions keeps the registry integral.
use minilake.Prelude.{ℕ, String, ◌<>◌, ◌≡◌, Bool, Option, some, string_eq}
use minilake.Prelude.Dict.{get, put, remove}
use minilake.Names.{Fields}
use minilake.UnityCatalog.State.{World, Registry, Volume}
use minilake.UnityCatalog.Tables.{full_name_of}
use minilake.UnityCatalog.Volumes.{
  CreateVolumeRequest, UpdateVolumeRequest, new_volume, create_volume, update_volume, delete_volume,
}
use minilake.UnityCatalog.Functions.{
  create_duckdb_macro, drop_duckdb_macro, create_function, update_function, delete_function,
  function_or_404,
}
use minilake.UnityCatalog.Integrity.{
  IsIntegral, full_name-Child, volumes-IsIntegral, functions-IsIntegral,
}
use minilake.UnityCatalog.Belonging.{put-Children, fewer-Children, has_of_remove}
use minilake.UnityCatalog.Keeps.{keeps, Keeps, register-Keeps, requiring-Keeps, changed-Keeps}
use minilake.UnityCatalog.Keeps.Tables.{known-Child, With}

module _ {W : Type 0} (world : World W) where
  module _ (I : Registry → Type 0) where
    create_duckdb_macro-Keeps :
        (is_valid : Fields → Bool) (upper : String → String) (function : Fields)
        → Keeps W I (create_duckdb_macro world is_valid upper function)
    unfolding create_duckdb_macro
    create_duckdb_macro-Keeps is_valid upper function = search keeps depth 12

    drop_duckdb_macro-Keeps :
        (is_valid : Fields → Bool) (function : Fields)
        → Keeps W I (drop_duckdb_macro world is_valid function)
    unfolding drop_duckdb_macro
    drop_duckdb_macro-Keeps is_valid function = search keeps

  pub create_volume-Keeps :
      (now : ℕ) (req : CreateVolumeRequest) → Keeps W IsIntegral (create_volume world now req)
  unfolding create_volume
  create_volume-Keeps now req = search (keeps, requiring-Keeps, register-Keeps, stored) depth 16
    where
      stored :
          (r : Registry)
          → With (req.catalog_name <> "." <> req.schema_name) r
          → With (req.catalog_name <> "." <> req.schema_name) (record r {
            volumes =
                put r.volumes
                  (full_name_of req.catalog_name req.schema_name req.name)
                  (new_volume now req);
          })
      stored r (i, known) = (
        volumes-IsIntegral r i _ (
            put-Children r.schemas r.volumes _ (new_volume now req) i.volumes
              (full_name-Child r i req.catalog_name req.schema_name req.name known)),
        known,
      )

  pub update_volume-Keeps :
      (now : ℕ) (full_name : String) (req : UpdateVolumeRequest)
      → Keeps W IsIntegral (update_volume world now full_name req)
  unfolding update_volume
  update_volume-Keeps now full_name req = search (keeps, changed-Keeps, changed) depth 14
    where
      changed :
          (v v' : Volume) (r : Registry)
          → get r.volumes full_name ≡ some v
          → IsIntegral r
          → IsIntegral (record r { volumes = put r.volumes full_name v' })
      changed v v' r e i = volumes-IsIntegral r i _ (
          put-Children r.schemas r.volumes full_name v' i.volumes
            (known-Child r.schemas r.volumes full_name e i.volumes))

  pub delete_volume-Keeps :
      (full_name : String) → Keeps W IsIntegral (delete_volume world full_name)
  unfolding delete_volume
  delete_volume-Keeps full_name = search (keeps, register-Keeps, removed) depth 16
    where
      removed :
          (r : Registry)
          → IsIntegral r
          → IsIntegral (record r { volumes = remove r.volumes full_name })
      removed r i =
          volumes-IsIntegral r i _
            (fewer-Children r.schemas r.volumes _ (has_of_remove r.volumes full_name) i.volumes)

  module _ (is_valid : Fields → Bool) where
    pub create_function-Keeps :
        (upper : String → String) (id : String) (now : ℕ) (payload : Fields)
        → Keeps W IsIntegral (create_function world is_valid upper id now payload)
    unfolding create_function
    create_function-Keeps upper id now payload =
        search (keeps, requiring-Keeps, create_duckdb_macro-Keeps, register-Keeps, stored) depth 20
      where
        stored :
            (c s n : String) (function : Fields) (r : Registry)
            → With (c <> "." <> s) r
            → With
                (c <> "." <> s)
                (record r { functions = put r.functions (full_name_of c s n) function })
        stored c s n function r (i, known) = (
          functions-IsIntegral r i _ (
              put-Children r.schemas r.functions _ function i.functions
                (full_name-Child r i c s n known)),
          known,
        )

    pub update_function-Keeps :
        (now : ℕ) (full_name : String) (owner : Option String)
        → Keeps W IsIntegral (update_function world is_valid now full_name owner)
    unfolding update_function function_or_404
    update_function-Keeps now full_name owner = search (keeps, changed-Keeps, changed) depth 12
      where
        changed :
            (f f' : Fields) (r : Registry)
            → get r.functions full_name ≡ some f
            → IsIntegral r
            → IsIntegral (record r { functions = put r.functions full_name f' })
        changed f f' r e i = functions-IsIntegral r i _ (
            put-Children r.schemas r.functions full_name f' i.functions
              (known-Child r.schemas r.functions full_name e i.functions))

    pub delete_function-Keeps :
        (full_name : String) → Keeps W IsIntegral (delete_function world is_valid full_name)
    unfolding delete_function function_or_404
    delete_function-Keeps full_name =
        search (keeps, drop_duckdb_macro-Keeps, register-Keeps, removed) depth 14
      where
        removed :
            (r : Registry)
            → IsIntegral r
            → IsIntegral (record r { functions = remove r.functions full_name })
        removed r i = functions-IsIntegral r i _ (
            fewer-Children r.schemas r.functions _ (has_of_remove r.functions full_name)
              i.functions)
