-- ===== src/UnityCatalog/Keeps/Catalogs.antt =====
-- Each handler on catalogs and schemas keeps the registry integral.
use minilake.Prelude.{ℕ, String, ◌<>◌, ◌≡◌, refl, ap, Bool, true, some, is_some, string_eq}
use minilake.Prelude.Dict.{get, has, put, remove}
use minilake.Errors.{◌>>◌}
use minilake.UnityCatalog.State.{World, Registry, Catalog, Schema, register}
use minilake.UnityCatalog.Catalogs.{
  CreateCatalogRequest, CreateSchemaRequest, UpdateRequest, create_duckdb_schema, create_schema,
  create_catalog, attach_new, update_catalog, update_schema, get_catalog, get_schema, new_schema,
}
use minilake.UnityCatalog.Removal.{
  detach_backing, drop_backing, two_parts, delete_catalog, delete_schema,
}
use minilake.UnityCatalog.Children.{catalog_removed, schema_removed}
use minilake.UnityCatalog.Integrity.{
  IsIntegral, put_catalog-IsIntegral, put_schema-IsIntegral, delete_schema-IsIntegral,
  delete_catalog-IsIntegral,
}
use minilake.UnityCatalog.Keeps.{
  keeps, Keeps, register-Keeps, requiring-Keeps, registers-Keeps, changed-Keeps,
}

module _ {W : Type 0} (world : World W) where
  module _ (I : Registry → Type 0) where
    create_duckdb_schema-Keeps : (c n : String) → Keeps W I (create_duckdb_schema world c n)
    unfolding create_duckdb_schema
    create_duckdb_schema-Keeps c n = search keeps

    attach_new-Keeps : (name : String) → Keeps W I (attach_new world name)
    unfolding attach_new
    attach_new-Keeps name = search keeps

    pub detach_backing-Keeps :
        (name : String) (force : Bool) → Keeps W I (detach_backing world name force)
    unfolding detach_backing
    detach_backing-Keeps name force = search keeps

    pub drop_backing-Keeps :
        (full_name c n : String) (force : Bool) → Keeps W I (drop_backing world full_name c n force)
    unfolding drop_backing
    drop_backing-Keeps full_name c n force = search keeps

  pub create_schema-Keeps :
      (now : ℕ) (req : CreateSchemaRequest) → Keeps W IsIntegral (create_schema world now req)
  unfolding create_schema
  create_schema-Keeps now req =
      requiring-Keeps W IsIntegral (λ r. has r.catalogs req.catalog_name) _ _
        (search (keeps, create_duckdb_schema-Keeps, register-Keeps, stored) depth 14)
    where
      stored :
          (r : Registry)
          → IsIntegral r × (has r.catalogs req.catalog_name ≡ true)
          → IsIntegral (record r {
            schemas = put r.schemas (req.catalog_name <> "." <> req.name) (new_schema now req);
          })
            × (has r.catalogs req.catalog_name ≡ true)
      stored r (i, known) = (
        put_schema-IsIntegral r i (req.catalog_name <> "." <> req.name) (new_schema now req)
            (req.catalog_name, req.name, refl, known),
        known,
      )

  pub create_catalog-Keeps :
      (now later : ℕ) (req : CreateCatalogRequest)
      → Keeps W IsIntegral (create_catalog world now later req)
  unfolding create_catalog
  create_catalog-Keeps now later req =
      search (keeps, attach_new-Keeps, register-Keeps, put_catalog-IsIntegral, create_schema-Keeps)
        depth 14

  -- A deletion's last step.
  pub delete_catalog-Keeps :
      (upper : String → String) (name : String) (force : Bool)
      → Keeps W IsIntegral (delete_catalog world upper name force)
  unfolding delete_catalog
  delete_catalog-Keeps upper name force = search (keeps, detach_backing-Keeps, removed) depth 14
    where
      removed : Keeps W IsIntegral (
          register (catalog_removed upper name)
          >> register (λ r. record r { catalogs = remove r.catalogs name }))
      removed =
          registers-Keeps W IsIntegral (catalog_removed upper name)
            (λ r. record r { catalogs = remove r.catalogs name })
            (λ r i. delete_catalog-IsIntegral upper r i name)

  pub delete_schema-Keeps :
      (upper : String → String) (full_name : String) (force : Bool)
      → Keeps W IsIntegral (delete_schema world upper full_name force)
  unfolding delete_schema two_parts
  delete_schema-Keeps upper full_name force = search (keeps, drop_backing-Keeps, removed) depth 16
    where
      removed : Keeps W IsIntegral (
          register (schema_removed upper full_name)
          >> register (λ r. record r { schemas = remove r.schemas full_name }))
      removed =
          registers-Keeps W IsIntegral (schema_removed upper full_name)
            (λ r. record r { schemas = remove r.schemas full_name })
            (λ r i. delete_schema-IsIntegral upper r i full_name)

  pub update_catalog-Keeps :
      (now : ℕ) (name : String) (req : UpdateRequest)
      → Keeps W IsIntegral (update_catalog now name req)
  unfolding update_catalog get_catalog
  update_catalog-Keeps now name req = search (keeps, changed-Keeps, changed) depth 10
    where
      changed :
          (c c' : Catalog) (r : Registry)
          → get r.catalogs name ≡ some c
          → IsIntegral r
          → IsIntegral (record r { catalogs = put r.catalogs name c' })
      changed c c' r e i = put_catalog-IsIntegral r i name c'

  pub update_schema-Keeps :
      (now : ℕ) (full_name : String) (req : UpdateRequest)
      → Keeps W IsIntegral (update_schema now full_name req)
  unfolding update_schema get_schema
  update_schema-Keeps now full_name req = search (keeps, changed-Keeps, changed) depth 10
    where
      changed :
          (x x' : Schema) (r : Registry)
          → get r.schemas full_name ≡ some x
          → IsIntegral r
          → IsIntegral (record r { schemas = put r.schemas full_name x' })
      changed x x' r e i =
          put_schema-IsIntegral r i full_name x' (i.schemas full_name (ap is_some e))
