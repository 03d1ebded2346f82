-- ===== src/UnityCatalog/Keeps/Tables.antt =====
-- Each handler on tables keeps the registry integral.
use minilake.Prelude.{ℕ, String, ◌<>◌, ◌≡◌, ap, true, is_some, some, string_eq}
use minilake.Prelude.Dict.{Dict, get, has, put, remove}
use minilake.UnityCatalog.State.{World, Registry, Table}
use minilake.UnityCatalog.Tables.{
  CreateTableRequest, UpdateTableRequest, full_name_of, managed_table_exists, register_external,
  create_managed, create_in_schema, new_table, new_external_table, create_table, update_table,
  delete_table, drop_table,
}
use minilake.UnityCatalog.Columns.{Columns, without_ddl}
use minilake.UnityCatalog.Volumes.{}
use minilake.UnityCatalog.Functions.{}
use minilake.UnityCatalog.Integrity.{
  IsIntegral, full_name-Child, tables-IsIntegral, external-IsIntegral,
}
use minilake.UnityCatalog.Belonging.{Children, Child, put-Children, fewer-Children, has_of_remove}
use minilake.UnityCatalog.Keeps.{keeps, Keeps, register-Keeps, requiring-Keeps, changed-Keeps}

-- A key that is there already is a child.
pub known-Child :
    {P V : Type 0} (ps : Dict String P) (d : Dict String V) (k : String) {v : V}
    → get d k ≡ some v
    → Children ps d
    → Child ps k
known-Child ps d k e h = h k (ap is_some e)

-- The registry is integral and knows this schema.
abbrev pub With : String → Registry → Type 0
With schema r = IsIntegral r × (has r.schemas schema ≡ true)

module _ {W : Type 0} (world : World W) where
  module _ (I : Registry → Type 0) where
    managed_table_exists-Keeps : (c s n : String) → Keeps W I (managed_table_exists world c s n)
    unfolding managed_table_exists
    managed_table_exists-Keeps c s n = search keeps

    create_managed-Keeps :
        (req : CreateTableRequest) (columns : Columns)
        → Keeps W I (create_managed world req columns)
    unfolding create_managed
    create_managed-Keeps req columns = search keeps depth 10

    drop_table-Keeps : (parts : String × String × String) → Keeps W I (drop_table world parts)
    unfolding drop_table
    drop_table-Keeps (c, s, n) = search keeps

  register_external-Keeps :
      (now : ℕ) (req : CreateTableRequest)
      → Keeps W
          (With (req.catalog_name <> "." <> req.schema_name))
          (register_external world now req)
  unfolding register_external
  register_external-Keeps now req = search (keeps, register-Keeps, stored) depth 10
    where
      stored :
          (r : Registry)
          → With (req.catalog_name <> "." <> req.schema_name) r
          → With (req.catalog_name <> "." <> req.schema_name) (record r {
            external_tables =
                put r.external_tables
                  (full_name_of req.catalog_name req.schema_name req.name)
                  (new_external_table now req);
          })
      stored r (i, known) = (
        external-IsIntegral r i _ (
            put-Children r.schemas r.external_tables _ (new_external_table now req)
              i.external_tables
              (full_name-Child r i req.catalog_name req.schema_name req.name known)),
        known,
      )

  pub create_table-Keeps :
      (upper lower : String → String) (id : String) (now : ℕ) (req : CreateTableRequest)
      → Keeps W IsIntegral (create_table world upper lower id now req)
  unfolding create_table create_in_schema
  create_table-Keeps upper lower id now req =
      search
        (
          keeps, requiring-Keeps, managed_table_exists-Keeps, register_external-Keeps,
          create_managed-Keeps, register-Keeps, stored,
        )
        depth 20
    where
      stored :
          (columns : Columns) (r : Registry)
          → With (req.catalog_name <> "." <> req.schema_name) r
          → With (req.catalog_name <> "." <> req.schema_name) (record r {
            tables =
                put r.tables
                  (full_name_of req.catalog_name req.schema_name req.name)
                  (new_table id now req (without_ddl columns));
          })
      stored columns r (i, known) = (
        tables-IsIntegral r i _ (
            put-Children r.schemas r.tables _ (new_table id now req (without_ddl columns)) i.tables
              (full_name-Child r i req.catalog_name req.schema_name req.name known)),
        known,
      )

  pub update_table-Keeps :
      (now : ℕ) (full_name : String) (req : UpdateTableRequest)
      → Keeps W IsIntegral (update_table world now full_name req)
  unfolding update_table
  update_table-Keeps now full_name req = search (keeps, changed-Keeps, changed) depth 12
    where
      changed :
          (t t' : Table) (r : Registry)
          → get r.tables full_name ≡ some t
          → IsIntegral r
          → IsIntegral (record r { tables = put r.tables full_name t' })
      changed t t' r e i = tables-IsIntegral r i _ (
          put-Children r.schemas r.tables full_name t' i.tables
            (known-Child r.schemas r.tables full_name e i.tables))

  pub delete_table-Keeps : (full_name : String) → Keeps W IsIntegral (delete_table world full_name)
  unfolding delete_table
  delete_table-Keeps full_name =
      search
        (keeps, managed_table_exists-Keeps, drop_table-Keeps, register-Keeps, removed, forgotten)
        depth 16
    where
      removed :
          (r : Registry)
          → IsIntegral r
          → IsIntegral (record r { tables = remove r.tables full_name })
      removed r i =
          tables-IsIntegral r i _
            (fewer-Children r.schemas r.tables _ (has_of_remove r.tables full_name) i.tables)

      forgotten :
          (r : Registry)
          → IsIntegral r
          → IsIntegral (record r { external_tables = remove r.external_tables full_name })
      forgotten r i = external-IsIntegral r i _ (
          fewer-Children r.schemas r.external_tables _ (has_of_remove r.external_tables full_name)
            i.external_tables)
