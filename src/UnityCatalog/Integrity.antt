-- ===== src/UnityCatalog/Integrity.antt =====
-- What the registry keeps: each schema is below a catalog, and each table, volume and function below a
-- schema.
use text.Mathlib.TextLemmas.{append_assoc}
use minilake.Prelude.{String, ◌<>◌, ◌≡◌, sym, ap, ◌∙◌, inl, inr, true, Bool-cases, string_eq}
use minilake.Prelude.Dict.{Dict, has, put, remove, get-nil}
use minilake.Grants
use minilake.UnityCatalog.State.{Catalog, Schema, Table, ExternalTable, Volume, Registry}
use minilake.Names.{Fields}
use minilake.UnityCatalog.Tables.{full_name_of}
use minilake.UnityCatalog.Children.{below, without_below, catalog_removed, schema_removed}
use minilake.UnityCatalog.Catalogs.{empty}
use minilake.UnityCatalog.Belonging.{
  Child, Children, has-put, has-remove, has_of_remove, has-without_below, has_of_without_below,
  put-Children, Grows-Children, fewer-Children, below-child, below-longer,
}

pub record IsIntegral (r : Registry) : Type 0 where
  pub schemas : Children r.catalogs r.schemas
  pub tables : Children r.schemas r.tables
  pub external_tables : Children r.schemas r.external_tables
  pub volumes : Children r.schemas r.volumes
  pub functions : Children r.schemas r.functions

-- The deletion of a schema, and of a catalog.
module _ (upper : String → String) (r : Registry) (h : IsIntegral r) where
  member-known :
      {V : Type 0} (name : String) (d : Dict String V)
      → Children r.schemas d
      → Children (remove r.schemas name) (without_below name d)
  member-known name d children k found =
      let (old, outside) = has_of_without_below name d k found in
      let (p, n, e, known) = children k old in
      (
        p,
        n,
        e,
        has-remove r.schemas name p known (λ same. cc (outside, below-child name n, e, same)),
      )

  pub delete_schema-IsIntegral :
      (name : String)
      → IsIntegral (record (schema_removed upper name r) {
        schemas = remove (schema_removed upper name r).schemas name;
      })
  unfolding schema_removed
  delete_schema-IsIntegral name = record {
    schemas =
        fewer-Children r.catalogs r.schemas (remove r.schemas name) (has_of_remove r.schemas name)
          h.schemas;
    tables = member-known name r.tables h.tables;
    external_tables = member-known name r.external_tables h.external_tables;
    volumes = member-known name r.volumes h.volumes;
    functions = member-known name r.functions h.functions;
  }

  schema-known : (name : String) → Children (remove r.catalogs name) (without_below name r.schemas)
  schema-known name k found =
      let (old, outside) = has_of_without_below name r.schemas k found in
      let (p, n, e, known) = h.schemas k old in
      (
        p,
        n,
        e,
        has-remove r.catalogs name p known (λ same. cc (outside, below-child name n, e, same)),
      )

  deep-known :
      {V : Type 0} (name : String) (d : Dict String V)
      → Children r.schemas d
      → Children (without_below name r.schemas) (without_below name d)
  deep-known name d children k found =
      let (old, outside) = has_of_without_below name d k found in
      let (p, n, e, known) = children k old in
      (
        p,
        n,
        e,
        has-without_below name r.schemas p known (elim (Bool-cases (below name p)) [
          | inr no_ ↦ no_
          | inl yes_ ↦ absurd (cc (outside, below-longer name p n yes_, e))
        ]),
      )

  pub delete_catalog-IsIntegral :
      (name : String)
      → IsIntegral (record (catalog_removed upper name r) {
        catalogs = remove (catalog_removed upper name r).catalogs name;
      })
  unfolding catalog_removed
  delete_catalog-IsIntegral name = record {
    schemas = schema-known name;
    tables = deep-known name r.tables h.tables;
    external_tables = deep-known name r.external_tables h.external_tables;
    volumes = deep-known name r.volumes h.volumes;
    functions = deep-known name r.functions h.functions;
  }

-- The registrations.
module _ (r : Registry) (h : IsIntegral r) where
  pub put_catalog-IsIntegral :
      (name : String) (c : Catalog) → IsIntegral (record r { catalogs = put r.catalogs name c })
  put_catalog-IsIntegral name c = record {
    schemas =
        Grows-Children r.catalogs (put r.catalogs name c) r.schemas (has-put r.catalogs name c)
          h.schemas;
    tables = h.tables;
    external_tables = h.external_tables;
    volumes = h.volumes;
    functions = h.functions;
  }

  pub put_schema-IsIntegral :
      (name : String) (x : Schema)
      → Child r.catalogs name
      → IsIntegral (record r { schemas = put r.schemas name x })
  put_schema-IsIntegral name x child =
      let grows = has-put r.schemas name x in
      record {
        schemas = put-Children r.catalogs r.schemas name x h.schemas child;
        tables = Grows-Children r.schemas (put r.schemas name x) r.tables grows h.tables;
        external_tables =
            Grows-Children r.schemas (put r.schemas name x) r.external_tables grows
              h.external_tables;
        volumes = Grows-Children r.schemas (put r.schemas name x) r.volumes grows h.volumes;
        functions = Grows-Children r.schemas (put r.schemas name x) r.functions grows h.functions;
      }

  pub full_name-Child :
      (c s n : String) → has r.schemas (c <> "." <> s) ≡ true → Child r.schemas (full_name_of c s n)
  full_name-Child c s n known = (
    c <> "." <> s,
    n,
    sym (append_assoc c ("." <> s) ("." <> n) ∙ ap (λ t. c <> t) (append_assoc "." s ("." <> n))),
    known,
  )

  pub tables-IsIntegral :
      (tables : Dict String Table)
      → Children r.schemas tables
      → IsIntegral (record r { tables = tables })
  tables-IsIntegral tables k = record {
    schemas = h.schemas;
    tables = k;
    external_tables = h.external_tables;
    volumes = h.volumes;
    functions = h.functions;
  }

  pub external-IsIntegral :
      (tables : Dict String ExternalTable)
      → Children r.schemas tables
      → IsIntegral (record r { external_tables = tables })
  external-IsIntegral tables k = record {
    schemas = h.schemas;
    tables = h.tables;
    external_tables = k;
    volumes = h.volumes;
    functions = h.functions;
  }

  pub volumes-IsIntegral :
      (volumes : Dict String Volume)
      → Children r.schemas volumes
      → IsIntegral (record r { volumes = volumes })
  volumes-IsIntegral volumes k = record {
    schemas = h.schemas;
    tables = h.tables;
    external_tables = h.external_tables;
    volumes = k;
    functions = h.functions;
  }

  pub functions-IsIntegral :
      (functions : Dict String Fields)
      → Children r.schemas functions
      → IsIntegral (record r { functions = functions })
  functions-IsIntegral functions k = record {
    schemas = h.schemas;
    tables = h.tables;
    external_tables = h.external_tables;
    volumes = h.volumes;
    functions = k;
  }

pub empty-IsIntegral : (grants : Grants.State) → IsIntegral (empty grants)
unfolding empty
empty-IsIntegral grants = record {
  schemas = λ k found. absurd (cc (found, get-nil {K = String} k));
  tables = λ k found. absurd (cc (found, get-nil {K = String} k));
  external_tables = λ k found. absurd (cc (found, get-nil {K = String} k));
  volumes = λ k found. absurd (cc (found, get-nil {K = String} k));
  functions = λ k found. absurd (cc (found, get-nil {K = String} k));
}
