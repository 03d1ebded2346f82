-- ===== src/UnityCatalog/Removal.antt =====
-- The deletion of catalogs and schemas. `upper` is `str.upper`.
use minilake.Prelude.{
  String, ◌<>◌, Bool, true, false, not, ◌||◌, none, some, [], ◌∷◌, string_eq, if◌then◌else◌,
}
use minilake.Prelude.Dict.{has, remove}
use minilake.Errors.{Exec, Exception, gets, or_raise, ◌>>=◌, ◌>>◌, raise_if, error, value_error}
use minilake.ColumnTypes.Splitting.{cut}
use minilake.UnityCatalog.State.{
  Registry, done, Action, World, State, trying, outside, registered, register, or_error, with_pool,
  ◌then◌,
}
use minilake.UnityCatalog.Pool.{attach_catalog, detach_catalog}
use minilake.UnityCatalog.Children.{
  not_empty_error, inspection_error, schema_has_registered_children,
  catalog_has_registered_children, remove_directory, catalog_removed, schema_removed,
}
use minilake.UnityCatalog.Catalogs.{catalog_not_found, schema_not_found}

abbrev pub deletion_error : String → String → String → Exception
deletion_error kind name text =
    error "INVALID_STATE" ("Could not delete " <> kind <> " '" <> name <> "': " <> text) 500

module _ {W : Type 0} (world : World W) where
  -- `catalog_is_empty`
  unfoldable pub catalog_is_empty : String → Registry → Action W Bool
  catalog_is_empty name r w =
      if catalog_has_registered_children world name (record { registry = r; world = w })
      then (done false, w)
      else (world.catalog_has_children name then λ has_children w. (done (not has_children), w)) w

  -- It inspects the children only without force.
  unfoldable pub detach_for_deletion : String → Bool → Registry → Action W Bool
  unfolding catalog_is_empty
  detach_for_deletion name force r = attach_catalog world name then λ _.
      detach_catalog world name (if force then none else some (catalog_is_empty name r))

  -- Whether the backing catalog is gone, which without a pool is whether it may go.
  unfoldable pub detach_backing : String → Bool → Exec (State W) Bool
  unfolding detach_for_deletion
  detach_backing name force =
      with_pool world
        (do
          r ← registered
          outcome ← trying (detach_for_deletion name force r)
          or_error outcome (λ text.
              if force
              then deletion_error "catalog" name text
              else inspection_error "catalog" name text))
        (gets (λ s. force || not (catalog_has_registered_children world name s)))

  unfoldable pub delete_catalog : (String → String) → String → Bool → Exec (State W) (Unit {0})
  unfolding detach_backing
  delete_catalog upper name force = do
    r ← registered
    raise_if (not (has r.catalogs name)) (catalog_not_found name)
    detached ← detach_backing name force
    raise_if (not detached) (not_empty_error "Catalog" name)
    outside (remove_directory world (name ∷ []))
    register (catalog_removed upper name)
    register (λ r. record r { catalogs = remove r.catalogs name })

  -- The end of `delete_schema` with a pool: DROP SCHEMA, unless the schema has children and there
  -- is no force. The outcome says whether it was dropped.
  unfoldable pub drop_schema : String → String → Bool → Registry → Action W Bool
  drop_schema catalog_name schema_name force r =
      let drop_it : Action W Bool =
        world.execute (
          "DROP SCHEMA IF EXISTS \""
          <> catalog_name
          <> "\".\""
          <> schema_name
          <> "\" "
          <> (if force then "CASCADE" else "RESTRICT"))
        then λ _ w. (done true, w) in
      attach_catalog world catalog_name then λ _. if force then drop_it else (λ w.
        if schema_has_registered_children world catalog_name schema_name
          (record { registry = r; world = w })
        then (done false, w)
        else (world.schema_has_children catalog_name schema_name then λ has_children.
              if has_children then (λ w. (done false, w)) else drop_it)
            w)

  unfoldable pub drop_backing : String → String → String → Bool → Exec (State W) Bool
  unfolding drop_schema
  drop_backing full_name catalog_name schema_name force =
      with_pool world
        (do
          r ← registered
          outcome ← trying (drop_schema catalog_name schema_name force r)
          or_error outcome (λ text.
              if force
              then deletion_error "schema" full_name text
              else inspection_error "schema" full_name text))
        (gets (λ s. force || not (schema_has_registered_children world catalog_name schema_name s)))

  -- `full_name.split(".", 1)`
  unfoldable pub two_parts : String → Exec (State W) (String × String)
  two_parts full_name =
      or_raise (cut b'.' full_name) (value_error "not enough values to unpack (expected 2, got 1)")

  unfoldable pub delete_schema : (String → String) → String → Bool → Exec (State W) (Unit {0})
  unfolding drop_backing
  delete_schema upper full_name force = do
    r ← registered
    raise_if (not (has r.schemas full_name)) (schema_not_found full_name)
    parts ← two_parts full_name
    dropped ← drop_backing full_name parts.0 parts.1 force
    raise_if (not dropped) (not_empty_error "Schema" full_name)
    outside (remove_directory world (parts.0 ∷ parts.1 ∷ []))
    register (schema_removed upper full_name)
    register (λ r. record r { schemas = remove r.schemas full_name })
