-- ===== src/UnityCatalog/Children.antt =====
-- What a catalog or a schema contains, and its removal with it.
use text.Mathlib.Text.{starts_with}
use minilake.Prelude.{
  String, ◌<>◌, Bool, not, ◌&&◌, ◌||◌, List, [], ◌∷◌, ◌==◌, string_eq, any, is_empty, if◌then◌else◌,
}
use minilake.Prelude.Dict.{Dict, keys}
use minilake.Errors.{Exception, error}
use minilake.Grants.{delete_grants_for_parent}
use minilake.UnityCatalog.State.{Action, done, Registry, World, State}

-- `name.startswith(f"{parent}.")`
abbrev pub below : String → String → Bool
below parent name = starts_with name (parent <> ".")

abbrev pub any_below {ℓ} : {V : Type ℓ} → String → Dict String V → Bool
any_below parent d = any (below parent) (keys d)

-- `for full_name in [k for k in d if k.startswith(prefix)]: del d[full_name]`
unfoldable pub without_below {ℓ} : {V : Type ℓ} → String → Dict String V → Dict String V
without_below parent [] = []
without_below parent ((name, v) ∷ d) =
    let rest = without_below parent d in if below parent name then rest else (name, v) ∷ rest

-- Whether one of the four registries below schemas has an entry below the parent.
unfoldable pub has_members : String → Registry → Bool
has_members parent r =
    any_below parent r.tables
    || any_below parent r.external_tables
    || any_below parent r.volumes
    || any_below parent r.functions

-- The registry without the tables, volumes and functions below a parent.
unfoldable pub without_members : String → Registry → Registry
without_members parent r = record r {
  tables = without_below parent r.tables;
  external_tables = without_below parent r.external_tables;
  volumes = without_below parent r.volumes;
  functions = without_below parent r.functions;
}

unfoldable pub catalog_removed : (String → String) → String → Registry → Registry
unfolding without_members
catalog_removed upper name r = record (without_members name r) {
  schemas = without_below name r.schemas;
  grants = delete_grants_for_parent upper name "CATALOG" r.grants;
}

unfoldable pub schema_removed : (String → String) → String → Registry → Registry
unfolding without_members
schema_removed upper full_name r = record (without_members full_name r) {
  grants = delete_grants_for_parent upper full_name "SCHEMA" r.grants;
}

-- The message has the kind with a capital, as `kind.capitalize()` gives it.
abbrev pub not_empty_error : String → String → Exception
not_empty_error kind name =
    error "INVALID_STATE" (kind <> " '" <> name <> "' is not empty; set force=true to delete it")
      409

abbrev pub inspection_error : String → String → String → Exception
inspection_error kind name text =
    error "INVALID_STATE"
      ("Could not verify whether " <> kind <> " '" <> name
        <> "' is empty; no deletion was performed: " <> text)
      500

module _ {W : Type 0} (world : World W) where
  unfoldable pub directory_has_children : List String → W → Bool
  directory_has_children path w = not (is_empty (world.entries path w))

  unfoldable pub schema_has_registered_children : String → String → State W → Bool
  unfolding has_members
  schema_has_registered_children catalog_name schema_name s =
      has_members (catalog_name <> "." <> schema_name) s.registry
      || directory_has_children (catalog_name ∷ schema_name ∷ []) s.world

  -- Whether a schema's directory counts: it is no directory, or is not empty.
  unfoldable pub is_child_directory : String → W → String × Bool → Bool
  is_child_directory catalog_name w (entry, is_dir) =
      not is_dir || directory_has_children (catalog_name ∷ entry ∷ []) w

  unfoldable pub catalog_has_registered_children : String → State W → Bool
  unfolding has_members
  catalog_has_registered_children name s =
      any (λ full_name. below name full_name && not (full_name == name <> ".default"))
        (keys s.registry.schemas)
      || has_members name s.registry
      || any (is_child_directory name s.world) (world.entries (name ∷ []) s.world)

  -- `if path.exists(): shutil.rmtree(path)`
  unfoldable pub remove_directory : List String → Action W (Unit {0})
  remove_directory path w = if world.exists path w then world.remove_tree path w else (done tt, w)
