-- ===== src/UnityCatalog/Pool.antt =====
-- duckdb_pool.py: attaching and detaching the database of a catalog.
use minilake.Prelude.{String, ◌<>◌, Bool, true, false, Option, none, some, if◌then◌else◌}
use minilake.UnityCatalog.State.{done, failed, Action, World, ◌then◌}

module _ {W : Type 0} (world : World W) where
  unfoldable pub attach_catalog : String → Action W (Unit {0})
  attach_catalog name =
      world.execute
        ("ATTACH IF NOT EXISTS '" <> world.backing_file name <> "' AS \"" <> name <> "\"")

  -- The end of `detach_catalog`: DETACH where it is attached, and the removal of the file.
  unfoldable pub detach_file : String → Option (String × Bool) → Action W Bool
  detach_file name none = world.unlink_file name then λ _ w. (done true, w)
  detach_file name (some _) = world.execute ("DETACH \"" <> name <> "\"") then λ _.
      world.unlink_file name then λ _ w. (done true, w)

  -- `can_detach` as an action that answers it.
  unfoldable pub detach_checked :
      String → Option (String × Bool) → Option (Action W Bool) → Action W Bool
  detach_checked name attachment none = detach_file name attachment
  detach_checked name attachment (some can_detach) =
      can_detach then λ yes_. if yes_ then detach_file name attachment else (λ w. (done false, w))

  abbrev refused : String → Action W Bool
  refused text w = (failed text, w)

  unfoldable pub detach_attached :
      String → Option (Action W Bool) → Option (String × Bool) → Action W Bool
  detach_attached name can_detach none = elim can_detach [
    | none ↦ detach_checked name none none
    | some _ ↦ refused ("Catalog '" <> name <> "' is not attached for emptiness inspection")
  ]
  detach_attached name can_detach (some (path, own)) =
      if own
      then detach_checked name (some (path, own)) can_detach
      else refused (
          "Catalog '"
          <> name
          <> "' is attached to '"
          <> path
          <> "', not its backing file '"
          <> world.resolved_file name
          <> "'")

  unfoldable pub detach_catalog : String → Option (Action W Bool) → Action W Bool
  detach_catalog name can_detach = world.attachment name then detach_attached name can_detach
