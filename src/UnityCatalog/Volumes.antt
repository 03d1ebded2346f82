-- ===== src/UnityCatalog/Volumes.antt =====
-- The handlers on volumes, which are directories below that of their schema.
use minilake.Prelude.{ℕ, String, ◌<>◌, not, ◌&&◌, ◌||◌, Option, [], ◌∷◌, string_eq, get_or}
use minilake.Prelude.Dict.{Dict, get, has, put, remove}
use minilake.Errors.{Exec, Exception, pure, gets, lift, ◌>>=◌, ◌>>◌, raise_if, error}
use minilake.ColumnTypes.Specs.{validate_identifier}
use minilake.UnityCatalog.State.{
  Volume, World, State, outside, registered, register, requiring, look_up,
}
use minilake.UnityCatalog.Children.{remove_directory}
use minilake.UnityCatalog.Catalogs.{or_kept}
use minilake.UnityCatalog.Tables.{split_three_part, full_name_of}

pub record CreateVolumeRequest : Type 0 where
  pub name : String
  pub catalog_name : String
  pub schema_name : String
  pub volume_type : String
  pub comment : Option String
  pub properties : Option (Dict String String)

pub record UpdateVolumeRequest : Type 0 where
  pub comment : Option String
  pub properties : Option (Dict String String)
  pub owner : Option String

abbrev pub volume_not_found : String → Exception
volume_not_found full_name = error "NOT_FOUND" ("Volume '" <> full_name <> "' not found") 404

unfoldable pub new_volume : ℕ → CreateVolumeRequest → Volume
new_volume now req = record {
  name = req.name;
  catalog_name = req.catalog_name;
  schema_name = req.schema_name;
  full_name = full_name_of req.catalog_name req.schema_name req.name;
  volume_type = req.volume_type;
  comment = req.comment;
  properties = get_or req.properties [];
  owner = "minilake-user";
  created_at = now;
  updated_at = now;
}

module _ {W : Type 0} (world : World W) where
  unfoldable pub create_volume : ℕ → CreateVolumeRequest → Exec (State W) Volume
  create_volume now req =
      let full_name = full_name_of req.catalog_name req.schema_name req.name in
      let path = req.catalog_name ∷ req.schema_name ∷ req.name ∷ [] in
      requiring (λ r. has r.schemas (req.catalog_name <> "." <> req.schema_name))
        (error "INVALID_REQUEST"
          ("Schema '" <> req.catalog_name <> "." <> req.schema_name <> "' does not exist") 400)
        do
          lift (validate_identifier req.name "volume")
          r ← registered
          there ← gets (λ s. world.exists path s.world)
          raise_if (has r.volumes full_name || there)
              (error "ALREADY_EXISTS" ("Volume '" <> full_name <> "' already exists") 409)
          outside (world.make_dir path)
          register (λ r. record r { volumes = put r.volumes full_name (new_volume now req) })
          pure (new_volume now req)

  unfoldable pub update_volume : ℕ → String → UpdateVolumeRequest → Exec (State W) Volume
  update_volume now full_name req = do
    parts ← lift (split_three_part full_name "Volume" "volume")
    r ← registered
    raise_if (not (has r.catalogs parts.0 && has r.schemas (parts.0 <> "." <> parts.1)))
        (volume_not_found full_name)
    volume ← look_up (λ r. get r.volumes full_name) (volume_not_found full_name)
    let changed = record volume {
      comment = or_kept req.comment volume.comment;
      properties = get_or req.properties volume.properties;
      owner = get_or req.owner volume.owner;
      updated_at = now;
    }
    register (λ r. record r { volumes = put r.volumes full_name changed })
    pure changed

  unfoldable pub delete_volume : String → Exec (State W) (Unit {0})
  delete_volume full_name = do
    parts ← lift (split_three_part full_name "Volume" "volume")
    r ← registered
    there ← gets (λ s. world.exists (parts.0 ∷ parts.1 ∷ parts.2 ∷ []) s.world)
    raise_if (not (has r.volumes full_name) && not there) (volume_not_found full_name)
    register (λ r. record r { volumes = remove r.volumes full_name })
    outside (remove_directory world (parts.0 ∷ parts.1 ∷ parts.2 ∷ []))
