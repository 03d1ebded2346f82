-- ===== src/Permissions.antt =====
-- services/permissions.py: the access-control list of each object, by principal.
pub mod Levels
use minilake.Prelude.{
  String, ◌<>◌, Bool, true, false, Option, none, some, List, [], ◌∷◌, ◌==◌, string_eq, option_eq,
  ◌&&◌, get_or, is_empty, if◌then◌else◌,
}
use minilake.Prelude.Dict.{Dict, get, put, remove}
use minilake.Errors.{Exec, pure, gets, ◌>>=◌, ◌>>◌, modify}

-- (user_name, group_name, service_principal_name)
pub record Principal : Type 0 where
  pub user_name : Option String
  pub group_name : Option String
  pub service_principal_name : Option String

-- One entry of a stored list; its only permission has this level and is not inherited.
pub record Entry : Type 0 where
  pub principal : Principal
  pub permission_level : String

-- `_state["permissions"]`
abbrev pub State : Type 0
State = Dict String (List Entry)

abbrev pub same_principal : Principal → Principal → Bool
same_principal a b =
    a.user_name == b.user_name
    && (a.group_name == b.group_name && a.service_principal_name == b.service_principal_name)

-- `_DEFAULT_ACL`
abbrev pub default_acl : List Entry
default_acl =
    record {
      principal = record {
        user_name = some "minilake-user";
        group_name = none;
        service_principal_name = none;
      };
      permission_level = "CAN_MANAGE";
    }
    ∷ []

-- `_key`
unfoldable pub object_key : String → String → String
object_key object_type object_id = object_type <> "/" <> object_id

-- `_get_acl`
unfoldable pub acl_of : State → String → String → List Entry
unfolding object_key
acl_of s object_type object_id = get_or (get s (object_key object_type object_id)) default_acl

unfoldable pub get_permissions : String → String → Exec State (List Entry)
get_permissions object_type object_id = gets (λ (s : State). acl_of s object_type object_id)

-- `access_control_list` of a request, or an absent one.
unfoldable pub set_permissions : String → String → Option (List Entry) → Exec State (List Entry)
unfolding get_permissions
set_permissions object_type object_id acl = do
  modify λ (s : State).
      if is_empty (get_or acl [])
      then remove s (object_key object_type object_id)
      else put s (object_key object_type object_id) (get_or acl [])
  get_permissions object_type object_id

-- `existing[principal] = …` in a dict by principal, as a list of entries in the dict's order.
unfoldable pub upsert : List Entry → Entry → List Entry
upsert [] e = e ∷ []
upsert (x ∷ xs) e = if same_principal e.principal x.principal then e ∷ xs else x ∷ upsert xs e

unfoldable pub upsert_all : List Entry → List Entry → List Entry
unfolding upsert
upsert_all existing [] = existing
upsert_all existing (e ∷ es) = upsert_all (upsert existing e) es

-- The dict comprehension over the stored list keeps the last entry of a principal.
unfoldable pub update_permissions : String → String → Option (List Entry) → Exec State (List Entry)
unfolding upsert_all get_permissions
update_permissions object_type object_id acl = do
  modify λ (s : State).
      put s (object_key object_type object_id)
        (upsert_all (upsert_all [] (acl_of s object_type object_id)) (get_or acl []))
  get_permissions object_type object_id
