-- ===== src/Scim/Handlers.antt =====
-- The routes of services/scim.py, each on its own store.
use minilake.Prelude.{String, Option, none, some, List, [], string_eq}
use minilake.Errors.{Exec}
use minilake.Names.{Fields, State}
use minilake.Scim.{
  Python, users, groups, service_principals, create, new_service_principal, replace, delete,
  seed_current_user,
}
use minilake.Scim.Patch.{Operation, patch_resource}
use minilake.Scim.Projection.{get_resource}

-- `_state`
pub record Stores : Type 0 where
  pub users : State
  pub groups : State
  pub service_principals : State

abbrev pub on_users {ℓ} : {A : Type ℓ} → Exec State A → Exec Stores A
on_users m s = let (r, t) = m s.users in (r, record s { users = t })

abbrev pub on_groups {ℓ} : {A : Type ℓ} → Exec State A → Exec Stores A
on_groups m s = let (r, t) = m s.groups in (r, record s { groups = t })

abbrev pub on_service_principals {ℓ} : {A : Type ℓ} → Exec State A → Exec Stores A
on_service_principals m s =
    let (r, t) = m s.service_principals in (r, record s { service_principals = t })

module _ (python : Python) where
  unfoldable pub create_user : String → Fields → Exec Stores Fields
  create_user drawn model = on_users (create python users drawn model)

  unfoldable pub update_user : String → Fields → Exec Stores Fields
  update_user id model = on_users (replace python users id model)

  unfoldable pub create_group : String → Fields → Exec Stores Fields
  create_group drawn model = on_groups (create python groups drawn model)

  unfoldable pub update_group : String → Fields → Exec Stores Fields
  update_group id model = on_groups (replace python groups id model)

  unfoldable pub create_service_principal : String → String → Fields → Exec Stores Fields
  create_service_principal drawn application_id model =
      on_service_principals (new_service_principal python drawn application_id model)

  unfoldable pub update_service_principal : String → Fields → Exec Stores Fields
  update_service_principal id model =
      on_service_principals (replace python service_principals id model)

  module _ (path_filter : String → Option (String × String × String)) where
    unfoldable pub patch_user : String → List Operation → Exec Stores Fields
    patch_user id operations = on_users (patch_resource python path_filter users id operations)

    unfoldable pub patch_group : String → List Operation → Exec Stores Fields
    patch_group id operations = on_groups (patch_resource python path_filter groups id operations)

    unfoldable pub patch_service_principal : String → List Operation → Exec Stores Fields
    patch_service_principal id operations =
        on_service_principals (patch_resource python path_filter service_principals id operations)

unfoldable pub delete_user : String → Exec Stores (Unit {0})
delete_user id = on_users (delete users id)

unfoldable pub delete_group : String → Exec Stores (Unit {0})
delete_group id = on_groups (delete groups id)

unfoldable pub delete_service_principal : String → Exec Stores (Unit {0})
delete_service_principal id = on_service_principals (delete service_principals id)

unfoldable pub get_user : String → Option String → Option String → Exec Stores Fields
get_user id attributes excluded = on_users (get_resource users id attributes excluded)

unfoldable pub get_group : String → Option String → Option String → Exec Stores Fields
get_group id attributes excluded = on_groups (get_resource groups id attributes excluded)

unfoldable pub get_service_principal : String → Option String → Option String → Exec Stores Fields
get_service_principal id attributes excluded =
    on_service_principals (get_resource service_principals id attributes excluded)

-- A snapshot has every store or lacks some, which stay as they are.
unfoldable pub restore_state : Option State → Option State → Option State → Stores → Stores
restore_state us gs ps s = record {
  users = or_kept us s.users;
  groups = or_kept gs s.groups;
  service_principals = or_kept ps s.service_principals;
}
  where
    or_kept : Option State → State → State
    or_kept none old = old
    or_kept (some stored) old = stored

unfoldable pub reset : Stores → Stores
reset s = record { users = seed_current_user []; groups = []; service_principals = [] }
