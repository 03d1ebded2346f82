-- ===== src/WorkspaceAdmin/IpLists.antt =====
-- The IP access lists of services/workspace_admin.py. `now` is the time, and `upper` is `str.upper`.
use minilake.Prelude.{
  ℕ, String, Bool, true, ◌||◌, Option, none, some, List, [], ◌∷◌, ◌==◌, string_eq, length, get_or,
  if◌then◌else◌,
}
use minilake.Prelude.Dict.{get, put, remove, has, values}
use minilake.Errors.{Exec, Result, ok, raised, error}
use minilake.WorkspaceAdmin.{State, IpAccessList, not_found}

pub record CreateIpAccessListRequest : Type 0 where
  pub label : String
  pub list_type : String
  pub ip_addresses : Option (List String)

pub record UpdateIpAccessListRequest : Type 0 where
  pub label : Option String
  pub list_type : Option String
  pub ip_addresses : Option (List String)
  pub enabled : Option Bool

-- A list, and how many addresses it has.
pub record IpAccessListInfo : Type 0 where
  pub record_ : IpAccessList
  pub address_count : ℕ

unfoldable pub ip_list_info : IpAccessList → IpAccessListInfo
ip_list_info r = record { record_ = r; address_count = length r.ip_addresses }

unfoldable pub list_infos : List IpAccessList → List IpAccessListInfo
list_infos [] = []
list_infos (r ∷ rs) = ip_list_info r ∷ list_infos rs

unfoldable pub list_ip_access_lists : State → List IpAccessListInfo
list_ip_access_lists s = list_infos (values s.ip_access_lists)

unfoldable pub get_ip_access_list : String → State → Result IpAccessListInfo
get_ip_access_list list_id s = elim (get s.ip_access_lists list_id) [
  | none ↦ raised (not_found "IP access list" list_id)
  | some r ↦ ok (ip_list_info r)
]

unfoldable pub delete_ip_access_list : String → Exec State (Unit {0})
delete_ip_access_list list_id s =
    if has s.ip_access_lists list_id
    then (ok tt, record s { ip_access_lists = remove s.ip_access_lists list_id })
    else (raised (not_found "IP access list" list_id), s)

-- `req.x` where it is given, else the old value.
abbrev pub or_old {ℓ} : {A : Type ℓ} → Option A → Option A → Option A
or_old none old = old
or_old (some new) old = some new

unfoldable pub new_list : String → ℕ → CreateIpAccessListRequest → Option String → IpAccessList
new_list list_id now req list_type = record {
  list_id = list_id;
  label = some req.label;
  list_type = list_type;
  ip_addresses = get_or req.ip_addresses [];
  enabled = true;
  created_at = now;
  updated_at = now;
}

unfoldable pub replaced :
    ℕ → UpdateIpAccessListRequest → Option String → IpAccessList → IpAccessList
replaced now req list_type r = record r {
  label = req.label;
  list_type = list_type;
  ip_addresses = get_or req.ip_addresses [];
  enabled = get_or req.enabled true;
  updated_at = now;
}

-- Only what the request gives is written.
unfoldable pub patched : ℕ → UpdateIpAccessListRequest → Option String → IpAccessList → IpAccessList
patched now req list_type r = record r {
  label = or_old req.label r.label;
  list_type = or_old list_type r.list_type;
  ip_addresses = get_or req.ip_addresses r.ip_addresses;
  enabled = get_or req.enabled r.enabled;
  updated_at = now;
}

module _ (upper : String → String) where
  unfoldable pub validate_list_type : Option String → Result (Option String)
  validate_list_type none = ok none
  validate_list_type (some list_type) =
      if upper list_type == "ALLOW" || upper list_type == "BLOCK"
      then ok (some (upper list_type))
      else raised (error "INVALID_PARAMETER_VALUE" "list_type must be one of: ALLOW, BLOCK" 400)

  -- `list_id` is drawn from `uuid`.
  unfoldable pub create_ip_access_list :
      String → ℕ → CreateIpAccessListRequest → Exec State IpAccessListInfo
  create_ip_access_list list_id now req s = elim (validate_list_type (some req.list_type)) [
    | raised x ↦ (raised x, s)
    | ok list_type ↦
        let r = new_list list_id now req list_type in
        (ok (ip_list_info r), record s { ip_access_lists = put s.ip_access_lists list_id r })
  ]

  unfoldable pub replace_ip_access_list :
      String → ℕ → UpdateIpAccessListRequest → Exec State (Unit {0})
  replace_ip_access_list list_id now req s = elim (get s.ip_access_lists list_id) [
    | none ↦ (raised (not_found "IP access list" list_id), s)
    | some r ↦ elim (validate_list_type req.list_type) [
      | raised x ↦ (raised x, s)
      | ok list_type ↦ (
        ok tt,
        record s { ip_access_lists = put s.ip_access_lists list_id (replaced now req list_type r) },
      )
    ]
  ]

  unfoldable pub update_ip_access_list :
      String → ℕ → UpdateIpAccessListRequest → Exec State (Unit {0})
  update_ip_access_list list_id now req s = elim (get s.ip_access_lists list_id) [
    | none ↦ (raised (not_found "IP access list" list_id), s)
    | some r ↦ elim (validate_list_type req.list_type) [
      | raised x ↦ (raised x, s)
      | ok list_type ↦ (
        ok tt,
        record s { ip_access_lists = put s.ip_access_lists list_id (patched now req list_type r) },
      )
    ]
  ]
