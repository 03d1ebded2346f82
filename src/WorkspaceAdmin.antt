-- ===== src/WorkspaceAdmin.antt =====
-- services/workspace_admin.py: git credentials, the workspace configuration, and the snapshot of its
-- state; `IpLists` has the IP access lists. The handlers on its other records are not modelled.
-- A negative credential id is never known and is left out.
pub mod IpLists
pub mod ListTypes
pub mod Snapshot
pub mod Credentials
mod Tests
use minilake.Prelude.{
  ℕ, zero, suc, ◌+◌, String, ◌<>◌, Bool, true, false, not, Option, none, some, List, [], ◌∷◌, ◌==◌,
  string_eq, nat_eq, nonempty, get_or, if◌then◌else◌,
}
use minilake.Prelude.Int.{ℤ, pos, negsuc}
use minilake.Prelude.Dict.{Dict, get, put, remove, update, has}
use minilake.Text.{show}
use minilake.Text.Numbers.{parse_int}
use minilake.Json.{Value, null, bool, int, str}
use minilake.Errors.{
  Exec, Exception, Result, ok, raised, pure, gets, or_raise, ◌>>=◌, ◌>>◌, modify, raise_if, error,
}
use minilake.Names
use minilake.Names.{Fields}
use minilake.Objects.{text_field, mask_fields}
use minilake.Scim.Projection.{select_keys}

pub record IpAccessList : Type 0 where
  pub list_id : String
  pub label : Option String
  pub list_type : Option String
  pub ip_addresses : List String
  pub enabled : Bool
  pub created_at : ℕ
  pub updated_at : ℕ

pub record State : Type 0 where
  pub credentials : Dict ℕ Fields
  pub ip_access_lists : Dict String IpAccessList
  pub init_scripts : Names.State
  pub notification_destinations : Names.State
  pub instance_profiles : Names.State
  pub workspace_conf : Dict String String
  pub next_credential_id : ℕ

unfoldable pub new_state : State
new_state = record {
  credentials = [];
  ip_access_lists = [];
  init_scripts = [];
  notification_destinations = [];
  instance_profiles = [];
  workspace_conf = [];
  next_credential_id = 1;
}

abbrev pub not_found : String → String → Exception
not_found what which = error "RESOURCE_DOES_NOT_EXIST" (what <> " '" <> which <> "' not found") 404

abbrev given : Option String → String
given none = ""
given (some s) = s

-- What is answered of a credential: all but its token.
unfoldable pub credential_info : Fields → Fields
credential_info fields = select_keys (λ k. not (k == "personal_access_token")) fields

-- `payload` is the request's dict.
unfoldable pub new_credential : Fields → State → Fields
new_credential payload s = put payload "credential_id" (int (pos s.next_credential_id))

unfoldable pub create_credential : Fields → Exec State Fields
create_credential payload s =
    if nonempty (given (text_field payload "git_provider"))
    then (
      ok (credential_info (new_credential payload s)),
      record s {
        credentials = put s.credentials s.next_credential_id (new_credential payload s);
        next_credential_id = s.next_credential_id + 1;
      },
    )
    else (raised (error "INVALID_PARAMETER_VALUE" "git_provider is required" 400), s)

unfoldable pub infos : Dict ℕ Fields → List Fields
infos [] = []
infos ((id, fields) ∷ rest) = credential_info fields ∷ infos rest

unfoldable pub list_credentials : State → List Fields
list_credentials s = infos s.credentials

unfoldable pub get_credential : ℕ → State → Result Fields
get_credential id s = elim (get s.credentials id) [
  | none ↦ raised (not_found "Git credential" (show id))
  | some fields ↦ ok (credential_info fields)
]

unfoldable pub update_credential : ℕ → Fields → Exec State (Unit {0})
update_credential id changes s = elim (get s.credentials id) [
  | none ↦ (raised (not_found "Git credential" (show id)), s)
  | some fields ↦ (ok tt, record s { credentials = put s.credentials id (update fields changes) })
]

unfoldable pub delete_credential : ℕ → Exec State (Unit {0})
delete_credential id s =
    if has s.credentials id
    then (ok tt, record s { credentials = remove s.credentials id })
    else (raised (not_found "Git credential" (show id)), s)

-- `_as_conf_string`; `str_of` is Python's `str`.
unfoldable pub as_conf_string : (Value → String) → Value → String
as_conf_string str_of (bool true) = "true"
as_conf_string str_of (bool false) = "false"
as_conf_string str_of null = ""
as_conf_string str_of v = str_of v

unfoldable pub put_conf : (Value → String) → Fields → Dict String String → Dict String String
put_conf str_of [] conf = conf
put_conf str_of ((k, v) ∷ body) conf = put_conf str_of body (put conf k (as_conf_string str_of v))

unfoldable pub set_workspace_conf : (Value → String) → Fields → Exec State (Unit {0})
set_workspace_conf str_of body =
    modify (λ s. record s { workspace_conf = put_conf str_of body s.workspace_conf })

unfoldable pub chosen_conf :
    Dict String String → List String → Dict String String → Dict String String
chosen_conf conf [] into = into
chosen_conf conf (k ∷ ks) into = chosen_conf conf ks (put into k (get_or (get conf k) ""))

unfoldable pub get_workspace_conf : Option String → State → Dict String String
get_workspace_conf keys s =
    if nonempty (given keys)
    then chosen_conf s.workspace_conf (mask_fields (given keys)) []
    else s.workspace_conf

-- The credentials as a JSON object has them: a number as a key becomes its text.
unfoldable pub text_keys {ℓ} : {V : Type ℓ} → Dict ℕ V → Dict String V
text_keys [] = []
text_keys ((id, v) ∷ d) = (show id, v) ∷ text_keys d

-- `{int(k): v for k, v in credentials.items()}`, added to a dict; none for a key that is no number.
unfoldable pub int_keys {ℓ} : {V : Type ℓ} → Dict String V → Dict ℕ V → Option (Dict ℕ V)
int_keys [] into = some into
int_keys ((k, v) ∷ d) into = elim (parse_int k) [
  | some (pos id) ↦ int_keys d (put into id v)
  | _ ↦ none
]

unfoldable pub reset : State → State
reset s = new_state
