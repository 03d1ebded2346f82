-- ===== src/WorkspaceAdmin/Tests.antt =====
-- Workspace administration at concrete requests.
use minilake.Prelude.{
  String, ◌==◌, ◌≡◌, refl, none, some, List, [], ◌∷◌, true, if◌then◌else◌, string_eq, nat_eq,
  nonempty,
}
use minilake.Prelude.Int.{pos}
use minilake.Prelude.Dict.{get, put, remove, update}
use minilake.Json.{null, bool, int, str}
use minilake.Errors.{ok, raised}
use minilake.Names.{Fields}
use minilake.WorkspaceAdmin.{
  new_state, create_credential, get_credential, not_found, text_keys, int_keys, as_conf_string,
  set_workspace_conf, get_workspace_conf, update_credential, delete_credential, new_credential,
  credential_info, chosen_conf, put_conf,
}
use minilake.Text.{show, split, strip}
use minilake.Objects.{mask_fields}
use minilake.Scim.Projection.{select_keys}
use minilake.WorkspaceAdmin.IpLists.{CreateIpAccessListRequest, UpdateIpAccessListRequest}
use minilake.WorkspaceAdmin.ListTypes
use minilake.WorkspaceAdmin.ListTypes.{IsTyped, run-IsTyped, new_state-IsTyped}
use minilake.WorkspaceAdmin.Credentials.{
  Request, creating, updating, deleting, step, run, run-restored,
}

abbrev github : Fields
github = ("git_provider", str "gitHub") ∷ ("personal_access_token", str "secret") ∷ []

abbrev requests : List Request
requests =
    creating github
    ∷ creating github
    ∷ updating 2 (("git_username", str "ann") ∷ [])
    ∷ deleting 1
    ∷ []

get_credential_example :
    get_credential 2 (run requests new_state)
    ≡ ok (
        ("git_provider", str "gitHub")
        ∷ ("credential_id", int (pos 2))
        ∷ ("git_username", str "ann")
        ∷ [])
unfolding run step create_credential update_credential delete_credential new_credential new_state
    get_credential get put remove nonempty string_eq nat_eq credential_info select_keys update
get_credential_example = refl

deleted_example :
    get_credential 1 (run requests new_state) ≡ raised (not_found "Git credential" "1")
unfolding run step create_credential update_credential delete_credential new_credential new_state
    get_credential get put remove nonempty string_eq nat_eq show
deleted_example = refl

conf_example :
    get_workspace_conf
      (some " a , b,c")
      (set_workspace_conf (λ v. "other") (("a", bool true) ∷ ("b", null) ∷ []) new_state).1
    ≡ ("a", "true") ∷ ("b", "") ∷ ("c", "") ∷ []
unfolding get_workspace_conf set_workspace_conf nonempty string_eq chosen_conf mask_fields split
    strip put get put_conf new_state as_conf_string
conf_example = refl

run-restored_example :
    (get (run requests new_state).credentials (run requests new_state).next_credential_id ≡ none)
    × (int_keys (text_keys (run requests new_state).credentials) []
        ≡ some (run requests new_state).credentials)
run-restored_example = run-restored requests

abbrev upper : String → String
upper t = if t == "allow" then "ALLOW" else t

abbrev office : CreateIpAccessListRequest
office = record { label = "office"; list_type = "allow"; ip_addresses = some ("10.0.0.1" ∷ []) }

abbrev blocking : UpdateIpAccessListRequest
blocking = record { label = none; list_type = some "BLOCK"; ip_addresses = none; enabled = none }

abbrev refused : UpdateIpAccessListRequest
refused = record { label = none; list_type = some "deny"; ip_addresses = none; enabled = none }

abbrev list_requests : List ListTypes.Request
list_requests =
    ListTypes.creating "a" 1 office
    ∷ ListTypes.updating "a" 2 blocking
    ∷ ListTypes.replacing "a" 3 refused
    ∷ []

run-IsTyped_example : IsTyped (ListTypes.run upper list_requests new_state)
run-IsTyped_example = run-IsTyped upper list_requests new_state new_state-IsTyped
