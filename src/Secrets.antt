-- ===== src/Secrets.antt =====
-- services/secrets.py: scopes with their secrets and their access-control lists.
pub mod Lookup
pub mod Levels
use minilake.Prelude.{
  ℕ, String, ◌<>◌, Bool, true, false, not, ◌&&◌, ◌||◌, Option, none, some, List, [], ◌∷◌, string_eq,
  is_some, contains, nonempty, get_or, if◌then◌else◌,
}
use minilake.Prelude.Dict.{Dict, get, has, put, remove, keys}
use minilake.Text.{join}
use minilake.Errors.{
  Exec, Exception, Result, ok, raised, pure, raise, gets, lift, or_raise, ◌>>=◌, ◌>>◌, modify,
  raise_if, error,
}

pub record Secret : Type 0 where
  pub value : String
  pub updated_at : ℕ

-- A scope restored from an older snapshot has no "acls".
pub record Scope : Type 0 where
  pub secrets : Dict String Secret
  pub acls : Option (Dict String String)

-- `_state["scopes"]`
abbrev pub State : Type 0
State = Dict String Scope

-- `_ACL_PERMISSIONS`, sorted
abbrev pub acl_permissions : List String
acl_permissions = "MANAGE" ∷ "READ" ∷ "WRITE" ∷ []

abbrev pub scope_not_found : String → String → Exception
scope_not_found code scope = error code ("Scope '" <> scope <> "' not found") 404

abbrev pub secret_not_found : String → String → ℕ → Exception
secret_not_found scope key status =
    error "NOT_FOUND" ("Secret '" <> scope <> "/" <> key <> "' not found") status

abbrev first_manager : Option String → String
first_manager none = "users"
first_manager (some p) = if nonempty p then p else "users"

unfoldable pub create_scope : String → Option String → Exec State (Unit {0})
create_scope scope initial_manage_principal = do
  known ← gets (λ (s : State). has s scope)
  raise_if known (error "RESOURCE_ALREADY_EXISTS" ("Scope '" <> scope <> "' already exists") 400)
  modify λ (s : State). put s scope (record {
    secrets = [];
    acls = some ((first_manager initial_manage_principal, "MANAGE") ∷ []);
  })

unfoldable pub delete_scope : String → Exec State (Unit {0})
delete_scope scope = do
  known ← gets (λ (s : State). has s scope)
  raise_if (not known) (scope_not_found "NOT_FOUND" scope)
  modify (λ (s : State). remove s scope)

unfoldable pub list_scopes : State → List String
list_scopes = keys

-- The scope, or 404 with the code that the secrets' handlers use.
unfoldable pub get_scope : String → Exec State Scope
get_scope scope = do
  found ← gets (λ (s : State). get s scope)
  or_raise found (scope_not_found "NOT_FOUND" scope)

-- `string_value if string_value is not None else bytes_value`
abbrev pub given_value : Option String → Option String → Option String
given_value none bytes_value = bytes_value
given_value (some v) _ = some v

unfoldable pub put_secret :
    ℕ → String → String → Option String → Option String → Exec State (Unit {0})
unfolding get_scope
put_secret now scope key string_value bytes_value = do
  stored ← get_scope scope
  value ←
      or_raise (given_value string_value bytes_value)
        (error "INVALID_REQUEST" "Either string_value or bytes_value is required" 400)
  modify λ (s : State). put s scope (record stored {
    secrets = put stored.secrets key (record { value = value; updated_at = now });
  })

-- A secret of a scope, if both are there.
unfoldable pub find_secret : State → String → String → Option Secret
find_secret s scope key = elim (get s scope) [ none ↦ none | some stored ↦ get stored.secrets key ]

unfoldable pub delete_secret : String → String → Exec State (Unit {0})
unfolding find_secret
delete_secret scope key = do
  found ← gets (λ (s : State). find_secret s scope key)
  raise_if (not (is_some found)) (secret_not_found scope key 404)
  stored ← get_scope scope
  modify λ (s : State). put s scope (record stored { secrets = remove stored.secrets key })

listing : Dict String Secret → List (String × ℕ)
listing [] = []
listing ((key, secret) ∷ rest) = (key, secret.updated_at) ∷ listing rest

-- The keys and their times, never a value.
unfoldable pub list_secrets : String → Exec State (List (String × ℕ))
unfolding listing get_scope
list_secrets scope = do stored ← get_scope scope; pure (listing stored.secrets)

unfoldable pub get_secret : String → String → Exec State (Unit {0})
get_secret scope key = raise (
    error "BAD_REQUEST"
      ("Secrets can only be read via dbutils.secrets.get() inside a running notebook/job, "
        <> "not via a direct API call. Reference {{secrets/scope/key}} in a Task's "
        <> "spark_env_vars to consume a secret in a job.")
      400)

-- `resolve_secret_value`, which jobs.py calls
unfoldable pub resolve_secret_value : String → String → State → Result String
unfolding find_secret
resolve_secret_value scope key s = elim (find_secret s scope key) [
  | none ↦ raised (secret_not_found scope key 400)
  | some secret ↦ ok secret.value
]

-- `_scope_or_404`, whose `setdefault("acls", {})` is written to the store.
unfoldable pub scope_or_404 : String → Exec State (Dict String String)
scope_or_404 scope = do
  found ← gets (λ (s : State). get s scope)
  stored ← or_raise found (scope_not_found "RESOURCE_DOES_NOT_EXIST" scope)
  modify (λ (s : State). put s scope (record stored { acls = some (get_or stored.acls []) }))
  pure (get_or stored.acls [])

-- Writes the access-control list of a scope that is there.
unfoldable pub store_acls : String → Dict String String → Exec State (Unit {0})
store_acls scope acls = modify λ (s : State). elim (get s scope) [
  | none ↦ s
  | some stored ↦ put s scope (record stored { acls = some acls })
]

abbrev acl_missing : String → String → Exception
acl_missing scope principal =
    error "RESOURCE_DOES_NOT_EXIST"
      ("Principal '" <> principal <> "' has no ACL on scope '" <> scope <> "'") 404

-- `str.upper` is a parameter.
unfoldable pub put_acl : (String → String) → String → String → String → Exec State (Unit {0})
unfolding scope_or_404 store_acls
put_acl upper scope principal permission = do
  acls ← scope_or_404 scope
  raise_if (not (contains acl_permissions (upper permission))) (
      error "INVALID_PARAMETER_VALUE"
        ("Invalid permission '"
          <> permission
          <> "'. Expected one of: "
          <> join ", " acl_permissions)
        400)
  store_acls scope (put acls principal (upper permission))

unfoldable pub get_acl : String → String → Exec State String
unfolding scope_or_404
get_acl scope principal = do
  acls ← scope_or_404 scope
  or_raise (get acls principal) (acl_missing scope principal)

unfoldable pub list_acls : String → Exec State (Dict String String)
unfolding scope_or_404
list_acls scope = scope_or_404 scope

unfoldable pub delete_acl : String → String → Exec State (Unit {0})
unfolding scope_or_404 store_acls
delete_acl scope principal = do
  acls ← scope_or_404 scope
  raise_if (not (has acls principal)) (acl_missing scope principal)
  store_acls scope (remove acls principal)
