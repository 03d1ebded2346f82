-- ===== src/Examples.antt =====
-- The grants, permissions, secrets and warehouses at concrete inputs.
use minilake.Prelude.{
  List, String, ◌≡◌, ◌⊎◌, inl, refl, true, ◌&&◌, none, some, [], ◌∷◌, ◌==◌, string_eq, option_eq,
  pair_eq, if◌then◌else◌,
}
use minilake.Prelude.Dict.{get}
use minilake.Grants.{State as Grants, normalize, nested, validate, assignments_of, effective_table}
use minilake.Text.{split}
use minilake.Errors.{value_error}
use minilake.Grants.Inheritance.{chain, effective-nearest, source_of, grants, nearest}
use minilake.Grants.{delete_grants_for_parent}
use minilake.Grants.Deletion.{FallsWith, get-delete_grants}
use minilake.Prelude.Int.{pos}
use minilake.Tokens.{TokenInfo, create_token, expiry}
use minilake.Tokens.Lifetime.{IsLater, create_token-IsLater}
use minilake.Permissions.{Principal, Entry, update_permissions, acl_of}
use minilake.Permissions.Levels.{level_of, requested, or_held, level_of-update}
use minilake.Secrets.{State as Scopes, put_secret, delete_secret, find_secret}
use minilake.Secrets.Levels.{IsLevelled}
use minilake.Secrets.Levels.Runs.{
  Event as ScopeEvent, create as create_scope, grant, ask, revoke, run as run_scopes,
  run-IsLevelled, empty-IsLevelled,
}
use minilake.Secrets.Lookup.{find_secret-put, find_secret-delete}
use minilake.Warehouses.{State, Request}
use minilake.Warehouses.Connections.{
  Event as WarehouseEvent, IsConnected, Fails, create, stop, delete, run, run-IsConnected,
}

-- Grants on a schema and its catalog.
abbrev granted : Grants
granted =
    (("CATALOG", some "main"), ("ann", "USE" ∷ "SELECT" ∷ []) ∷ [])
    ∷ (("SCHEMA", some "main.raw"), ("ann", "SELECT" ∷ []) ∷ ("bob", "MODIFY" ∷ []) ∷ [])
    ∷ []

-- Every name is written in capitals here.
abbrev upper : String → String
upper s = s

effective-nearest_example :
    source_of (effective_table upper granted "TABLE" "main.raw.t") "ann" "SELECT" ≡ (
      if grants (assignments_of granted (normalize upper "TABLE", some "main.raw.t")) "ann" "SELECT"
      then some (none, none)
      else nearest granted "ann" "SELECT" (chain (normalize upper "TABLE") "main.raw.t"))
unfolding validate normalize nested split string_eq
effective-nearest_example =
    effective-nearest upper "TABLE" "main.raw.t" granted "ann" "SELECT" "TABLE" refl

abbrev the_token : TokenInfo
the_token = record {
  token_id = "t1";
  comment = none;
  creation_time = 5;
  expiry_time = pos 60005;
  last_accessed_time = 5;
}

get-delete_grants_example :
    (FallsWith (normalize upper "CATALOG") "main" ("SCHEMA", some "main.raw")
      × (get (delete_grants_for_parent upper "main" "CATALOG" granted) ("SCHEMA", some "main.raw")
          ≡ none))
    ⊎ ((FallsWith (normalize upper "CATALOG") "main" ("SCHEMA", some "main.raw") → ⊥)
        × (get (delete_grants_for_parent upper "main" "CATALOG" granted) ("SCHEMA", some "main.raw")
            ≡ get granted ("SCHEMA", some "main.raw")))
get-delete_grants_example =
    get-delete_grants upper "main" "CATALOG" granted ("SCHEMA", some "main.raw")

create_token-IsLater_example :
    (get (create_token "t1" "0f" 5 none (some (pos 60)) []).1 "t1" ≡ some the_token)
    × IsLater 5 the_token.expiry_time
unfolding create_token expiry
create_token-IsLater_example =
    create_token-IsLater "t1" "0f" 5 none (some (pos 60)) [] "dapi0f" the_token refl

abbrev user : String → Principal
user name = record { user_name = some name; group_name = none; service_principal_name = none }

abbrev entry : String → String → Entry
entry name level = record { principal = user name; permission_level = level }

level_of-update_example :
    level_of
      (acl_of
        (update_permissions "jobs" "1"
          (some (entry "ann" "CAN_RUN" ∷ []))
          (("jobs/1", entry "ann" "CAN_VIEW" ∷ entry "bob" "IS_OWNER" ∷ []) ∷ [])).1
        "jobs"
        "1")
      (user "bob")
    ≡ or_held (requested (entry "ann" "CAN_RUN" ∷ []) (user "bob")) (
        requested
          (acl_of
            (("jobs/1", entry "ann" "CAN_VIEW" ∷ entry "bob" "IS_OWNER" ∷ []) ∷ [])
            "jobs"
            "1")
          (user "bob"))
level_of-update_example =
    level_of-update "jobs" "1" (some (entry "ann" "CAN_RUN" ∷ []))
      (("jobs/1", entry "ann" "CAN_VIEW" ∷ entry "bob" "IS_OWNER" ∷ []) ∷ []) (user "bob")

abbrev scopes : Scopes
scopes =
    (
      "prod",
      record { secrets = ("db", record { value = "s3cret"; updated_at = 1 }) ∷ []; acls = none },
    )
    ∷ []

abbrev prod : String
prod = "prod"

abbrev db : String
db = "db"

abbrev api : String
api = "api"

find_secret-put_example :
    find_secret (put_secret 7 "prod" "api" (some "k") none scopes).1 "prod" "db" ≡ (
      if prod == prod && db == api
      then some (record { value = "k"; updated_at = 7 })
      else find_secret scopes "prod" "db")
unfolding get string_eq
find_secret-put_example = find_secret-put 7 "prod" "api" "k" none scopes "prod" "db" refl

find_secret-delete_example :
    find_secret (delete_secret "prod" "db" scopes).1 "prod" "db"
    ≡ (if prod == prod && db == db then none else find_secret scopes "prod" "db")
unfolding find_secret get string_eq
find_secret-delete_example = find_secret-delete "prod" "db" scopes "prod" "db" refl

abbrev no_warehouses : State
no_warehouses = record { warehouses = []; has_pool = true; connections = [] }

abbrev request : Request
request = record {
  name = "w";
  cluster_size = "2X-Small";
  comment = none;
  auto_stop_mins = none;
  min_num_clusters = none;
  max_num_clusters = none;
  enable_photon = none;
  enable_serverless_compute = none;
  spot_instance_policy = none;
  warehouse_type = none;
}

abbrev NoOne : String → Type 0
NoOne id = ⊥

nothing-IsConnected : IsConnected NoOne no_warehouses
unfolding get
nothing-IsConnected = record { connected = λ id pool. inl refl }

-- The second creation fails to connect.
abbrev warehouse_events : List WarehouseEvent
warehouse_events =
    create none "w1" 3 request
    ∷ create (some (value_error "disk full")) "w2" 4 request
    ∷ stop "w1"
    ∷ delete "w1"
    ∷ []

run-IsConnected_example :
    IsConnected (λ id. NoOne id ⊎ Fails id warehouse_events) (run warehouse_events no_warehouses)
run-IsConnected_example = run-IsConnected NoOne warehouse_events no_warehouses nothing-IsConnected

abbrev scope_requests : List ScopeEvent
scope_requests =
    create_scope "prod" none
    ∷ grant "prod" "ann" "READ"
    ∷ grant "prod" "bob" "OWN"
    ∷ ask "prod" "ann"
    ∷ revoke "prod" "ann"
    ∷ []

run-IsLevelled_example : IsLevelled (run_scopes upper scope_requests [])
run-IsLevelled_example = run-IsLevelled upper scope_requests [] empty-IsLevelled
