-- ===== src/Scim.antt =====
-- services/scim.py: users, groups and service principals, which one set of helpers keeps.
pub mod Patch
pub mod Projection
pub mod Uniqueness
pub mod Commits
pub mod Requests
pub mod Handlers
mod Tests
use minilake.Prelude.{
  ℕ, String, ◌<>◌, Bool, true, false, not, ◌&&◌, ◌||◌, Option, none, some, List, [], ◌∷◌, ◌==◌,
  string_eq, contains, any, nonempty, is_some, if◌then◌else◌,
}
use minilake.Prelude.Dict.{Dict, get, put, remove, update, has, values}
use minilake.Text.{split, strip}
use minilake.Json.{
  Value, null, bool, int, float, str, list, dict, Values, no_values, value, Entries, no_entries,
  entry, opt_value,
}
use minilake.Errors.{
  Exec, Exception, Result, ok, raised, pure, raise, gets, lift, or_raise, ◌>>=◌, ◌>>◌, modify,
  error,
}
use minilake.Names.{Fields, State}

-- What the code asks of Python on any JSON value: `str`, `==`, whether a value counts as true, and
-- `list(v or [])`, none where that raises; and `str.lower`.
pub record Python : Type 0 where
  pub str_of : Value → String
  pub same : Value → Value → Bool
  pub truthy : Value → Bool
  pub entries : Value → Option Values
  pub lower : String → String

-- A row of `_RESOURCES` without its model.
pub record Resource : Type 0 where
  pub schema : String
  pub unique : String
  pub label : String

unfoldable pub users : Resource
users = record {
  schema = "urn:ietf:params:scim:schemas:core:2.0:User";
  unique = "userName";
  label = "User";
}

unfoldable pub groups : Resource
groups = record {
  schema = "urn:ietf:params:scim:schemas:core:2.0:Group";
  unique = "displayName";
  label = "Group";
}

unfoldable pub service_principals : Resource
service_principals = record {
  schema = "urn:ietf:params:scim:schemas:core:2.0:ServicePrincipal";
  unique = "applicationId";
  label = "Service principal";
}

-- What `reset` puts into the store of the users.
unfoldable pub seed_current_user : State → State
seed_current_user s = put s "minilake-user-1" (
    ("id", str "minilake-user-1")
    ∷ ("userName", str "minilake-user")
    ∷ ("displayName", str "MiniLake Test User")
    ∷ ("active", bool true)
    ∷ (
      "emails",
      list (
          value
            (dict (
              entry "value" (str "test@minilake.local")
                (entry "type" (str "work") (entry "primary" (bool true) no_entries))))
            no_values),
    )
    ∷ ("schemas", list (value (str users.schema) no_values))
    ∷ [])

abbrev pub missing : Resource → String → Exception
missing resource id =
    error "RESOURCE_DOES_NOT_EXIST" (resource.label <> " with ID " <> id <> " is not found") 404

unfoldable pub get_or_404 : Resource → String → Exec State Fields
get_or_404 resource id = do
  found ← gets (λ (s : State). get s id)
  or_raise found (missing resource id)

unfoldable pub delete : Resource → String → Exec State (Unit {0})
delete resource id = do get_or_404 resource id; modify (λ (s : State). remove s id)

-- `any(v is not None for v in e.values())`
abbrev some_value : Entries → Bool
some_value no_entries = false
some_value (entry k null rest) = some_value rest
some_value (entry k _ rest) = true

abbrev keeps : Value → Bool
keeps (dict entries) = some_value entries
keeps _ = true

unfoldable pub kept_values : Values → Values
kept_values no_values = no_values
kept_values (value v vs) = let rest = kept_values vs in if keeps v then value v rest else rest

unfoldable pub put_kept : Fields → String → Values → Fields
put_kept payload attribute no_values = remove payload attribute
put_kept payload attribute (value v vs) = put payload attribute (list (value v vs))

unfoldable pub prune_found : Fields → String → Option Value → Fields
prune_found payload attribute (some (list vs)) = put_kept payload attribute (kept_values vs)
prune_found payload attribute _ = payload

-- One round of the loop of `_prune_empty`
unfoldable pub prune : Fields → String → Fields
prune payload attribute = prune_found payload attribute (get payload attribute)

unfoldable pub prune_all : List String → Fields → Fields
prune_all [] payload = payload
prune_all (a ∷ attributes) payload = prune_all attributes (prune payload a)

abbrev pub multi_valued : List String
multi_valued = "entitlements" ∷ "roles" ∷ "groups" ∷ "members" ∷ "emails" ∷ []

unfoldable pub prune_empty : Fields → Fields
prune_empty payload = prune_all multi_valued payload

-- `model` is the model's dict without the fields that are unset.
unfoldable pub dump : Resource → Fields → Fields
dump resource model = prune_empty (
    if has model "schemas"
    then model
    else put model "schemas" (list (value (str resource.schema) no_values)))

module _ (python : Python) (resource : Resource) where
  unfoldable pub clashes : Value → Value → Fields → Bool
  clashes wanted exclude stored =
      python.same (opt_value (get stored resource.unique)) wanted
      && not (python.same (opt_value (get stored "id")) exclude)

  -- `_unique_check`, with null for an absent value or id
  unfoldable pub unique_check : Value → Value → State → Result (Unit {0})
  unique_check wanted exclude s =
      if python.truthy wanted && any (clashes wanted exclude) (values s)
      then raised (
          error "RESOURCE_ALREADY_EXISTS"
            (resource.label
              <> " with "
              <> resource.unique
              <> " "
              <> python.str_of wanted
              <> " already exists")
            409)
      else ok tt

  -- The id of a new resource: its own if it has one that counts as true, else the drawn one.
  abbrev pub id_of : Fields → String → String
  id_of payload drawn = own (get payload "id")
    where
      own : Option Value → String
      own (some (str s)) = if nonempty s then s else drawn
      own _ = drawn

  unfoldable pub store : String → Fields → Exec State Fields
  store drawn payload s = elim (unique_check (opt_value (get payload resource.unique)) null s) [
    | raised x ↦ (raised x, s)
    | ok _ ↦
        let id = id_of payload drawn in
        let stored = put payload "id" (str id) in (ok stored, put s id stored)
  ]

  unfoldable pub create : String → Fields → Exec State Fields
  create drawn model = store drawn (dump resource model)

  unfoldable pub replace : String → Fields → Exec State Fields
  replace id model s =
      let payload = dump resource model in
      elim (get_or_404 resource id s).0 [
        | raised x ↦ (raised x, s)
        | ok _ ↦ elim (unique_check (opt_value (get payload resource.unique)) (str id) s) [
          | raised x ↦ (raised x, s)
          | ok _ ↦ let stored = put payload "id" (str id) in (ok stored, put s id stored)
        ]
      ]

-- `create_service_principal`, which draws an application id where there is none.
unfoldable pub new_service_principal : Python → String → String → Fields → Exec State Fields
new_service_principal python drawn application_id model =
    let payload = dump service_principals model in
    store python service_principals drawn (
      if has payload "applicationId"
      then payload
      else put payload "applicationId" (str application_id))
