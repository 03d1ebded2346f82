-- ===== src/Objects.antt =====
-- The handlers that services/saved_queries.py and services/alerts.py share word for word: they keep
-- objects by id, each with a display name, and change them through an update mask.
pub mod Unique
pub mod Creation
pub mod Renaming
pub mod Changes
pub mod Legacy
pub mod Rewrites
pub mod Requests
use minilake.Prelude.{
  String, ◌<>◌, Bool, true, false, not, ◌&&◌, ◌||◌, Option, none, some, List, [], ◌∷◌, ◌++◌, ◌==◌,
  string_eq, contains, select, is_empty, nonempty, is_some, if◌then◌else◌,
}
use minilake.Prelude.Dict.{Dict, get, put, remove, update, has, values}
use minilake.Text.{split, strip, join}
use minilake.Json.{Value, null, bool, int, str, list, dict, opt_str, or_str}
use minilake.Errors.{
  Exec, Exception, pure, raise, gets, or_raise, ◌>>=◌, ◌>>◌, modify, raise_if, error,
}
use minilake.Names.{Fields, State, name_taken, resolve_name}

-- What tells the two services apart: the words in messages, the name of an unnamed object, the fields
-- a mask may name, and the fields that creation and an update fill in beside the shared ones.
pub record Kind : Type 0 where
  pub label : String
  pub fallback : String
  pub updatable : List String
  pub created : Fields
  pub touched : String → Fields

abbrev pub as_text : Option Value → Option String
as_text (some (str s)) = some s
as_text _ = none

abbrev pub text_field : Fields → String → Option String
text_field fields key = as_text (get fields key)

abbrev pub missing : Kind → String → Exception
missing kind id = error "RESOURCE_DOES_NOT_EXIST" (kind.label <> " '" <> id <> "' not found") 404

unfoldable pub get_or_404 : Kind → String → Exec State Fields
get_or_404 kind id = do found ← gets (λ (s : State). get s id); or_raise found (missing kind id)

abbrev shown : Option String → String
shown none = "None"
shown (some s) = s

-- The display name that creation stores.
unfoldable pub new_name : Kind → Option String → Bool → Exec State (Option String)
new_name kind name resolve s =
    if resolve
    then pure (some (resolve_name kind.fallback s name none)) s
    else if name_taken s name none
    then raise
        (error "RESOURCE_ALREADY_EXISTS"
          (kind.label
            <> " with display name '"
            <> shown name
            <> "' already exists. Set auto_resolve_display_name to resolve the conflict automatically.")
          400)
        s
    else pure name s

-- `{**payload, "id": …, "display_name": …, …, "create_time": now, "update_time": now}`
unfoldable pub created_fields : Kind → String → String → Fields → Option String → Fields
created_fields kind id now payload name =
    let named = put (put payload "id" (str id)) "display_name" (opt_str name) in
    put (put (update named kind.created) "create_time" (str now)) "update_time" (str now)

-- `payload` is the request's object without the fields it left out.
unfoldable pub store_new : Kind → String → String → Fields → Option String → Exec State Fields
store_new kind id now payload name = do
  let stored = created_fields kind id now payload name
  modify (λ (s : State). put s id stored)
  pure stored

unfoldable pub create : Kind → String → String → Fields → Bool → Exec State Fields
create kind id now payload resolve =
    new_name kind (text_field payload "display_name") resolve >>= store_new kind id now payload

-- `[f.strip() for f in mask.split(",") if f.strip()]`
unfoldable pub mask_fields : String → List String
mask_fields mask = stripped (split b',' mask)
  where
    stripped : List String → List String
    stripped [] = []
    stripped (f ∷ fs) =
        let rest = stripped fs in if nonempty (strip f) then strip f ∷ rest else rest

-- `{f: payload.get(f) for f in fields if f in payload}`, added to a dict
unfoldable pub chosen : List String → Fields → Fields → Fields
chosen [] payload into = into
chosen (f ∷ fs) payload into = elim (get payload f) [
  | none ↦ chosen fs payload into
  | some v ↦ chosen fs payload (put into f v)
]

unfoldable pub masked : List String → Fields → Fields
masked fields payload = if contains fields "*" then payload else chosen fields payload []

-- The updates once the new display name, if there is one, is resolved.
unfoldable pub renamed : Kind → String → Bool → Fields → Exec State Fields
renamed kind id resolve updates s = elim (text_field updates "display_name") [
  | none ↦ pure updates s
  | some name ↦
      if resolve
      then pure
          (put updates "display_name" (str (resolve_name kind.fallback s (some name) (some id)))) s
      else if name_taken s (some name) (some id)
      then raise
          (error "RESOURCE_ALREADY_EXISTS"
            (kind.label <> " with display name '" <> name <> "' already exists") 400)
          s
      else pure updates s
]

-- `stored.update(updates)` and the time of the update.
unfoldable pub store_updated : Kind → String → String → Fields → Fields → Exec State Fields
store_updated kind id now stored updates = do
  let updated = update (update stored updates) (kind.touched now)
  modify (λ (s : State). put s id updated)
  pure updated

abbrev pub given_mask : Option String → String
given_mask none = ""
given_mask (some mask) = mask

-- `[f for f in fields if f not in _UPDATABLE_FIELDS and f != "*"]`
abbrev pub unknown_fields : Kind → List String → List String
unknown_fields kind fields = select (λ f. not (contains kind.updatable f) && not (f == "*")) fields

-- The guards on the mask.
unfoldable pub check_mask : Kind → String → Exec State (Unit {0})
check_mask kind mask = do
  raise_if (not (nonempty mask)) (error "INVALID_PARAMETER_VALUE" "update_mask is required" 400)
  let unknown = unknown_fields kind (mask_fields mask)
  raise_if (not (is_empty unknown))
      (error "INVALID_PARAMETER_VALUE" ("Unknown update_mask field(s): " <> join ", " unknown) 400)

-- `body_mask` is the mask of the request's body and `query_mask` that of its query string.
unfoldable pub change :
    Kind → String → String → Fields → Option String → Option String → Bool → Exec State Fields
change kind id now payload body_mask query_mask resolve =
    let mask = given_mask (or_str body_mask query_mask) in
    get_or_404 kind id >>= λ stored.
    check_mask kind mask
    >> renamed kind id resolve (masked (mask_fields mask) payload)
    >>= store_updated kind id now stored

unfoldable pub delete : Kind → String → Exec State (Unit {0})
delete kind id = do get_or_404 kind id; modify (λ (s : State). remove s id)
