-- ===== src/Compute/Policies.antt =====
-- services/cluster_policies.py. A request is its `model_dump(exclude_none=True)`, a dict without
-- nulls; `json.loads` is a parameter, which gives the document or the decoder's message.
use minilake.Prelude.{
  ℕ, String, ◌<>◌, Bool, false, not, ◌&&◌, ◌⊎◌, inl, inr, Option, none, some, List, [], ◌∷◌, ◌==◌,
  string_eq, option_eq, nonempty, any, is_empty, if◌then◌else◌,
}
use minilake.Prelude.Int.{pos}
use minilake.Prelude.Dict.{Dict, get, put, remove, update, values}
use minilake.Json.{Value, bool, int, str, dict}
use minilake.Text.{join}
use minilake.Errors.{
  Exec, Result, ok, raised, pure, gets, lift, or_raise, ◌>>=◌, ◌>>◌, modify, raise_if, error,
}
use minilake.Compute.State.{State, Stored, text_at, holds}

-- `if text:` for an optional text
abbrev pub given : Option String → Bool
given none = false
given (some s) = nonempty s

unfoldable pub get_policy_or_404 : String → Exec State Stored
get_policy_or_404 id = do
  policies ← gets (λ s. s.policies)
  or_raise (get policies id)
      (error "RESOURCE_DOES_NOT_EXIST" ("Policy '" <> id <> "' not found") 404)

-- `any(p.get("name") == name and p.get("policy_id") != exclude_id for p in …)`
unfoldable pub name_taken : Dict String Stored → Option String → Option String → Bool
name_taken policies none exclude = false
name_taken policies (some name) exclude =
    nonempty name
    && any (λ p. holds p "name" name && not (text_at p "policy_id" == exclude)) (values policies)

-- What `create_policy` stores: the request's dict, under the fields that the server sets.
unfoldable pub new_policy : String → ℕ → Stored → Stored
new_policy policy_id now req =
    put
      (put (put (put req "policy_id" (str policy_id)) "is_default" (bool false)) "creator_user_name"
        (str "minilake-user"))
      "created_at_timestamp" (int (pos now))

abbrev name_error : Option String → String
name_error none = ""
name_error (some name) = "A policy named '" <> name <> "' already exists"

-- The keys of the clusters whose `field` holds `id`: the `in_use` of both deletions.
unfoldable pub users_of : String → String → Dict String Stored → List String
users_of field id [] = []
users_of field id ((cluster_id, cluster) ∷ rest) =
    let later = users_of field id rest in
    if holds cluster field id then cluster_id ∷ later else later

module _ (loads : String → String ⊎ Value) where
  abbrev check_document : String ⊎ Value → Result (Unit {0})
  check_document (inl e) =
      raised (error "INVALID_PARAMETER_VALUE" ("definition must be a JSON document: " <> e) 400)
  check_document (inr (dict _)) = ok tt
  check_document (inr _) =
      raised (error "INVALID_PARAMETER_VALUE" "definition must be a JSON object" 400)

  unfoldable pub validate_definition : Option String → Result (Unit {0})
  validate_definition none = ok tt
  validate_definition (some definition) = check_document (loads definition)

  unfoldable pub create_policy : String → ℕ → Stored → Exec State String
  unfolding name_taken validate_definition
  create_policy policy_id now req = do
    raise_if (not (given (text_at req "name")))
        (error "INVALID_PARAMETER_VALUE" "name is required" 400)
    policies ← gets (λ s. s.policies)
    raise_if (name_taken policies (text_at req "name") none)
        (error "RESOURCE_ALREADY_EXISTS" (name_error (text_at req "name")) 400)
    lift (validate_definition (text_at req "definition"))
    modify λ s. record s { policies = put s.policies policy_id (new_policy policy_id now req) }
    pure policy_id

  -- The request's dict holds the id too.
  unfoldable pub edit_policy : String → Stored → Exec State (Unit {0})
  unfolding get_policy_or_404 name_taken validate_definition
  edit_policy policy_id req = do
    stored ← get_policy_or_404 policy_id
    policies ← gets (λ s. s.policies)
    raise_if (name_taken policies (text_at req "name") (some policy_id))
        (error "RESOURCE_ALREADY_EXISTS" (name_error (text_at req "name")) 400)
    lift (validate_definition (text_at req "definition"))
    modify λ s. record s {
      policies = put s.policies policy_id (update stored (put req "policy_id" (str policy_id)));
    }

unfoldable pub delete_policy : String → Exec State (Unit {0})
unfolding get_policy_or_404 users_of
delete_policy policy_id = do
  get_policy_or_404 policy_id
  clusters ← gets (λ s. s.clusters)
  raise_if (not (is_empty (users_of "policy_id" policy_id clusters))) (
      error "INVALID_STATE"
        ("Policy '"
          <> policy_id
          <> "' is in use by cluster(s): "
          <> join ", " (users_of "policy_id" policy_id clusters))
        400)
  modify (λ s. record s { policies = remove s.policies policy_id })

unfoldable pub reset_policies : State → State
reset_policies s = record s { policies = [] }

unfoldable pub restore_policies : Dict String Stored → State → State
restore_policies saved s = record s { policies = saved }
