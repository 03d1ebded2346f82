-- ===== src/Objects/Requests.antt =====
-- The requests of one service keep the display names apart.
use minilake.Prelude.{
  String, ◌≡◌, inl, inr, Bool, false, Option, none, subst, List, [], ◌∷◌, string_eq, Option-cases,
  ap, contains, All,
}
use minilake.Prelude.Dict.{get, remove}
use minilake.Json.{or_str}
use minilake.Errors.{modify, bind-ok, bind-raised, ok}
use minilake.Objects.Legacy.{
  Conversions, legacy_to_query, legacy_to_alert, update_legacy, set_lifecycle,
}
use minilake.Objects.Rewrites.{
  legacy_to_query-other, legacy_to_alert-other, update_legacy-HasUniqueNames,
  set_lifecycle-HasUniqueNames,
}
use minilake.Names.{Fields, State}
use minilake.Objects.{Kind, missing, get_or_404, create, given_mask, mask_fields, change, delete}
use minilake.Objects.Unique.{HasUnique, remove-HasUnique}
use minilake.Objects.Creation.{IsKind, create-HasUniqueNames}
use minilake.Objects.Changes.{change-HasUniqueNames, get_or_404-found, get_or_404-missing}

delete-HasUniqueNames :
    (kind : Kind) (id : String) (s : State)
    → HasUnique "display_name" s
    → HasUnique "display_name" (delete kind id s).1
unfolding delete
delete-HasUniqueNames kind id s h = elim (Option-cases (get s id)) [
  | inl e ↦
      rw
        (ap (λ r. r.1)
          (bind-raised (get_or_404 kind id) (λ _. modify (λ (t : State). remove t id)) s
            (missing kind id) s (get_or_404-missing kind id s e)))
        h
  | inr (stored, e) ↦
      rw
        (ap (λ r. r.1)
          (bind-ok (get_or_404 kind id) (λ _. modify (λ (t : State). remove t id)) s stored s
            (get_or_404-found kind id s stored e)))
        (remove-HasUnique "display_name" s id h)
]

-- The requests that write: `changing` carries the mask of the body and that of the query string.
pub data Request : Type 0 where
  creating : (id now : String) (payload : Fields) (resolve : Bool) → Request
  changing :
      (id now : String) (payload : Fields) (body_mask query_mask : Option String) (resolve : Bool)
      → Request
  deleting : String → Request
  -- the writers of the legacy API
  rewriting_query : (id now : String) (body : Fields) → Request
  rewriting_alert : (id now : String) (body : Fields) → Request
  trashing : String → Request
  restoring : String → Request

unfoldable pub run : Conversions → Kind → List Request → State → State
run c kind [] s = s
run c kind (creating id now payload resolve ∷ rs) s =
    run c kind rs (create kind id now payload resolve s).1
run c kind (changing id now payload body query resolve ∷ rs) s =
    run c kind rs (change kind id now payload body query resolve s).1
run c kind (deleting id ∷ rs) s = run c kind rs (delete kind id s).1
run c kind (rewriting_query id now body ∷ rs) s =
    run c kind rs (update_legacy kind (λ b. ok (legacy_to_query b)) id now body s).1
run c kind (rewriting_alert id now body ∷ rs) s =
    run c kind rs (update_legacy kind (legacy_to_alert c) id now body s).1
run c kind (trashing id ∷ rs) s = run c kind rs (set_lifecycle kind "TRASHED" id s).1
run c kind (restoring id ∷ rs) s = run c kind rs (set_lifecycle kind "ACTIVE" id s).1

-- An update names its fields one by one, and one of the legacy API names no object.
abbrev pub NamesFields : Request → Type 0
NamesFields (changing id now payload body_mask query_mask resolve) =
    contains (mask_fields (given_mask (or_str body_mask query_mask))) "*" ≡ false
NamesFields (rewriting_query id now body) = get body "name" ≡ none
NamesFields (rewriting_alert id now body) = get body "name" ≡ none
NamesFields _ = Unit

-- After any requests that create, update, delete, trash or restore, also those of the legacy API,
-- answered or refused, from a state in which this holds, each object carries its id and no two have
-- the same display name unless it is empty. The masks of the updates name their fields, without `*`,
-- and the bodies of the legacy updates have no "name".
pub run-HasUniqueNames :
    (c : Conversions) (kind : Kind) (rs : List Request) (s : State)
    → IsKind kind
    → All NamesFields rs
    → HasUnique "display_name" s
    → HasUnique "display_name" (run c kind rs s)
unfolding run
run-HasUniqueNames c kind [] s k named h = h
run-HasUniqueNames c kind (creating id now payload resolve ∷ rs) s k (_, named) h =
    run-HasUniqueNames c kind rs _ k named (create-HasUniqueNames kind k id now payload resolve s h)
run-HasUniqueNames c kind (changing id now payload body query resolve ∷ rs) s k (no_star, named) h =
    run-HasUniqueNames c kind rs _ k named
      (change-HasUniqueNames kind k id now payload body query resolve s no_star h)
run-HasUniqueNames c kind (deleting id ∷ rs) s k (_, named) h =
    run-HasUniqueNames c kind rs _ k named (delete-HasUniqueNames kind id s h)
run-HasUniqueNames c kind (rewriting_query id now body ∷ rs) s k (unnamed, named) h =
    run-HasUniqueNames c kind rs _ k named (
      update_legacy-HasUniqueNames kind (λ b. ok (legacy_to_query b)) id now body s
        (λ mapped e.
          subst (λ m. (get m "id" ≡ none) × (get m "display_name" ≡ none)) (ok_eq e)
            (legacy_to_query-other body unnamed))
        h)
  where
    ok_eq : {a b : Fields} → ok a ≡ ok b → a ≡ b
    ok_eq h = cc h
run-HasUniqueNames c kind (rewriting_alert id now body ∷ rs) s k (unnamed, named) h =
    run-HasUniqueNames c kind rs _ k named (
      update_legacy-HasUniqueNames kind (legacy_to_alert c) id now body s
        (λ mapped e. legacy_to_alert-other c body mapped unnamed e) h)
run-HasUniqueNames c kind (trashing id ∷ rs) s k (_, named) h =
    run-HasUniqueNames c kind rs _ k named (set_lifecycle-HasUniqueNames kind "TRASHED" id s h)
run-HasUniqueNames c kind (restoring id ∷ rs) s k (_, named) h =
    run-HasUniqueNames c kind rs _ k named (set_lifecycle-HasUniqueNames kind "ACTIVE" id s h)
