-- ===== src/Scim/Projection.antt =====
-- `_project`, `_matches_filter` and `_list`: which resources a list answers, and which attributes.
use minilake.Prelude.{
  ℕ, suc, ◌-◌, String, ◌<>◌, ◌≡◌, ◌⊎◌, inl, inr, refl, Bool, true, false, not, ◌&&◌, ◌||◌, Option,
  none, some, List, [], ◌∷◌, ◌==◌, string_eq, arith, contains, length, nonempty, Bool-cases,
  if◌then◌else◌,
}
use minilake.Prelude.Int.{ℤ, pos}
use minilake.Prelude.Dict.{get, values}
use minilake.Json.{Value, null, opt_value}
use minilake.Errors.{Exec, Result, ok, raised, error, pure, ◌>>=◌}
use minilake.Names.{Fields, State}
use minilake.Paging.{slice, drop}
use minilake.Objects.{mask_fields}
use minilake.Scim.{Python, Resource, get_or_404}

-- `{k: v for k, v in record.items() if p(k)}`
unfoldable pub select_keys : (String → Bool) → Fields → Fields
select_keys p [] = []
select_keys p ((k, v) ∷ fields) =
    let rest = select_keys p fields in if p k then (k, v) ∷ rest else rest

abbrev pub always_returned : List String
always_returned = "id" ∷ "schemas" ∷ []

abbrev given : Option String → String
given none = ""
given (some s) = s

-- `excluded` counts only where `attributes` is absent or empty.
unfoldable pub project : Fields → Option String → Option String → Fields
project fields attributes excluded =
    let wanted =
      λ (k : String). contains (mask_fields (given attributes)) k || contains always_returned k in
    let unwanted = λ (k : String).
      contains (mask_fields (given excluded)) k && not (contains always_returned k) in
    if nonempty (given attributes)
    then select_keys wanted fields
    else if nonempty (given excluded)
    then select_keys (λ k. not (unwanted k)) fields
    else fields

-- What a list asks of Python: the parts of a filter, none for text that is no filter, with its
-- operator in lower case; `repr`, `in` and `startswith` on texts; and the entries sorted by the text of an
-- attribute.
pub record Listing : Type 0 where
  pub filter_parts : String → Option (String × String × String)
  pub repr : String → String
  pub text_in : String → String → Bool
  pub starts_with : String → String → Bool
  pub sorted : String → List Fields → List Fields

abbrev is_null : Value → Bool
is_null null = true
is_null _ = false

module _ (python : Python) (listing : Listing) where
  -- An attribute against the value of a filter
  unfoldable pub compares : String → String → Value → Bool
  compares op wanted actual =
      let found = python.lower (python.str_of actual) in
      if is_null actual
      then false
      else if op == "eq"
      then found == python.lower wanted
      else if op == "co"
      then listing.text_in (python.lower wanted) found
      else listing.starts_with found (python.lower wanted)

  unfoldable pub matches_filter : Option String → Fields → Result Bool
  matches_filter scim_filter stored =
      if nonempty (given scim_filter)
      then matched (listing.filter_parts (given scim_filter))
      else ok true
    where
      matched : Option (String × String × String) → Result Bool
      matched none = raised (
          error "INVALID_PARAMETER_VALUE"
            ("Unsupported SCIM filter: "
              <> listing.repr (given scim_filter)
              <> ". minilake supports `attribute eq \"value\"` (also co, sw).")
            400)
      matched (some (attr, op, wanted)) = ok (compares op wanted (opt_value (get stored attr)))

  -- `[s for s in … if _matches_filter(s, scim_filter)]`
  unfoldable pub filtered : Option String → List Fields → Result (List Fields)
  filtered scim_filter [] = ok []
  filtered scim_filter (s ∷ ss) = elim (matches_filter scim_filter s) [
    | raised x ↦ raised x
    | ok keep ↦ elim (filtered scim_filter ss) [
      | raised x ↦ raised x
      | ok rest ↦ ok (if keep then s ∷ rest else rest)
    ]
  ]

  -- `max(1, start_index or 1)`
  abbrev pub start_of : Option ℤ → ℕ
  start_of (some (pos (suc n))) = suc n
  start_of _ = 1

  unfoldable pub projected : Option String → Option String → List Fields → List Fields
  projected attributes excluded [] = []
  projected attributes excluded (r ∷ rs) =
      project r attributes excluded ∷ projected attributes excluded rs

  abbrev page_of : Option ℤ → Option ℤ → List Fields → List Fields
  page_of start none entries = drop (start_of start - 1) entries
  page_of start (some count) entries = slice (drop (start_of start - 1) entries) (pos 0) count

  abbrev in_order : Option String → List Fields → List Fields
  in_order sort_by entries =
      if nonempty (given sort_by) then listing.sorted (given sort_by) entries else entries

  -- `ListResponse`: totalResults, startIndex, itemsPerPage and Resources
  unfoldable pub list_resources :
      Option String
      → Option ℤ
      → Option ℤ
      → Option String
      → Option String
      → Option String
      → State
      → Result (ℕ × ℕ × ℕ × List Fields)
  list_resources scim_filter start count sort_by attributes excluded s =
      elim (filtered scim_filter (values s)) [
        | raised x ↦ raised x
        | ok entries ↦
            let page = page_of start count (in_order sort_by entries) in
            ok (length entries, start_of start, length page, projected attributes excluded page)
      ]

-- The handlers that answer one resource
unfoldable pub get_resource : Resource → String → Option String → Option String → Exec State Fields
get_resource resource id attributes excluded =
    get_or_404 resource id >>= λ stored. pure (project stored attributes excluded)

get-select_keys :
    (p : String → Bool) (fields : Fields) (k : String)
    → get (select_keys p fields) k ≡ (if p k then get fields k else none)
unfolding get select_keys
get-select_keys p [] k = ground arith
get-select_keys p ((j, v) ∷ fields) k = elim (Bool-cases (p j)) [
  | inl kept ↦ ground (arith, kept, get-select_keys p fields k)
  | inr dropped ↦ ground (arith, dropped, get-select_keys p fields k)
]

get-select_keys_cases :
    (p : String → Bool) (fields : Fields) (k : String)
    → (get (select_keys p fields) k ≡ get fields k) ⊎ (get (select_keys p fields) k ≡ none)
get-select_keys_cases p fields k = elim (Bool-cases (p k)) [
  | inl kept ↦ inl (ground (arith, kept, get-select_keys p fields k))
  | inr dropped ↦ inr (ground (arith, dropped, get-select_keys p fields k))
]

get-select_keys_kept :
    (p : String → Bool) (fields : Fields) (k : String)
    → p k ≡ true
    → get (select_keys p fields) k ≡ get fields k
get-select_keys_kept p fields k kept = ground (arith, kept, get-select_keys p fields k)

-- What a projection answers of each attribute.
pub record IsProjection (fields projected : Fields) : Type 0 where
  pub id : get projected "id" ≡ get fields "id"
  pub schemas : get projected "schemas" ≡ get fields "schemas"
  pub others : (k : String) → (get projected k ≡ get fields k) ⊎ (get projected k ≡ none)

select_keys-IsProjection :
    (p : String → Bool) (fields : Fields)
    → p "id" ≡ true
    → p "schemas" ≡ true
    → IsProjection fields (select_keys p fields)
select_keys-IsProjection p fields kept_id kept_schemas = record {
  id = get-select_keys_kept p fields "id" kept_id;
  schemas = get-select_keys_kept p fields "schemas" kept_schemas;
  others = get-select_keys_cases p fields;
}

-- Whatever attributes a request asks for or leaves out, it is answered the id and the schemas as they
-- are stored, and each other attribute as it is stored or not at all.
pub project-IsProjection :
    (fields : Fields) (attributes excluded : Option String)
    → IsProjection fields (project fields attributes excluded)
unfolding project
project-IsProjection fields attributes excluded = elim (Bool-cases (nonempty (given attributes))) [
  | inl asked ↦ rw asked (select_keys-IsProjection _ fields (ground arith) (ground arith))
  | inr all ↦ elim (Bool-cases (nonempty (given excluded))) [
    | inl without ↦
        rw (all, without) (select_keys-IsProjection _ fields (ground arith) (ground arith))
    | inr every ↦ rw (all, every) (record { id = refl; schemas = refl; others = λ k. inl refl })
  ]
]
