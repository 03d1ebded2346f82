-- ===== src/Scim/Requests.antt =====
-- Any sequence of SCIM requests on one kind of resource.
use minilake.Prelude.{
  String, ◌≡◌, inl, inr, refl, ap, subst, Option, none, some, List, [], ◌∷◌, string_eq,
  Option-cases, text_ne,
}
use minilake.Prelude.Dict.{get, put, remove, get-put_here, get-put_there}
use minilake.Json.{null, str, opt_value}
use minilake.Errors.{Exec, ok, raised, Result-cases, bind-ok, bind-raised, modify}
use minilake.Names.{Fields, State}
use minilake.Objects.{as_text, text_field}
use minilake.Objects.Unique.{HasUnique, remove-HasUnique}
use minilake.Scim.{
  Python, Resource, prune_empty, unique_check, id_of, store, create, replace, delete, get_or_404,
  missing, dump, users, groups, service_principals, new_service_principal,
}
use minilake.Scim.Patch.{Operation, patch_resource}
use minilake.Scim.Uniqueness.{IsPython, IsResource, as_text-str, prune_empty-other, put_checked}
use minilake.Scim.Commits.{patch_resource-atomic}

store-HasUnique :
    (python : Python)
    → IsPython python
    → (resource : Resource) → IsResource resource
    → (drawn : String) (payload : Fields) (s : State) → HasUnique resource.unique s
    → HasUnique resource.unique (store python resource drawn payload s).1
unfolding store
store-HasUnique python p resource r drawn payload s h =
    let wanted = opt_value (get payload resource.unique) in
    let id = id_of python resource payload drawn in
    let stored = put payload "id" (str id) in
    elim (Result-cases (unique_check python resource wanted null s)) [
      | inr (x, e) ↦ rw (e, store) h
      | inl (u, e) ↦
          rw (e, store)
            (put_checked python p resource s id null stored u h (inl refl)
              (ap as_text (get-put_here payload "id" (str id)))
              (rw (get-put_there payload "id" (str id) resource.unique r.not_id) e))
    ]

replace-HasUnique :
    (python : Python)
    → IsPython python
    → (resource : Resource) → IsResource resource
    → (id : String) (model : Fields) (s : State) → HasUnique resource.unique s
    → HasUnique resource.unique (replace python resource id model s).1
unfolding replace
replace-HasUnique python p resource r id model s h =
    let payload = dump resource model in
    let stored = put payload "id" (str id) in
    elim (Result-cases (get_or_404 resource id s).0) [
      | inr (x, e) ↦ rw (e, replace) h
      | inl (before, e) ↦
          elim (Result-cases
            (unique_check python resource (opt_value (get payload resource.unique)) (str id) s)) [
              | inr (x, c) ↦ rw (e, replace) (rw (c, replace) h)
              | inl (u, c) ↦
                  rw (e, replace)
                    (rw (c, replace)
                      (put_checked python p resource s id (str id) stored u h (inr refl)
                        (ap as_text (get-put_here payload "id" (str id)))
                        (rw (get-put_there payload "id" (str id) resource.unique r.not_id) c)))
            ]
    ]

get_or_404-found :
    (resource : Resource) (id : String) (s : State) (stored : Fields)
    → get s id ≡ some stored
    → get_or_404 resource id s ≡ (ok stored, s)
unfolding get_or_404
get_or_404-found resource id s stored e = rw (e, get_or_404) refl

get_or_404-missing :
    (resource : Resource) (id : String) (s : State)
    → get s id ≡ none
    → get_or_404 resource id s ≡ (raised (missing resource id), s)
unfolding get_or_404
get_or_404-missing resource id s e = rw (e, get_or_404) refl

delete-HasUnique :
    (resource : Resource) (id : String) (attribute : String) (s : State)
    → HasUnique attribute s
    → HasUnique attribute (delete resource id s).1
unfolding delete
delete-HasUnique resource id attribute s h = elim (Option-cases (get s id)) [
  | inl e ↦
      rw
        (ap (λ r. r.1)
          (bind-raised (get_or_404 resource id) (λ _. modify (λ (t : State). remove t id)) s
            (missing resource id) s (get_or_404-missing resource id s e)))
        h
  | inr (stored, e) ↦
      rw
        (ap (λ r. r.1)
          (bind-ok (get_or_404 resource id) (λ _. modify (λ (t : State). remove t id)) s stored s
            (get_or_404-found resource id s stored e)))
        (remove-HasUnique attribute s id h)
]

-- The service principal that is stored has an application id, its own or the drawn one.
new_service_principal-HasUnique :
    (python : Python)
    → IsPython python
    → IsResource service_principals
    → (drawn application_id : String) (model : Fields) (s : State)
    → HasUnique service_principals.unique s
    → HasUnique service_principals.unique
        (new_service_principal python drawn application_id model s).1
unfolding new_service_principal
new_service_principal-HasUnique python p r drawn application_id model s h =
    store-HasUnique python p service_principals r drawn _ s h

-- The three stores, and the requests on one of them. `application_id` is what the creation of a
-- service principal draws; the others do not look at it.
pub data Directory : Type 0 where
  of_users of_groups of_service_principals : Directory

abbrev pub resource_of : Directory → Resource
resource_of of_users = users
resource_of of_groups = groups
resource_of of_service_principals = service_principals

-- The unique attributes are neither multi-valued nor the id.
resource_of-IsResource : (directory : Directory) → IsResource (resource_of directory)
unfolding users groups service_principals string_eq
resource_of-IsResource of_users = record { single = refl; not_id = text_ne "userName" "id" refl }
resource_of-IsResource of_groups = record {
  single = refl;
  not_id = text_ne "displayName" "id" refl;
}
resource_of-IsResource of_service_principals = record {
  single = refl;
  not_id = text_ne "applicationId" "id" refl;
}

-- The route that creates in a store.
unfoldable pub create_in : Python → Directory → String → String → Fields → Exec State Fields
create_in python of_users drawn application_id model = create python users drawn model
create_in python of_groups drawn application_id model = create python groups drawn model
create_in python of_service_principals drawn application_id model =
    new_service_principal python drawn application_id model

create_in-HasUnique :
    (python : Python)
    → IsPython python
    → (directory : Directory) (drawn application_id : String) (model : Fields) (s : State)
    → HasUnique (resource_of directory).unique s
    → HasUnique
        (resource_of directory).unique
        (create_in python directory drawn application_id model s).1
unfolding create_in create
create_in-HasUnique python p of_users drawn application_id model s h =
    store-HasUnique python p users (resource_of-IsResource of_users) drawn (dump users model) s h
create_in-HasUnique python p of_groups drawn application_id model s h =
    store-HasUnique python p groups (resource_of-IsResource of_groups) drawn (dump groups model) s h
create_in-HasUnique python p of_service_principals drawn application_id model s h =
    new_service_principal-HasUnique python p (resource_of-IsResource of_service_principals) drawn
      application_id model s h

pub data Request : Type 0 where
  creating : (drawn application_id : String) (model : Fields) → Request
  replacing : (id : String) (model : Fields) → Request
  patching : (id : String) (operations : List Operation) → Request
  deleting : String → Request

module _ (python : Python) (path_filter : String → Option (String × String × String))
    (directory : Directory) where
  abbrev resource : Resource
  resource = resource_of directory

  unfoldable pub step : Request → State → State
  unfolding create_in
  step (creating drawn application_id model) s =
      (create_in python directory drawn application_id model s).1
  step (replacing id model) s = (replace python resource id model s).1
  step (patching id operations) s = (patch_resource python path_filter resource id operations s).1
  step (deleting id) s = (delete resource id s).1

  unfoldable pub run : List Request → State → State
  run [] s = s
  run (r ∷ rs) s = run rs (step r s)

  -- A PATCH that is answered leaves the id as it is.
  abbrev pub KeepsId : Request → State → Type 0
  KeepsId (creating drawn application_id model) s = Unit
  KeepsId (replacing id model) s = Unit
  KeepsId (patching id operations) s =
      (answer : Fields)
      → (patch_resource python path_filter resource id operations s).0 ≡ ok answer
      → text_field answer "id" ≡ some id
  KeepsId (deleting id) s = Unit

  abbrev pub KeepIds : List Request → State → Type 0
  KeepIds [] s = Unit
  KeepIds (r ∷ rs) s = KeepsId r s × KeepIds rs (step r s)

  module _ (p : IsPython python) (is : IsResource resource) where
    patch-HasUnique :
        (id : String) (operations : List Operation) (s : State)
        → KeepsId (patching id operations) s
        → HasUnique resource.unique s
        → HasUnique resource.unique (patch_resource python path_filter resource id operations s).1
    patch-HasUnique id operations s keeps h =
        elim (patch_resource-atomic python path_filter resource id operations s) [
          | inl (x, e) ↦ rw e h
          | inr (stored, candidate, u, known, applied, passed, e) ↦
              let own = as_text-str (get stored "id") id (h.ids id stored known) in
              rw e (
                put_checked python p resource s id (str id) (prune_empty candidate) u h (inr refl)
                  (keeps (prune_empty candidate) (ap (λ r. r.0) e))
                  (rw (pruned candidate) (
                    subst
                      (λ v.
                        unique_check python resource (opt_value (get candidate resource.unique))
                          (opt_value v) s
                        ≡ ok u)
                      own passed)))
        ]
      where
        pruned :
            (candidate : Fields)
            → get (prune_empty candidate) resource.unique ≡ get candidate resource.unique
        pruned candidate = prune_empty-other candidate resource.unique is.single

    step-HasUnique :
        (r : Request) (s : State)
        → KeepsId r s
        → HasUnique resource.unique s
        → HasUnique resource.unique (step r s)
    unfolding step create
    step-HasUnique (creating drawn application_id model) s keeps h =
        create_in-HasUnique python p directory drawn application_id model s h
    step-HasUnique (replacing id model) s keeps h =
        replace-HasUnique python p resource is id model s h
    step-HasUnique (patching id operations) s keeps h = patch-HasUnique id operations s keeps h
    step-HasUnique (deleting id) s keeps h = delete-HasUnique resource id resource.unique s h

-- After any SCIM requests on users, on groups or on service principals, answered or refused, from a
-- state in which this holds, each resource carries its id and no two share a userName, a displayName
-- or an applicationId, unless it is empty; no PATCH among the requests that is answered changes the
-- id of its resource.
pub run-HasUnique :
    (python : Python) (path_filter : String → Option (String × String × String))
    (directory : Directory) (rs : List Request) (s : State)
    → IsPython python
    → KeepIds python path_filter directory rs s
    → HasUnique (resource_of directory).unique s
    → HasUnique (resource_of directory).unique (run python path_filter directory rs s)
unfolding run
run-HasUnique python path_filter directory [] s p keep h = h
run-HasUnique python path_filter directory (r ∷ rs) s p (keeps, later) h =
    run-HasUnique python path_filter directory rs (step python path_filter directory r s) p later
      (step-HasUnique python path_filter directory p (resource_of-IsResource directory) r s keeps h)
