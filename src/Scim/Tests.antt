-- ===== src/Scim/Tests.antt =====
-- SCIM at concrete requests.
use minilake.Prelude.{
  String, ◌≡◌, ◌⊎◌, refl, sym, ap, ◌∙◌, false, Option, none, some, List, [], ◌∷◌, ◌==◌, string_eq,
  nonempty, text_ne,
}
use minilake.Prelude.Dict.{get, put}
use minilake.Json.{str, list, no_values, opt_value}
use minilake.Errors.{Exception, Result, ok, raised}
use minilake.Objects.{text_field}
use minilake.Names.{Fields, State}
use minilake.Objects.Unique.{HasUnique, nothing-HasUnique}
use minilake.Scim.{Python, users, service_principals, prune_empty, unique_check}
use minilake.Scim.{
  service_principals, get_or_404, kept_values, put_kept, prune_found, prune, prune_all, prune_empty,
  dump, clashes, unique_check, store, create, new_service_principal,
}
use minilake.Scim.Patch.{
  merge, pop_all, without_entries, apply_filtered, apply_whole, apply_path, apply_known,
  apply_operation, apply_operations, checked, apply_patch, patch_resource,
}
use minilake.Scim.Requests.{create_in, step}
use minilake.Prelude.Dict.{remove, values}
use minilake.Scim.Patch.{Operation, apply_operations, patch_resource}
use minilake.Scim.Uniqueness.{IsPython, IsResource}
use minilake.Scim.Commits.{patch_resource-atomic}
use minilake.Scim.Requests.{
  Request, creating, patching, deleting, of_service_principals, resource_of, run, run-HasUnique,
}
use minilake.Scim.Projection.{project, IsProjection, project-IsProjection}

-- Texts are compared as texts; no other value equals anything.
abbrev plain : Python
plain = record {
  str_of = λ v. elim v [ str s ↦ s | _ ↦ "" ];
  same = λ v w. elim v [ str s ↦ elim w [ str t ↦ s == t | _ ↦ false ] | _ ↦ false ];
  truthy = λ v. elim v [ str s ↦ nonempty s | _ ↦ false ];
  entries = λ v. elim v [ list vs ↦ some vs | _ ↦ some no_values ];
  lower = λ s. s;
}

plain-IsPython : IsPython plain
plain-IsPython = record { same_text = λ a b. refl; same_null = λ a. refl; truthy_text = λ a. refl }

users-IsResource : IsResource users
unfolding users string_eq
users-IsResource = record { single = refl; not_id = text_ne "userName" "id" refl }

abbrev no_path_filter : String → Option (String × String × String)
no_path_filter path = none

abbrev ann : Fields
ann = ("userName", str "ann") ∷ ("displayName", str "Ann") ∷ []

abbrev renaming : List Operation
renaming = record { op = "replace"; path = some "displayName"; value_of = str "Anna" } ∷ []

abbrev requests : List Request
requests =
    creating "p1" "a1" (("displayName", str "job") ∷ [])
    ∷ patching "p1" renaming
    ∷ creating "p2" "a1" (("displayName", str "other") ∷ [])
    ∷ deleting "p1"
    ∷ []

abbrev answered_id : Result Fields → Option String
answered_id (ok answer) = text_field answer "id"
answered_id (raised x) = none

-- The PATCH among the requests keeps the id.
patched_id :
    answered_id
      (patch_resource plain no_path_filter service_principals "p1" renaming (
        step plain no_path_filter of_service_principals
          (creating "p1" "a1" (("displayName", str "job") ∷ []))
          [])).0
    ≡ some "p1"
unfolding service_principals get_or_404 kept_values put_kept prune_found prune prune_all prune_empty
    dump clashes unique_check store create new_service_principal merge pop_all without_entries
    apply_filtered apply_whole apply_path apply_known apply_operation apply_operations checked
    apply_patch patch_resource step create_in get put remove values string_eq nonempty
patched_id = refl

run-HasUnique_example :
    HasUnique
      (resource_of of_service_principals).unique
      (run plain no_path_filter of_service_principals requests [])
run-HasUnique_example =
    run-HasUnique plain no_path_filter of_service_principals requests [] plain-IsPython
      (tt, (λ answer e. sym (ap answered_id e) ∙ patched_id, (tt, (tt, tt))))
      (nothing-HasUnique (resource_of of_service_principals).unique)

abbrev stored_ann : Fields
stored_ann = ("id", str "u1") ∷ ann

abbrev stored : State
stored = ("u1", stored_ann) ∷ []

patch_resource-atomic_example :
    ((x : Exception) × (patch_resource plain no_path_filter users "u1" renaming stored
        ≡ (raised x, stored)))
    ⊎ (before : Fields) × (candidate : Fields) × (u : Unit {0}) × (get stored "u1" ≡ some before)
      × (apply_operations plain no_path_filter renaming before ≡ ok candidate)
      × (unique_check plain users
            (opt_value (get candidate users.unique))
            (opt_value (get before "id"))
            stored
          ≡ ok u)
      × (patch_resource plain no_path_filter users "u1" renaming stored
          ≡ (ok (prune_empty candidate), put stored "u1" (prune_empty candidate)))
patch_resource-atomic_example =
    patch_resource-atomic plain no_path_filter users "u1" renaming stored

project-IsProjection_example :
    IsProjection stored_ann (project stored_ann (some "displayName") none)
project-IsProjection_example = project-IsProjection stored_ann (some "displayName") none
