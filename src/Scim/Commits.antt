-- ===== src/Scim/Commits.antt =====
-- A PATCH is committed whole or not at all.
use minilake.Prelude.{
  String, ◌≡◌, ◌⊎◌, inl, inr, refl, ◌∙◌, Option, some, List, [], ◌∷◌, string_eq, Option-cases,
}
use minilake.Prelude.Dict.{get, put}
use minilake.Json.{opt_value}
use minilake.Errors.{Exception, ok, raised, Result-cases}
use minilake.Names.{Fields, State}
use minilake.Scim.{Python, Resource, prune_empty, unique_check, get_or_404, missing}
use minilake.Scim.Patch.{Operation, apply_operations, apply_patch, checked, patch_resource}

get_or_404-known :
    (resource : Resource) (id : String) (s : State) (stored : Fields)
    → (get_or_404 resource id s).0 ≡ ok stored
    → get s id ≡ some stored
unfolding get_or_404
get_or_404-known resource id s stored e = elim (Option-cases (get s id)) [
  | inl absent ↦ absurd (refused (rw (absent, get_or_404) at e))
  | inr (found, present) ↦ present ∙ answered found (rw (present, get_or_404) at e)
]
  where
    refused : raised (missing resource id) ≡ ok stored → ⊥
    refused never = cc never

    answered : (found : Fields) → ok found ≡ ok stored → some found ≡ some stored
    answered found same = cc same

checked-cases :
    (python : Python) (path_filter : String → Option (String × String × String))
    (resource : Resource) (stored candidate : Fields) (s : State)
    → ((x : Exception) × (checked python path_filter resource stored s candidate ≡ raised x))
      ⊎ (u : Unit {0}) × (unique_check python resource
            (opt_value (get candidate resource.unique))
            (opt_value (get stored "id"))
            s
          ≡ ok u)
        × (checked python path_filter resource stored s candidate ≡ ok (prune_empty candidate))
unfolding checked
checked-cases python path_filter resource stored candidate s =
    elim (Result-cases (
      unique_check python resource (opt_value (get candidate resource.unique))
        (opt_value (get stored "id")) s)) [
          | inr (x, e) ↦ inl (x, rw (e, checked) refl)
          | inl (u, e) ↦ inr (u, e, rw (e, checked) refl)
        ]

apply_patch-cases :
    (python : Python) (path_filter : String → Option (String × String × String))
    (resource : Resource) (stored : Fields) (operations : List Operation) (s : State)
    → ((x : Exception) × (apply_patch python path_filter resource stored operations s ≡ raised x))
      ⊎ (candidate : Fields) × (u : Unit {0}) × (apply_operations python path_filter operations
            stored
          ≡ ok candidate)
        × (unique_check python resource
              (opt_value (get candidate resource.unique))
              (opt_value (get stored "id"))
              s
            ≡ ok u)
        × (apply_patch python path_filter resource stored operations s ≡ ok (prune_empty candidate))
unfolding apply_patch
apply_patch-cases python path_filter resource stored [] s = inl (_, refl)
apply_patch-cases python path_filter resource stored (o ∷ os) s =
    elim (Result-cases (apply_operations python path_filter (o ∷ os) stored)) [
      | inr (x, e) ↦ inl (x, rw (e, apply_patch) refl)
      | inl (candidate, e) ↦ elim (checked-cases python path_filter resource stored candidate s) [
        | inl (x, c) ↦ inl (x, rw (e, apply_patch) c)
        | inr (u, passed, c) ↦ inr (candidate, u, e, passed, rw (e, apply_patch) c)
      ]
    ]

-- A PATCH that is refused changes nothing. One that is answered replaces the resource by what it
-- answers, which passed the check after all operations, and nothing else.
pub patch_resource-atomic :
    (python : Python) (path_filter : String → Option (String × String × String))
    (resource : Resource) (id : String) (operations : List Operation) (s : State)
    → ((x : Exception) × (patch_resource python path_filter resource id operations s
          ≡ (raised x, s)))
      ⊎ (stored : Fields) × (candidate : Fields) × (u : Unit {0}) × (get s id ≡ some stored)
        × (apply_operations python path_filter operations stored ≡ ok candidate)
        × (unique_check python resource
              (opt_value (get candidate resource.unique))
              (opt_value (get stored "id"))
              s
            ≡ ok u)
        × (patch_resource python path_filter resource id operations s
            ≡ (ok (prune_empty candidate), put s id (prune_empty candidate)))
unfolding patch_resource
patch_resource-atomic python path_filter resource id operations s =
    elim (Result-cases (get_or_404 resource id s).0) [
      | inr (x, e) ↦ inl (x, rw (e, patch_resource) refl)
      | inl (stored, e) ↦ elim (apply_patch-cases python path_filter resource stored operations s) [
        | inl (x, c) ↦ inl (x, rw (e, patch_resource) (rw (c, patch_resource) refl))
        | inr (candidate, u, applied, passed, c) ↦ inr (
          stored,
          candidate,
          u,
          get_or_404-known resource id s stored e,
          applied,
          passed,
          rw (e, patch_resource) (rw (c, patch_resource) refl),
        )
      ]
    ]
