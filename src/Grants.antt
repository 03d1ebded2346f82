-- ===== src/Grants.antt =====
-- services/grants.py: the privileges granted on each Unity Catalog securable, and those it inherits.
-- `str.upper` is the parameter `upper`.
pub mod Inheritance
pub mod Deletion
use text.Mathlib.Text.{starts_with}
use Prim.Native.String
use Prim.Native.Nat.{Ordering}
use minilake.Prelude.{
  ℕ, zero, suc, String, ◌<>◌, Bool, true, false, not, ◌&&◌, ◌||◌, Option, none, some, List, [], ◌∷◌,
  ◌++◌, ◌==◌, string_eq, option_eq, pair_eq, contains, nonempty, select, length, eqb, leb, get_or,
  is_empty, is_some, if◌then◌else◌,
}
use minilake.Prelude.Dict.{Dict, get, has, put, remove}
use minilake.Text.{split, join, show}
use minilake.Errors.{
  Exec, Result, ok, raised, pure, raise, gets, lift, ◌>>=◌, ◌>>◌, modify, raise_if, error,
}

-- A securable: its type and its full name, which the metastore lacks.
abbrev pub Key : Type 0
Key = String × Option String

-- The sorted privileges of each principal.
abbrev pub Assignments : Type 0
Assignments = Dict String (List String)

-- `_state["grants"]`
abbrev pub State : Type 0
State = Dict Key Assignments

-- `_NESTED.get(securable)`
unfoldable pub nested : String → Option ℕ
nested kind =
    if kind == "CATALOG"
    then some 1
    else if kind == "SCHEMA"
    then some 2
    else if kind == "TABLE"
    then some 3
    else if kind == "VOLUME"
    then some 3
    else if kind == "FUNCTION"
    then some 3
    else none

abbrev pub metastore : Key
metastore = ("METASTORE", none)

-- `xs[-1]` of a list that is not empty
abbrev last_of : String → List String → String
last_of x [] = x
last_of x (y ∷ ys) = last_of y ys

abbrev pub take {ℓ} : {A : Type ℓ} → ℕ → List A → List A
take zero xs = []
take (suc n) [] = []
take (suc n) (x ∷ xs) = x ∷ take n xs

-- `sorted(set(xs))`
insert_sorted : String → List String → List String
insert_sorted x [] = x ∷ []
insert_sorted x (y ∷ ys) =
    let later = insert_sorted x ys in
    elim (String.compare x y) [
      | Ordering.lt ↦ x ∷ y ∷ ys
      | Ordering.eq ↦ y ∷ ys
      | Ordering.gt ↦ y ∷ later
    ]

unfoldable pub sorted_set : List String → List String
unfolding insert_sorted
sorted_set [] = []
sorted_set (x ∷ xs) = insert_sorted x (sorted_set xs)

-- The two nearest parents of a name of this depth, nearest first.
unfoldable pub parents : ℕ → List String → List Key
parents depth parts =
    (if leb depth 2 then [] else ("SCHEMA", some (join "." (take 2 parts))) ∷ [])
    ++ (if leb depth 1 then [] else ("CATALOG", some (join "." (take 1 parts))) ∷ [])

-- `_ancestors` of a normalized securable
unfoldable pub ancestors : String → String → List Key
unfolding parents nested
ancestors kind full_name =
    (elim (nested kind) [ none ↦ [] | some depth ↦ parents depth (split b'.' full_name) ])
    ++ metastore ∷ []

-- `_assignments`
unfoldable pub assignments_of : State → Key → Assignments
assignments_of s key = get_or (get s key) []

-- Whether the object `(kind, name)` is the deleted one, or lies below it.
unfoldable pub falls_with : String → String → Key → Bool
unfolding nested
falls_with parent_type parent_name (kind, none) = false
falls_with parent_type parent_name (kind, some name) =
    kind == parent_type && name == parent_name || (elim (nested parent_type) [
      | none ↦ false
      | some parent_depth ↦ elim (nested kind) [
        | none ↦ false
        | some depth ↦ not (leb depth parent_depth) && starts_with name (parent_name <> ".")
      ]
    ])

unfoldable pub without_keys : (Key → Bool) → State → State
without_keys p [] = []
without_keys p ((key, assignments) ∷ rest) =
    let later = without_keys p rest in if p key then later else (key, assignments) ∷ later

-- One change of a request.
pub record Change : Type 0 where
  pub principal : Option String
  pub add : Option (List String)
  pub remove : Option (List String)

-- (inherited_from_type, inherited_from_name)
abbrev pub Source : Type 0
Source = Option String × Option String

abbrev pub Effective : Type 0
Effective = Dict String (Dict String Source)

-- `effective.setdefault(who, {}).setdefault(privilege, source)`
unfoldable pub set_default : Effective → String → String → Source → Effective
set_default effective who privilege source =
    let held = get_or (get effective who) [] in
    put effective who (if has held privilege then held else put held privilege source)

unfoldable pub absorb_privileges : Effective → String → Source → List String → Effective
absorb_privileges effective who source [] = effective
absorb_privileges effective who source (p ∷ ps) =
    absorb_privileges (set_default effective who p source) who source ps

-- `absorb`
unfoldable pub absorb : Effective → Source → Assignments → Effective
absorb effective source [] = effective
absorb effective source ((who, ps) ∷ rest) =
    absorb (absorb_privileges effective who source ps) source rest

unfoldable pub absorb_ancestors : State → Effective → List Key → Effective
absorb_ancestors s effective [] = effective
absorb_ancestors s effective ((kind, name) ∷ keys) =
    absorb_ancestors s (absorb effective (some kind, name) (assignments_of s (kind, name))) keys

module _ (upper : String → String) where
  -- `_normalize_securable`
  unfoldable pub normalize : String → String
  normalize kind = upper (elim (split b'.' kind) [ [] ↦ kind | x ∷ xs ↦ last_of x xs ])

  -- `_validate`
  unfoldable pub validate : String → String → Result String
  unfolding normalize nested
  validate kind full_name = elim (nested (normalize kind)) [
    | none ↦ ok (normalize kind)
    | some expected ↦
        if eqb (length (split b'.' full_name)) expected
        then ok (normalize kind)
        else raised (
            error "INVALID_PARAMETER_VALUE"
              ("A "
                <> normalize kind
                <> " is addressed by a "
                <> show expected
                <> "-part name; got '"
                <> full_name
                <> "'")
              400)
  ]

  unfoldable pub delete_grants_for_parent : String → String → State → State
  unfolding normalize falls_with without_keys
  delete_grants_for_parent parent_name parent_type s =
      without_keys (falls_with (normalize parent_type) parent_name) s

  uppers : List String → List String
  uppers [] = []
  uppers (x ∷ xs) = upper x ∷ uppers xs

  -- `(set(held) | adds) - removes`, sorted
  unfoldable pub changed_privileges : List String → Change → List String
  unfolding sorted_set uppers
  changed_privileges held change = sorted_set (
      select (λ p. not (contains (uppers (get_or change.remove [])) p))
        (held ++ uppers (get_or change.add [])))

  abbrev store_privileges : Assignments → String → List String → Assignments
  store_privileges stored who [] = remove stored who
  store_privileges stored who (p ∷ ps) = put stored who (p ∷ ps)

  unfoldable pub apply_change : Assignments → String → Change → Assignments
  unfolding changed_privileges
  apply_change stored who change =
      store_privileges stored who (changed_privileges (get_or (get stored who) []) change)

  abbrev named : Option String → Option String
  named none = none
  named (some who) = if nonempty who then some who else none

  -- The loop over the changes, on the dict that `setdefault` has put under the key. A change without
  -- a principal raises, and what the changes before it wrote stays.
  unfoldable pub apply_changes : Key → List Change → Exec State (Unit {0})
  apply_changes key [] s = (ok tt, s)
  apply_changes key (change ∷ changes) s = elim (named change.principal) [
    | none ↦ (raised (error "INVALID_PARAMETER_VALUE" "Each change requires a principal" 400), s)
    | some who ↦
        apply_changes key changes (put s key (apply_change (assignments_of s key) who change))
  ]

  unfoldable pub update_permissions : String → String → Option (List Change) → Exec State (Unit {0})
  unfolding validate
  update_permissions kind full_name changes = do
    securable ← lift (validate kind full_name)
    let key : Key = (normalize securable, some full_name)
    modify (λ (s : State). put s key (assignments_of s key))
    apply_changes key (get_or changes [])
    modify (λ (s : State). if is_empty (assignments_of s key) then remove s key else s)

  -- The table that `get_effective_permissions` builds, before it is sorted and filtered.
  unfoldable pub effective_table : State → String → String → Effective
  effective_table s securable full_name =
      absorb_ancestors s
        (absorb [] (none, none) (assignments_of s (normalize securable, some full_name)))
        (ancestors (normalize securable) full_name)
