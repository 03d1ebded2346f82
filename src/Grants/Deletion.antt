-- ===== src/Grants/Deletion.antt =====
-- What `delete_grants_for_parent` leaves.
use text.Mathlib.Text.{starts_with}
use text.Mathlib.TextPositions.{starts_with_of_prefix}
use text.Mathlib.TextEquality.{starts_with_iff}
use text.Mathlib.TextLemmas.{append_assoc}
use minilake.Prelude.{
  String, ◌<>◌, ◌≡◌, ◌⊎◌, inl, inr, sym, ◌∙◌, Bool, true, false, not, ◌&&◌, ◌||◌, refl, Bool-cases,
  none, some, [], ◌∷◌, ◌==◌, leb, arith, string_eq, option_eq, pair_eq, if◌then◌else◌,
}
use minilake.Prelude.Dict.{get}
use minilake.Grants.{
  Key, State, without_keys, falls_with, nested, normalize, delete_grants_for_parent,
}

get-without_keys :
    (p : Key → Bool) (s : State) (k : Key)
    → get (without_keys p s) k ≡ (if p k then none else get s k)
unfolding without_keys get
get-without_keys p [] k = ground arith
get-without_keys p ((j, a) ∷ s) k = ground (arith, get-without_keys p s k)

-- A catalog contains schemas, and both contain tables, volumes and functions.
abbrev pub InSchemas : String → Type 0
InSchemas kind = (kind ≡ "TABLE") ⊎ ((kind ≡ "VOLUME") ⊎ (kind ≡ "FUNCTION"))

abbrev pub Contains : String → String → Type 0
Contains parent kind =
    ((parent ≡ "CATALOG") × ((kind ≡ "SCHEMA") ⊎ InSchemas kind))
    ⊎ ((parent ≡ "SCHEMA") × InSchemas kind)

-- A securable falls with a parent that it is, or that contains its kind and whose name, a dot and a
-- further text make its name.
abbrev pub FallsWith : String → String → Key → Type 0
FallsWith parent_type parent_name (kind, none) = ⊥
FallsWith parent_type parent_name (kind, some name) =
    ((kind ≡ parent_type) × (name ≡ parent_name))
    ⊎ (Contains parent_type kind × ((rest : String) × (name ≡ parent_name <> "." <> rest)))

-- The test on the types alone.
deeper : String → String → Bool
unfolding nested
deeper parent_type kind = elim (nested parent_type) [
  | none ↦ false
  | some parent_depth ↦ elim (nested kind) [
    | none ↦ false
    | some depth ↦ not (leb depth parent_depth)
  ]
]

deeper-Contains : (parent kind : String) → deeper parent kind ≡ true → Contains parent kind
unfolding deeper nested
deeper-Contains parent kind h = ground arith

Contains-deeper : (parent kind : String) → Contains parent kind → deeper parent kind ≡ true
unfolding deeper nested string_eq
Contains-deeper parent kind (inl (p, inl k)) = rw (p, k) refl
Contains-deeper parent kind (inl (p, inr (inl k))) = rw (p, k) refl
Contains-deeper parent kind (inl (p, inr (inr (inl k)))) = rw (p, k) refl
Contains-deeper parent kind (inl (p, inr (inr (inr k)))) = rw (p, k) refl
Contains-deeper parent kind (inr (p, inl k)) = rw (p, k) refl
Contains-deeper parent kind (inr (p, inr (inl k))) = rw (p, k) refl
Contains-deeper parent kind (inr (p, inr (inr k))) = rw (p, k) refl

falls_with-split :
    (parent_type parent_name kind name : String)
    → falls_with parent_type parent_name (kind, some name) ≡ (
        kind == parent_type && name == parent_name
        || deeper parent_type kind && starts_with name (parent_name <> "."))
unfolding falls_with deeper
falls_with-split parent_type parent_name kind name = ground arith

module _ (parent_type parent_name : String) where
  falls_with-FallsWith :
      (k : Key) → falls_with parent_type parent_name k ≡ true → FallsWith parent_type parent_name k
  unfolding falls_with
  falls_with-FallsWith (kind, none) h = absurd (cc h)
  falls_with-FallsWith (kind, some name) h =
      elim (or_true (kind == parent_type && name == parent_name) _
        (sym (falls_with-split parent_type parent_name kind name) ∙ h)) [
          | inl same ↦ inl (ground (arith, same), ground (arith, same))
          | inr below ↦
              let (rest, e) =
                (starts_with_iff name (parent_name <> ".")).0 (ground (arith, below)) in
              inr (
                deeper-Contains parent_type kind (ground (arith, below)),
                (rest, sym e ∙ append_assoc parent_name "." rest),
              )
        ]
    where
      or_true : (a b : Bool) → (a || b) ≡ true → (a ≡ true) ⊎ (b ≡ true)
      or_true true b h = inl refl
      or_true false b h = inr h

  FallsWith-falls_with :
      (k : Key) → FallsWith parent_type parent_name k → falls_with parent_type parent_name k ≡ true
  FallsWith-falls_with (kind, none) h = absurd h
  FallsWith-falls_with (kind, some name) (inl (k, n)) =
      falls_with-split parent_type parent_name kind name ∙ ground (arith, k, n)
  FallsWith-falls_with (kind, some name) (inr (c, (rest, e))) =
      falls_with-split parent_type parent_name kind name
      ∙ ground (
        arith,
        Contains-deeper parent_type kind c,
        starts_with_of_prefix (parent_name <> ".") name
            (rest, append_assoc parent_name "." rest ∙ sym e),
      )

-- The deletion of a securable takes the grants of exactly the securables that fall with it: itself
-- and what it contains, which is, for a catalog, its schemas, tables, volumes and functions and, for
-- a schema, its tables, volumes and functions, by names that continue its own after a dot. Every
-- other securable keeps its grants.
pub get-delete_grants :
    (upper : String → String) (parent_name parent_type : String) (s : State) (k : Key)
    → (FallsWith (normalize upper parent_type) parent_name k
        × (get (delete_grants_for_parent upper parent_name parent_type s) k ≡ none))
      ⊎ ((FallsWith (normalize upper parent_type) parent_name k → ⊥)
          × (get (delete_grants_for_parent upper parent_name parent_type s) k ≡ get s k))
unfolding delete_grants_for_parent
get-delete_grants upper parent_name parent_type s k =
    let kind = normalize upper parent_type in
    let left = get-without_keys (falls_with kind parent_name) s k in
    elim (Bool-cases (falls_with kind parent_name k)) [
      | inl falls ↦
          inl (falls_with-FallsWith kind parent_name k falls, left ∙ ground (arith, falls))
      | inr stays ↦ inr (
        λ falls. absurd (cc (FallsWith-falls_with kind parent_name k falls, stays)),
        left ∙ ground (arith, stays),
      )
    ]
