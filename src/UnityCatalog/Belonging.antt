-- ===== src/UnityCatalog/Belonging.antt =====
-- Names below a parent, and dicts whose keys are such names.
use text.Mathlib.Text.{starts_with}
use text.Mathlib.TextPositions.{starts_with-append, starts_with_of_prefix}
use text.Mathlib.TextEquality.{starts_with_iff}
use text.Mathlib.TextLemmas.{append_assoc}
use minilake.Prelude.{
  String, ◌<>◌, ◌≡◌, ◌≢◌, sym, ap, ◌∙◌, subst, ◌⊎◌, inl, inr, true, false, none, [], ◌∷◌, string_eq,
  arith, if◌then◌else◌,
}
use minilake.Prelude.Dict.{Dict, get, has, put, remove, get-put_text, get-remove_text}
use minilake.UnityCatalog.Children.{below, without_below}

-- The key is a known parent's, a dot and a name.
abbrev pub Child {ℓ} : {P : Type ℓ} → Dict String P → String → Type 0
Child parents k = (p : String) × (n : String) × (k ≡ p <> "." <> n) × (has parents p ≡ true)

abbrev pub Children {ℓ κ} : {P : Type ℓ} {V : Type κ} → Dict String P → Dict String V → Type 0
Children parents d = (k : String) → has d k ≡ true → Child parents k

-- Every key of the one is a key of the other.
abbrev pub Grows {ℓ κ} : {V : Type ℓ} {V' : Type κ} → Dict String V → Dict String V' → Type 0
Grows d d' = (k : String) → has d k ≡ true → has d' k ≡ true

module _ {ℓ} {V : Type ℓ} where
  pub has-put : (d : Dict String V) (k : String) (v : V) → Grows d (put d k v)
  has-put d k v j h = ground (arith, h, get-put_text d k v j)

  has-put_cases :
      (d : Dict String V) (k : String) (v : V) (j : String)
      → has (put d k v) j ≡ true
      → (j ≡ k) ⊎ (has d j ≡ true)
  has-put_cases d k v j h = ground (arith, h, get-put_text d k v j)

  pub has-remove :
      (d : Dict String V) (k j : String) → has d j ≡ true → j ≢ k → has (remove d k) j ≡ true
  has-remove d k j h ne = ground (arith, h, ne, get-remove_text d k j)

  pub has_of_remove : (d : Dict String V) (k : String) → Grows (remove d k) d
  has_of_remove d k j h = ground (arith, h, get-remove_text d k j)

  pub get-without_below :
      (parent : String) (d : Dict String V) (k : String)
      → get (without_below parent d) k ≡ (if below parent k then none else get d k)
  unfolding get without_below
  get-without_below parent [] k = ground arith
  get-without_below parent ((j, v) ∷ d) k = ground (arith, get-without_below parent d k)

  pub has-without_below :
      (parent : String) (d : Dict String V) (k : String)
      → has d k ≡ true
      → below parent k ≡ false
      → has (without_below parent d) k ≡ true
  has-without_below parent d k h no_ = ground (arith, h, no_, get-without_below parent d k)

  pub has_of_without_below :
      (parent : String) (d : Dict String V) (k : String)
      → has (without_below parent d) k ≡ true
      → (has d k ≡ true) × (below parent k ≡ false)
  has_of_without_below parent d k h = (
    ground (arith, h, get-without_below parent d k),
    ground (arith, h, get-without_below parent d k),
  )

module _ {ℓ κ} {P : Type ℓ} {V : Type κ} where
  pub put-Children :
      (ps : Dict String P) (d : Dict String V) (k : String) (v : V)
      → Children ps d
      → Child ps k
      → Children ps (put d k v)
  put-Children ps d k v h child j found = elim (has-put_cases d k v j found) [
    | inl e ↦ subst (λ x. Child ps x) (sym e) child
    | inr old ↦ h j old
  ]

  pub Grows-Children :
      {P' : Type ℓ} (ps : Dict String P) (qs : Dict String P') (d : Dict String V)
      → Grows ps qs
      → Children ps d
      → Children qs d
  Grows-Children ps qs d grows h k found =
      let (p, n, e, known) = h k found in (p, n, e, grows p known)

  pub fewer-Children :
      {V' : Type κ} (ps : Dict String P) (d : Dict String V) (d' : Dict String V')
      → Grows d' d
      → Children ps d
      → Children ps d'
  fewer-Children ps d d' fewer h k found = h k (fewer k found)

-- A name below a parent begins with the parent's name and a dot, and so does what continues it.
pub below-child : (parent n : String) → below parent (parent <> "." <> n) ≡ true
below-child parent n =
    subst (λ t. starts_with t (parent <> ".") ≡ true) (append_assoc parent "." n)
      (starts_with-append (parent <> ".") n)

pub below-longer :
    (parent p n : String) → below parent p ≡ true → below parent (p <> "." <> n) ≡ true
below-longer parent p n h =
    let (rest, e) = (starts_with_iff p (parent <> ".")).0 h in
    starts_with_of_prefix (parent <> ".") (p <> "." <> n) (
      rest <> "." <> n,
      sym (append_assoc (parent <> ".") rest ("." <> n)) ∙ ap (λ t. t <> ("." <> n)) e,
    )
