-- ===== src/Grants/Inheritance.antt =====
-- The effective privileges: a description by the nearest grant.
use minilake.Prelude.{
  ℕ, ◌≤◌, ◌<>◌, ◌⊎◌, inl, inr, true, refl, ◌++◌, length, Option-cases, String, ◌≡◌, ◌∙◌, sym, ap,
  Bool, false, ◌&&◌, ◌||◌, Option, none, some, List, [], ◌∷◌, ◌==◌, arith, string_eq, option_eq,
  contains, get_or, if◌then◌else◌,
}
use minilake.Prelude.Dict.{get, has, put, get-put_text, get-nil}
use minilake.Text.{split, join}
use minilake.Errors.{ok}
use minilake.Grants.{
  Key, Assignments, State, Source, Effective, set_default, absorb_privileges, absorb,
  absorb_ancestors, effective_table, assignments_of, ancestors, normalize, nested, parents,
  metastore, validate,
}

-- The source under a principal and a privilege.
abbrev pub source_of : Effective → String → String → Option Source
source_of effective who privilege = get (get_or (get effective who) []) privilege

-- Whether an entry grants the privilege to the principal.
abbrev pub grants : Assignments → String → String → Bool
grants [] who privilege = false
grants ((w, ps) ∷ rest) who privilege =
    w == who && contains ps privilege || grants rest who privilege

abbrev or_else : Option Source → Option Source → Option Source
or_else none b = b
or_else (some a) b = some a

-- The first of the keys whose grants include the privilege, as a source.
abbrev pub nearest : State → String → String → List Key → Option Source
nearest s who privilege [] = none
nearest s who privilege ((kind, name) ∷ keys) =
    if grants (assignments_of s (kind, name)) who privilege
    then some (some kind, name)
    else nearest s who privilege keys

source_of-set_default :
    (eff : Effective) (w q : String) (src : Source) (who p : String)
    → source_of (set_default eff w q src) who p
      ≡ or_else (source_of eff who p) (if w == who && p == q then some src else none)
unfolding set_default
source_of-set_default eff w q src who p =
    let held = get_or (get eff w) [] in
    ground (
      arith,
      get-put_text eff w (if has held q then held else put held q src) who,
      get-put_text held q src p,
      get-nil {K = String} {V = Source} p,
    )

-- How one list of privileges, and one table of grants, add to what was known.
found_in : Bool → Source → Option Source
found_in b src = if b then some src else none

or_else_found :
    (o : Option Source) (b c : Bool) (src : Source)
    → or_else (or_else o (found_in b src)) (found_in c src) ≡ or_else o (found_in (b || c) src)
unfolding found_in
or_else_found o b c src = ground arith

or_else_none : (o : Option Source) (src : Source) → or_else o (found_in false src) ≡ o
unfolding found_in
or_else_none o src = ground arith

and_or : (a b c : Bool) → (a && b || a && c) ≡ (a && (b || c))
and_or a b c = ground arith

source_of-absorb_privileges :
    (eff : Effective) (w : String) (src : Source) (ps : List String) (who p : String)
    → source_of (absorb_privileges eff w src ps) who p
      ≡ or_else (source_of eff who p) (found_in (w == who && contains ps p) src)
unfolding absorb_privileges found_in
source_of-absorb_privileges eff w src [] who p = sym (
    ap (λ b. or_else (source_of eff who p) (found_in b src)) (and_false (w == who))
    ∙ or_else_none (source_of eff who p) src)
  where
    and_false : (b : Bool) → (b && false) ≡ false
    and_false b = ground arith
source_of-absorb_privileges eff w src (q ∷ ps) who p =
    source_of-absorb_privileges (set_default eff w q src) w src ps who p
    ∙ (ap (λ o. or_else o (found_in (w == who && contains ps p) src))
          (source_of-set_default eff w q src who p)
        ∙ (or_else_found (source_of eff who p) (w == who && p == q) (w == who && contains ps p) src
            ∙ ap (λ b. or_else (source_of eff who p) (found_in b src))
                (and_or (w == who) (p == q) (contains ps p))))

source_of-absorb :
    (eff : Effective) (src : Source) (granted : Assignments) (who p : String)
    → source_of (absorb eff src granted) who p
      ≡ or_else (source_of eff who p) (found_in (grants granted who p) src)
unfolding absorb
source_of-absorb eff src [] who p = sym (or_else_none (source_of eff who p) src)
source_of-absorb eff src ((w, ps) ∷ rest) who p =
    source_of-absorb (absorb_privileges eff w src ps) src rest who p
    ∙ (ap (λ o. or_else o (found_in (grants rest who p) src))
          (source_of-absorb_privileges eff w src ps who p)
        ∙ or_else_found (source_of eff who p) (w == who && contains ps p) (grants rest who p) src)

or_else_nearest :
    (o rest : Option Source) (b : Bool) (src : Source)
    → or_else (or_else o (found_in b src)) rest ≡ or_else o (if b then some src else rest)
unfolding found_in
or_else_nearest o rest b src = ground arith

source_of-absorb_ancestors :
    (s : State) (eff : Effective) (keys : List Key) (who p : String)
    → source_of (absorb_ancestors s eff keys) who p
      ≡ or_else (source_of eff who p) (nearest s who p keys)
unfolding absorb_ancestors
source_of-absorb_ancestors s eff [] who p = sym (or_none (source_of eff who p))
  where
    or_none : (o : Option Source) → or_else o none ≡ o
    or_none o = ground arith
source_of-absorb_ancestors s eff ((kind, name) ∷ keys) who p =
    source_of-absorb_ancestors s (absorb eff (some kind, name) (assignments_of s (kind, name))) keys
      who p
    ∙ (ap (λ o. or_else o (nearest s who p keys))
          (source_of-absorb eff (some kind, name) (assignments_of s (kind, name)) who p)
        ∙ or_else_nearest (source_of eff who p) (nearest s who p keys)
            (grants (assignments_of s (kind, name)) who p) (some kind, name))

-- The securables that a catalog, a schema or what a schema contains lies in, nearest first, by the
-- parts of its name.
abbrev pub containers : List String → List Key
containers (c ∷ s ∷ n ∷ []) =
    ("SCHEMA", some (c <> "." <> s)) ∷ ("CATALOG", some c) ∷ ("METASTORE", none) ∷ []
containers (c ∷ s ∷ []) = ("CATALOG", some c) ∷ ("METASTORE", none) ∷ []
containers parts = ("METASTORE", none) ∷ []

abbrev pub named_kinds : List String
named_kinds = "CATALOG" ∷ "SCHEMA" ∷ "TABLE" ∷ "VOLUME" ∷ "FUNCTION" ∷ []

abbrev pub chain : String → String → List Key
chain kind full_name =
    if contains named_kinds kind
    then containers (split b'.' full_name)
    else ("METASTORE", none) ∷ []

nested-cases :
    (kind : String)
    → ((nested kind ≡ none) × (contains named_kinds kind ≡ false))
      ⊎ ((depth : ℕ) × ((nested kind ≡ some depth)
            × ((contains named_kinds kind ≡ true) × ((1 ≤ depth) × (depth ≤ 3)))))
unfolding nested
nested-cases kind = elim (Option-cases (nested kind)) [
  | inl e ↦ inl (e, ground (arith, e))
  | inr (depth, e) ↦ inr (depth, (e, (ground (arith, e), (ground (arith, e), ground (arith, e)))))
]

parents-containers :
    (depth : ℕ) (parts : List String)
    → 1 ≤ depth
    → depth ≤ 3
    → length parts ≡ depth
    → parents depth parts ++ metastore ∷ [] ≡ containers parts
unfolding parents join
parents-containers depth [] low high e = absurd (omega (arith, low, e))
parents-containers depth (c ∷ []) low high e = rw (sym e) refl
parents-containers depth (c ∷ s ∷ []) low high e = rw (sym e) refl
parents-containers depth (c ∷ s ∷ n ∷ []) low high e = rw (sym e) refl
parents-containers depth (c ∷ s ∷ n ∷ m ∷ more) low high e = absurd (omega (arith, high, e))

module _ (upper : String → String) (securable full_name : String) where
  valid_depth :
      (kind : String) (depth : ℕ)
      → nested (normalize upper securable) ≡ some depth
      → validate upper securable full_name ≡ ok kind
      → length (split b'.' full_name) ≡ depth
  unfolding validate
  valid_depth kind depth e h = ground (arith, e, h)

  ancestors-chain :
      (kind : String)
      → validate upper securable full_name ≡ ok kind
      → ancestors (normalize upper securable) full_name
        ≡ chain (normalize upper securable) full_name
  unfolding ancestors
  ancestors-chain kind h = elim (nested-cases (normalize upper securable)) [
    | inl (e, other) ↦ rw (e, ancestors) (rw other refl)
    | inr (depth, (e, (known, (low, high)))) ↦
        rw (e, ancestors)
          (rw known
            (parents-containers depth (split b'.' full_name) low high (valid_depth kind depth e h)))
  ]

  -- For a securable whose name passes validation: the table of effective privileges gives a principal
  -- a privilege exactly if the securable or one that it lies in grants it. The source is none for a
  -- direct grant, and else the nearest that grants it: first the schema, then the catalog and last
  -- the metastore, of those that it lies in.
  pub effective-nearest :
      (s : State) (who privilege kind : String)
      → validate upper securable full_name ≡ ok kind
      → source_of (effective_table upper s securable full_name) who privilege ≡ (
          if grants (assignments_of s (normalize upper securable, some full_name)) who privilege
          then some (none, none)
          else nearest s who privilege (chain (normalize upper securable) full_name))
  unfolding effective_table get
  effective-nearest s who privilege kind valid =
      let own = assignments_of s (normalize upper securable, some full_name) in
      let above = ancestors (normalize upper securable) full_name in
      source_of-absorb_ancestors s (absorb [] (none, none) own) above who privilege
      ∙ (ap (λ o. or_else o (nearest s who privilege above))
            (source_of-absorb [] (none, none) own who privilege)
          ∙ (or_else_nearest none (nearest s who privilege above) (grants own who privilege)
                (none, none)
              ∙ ap
                  (λ keys.
                    if grants own who privilege
                    then some (none, none)
                    else nearest s who privilege keys)
                  (ancestors-chain kind valid)))
