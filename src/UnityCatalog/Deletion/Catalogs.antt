-- ===== src/UnityCatalog/Deletion/Catalogs.antt =====
-- The deletion of a catalog without force.
use minilake.Prelude.{
  String, ◌<>◌, ◌≡◌, refl, ap, ◌∙◌, ◌⊎◌, inl, inr, Bool, true, false, not, ◌&&◌, ◌||◌, Option, none,
  some, Option-cases, [], ◌∷◌, ◌==◌, string_eq, any, arith, if◌then◌else◌,
}
use minilake.Prelude.Dict.{Dict, get, has, keys, remove}
use minilake.Errors.{os_error, Exec, Exception, Result, ok, raised, raise_if, ◌>>=◌, ◌>>◌}
use minilake.Grants.{delete_grants_for_parent}
use minilake.UnityCatalog.State.{
  Registry, Schema, World, State, Action, Tried, done, failed, uncaught, trying, registered,
  register, outside, ◌then◌,
}
use minilake.UnityCatalog.Pool.{
  attach_catalog, detach_catalog, detach_attached, detach_checked, detach_file,
}
use minilake.UnityCatalog.Children.{
  below, has_members, without_below, catalog_removed, catalog_has_registered_children,
  remove_directory, not_empty_error,
}
use minilake.UnityCatalog.Catalogs.{catalog_not_found}
use minilake.UnityCatalog.Removal.{
  catalog_is_empty, detach_for_deletion, detach_backing, delete_catalog,
}
use minilake.UnityCatalog.Belonging.{get-without_below, below-child}
use minilake.UnityCatalog.Keeps.Catalogs.{detach_backing-Keeps}
use minilake.UnityCatalog.Keeps.{Keeps}
use minilake.UnityCatalog.Deletion.{
  without_members-none, then-done, if-none, not-none, or_error-ok, with_pool-ok,
}

-- A schema of the catalog other than the default one.
abbrev pub other_schema : String → String → Bool
other_schema name full_name = below name full_name && not (full_name == name <> ".default")

-- Only the default schema is below the catalog, and nothing below a schema.
abbrev pub IsEmpty : String → Registry → Type 0
IsEmpty name r = (any (other_schema name) (keys r.schemas) ≡ false) × (has_members name r ≡ false)

module _ {W : Type 0} (world : World W) where
  catalog_children-none :
      (name : String) (s : State W)
      → catalog_has_registered_children world name s ≡ false
      → IsEmpty name s.registry
  unfolding catalog_has_registered_children
  catalog_children-none name s h =
      both (any (other_schema name) (keys s.registry.schemas)) (has_members name s.registry) _ h
    where
      both : (a b c : Bool) → a || b || c ≡ false → (a ≡ false) × (b ≡ false)
      both false false c h = (refl, refl)
      both false true c h = (refl, h)
      both true b c h = (h, absurd (cc h))

  detached_sound :
      (name : String) (chk : Action W Bool) (att : Option (String × Bool)) (w : W)
      → (detach_attached world name (some chk) att w).0 ≡ done true
      → (v : W) × ((chk v).0 ≡ done true)
  unfolding detach_attached detach_checked
  detached_sound name chk none w h = absurd (cc h)
  detached_sound name chk (some (path, false)) w h = absurd (cc h)
  detached_sound name chk (some (path, true)) w h = go (then-done chk _ w true h)
    where
      go :
          (a : Bool) × (v : W) × ((chk w).0 ≡ done a)
            × (((if a then detach_file world name (some (path, true)) else (λ w. (done false, w)))
                  v).0
                ≡ done true)
          → (v : W) × ((chk v).0 ≡ done true)
      go (true, v, e, f) = (w, e)
      go (false, v, e, f) = absurd (cc f)

  detach_for_deletion_sound :
      (name : String) (r : Registry) (w : W)
      → (detach_for_deletion world name false r w).0 ≡ done true
      → IsEmpty name r
  unfolding detach_for_deletion detach_catalog catalog_is_empty
  detach_for_deletion_sound name r w h =
      let (_, v, _, e) = then-done (attach_catalog world name) _ w true h in
      let (att, u, _, f) = then-done (world.attachment name) _ v true e in
      let (t, g) = detached_sound name _ att u f in
      catalog_children-none name (record { registry = r; world = t }) (if-none world _ _ t g)

  detach_backing_sound :
      (name : String) (s : State W)
      → (detach_backing world name false s).0 ≡ ok true
      → IsEmpty name s.registry
  unfolding detach_backing registered trying
  detach_backing_sound name s h =
      with_pool-ok world _ _ s true
        (λ e. detach_for_deletion_sound name s.registry s.world (or_error-ok world _ _ _ true e))
        (λ e. catalog_children-none name s (not-none world _ e)) h

-- The registry after the deletion of an empty catalog.
abbrev pub without_catalog : (String → String) → String → Registry → Registry
without_catalog upper name r = record r {
  catalogs = remove r.catalogs name;
  schemas = without_below name r.schemas;
  grants = delete_grants_for_parent upper name "CATALOG" r.grants;
}

catalog_removed-none :
    (upper : String → String) (name : String) (r : Registry)
    → has_members name r ≡ false
    → (record (catalog_removed upper name r) {
      catalogs = remove (catalog_removed upper name r).catalogs name;
    })
      ≡ without_catalog upper name r
unfolding catalog_removed
catalog_removed-none upper name r none_ =
    ap {A = Registry}
      (λ x. record x {
        catalogs = remove r.catalogs name;
        schemas = without_below name r.schemas;
        grants = delete_grants_for_parent upper name "CATALOG" r.grants;
      })
      (without_members-none name r none_)

or-false : (a b : Bool) → a || b ≡ false → (a ≡ false) × (b ≡ false)
or-false false b h = (refl, h)
or-false true b h = (h, absurd (cc h))

known-not_any :
    (p : String → Bool) (d : Dict String Schema) (k : String) (x : Schema)
    → any p (keys d) ≡ false
    → get d k ≡ some x
    → p k ≡ false
unfolding get keys
known-not_any p [] k x h e = absurd (cc e)
known-not_any p ((j, y) ∷ d) k x h e =
    let (here, later) = or-false (p j) (any p (keys d)) h in
    elim (string_eq.dec k j) [
      | yes same ↦ cc (here, same)
      | no differ ↦ known-not_any p d k x later (ground (arith, e, differ))
    ]

-- Of the schemas only the default one is taken.
only_default :
    (name : String) (d : Dict String Schema) (k : String)
    → any (other_schema name) (keys d) ≡ false
    → get (without_below name d) k ≡ (if k == name <> ".default" then none else get d k)
only_default name d k h = elim (Option-cases (get d k)) [
  | inl e ↦ ground (arith, e, get-without_below name d k)
  | inr (x, e) ↦ ground (
    arith,
    e,
    get-without_below name d k,
    known-not_any (other_schema name) d k x h e,
    below-child name "default",
  )
]

module _ {W : Type 0} (world : World W) (upper : String → String) (name : String)
    (s : State W) where
  -- A deletion of the catalog that was refused, or was answered.
  abbrev pub Unforced : Result (Unit {0}) × State W → Type 0
  Unforced p =
      ((x : Exception) × (p.0 ≡ raised x) × (p.1.registry ≡ s.registry))
      ⊎ ((p.0 ≡ ok tt)
          × (has_members name s.registry ≡ false)
          × (p.1.registry ≡ without_catalog upper name s.registry)
          × ((k : String)
              → get p.1.registry.schemas k
                ≡ (if k == name <> ".default" then none else get s.registry.schemas k)))

  detach_backing_kept : (t : State W) → (detach_backing world name false t).1.registry ≡ t.registry
  unfolding Keeps
  detach_backing_kept t = detach_backing-Keeps world (λ r. r ≡ t.registry) name false t refl

  ending :
      (detached : Bool) (t : State W)
      → t.registry ≡ s.registry
      → (detached ≡ true → IsEmpty name s.registry)
      → Unforced (
          (raise_if (not detached) (not_empty_error "Catalog" name)
              >> (outside (remove_directory world (name ∷ []))
                  >> (register (catalog_removed upper name)
                      >> register (λ r. record r { catalogs = remove r.catalogs name }))))
            t)
  unfolding outside register
  ending false t e empty = inl (not_empty_error "Catalog" name, refl, e)
  ending true t e empty = removed (remove_directory world (name ∷ []) t.world).0
    where
      t' : State W
      t' = record t { world = (remove_directory world (name ∷ []) t.world).1 }

      removed :
          (o : Tried (Unit {0}))
          → Unforced (elim (uncaught o) as (λ _. Result (Unit {0}) × State W) [
            | ok _ ↦
                (register (catalog_removed upper name)
                    >> register (λ r. record r { catalogs = remove r.catalogs name }))
                  t'
            | raised x ↦ (raised x, t')
          ])
      removed (failed text) = inl (os_error text, refl, e)
      removed (done _) =
          let (others, members) = empty refl in
          let same =
            ap {A = Registry} {B = Registry}
              (λ r. record (catalog_removed upper name r) {
                catalogs = remove (catalog_removed upper name r).catalogs name;
              })
              e
            ∙ catalog_removed-none upper name s.registry members in
          inr (
            refl,
            members,
            same,
            λ k.
                ap (λ (r : Registry). get r.schemas k) same
                ∙ only_default name s.registry.schemas k others,
          )

  -- A deletion of a catalog without force either raises, and then the registry is as it was, or is
  -- answered. In that case no table, external table, volume or function was registered below the
  -- catalog, and the registry differs only in the catalog and its default schema, which are gone, and
  -- in the grants, which lose those of the catalog and of what is below it.
  pub delete_catalog-Unforced : Unforced (delete_catalog world upper name false s)
  unfolding delete_catalog registered
  delete_catalog-Unforced = known (has s.registry.catalogs name)
    where
      t : State W
      t = (detach_backing world name false s).1

      rest : Bool → Exec (State W) (Unit {0})
      rest detached =
          raise_if (not detached) (not_empty_error "Catalog" name)
          >> (outside (remove_directory world (name ∷ []))
              >> (register (catalog_removed upper name)
                  >> register (λ r. record r { catalogs = remove r.catalogs name })))

      detaching :
          (o : Result Bool)
          → (detach_backing world name false s).0 ≡ o
          → Unforced (elim o as (λ _. Result (Unit {0}) × State W) [
            | ok detached ↦ rest detached t
            | raised x ↦ (raised x, t)
          ])
      detaching (raised x) e = inl (x, refl, detach_backing_kept s)
      detaching (ok detached) e =
          ending detached t (detach_backing_kept s)
            (λ yes_. detach_backing_sound world name s (e ∙ ap ok yes_))

      known :
          (b : Bool)
          → Unforced (
              (raise_if (not b) (catalog_not_found name)
                  >> (detach_backing world name false >>= rest))
                s)
      known false = inl (catalog_not_found name, refl, refl)
      known true = detaching (detach_backing world name false s).0 refl
