-- ===== src/UnityCatalog/Deletion/Schemas.antt =====
-- The deletion of a schema without force: what is refused changes nothing, and what is answered takes no child.
use Prim.Native.Char.{Char, code}
use text.Mathlib.TextEquality.{Char-path}
use text.Mathlib.TextLemmas.{cons-append, nil-append}
use minilake.Prelude.{
  String, ◌<>◌, ◌≡◌, refl, sym, ap, ◌∙◌, subst, ◌⊎◌, inl, inr, Bool, true, false, not, Option, none,
  some, [], ◌∷◌, string_eq, eqb, arith, if◌then◌else◌,
}
use minilake.Prelude.Dict.{has, remove}
use minilake.Errors.{
  os_error, Exec, Exception, Result, ok, raised, raise_if, or_raise, value_error, ◌>>=◌, ◌>>◌,
}
use minilake.ColumnTypes.Splitting.{cut, led}
use minilake.Grants.{delete_grants_for_parent}
use minilake.UnityCatalog.State.{
  Registry, World, State, Tried, done, failed, uncaught, trying, registered, register, outside,
}
use minilake.UnityCatalog.Children.{has_members, schema_removed, remove_directory, not_empty_error}
use minilake.UnityCatalog.Catalogs.{schema_not_found}
use minilake.UnityCatalog.Removal.{drop_schema, drop_backing, delete_schema, two_parts}
use minilake.UnityCatalog.Keeps.Catalogs.{drop_backing-Keeps}
use minilake.UnityCatalog.Pool.{attach_catalog}
use minilake.UnityCatalog.Deletion.{
  without_members-none, then-done, if-none, not-none, schema_children-none, or_error-ok,
  with_pool-ok,
}
use minilake.UnityCatalog.Keeps.{Keeps}

cut_first : (d : Char) (s : String) → eqb (code d) b'.' ≡ true → String.◌∷◌ d s ≡ "" <> "." <> s
cut_first d s e =
    let same : d ≡ "." = Char-path d "." (ground (arith, e)) in
    ap (λ c. String.◌∷◌ c s) same
    ∙ ap (λ t. String.◌∷◌ "." t) (sym (nil-append s))
    ∙ sym (cons-append "." "" s)
    ∙ sym (nil-append ("." <> s))

-- The two parts of a full name with a dot.
cut_sound : (s c n : String) → cut b'.' s ≡ some (c, n) → s ≡ c <> "." <> n
unfolding cut
cut_sound String.[] c n h = absurd (cc h)
cut_sound (String.◌∷◌ d s) c n h = step (eqb (code d) b'.') refl (cut b'.' s) (cut_sound s) refl h
  where
    step :
        (b : Bool)
        → eqb (code d) b'.' ≡ b
        → (o : Option (String × String))
        → ((c n : String) → cut b'.' s ≡ some (c, n) → s ≡ c <> "." <> n)
        → cut b'.' s ≡ o
        → (if b then some (String.[], s) else led d o) ≡ some (c, n)
        → String.◌∷◌ d s ≡ c <> "." <> n
    step true e o later f g =
        let c_same : "" ≡ c = cc g in
        let n_same : s ≡ n = cc g in cut_first d s e ∙ (λ i. c_same i <> "." <> n_same i)
    step false e none later f g = absurd (cc g)
    step false e (some (c', n')) later f g =
        let c_same : String.◌∷◌ d c' ≡ c = cc g in
        let n_same : n' ≡ n = cc g in
        ap (λ t. String.◌∷◌ d t) (later c' n' f)
        ∙ sym (cons-append d c' ("." <> n'))
        ∙ (λ i. c_same i <> "." <> n_same i)

module _ {W : Type 0} (world : World W) where
  drop_schema_sound :
      (c n : String) (r : Registry) (w : W)
      → (drop_schema world c n false r w).0 ≡ done true
      → has_members (c <> "." <> n) r ≡ false
  unfolding drop_schema
  drop_schema_sound c n r w h =
      let (_, v, _, e) = then-done (attach_catalog world c) _ w true h in
      schema_children-none world c n (record { registry = r; world = v }) (if-none world _ _ v e)

  drop_backing_sound :
      (full_name c n : String) (s : State W)
      → (drop_backing world full_name c n false s).0 ≡ ok true
      → has_members (c <> "." <> n) s.registry ≡ false
  unfolding drop_backing registered trying
  drop_backing_sound full_name c n s h =
      with_pool-ok world _ _ s true
        (λ e. drop_schema_sound c n s.registry s.world (or_error-ok world _ _ _ true e))
        (λ e. schema_children-none world c n s (not-none world _ e)) h

-- The registry after the deletion of a schema without members.
abbrev pub without_schema : (String → String) → String → Registry → Registry
without_schema upper full_name r = record r {
  schemas = remove r.schemas full_name;
  grants = delete_grants_for_parent upper full_name "SCHEMA" r.grants;
}

schema_removed-none :
    (upper : String → String) (full_name : String) (r : Registry)
    → has_members full_name r ≡ false
    → (record (schema_removed upper full_name r) {
      schemas = remove (schema_removed upper full_name r).schemas full_name;
    })
      ≡ without_schema upper full_name r
unfolding schema_removed
schema_removed-none upper full_name r none_ =
    ap {A = Registry}
      (λ x. record x {
        schemas = remove r.schemas full_name;
        grants = delete_grants_for_parent upper full_name "SCHEMA" r.grants;
      })
      (without_members-none full_name r none_)

module _ {W : Type 0} (world : World W) (upper : String → String) (full_name : String)
    (s : State W) where
  -- A deletion of the schema that was refused, or was answered.
  abbrev pub Unforced : Result (Unit {0}) × State W → Type 0
  Unforced p =
      ((x : Exception) × (p.0 ≡ raised x) × (p.1.registry ≡ s.registry))
      ⊎ ((p.0 ≡ ok tt)
          × (has_members full_name s.registry ≡ false)
          × (p.1.registry ≡ without_schema upper full_name s.registry))

  drop_backing_kept :
      (name c n : String) (t : State W)
      → (drop_backing world name c n false t).1.registry ≡ t.registry
  unfolding Keeps
  drop_backing_kept name c n t =
      drop_backing-Keeps world (λ r. r ≡ t.registry) name c n false t refl

  ending :
      (c n : String) (dropped : Bool) (t : State W)
      → t.registry ≡ s.registry
      → (dropped ≡ true → has_members full_name s.registry ≡ false)
      → Unforced (
          (raise_if (not dropped) (not_empty_error "Schema" full_name)
              >> (outside (remove_directory world (c ∷ n ∷ []))
                  >> (register (schema_removed upper full_name)
                      >> register (λ r. record r { schemas = remove r.schemas full_name }))))
            t)
  unfolding outside register
  ending c n false t e none_ = inl (not_empty_error "Schema" full_name, refl, e)
  ending c n true t e none_ = removed (remove_directory world (c ∷ n ∷ []) t.world).0
    where
      t' : State W
      t' = record t { world = (remove_directory world (c ∷ n ∷ []) t.world).1 }

      removed :
          (o : Tried (Unit {0}))
          → Unforced (elim (uncaught o) as (λ _. Result (Unit {0}) × State W) [
            | ok _ ↦
                (register (schema_removed upper full_name)
                    >> register (λ r. record r { schemas = remove r.schemas full_name }))
                  t'
            | raised x ↦ (raised x, t')
          ])
      removed (failed text) = inl (os_error text, refl, e)
      removed (done _) = inr (
        refl,
        none_ refl,
        ap
              (λ r. record (schema_removed upper full_name r) {
                schemas = remove (schema_removed upper full_name r).schemas full_name;
              })
              e
            ∙ schema_removed-none upper full_name s.registry (none_ refl),
      )

  -- What follows the lookup of the schema, for the two parts of its name.
  abbrev dropping : String × String → Exec (State W) (Unit {0})
  dropping parts = drop_backing world full_name parts.0 parts.1 false >>= λ dropped.
      raise_if (not dropped) (not_empty_error "Schema" full_name)
      >> (outside (remove_directory world (parts.0 ∷ parts.1 ∷ []))
          >> (register (schema_removed upper full_name)
              >> register (λ r. record r { schemas = remove r.schemas full_name })))

  dropping-Unforced : (c n : String) → full_name ≡ c <> "." <> n → Unforced (dropping (c, n) s)
  dropping-Unforced c n e = go (drop_backing world full_name c n false s).0 refl
    where
      t : State W
      t = (drop_backing world full_name c n false s).1

      kept : t.registry ≡ s.registry
      kept = drop_backing_kept full_name c n s

      go :
          (o : Result Bool)
          → (drop_backing world full_name c n false s).0 ≡ o
          → Unforced (elim o as (λ _. Result (Unit {0}) × State W) [
            | ok dropped ↦
                (raise_if (not dropped) (not_empty_error "Schema" full_name)
                    >> (outside (remove_directory world (c ∷ n ∷ []))
                        >> (register (schema_removed upper full_name)
                            >> register (λ r. record r { schemas = remove r.schemas full_name }))))
                  t
            | raised x ↦ (raised x, t)
          ])
      go (raised x) f = inl (x, refl, kept)
      go (ok dropped) f = ending c n dropped t kept (λ yes_.
          subst (λ name. has_members name s.registry ≡ false) (sym e)
            (drop_backing_sound world full_name c n s (f ∙ ap ok yes_)))

  -- A deletion of a schema without force either raises, and then the registry is as it was, or is
  -- answered. In that case no table, external table, volume or function was registered below the
  -- schema, and the registry differs only in the schema, which is gone, and in the grants, which lose
  -- those of the schema and of what is below it.
  pub delete_schema-Unforced : Unforced (delete_schema world upper full_name false s)
  unfolding delete_schema two_parts registered
  delete_schema-Unforced = known (has s.registry.schemas full_name)
    where
      split :
          (o : Option (String × String))
          → cut b'.' full_name ≡ o
          → Unforced (
              (or_raise o (value_error "not enough values to unpack (expected 2, got 1)")
                  >>= dropping)
                s)
      split none e = inl (value_error "not enough values to unpack (expected 2, got 1)", refl, refl)
      split (some (c, n)) e = dropping-Unforced c n (cut_sound full_name c n e)

      known :
          (b : Bool)
          → Unforced (
              (raise_if (not b) (schema_not_found full_name)
                  >> ((or_raise
                        (cut b'.' full_name)
                        (value_error "not enough values to unpack (expected 2, got 1)"))
                      >>= dropping))
                s)
      known false = inl (schema_not_found full_name, refl, refl)
      known true = split (cut b'.' full_name) refl
