-- ===== src/UnityCatalog/Deletion.antt =====
-- What a deletion without force leaves, and what it refuses.
pub mod Schemas
pub mod Catalogs
use minilake.Prelude.{
  String, ◌<>◌, ◌≡◌, refl, ap, Bool, true, false, not, ◌||◌, [], ◌∷◌, string_eq, arith,
  if◌then◌else◌,
}
use minilake.Prelude.Dict.{Dict, keys}
use minilake.Errors.{Exec, Exception, Result, ok}
use minilake.UnityCatalog.State.{
  Registry, World, State, Action, Tried, done, failed, trying, or_error, registered, with_pool,
  ◌then◌,
}
use minilake.UnityCatalog.Children.{
  below, any_below, has_members, without_below, without_members, schema_has_registered_children,
}
use minilake.UnityCatalog.Removal.{drop_schema, drop_backing}
use minilake.UnityCatalog.Pool.{attach_catalog}

-- Where nothing is below the parent, nothing is taken.
without_below-none :
    {V : Type 0} (parent : String) (d : Dict String V)
    → any_below parent d ≡ false
    → without_below parent d ≡ d
unfolding without_below keys
without_below-none parent [] h = refl
without_below-none parent ((k, v) ∷ d) h =
    ground (arith, h, without_below-none parent d (later (below parent k) (any_below parent d) h))
  where
    later : (b c : Bool) → b || c ≡ false → c ≡ false
    later b c h = ground (arith, h)

pub without_members-none :
    (parent : String) (r : Registry) → has_members parent r ≡ false → without_members parent r ≡ r
unfolding has_members without_members
without_members-none parent r h =
    let t = any_below parent r.tables in
    let e = any_below parent r.external_tables in
    let v = any_below parent r.volumes in
    let f = any_below parent r.functions in
    let (no_t, no_e, no_v, no_f) = parts t e v f h in
    λ i. record r {
      tables = without_below-none parent r.tables no_t i;
      external_tables = without_below-none parent r.external_tables no_e i;
      volumes = without_below-none parent r.volumes no_v i;
      functions = without_below-none parent r.functions no_f i;
    }
  where
    parts :
        (a b c d : Bool)
        → a || b || c || d ≡ false
        → (a ≡ false) × (b ≡ false) × (c ≡ false) × (d ≡ false)
    parts false false false false h = (refl, refl, refl, refl)
    parts true b c d h = absurd (cc h)
    parts false true c d h = absurd (cc h)
    parts false false true d h = absurd (cc h)
    parts false false false true h = absurd (cc h)

module _ {W : Type 0} {A B : Type 0} where
  -- What is done at the end went through the first action.
  then-done :
      (action : Action W A) (f : A → Action W B) (w : W) (b : B)
      → ((action then f) w).0 ≡ done b
      → (a : A) × (v : W) × ((action w).0 ≡ done a) × ((f a v).0 ≡ done b)
  unfolding ◌then◌
  then-done action f w b h = go (action w).0 refl h
    where
      go :
          (o : Tried A)
          → (action w).0 ≡ o
          → (elim o as (λ _. Tried B × W) [
            | done a ↦ f a (action w).1
            | failed text ↦ (failed text, (action w).1)
          ]).0
            ≡ done b
          → (a : A) × (v : W) × ((action w).0 ≡ done a) × ((f a v).0 ≡ done b)
      go (done a) e h = (a, (action w).1, e, h)
      go (failed text) e h = absurd (cc h)

module _ {W : Type 0} (world : World W) where
  schema_children-none :
      (c n : String) (s : State W)
      → schema_has_registered_children world c n s ≡ false
      → has_members (c <> "." <> n) s.registry ≡ false
  unfolding schema_has_registered_children
  schema_children-none c n s h = first_of (has_members (c <> "." <> n) s.registry) _ h
    where
      first_of : (a b : Bool) → a || b ≡ false → a ≡ false
      first_of false b h = refl
      first_of true b h = h

  -- A test that ends with false passes only where it fails.
  if-none :
      (b : Bool) (m : Tried Bool × W) (w : W)
      → (if b then (done false, w) else m).0 ≡ done true
      → b ≡ false
  if-none false m w h = refl
  if-none true m w h = cc h

  not-none : (b : Bool) → ◌≡◌ {A = Result Bool} (ok (not b)) (ok true) → b ≡ false
  not-none false h = refl
  not-none true h = cc h

  or_error-ok :
      {A : Type 0} (t : Tried A) (x : String → Exception) (s : State W) (a : A)
      → (or_error t x s).0 ≡ ok a
      → t ≡ done a
  unfolding or_error
  or_error-ok (done b) x s a h = ap done (cc h)
  or_error-ok (failed text) x s a h = absurd (cc h)

  with_pool-ok :
      {A P : Type 0} (m n : Exec (State W) A) (s : State W) (a : A)
      → ((m s).0 ≡ ok a → P)
      → ((n s).0 ≡ ok a → P)
      → (with_pool world m n s).0 ≡ ok a
      → P
  unfolding with_pool
  with_pool-ok {A = A} {P = P} m n s a f g h = go (world.has_pool s.world) h
    where
      go : (b : Bool) → (if b then m s else n s).0 ≡ ok a → P
      go true e = f e
      go false e = g e
