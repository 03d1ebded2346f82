-- ===== src/UnityCatalog/Keeps.antt =====
-- Handlers that keep an invariant of the registry, whether they return or raise.
pub mod Catalogs
pub mod Tables
pub mod Members
use minilake.Prelude.{String, ◌≡◌, refl, Bool, true, false, Option, none, some, if◌then◌else◌}
use minilake.Errors.{
  Exec, Exception, Result, ok, raised, pure, gets, lift, or_raise, ◌>>=◌, ◌>>◌, raise_if,
}
use minilake.UnityCatalog.State.{
  Registry, World, with_pool, Tried, done, failed, Action, State, trying, outside, requiring,
  look_up, registered, register, or_error,
}

module _ (W : Type 0) (I : Registry → Type 0) where
  -- Shut in proofs, so that rules apply to a handler as it is written.
  unfoldable pub Keeps {ℓ} : {A : Type ℓ} → Exec (State W) A → Type 0
  Keeps m = (s : State W) → I s.registry → I (m s).1.registry

  pub bind-Keeps {ℓ κ} :
      {A : Type ℓ} {B : Type κ} (m : Exec (State W) A) (f : A → Exec (State W) B)
      → Keeps m
      → ((a : A) → Keeps (f a))
      → Keeps (m >>= f)
  unfolding Keeps
  bind-Keeps {A = A} {B = B} m f h k s i = go (m s).0 (h s i)
    where
      go :
          (r : Result A)
          → I (m s).1.registry
          → I
              (elim r as (λ _. Result B × State W) [
                | ok a ↦ f a (m s).1
                | raised x ↦ (raised x, (m s).1)
              ]).1.registry
      go (ok a) j = k a (m s).1 j
      go (raised x) j = j

  pub trying-Keeps {ℓ} : {A : Type ℓ} (action : Action W A) → Keeps (trying action)
  unfolding Keeps trying
  trying-Keeps action s i = i

  pub outside-Keeps : (action : Action W (Unit {0})) → Keeps (outside action)
  unfolding Keeps outside
  outside-Keeps action s i = i

  pub registered-Keeps : Keeps registered
  unfolding Keeps registered
  registered-Keeps s i = i

  pub register-Keeps :
      (f : Registry → Registry) → ((r : Registry) → I r → I (f r)) → Keeps (register f)
  unfolding Keeps register
  register-Keeps f h s i = h s.registry i

  pub or_error-Keeps {ℓ} :
      {A : Type ℓ} (t : Tried A) (x : String → Exception) → Keeps (or_error t x)
  unfolding Keeps or_error
  or_error-Keeps (done a) x s i = i
  or_error-Keeps (failed text) x s i = i

  pub or_raise-Keeps {ℓ} : {A : Type ℓ} (o : Option A) (x : Exception) → Keeps (or_raise o x)
  unfolding Keeps
  or_raise-Keeps none x s i = i
  or_raise-Keeps (some a) x s i = i

  pub raise_if-Keeps : (c : Bool) (x : Exception) → Keeps (raise_if c x)
  unfolding Keeps
  raise_if-Keeps c x s i = i

  pub lift-Keeps {ℓ} : {A : Type ℓ} (r : Result A) → Keeps (lift r)
  unfolding Keeps
  lift-Keeps r s i = i

  pub pure-Keeps {ℓ} : {A : Type ℓ} (a : A) → Keeps (pure a)
  unfolding Keeps
  pure-Keeps a s i = i

  pub if-Keeps {ℓ} :
      {A : Type ℓ} (b : Bool) (m n : Exec (State W) A)
      → Keeps m
      → Keeps n
      → Keeps (if b then m else n)
  unfolding Keeps
  if-Keeps true m n h k = h
  if-Keeps false m n h k = k

  pub gets-Keeps {ℓ} : {A : Type ℓ} (f : State W → A) → Keeps (gets f)
  unfolding Keeps
  gets-Keeps f s i = i

  pub with_pool-Keeps {ℓ} :
      {A : Type ℓ} (world : World W) (m n : Exec (State W) A)
      → Keeps m
      → Keeps n
      → Keeps (with_pool world m n)
  unfolding Keeps with_pool
  with_pool-Keeps {A = A} world m n h k s i = go (world.has_pool s.world)
    where
      go : (c : Bool) → I (if c then m s else n s).1.registry
      go true = h s i
      go false = k s i

-- What is required holds while the rest runs.
pub requiring-Keeps {ℓ} :
    (W : Type 0) (I : Registry → Type 0) {A : Type ℓ} (c : Registry → Bool) (x : Exception)
    (m : Exec (State W) A)
    → Keeps W (λ r. I r × (c r ≡ true)) m
    → Keeps W I (requiring c x m)
unfolding Keeps requiring
requiring-Keeps W I {A = A} c x m h s i = go (c s.registry) refl
  where
    go : (b : Bool) → c s.registry ≡ b → I (if b then m s else (raised x, s)).1.registry
    go true e = (h s (i, e)).0
    go false e = i

-- Two writes, of which the first need not keep the invariant by itself.
pub registers-Keeps :
    (W : Type 0) (I : Registry → Type 0) (f g : Registry → Registry)
    → ((r : Registry) → I r → I (g (f r)))
    → Keeps W I (register f >> register g)
unfolding Keeps register
registers-Keeps W I f g h s i = h s.registry i

-- A change of what is found under a key.
pub changed-Keeps {ℓ} :
    (W : Type 0) (I : Registry → Type 0) {A : Type 0} {B : Type ℓ} (f : Registry → Option A)
    (x : Exception) (change : A → Registry → Registry) (answer : A → Exec (State W) B)
    → ((r : Registry) (a : A) → f r ≡ some a → I r → I (change a r))
    → ((a : A) → Keeps W I (answer a))
    → Keeps W I (look_up f x >>= λ a. register (change a) >> answer a)
unfolding Keeps look_up register
changed-Keeps W I {A = A} {B = B} f x change answer h k s i = go (f s.registry) refl
  where
    go :
        (o : Option A)
        → f s.registry ≡ o
        → I
            (((λ t. (elim o [ none ↦ raised x | some a ↦ ok a ], t)) >>= λ a.
                register (change a) >> answer a)
              s).1.registry
    go none e = i
    go (some a) e = k a (record s { registry = change a s.registry }) (h s.registry a e i)

pub look_up-Keeps {ℓ} :
    (W : Type 0) (I : Registry → Type 0) {A : Type ℓ} (f : Registry → Option A) (x : Exception)
    → Keeps W I (look_up f x)
unfolding Keeps look_up
look_up-Keeps W I f x s i = i

pub ruleset keeps = (
  bind-Keeps, trying-Keeps, outside-Keeps, registered-Keeps, or_error-Keeps, or_raise-Keeps,
  raise_if-Keeps, lift-Keeps, pure-Keeps, if-Keeps, gets-Keeps, look_up-Keeps, with_pool-Keeps,
)
