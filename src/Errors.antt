-- ===== src/Errors.antt =====
-- errors.py: `DatabricksError` and what else can leave a handler, and handlers as actions on a state.
use minilake.Prelude.{
  ℕ, String, Bool, Option, none, some, ◌≡◌, refl, ap, ◌⊎◌, inl, inr, if◌then◌else◌,
}

pub record DatabricksError : Type 0 where
  pub error_code : String
  pub message : String
  pub status_code : ℕ

-- An uncaught `KeyError`, `ValueError`, `AttributeError` or `OSError`, and the response model refusing
-- what a handler returns, end as status 500.
pub data Exception : Type 0 where
  api : DatabricksError → Exception
  key_error : String → Exception
  value_error : String → Exception
  attribute_error : String → Exception
  os_error : String → Exception
  invalid_response : Exception

pub data Result {ℓ} (A : Type ℓ) : Type ℓ where
  ok : A → Result A
  raised : Exception → Result A

pub Result-cases {ℓ} :
    {A : Type ℓ} (r : Result A) → ((a : A) × (r ≡ ok a)) ⊎ ((x : Exception) × (r ≡ raised x))
Result-cases (ok a) = inl (a, refl)
Result-cases (raised x) = inr (x, refl)

-- A handler: what it wrote before a raise stays written, so the state comes back beside the error too.
abbrev pub Exec {ℓ κ} : Type ℓ → Type κ → Type (ℓ ⊔ κ)
Exec S A = S → Result A × S

module _ {ℓ κ} {S : Type ℓ} {A : Type κ} where
  abbrev pub pure : A → Exec S A
  pure a s = (ok a, s)

  abbrev pub raise : Exception → Exec S A
  raise x s = (raised x, s)

  abbrev pub gets : (S → A) → Exec S A
  gets f s = (ok (f s), s)

  -- a pure part that may raise
  abbrev pub lift : Result A → Exec S A
  lift r s = (r, s)

  abbrev pub or_raise : Option A → Exception → Exec S A
  or_raise none x s = (raised x, s)
  or_raise (some a) x s = (ok a, s)

infixl 5 ◌>>=◌ ◌>>◌
abbrev pub ◌>>=◌ {ℓ κ λ'} :
    {S : Type ℓ} {A : Type κ} {B : Type λ'} → Exec S A → (A → Exec S B) → Exec S B
◌>>=◌ m f s = let (r, s') = m s in elim r [ ok a ↦ f a s' | raised x ↦ (raised x, s') ]

module _ {ℓ κ λ'} {S : Type ℓ} {A : Type κ} {B : Type λ'} (m : Exec S A) (f : A → Exec S B)
    (s : S) where
  -- A chain goes on with the state that its first part left, or stops at its raise.
  pub bind-ok : (a : A) (t : S) → m s ≡ (ok a, t) → (m >>= f) s ≡ f a t
  bind-ok a t e = rw (ap (λ r. r.0) e, ◌>>=◌) (ap (λ r. f a r.1) e)

  pub bind-raised : (x : Exception) (t : S) → m s ≡ (raised x, t) → (m >>= f) s ≡ (raised x, t)
  bind-raised x t e = rw (ap (λ r. r.0) e, ◌>>=◌) (λ i. (raised x, (e i).1))

-- The outcomes of a handler that writes nothing.
pub unwritten-cases {ℓ κ} :
    {S : Type ℓ} {A : Type κ} (m : Exec S A) (s : S)
    → (m s).1 ≡ s
    → ((a : A) × (m s ≡ (ok a, s))) ⊎ ((x : Exception) × (m s ≡ (raised x, s)))
unwritten-cases m s kept = elim (Result-cases (m s).0) [
  | inl (a, e) ↦ inl (a, λ i. (e i, kept i))
  | inr (x, e) ↦ inr (x, λ i. (e i, kept i))
]

abbrev pub ◌>>◌ {ℓ κ λ'} : {S : Type ℓ} {A : Type κ} {B : Type λ'} → Exec S A → Exec S B → Exec S B
m >> k = m >>= λ _. k

module _ {ℓ} {S : Type ℓ} where
  abbrev pub modify : (S → S) → Exec S (Unit {0})
  modify f s = (ok tt, f s)

  -- `if c: raise x`
  abbrev pub raise_if : Bool → Exception → Exec S (Unit {0})
  raise_if c x s = (if c then raised x else ok tt, s)

-- `raise DatabricksError(error_code=…, message=…, status_code=…)`
abbrev pub error : String → String → ℕ → Exception
error code message status =
    api (record { error_code = code; message = message; status_code = status })
