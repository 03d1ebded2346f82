-- ===== src/Tokens/Lifetime.antt =====
-- When a created token expires.
use minilake.Prelude.{
  ℕ, zero, suc, ◌+◌, ◌*◌, ◌<◌, String, ◌≡◌, ◌⊎◌, inl, inr, refl, Option, none, some, arith,
  string_eq, if_pos,
}
use minilake.Prelude.Int.{ℤ, pos, negsuc}
use minilake.Prelude.Dict.{get, put, get-put_text}
use minilake.Errors.{ok, raised, Exception, Result-cases}
use minilake.Tokens.{TokenInfo, State, expiry, create_token}

-- The expiry is none, or later than now.
abbrev pub IsLater : ℕ → ℤ → Type 0
IsLater now e = (e ≡ negsuc 0) ⊎ (t : ℕ) × (e ≡ pos t) × (now < t)

expiry-IsLater :
    (now : ℕ) (lifetime : Option ℤ) (e : ℤ) → expiry now lifetime ≡ ok e → IsLater now e
unfolding expiry
expiry-IsLater now none e h = inl (cc h)
expiry-IsLater now (some (negsuc zero)) e h = inl (cc h)
expiry-IsLater now (some (negsuc (suc n))) e h = absurd (cc h)
expiry-IsLater now (some (pos zero)) e h = absurd (cc h)
expiry-IsLater now (some (pos (suc n))) e h = inr (now + suc n * 1000, cc h, omega arith)

create_token-refused :
    (id hex : String) (now : ℕ) (comment : Option String) (lifetime : Option ℤ) (s : State)
    (x : Exception)
    → expiry now lifetime ≡ raised x
    → (create_token id hex now comment lifetime s).0 ≡ raised x
unfolding create_token
create_token-refused id hex now comment lifetime s x e = rw e refl

create_token-stores :
    (id hex : String) (now : ℕ) (comment : Option String) (lifetime : Option ℤ) (s : State) (e : ℤ)
    (value : String) (token : TokenInfo)
    → expiry now lifetime ≡ ok e
    → (create_token id hex now comment lifetime s).0 ≡ ok (value, token)
    → ((create_token id hex now comment lifetime s).1 ≡ put s id token) × (token.expiry_time ≡ e)
unfolding create_token
create_token-stores id hex now comment lifetime s e value token fine h = ground (arith, fine)

-- A token that `create_token` answers is stored under its id, and never expires or expires later
-- than now.
pub create_token-IsLater :
    (id hex : String) (now : ℕ) (comment : Option String) (lifetime : Option ℤ) (s : State)
    (value : String) (token : TokenInfo)
    → (create_token id hex now comment lifetime s).0 ≡ ok (value, token)
    → (get (create_token id hex now comment lifetime s).1 id ≡ some token)
      × IsLater now token.expiry_time
create_token-IsLater id hex now comment lifetime s value token h =
    elim (Result-cases (expiry now lifetime)) [
      | inr (x, e) ↦ absurd (cc (create_token-refused id hex now comment lifetime s x e, h))
      | inl (e, fine) ↦
          let (stored, same) =
            create_token-stores id hex now comment lifetime s e value token fine h in
          (
            rw (stored, get-put_text, if_pos _ refl) refl,
            rw same (expiry-IsLater now lifetime e fine),
          )
    ]
