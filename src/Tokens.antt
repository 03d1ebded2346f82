-- ===== src/Tokens.antt =====
-- services/tokens.py: the records of personal access tokens.
pub mod Lifetime
use minilake.Prelude.{ℕ, ◌+◌, ◌*◌, String, ◌<>◌, not, Option, none, some, List, string_eq}
use minilake.Prelude.Int.{ℤ, pos, negsuc}
use minilake.Prelude.Dict.{Dict, has, put, remove, values}
use minilake.Errors.{
  Exec, Result, ok, raised, pure, gets, lift, ◌>>=◌, ◌>>◌, modify, raise_if, error,
}

pub record TokenInfo : Type 0 where
  pub token_id : String
  pub comment : Option String
  pub creation_time : ℕ
  pub expiry_time : ℤ
  pub last_accessed_time : ℕ

-- `_state["tokens"]`
abbrev pub State : Type 0
State = Dict String TokenInfo

-- The expiry of a lifetime in seconds: never for an absent one and for -1; zero and any other
-- negative lifetime is refused.
unfoldable pub expiry : ℕ → Option ℤ → Result ℤ
expiry now none = ok (negsuc 0)
expiry now (some (negsuc ℕ.zero)) = ok (negsuc 0)
expiry now (some (negsuc (ℕ.suc n))) =
    raised
      (error "INVALID_PARAMETER_VALUE" "lifetime_seconds must be positive, or -1 for no expiry" 400)
expiry now (some (pos ℕ.zero)) =
    raised
      (error "INVALID_PARAMETER_VALUE" "lifetime_seconds must be positive, or -1 for no expiry" 400)
expiry now (some (pos (ℕ.suc n))) = ok (pos (now + ℕ.suc n * 1000))

-- The value of the token, `dapi` and 32 random hexadecimal digits, is returned and not stored.
unfoldable pub create_token :
    String → String → ℕ → Option String → Option ℤ → Exec State (String × TokenInfo)
unfolding expiry
create_token token_id random_hex now comment lifetime = do
  expires ← lift (expiry now lifetime)
  let info = stored_token token_id comment now expires
  modify (λ (s : State). put s token_id info)
  pure ("dapi" <> random_hex, info)
  where
    stored_token : String → Option String → ℕ → ℤ → TokenInfo
    stored_token id comment now expires = record {
      token_id = id;
      comment = comment;
      creation_time = now;
      expiry_time = expires;
      last_accessed_time = now;
    }

unfoldable pub list_tokens : State → List TokenInfo
list_tokens = values

unfoldable pub revoke_token : String → Exec State (Unit {0})
revoke_token token_id = do
  known ← gets (λ (s : State). has s token_id)
  raise_if (not known)
      (error "RESOURCE_DOES_NOT_EXIST" ("Token '" <> token_id <> "' not found") 404)
  modify (λ (s : State). remove s token_id)
