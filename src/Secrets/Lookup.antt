-- ===== src/Secrets/Lookup.antt =====
-- What a look-up finds after `put_secret` and `delete_secret`.
use minilake.Prelude.{
  ℕ, String, ◌≡◌, inl, inr, true, ◌&&◌, Option, none, some, ◌==◌, arith, string_eq, is_some,
  if◌then◌else◌, Option-cases,
}
use minilake.Prelude.Dict.{get, has, put, remove, get-put_text, get-remove_text}
use minilake.Secrets.{State, find_secret, get_scope, put_secret, delete_secret}

-- A stored secret is what the reader finds, and no other secret changes: after a `put` that returns,
-- each pair of scope and key has the new value exactly if it is the pair that was put.
pub find_secret-put :
    (now : ℕ) (scope key value : String) (bytes_value : Option String) (s : State) (j k : String)
    → has s scope ≡ true
    → find_secret (put_secret now scope key (some value) bytes_value s).1 j k ≡ (
        if j == scope && k == key
        then some (record { value = value; updated_at = now })
        else find_secret s j k)
unfolding find_secret put_secret get_scope
find_secret-put now scope key value bytes_value s j k known = elim (Option-cases (get s scope)) [
  | inl e ↦ ground (arith, e)
  | inr (stored, e) ↦ ground (
    arith,
    e,
    get-put_text s scope
        (record stored {
          secrets = put stored.secrets key (record { value = value; updated_at = now });
        })
        j,
    get-put_text stored.secrets key (record { value = value; updated_at = now }) k,
  )
]

-- After a `delete_secret` that returns, the secret is not found and every other one is as before.
pub find_secret-delete :
    (scope key : String) (s : State) (j k : String)
    → is_some (find_secret s scope key) ≡ true
    → find_secret (delete_secret scope key s).1 j k
      ≡ (if j == scope && k == key then none else find_secret s j k)
unfolding find_secret delete_secret get_scope
find_secret-delete scope key s j k known = elim (Option-cases (get s scope)) [
  | inl e ↦ ground (arith, e)
  | inr (stored, e) ↦ ground (
    arith,
    e,
    get-put_text s scope (record stored { secrets = remove stored.secrets key }) j,
    get-remove_text stored.secrets key k,
  )
]
