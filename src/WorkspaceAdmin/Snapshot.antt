-- ===== src/WorkspaceAdmin/Snapshot.antt =====
-- A snapshot of the credentials through JSON.
use minilake.Prelude.{
  ℕ, ◌≡◌, ◌≢◌, refl, sym, ap, ◌∙◌, none, some, [], ◌∷◌, ◌++◌, string_eq, nat_eq, arith,
}
use minilake.Prelude.Dict.{Dict, get, get-nil, put, NodupKeys}
use minilake.Text.Numbers.{parse_int-show}
use minilake.WorkspaceAdmin.{text_keys, int_keys}

module _ {ℓ} {V : Type ℓ} where
  put-append : (d : Dict ℕ V) (k : ℕ) (v : V) → get d k ≡ none → put d k v ≡ d ++ (k, v) ∷ []
  unfolding put get
  put-append [] k v fresh = refl
  put-append ((j, w) ∷ d) k v fresh = ground (arith, fresh, put-append d k v)

  append_assoc : (a : Dict ℕ V) (x : ℕ × V) (b : Dict ℕ V) → (a ++ x ∷ []) ++ b ≡ a ++ x ∷ b
  append_assoc [] x b = refl
  append_assoc (y ∷ a) x b = ap (λ d. y ∷ d) (append_assoc a x b)

  append_nil : (a : Dict ℕ V) → a ++ [] ≡ a
  append_nil [] = refl
  append_nil (x ∷ a) = ap (λ d. x ∷ d) (append_nil a)

  -- No key of the one is a key of the other.
  abbrev Apart : Dict ℕ V → Dict ℕ V → Type ℓ
  Apart [] into = Unit
  Apart ((k, v) ∷ d) into = (get into k ≡ none) × Apart d into

  get-append_one :
      (a : Dict ℕ V) (j : ℕ) (w : V) (k : ℕ)
      → get a k ≡ none
      → k ≢ j
      → get (a ++ (j, w) ∷ []) k ≡ none
  unfolding get
  get-append_one [] j w k h ne = ground (arith, ne)
  get-append_one ((i, v) ∷ a) j w k h ne = ground (arith, h, ne, get-append_one a j w k)

  get-first :
      (d : Dict ℕ V) (k : ℕ) (v : V) (j : ℕ)
      → get ((k, v) ∷ d) j ≡ none
      → (k ≢ j) × (get d j ≡ none)
  unfolding get
  get-first d k v j h = (ground (arith, h), ground (arith, h))

  Apart-append_one :
      (d into : Dict ℕ V) (j : ℕ) (w : V)
      → Apart d into
      → get d j ≡ none
      → Apart d (into ++ (j, w) ∷ [])
  unfolding get
  Apart-append_one [] into j w h fresh = tt
  Apart-append_one ((k, v) ∷ d) into j w (here, h) fresh =
      let (differ, later) = get-first d k v j fresh in
      (get-append_one into j w k here differ, Apart-append_one d into j w h later)

  int_keys-text_keys_from :
      (d into : Dict ℕ V)
      → NodupKeys d
      → Apart d into
      → int_keys (text_keys d) into ≡ some (into ++ d)
  unfolding int_keys text_keys
  int_keys-text_keys_from [] into u h = ap some (sym (append_nil into))
  int_keys-text_keys_from ((k, v) ∷ d) into (fresh, u) (here, h) =
      rw (parse_int-show k, int_keys)
        (ap (int_keys (text_keys d)) (put-append into k v here)
          ∙ int_keys-text_keys_from d (into ++ (k, v) ∷ []) u (Apart-append_one d into k v h fresh)
          ∙ ap some (append_assoc into (k, v) d))

  -- What a snapshot writes as text keys is read back as the same dict, in the same order.
  pub int_keys-text_keys : (d : Dict ℕ V) → NodupKeys d → int_keys (text_keys d) [] ≡ some d
  int_keys-text_keys d u = int_keys-text_keys_from d [] u (nothing_apart d)
    where
      nothing_apart : (d : Dict ℕ V) → Apart d []
      nothing_apart [] = tt
      nothing_apart ((k, v) ∷ d) = (get-nil k, nothing_apart d)
