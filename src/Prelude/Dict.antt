-- ===== src/Prelude/Dict.antt =====
-- Python's `dict`, in insertion order. Proofs elsewhere go by the laws; tests unfold the operations.
use mathlib.Core.Path.{◌≡◌, refl}
use mathlib.Core.Logic.{◌≢◌, ◌⊎◌}
use mathlib.Core.Bool.{Bool}
use mathlib.Core.Option.{Option, none, some}
use mathlib.Core.List.{List, [], ◌∷◌}
use native.Mathlib.Omega.{arith}
use minilake.Prelude.Tests.{if◌then◌else◌, is_some}
use Prim.Native.String.{String}
use Prim.Native.Nat.{ℕ}
use minilake.Prelude.Equality.{Eq, ◌==◌, string_eq, nat_eq}

abbrev pub Dict {ℓ κ} : Type ℓ → Type κ → Type (ℓ ⊔ κ)
Dict K V = List (K × V)

unfoldable pub keys {ℓ κ} : {K : Type ℓ} {V : Type κ} → Dict K V → List K
keys [] = []
keys ((k, v) ∷ d) = k ∷ keys d

unfoldable pub values {ℓ κ} : {K : Type ℓ} {V : Type κ} → Dict K V → List V
values [] = []
values ((k, v) ∷ d) = v ∷ values d

module _ {ℓ κ} {K : Type ℓ} {V : Type κ} ⦃e : Eq K⦄ where
  -- `d.get(k)`
  unfoldable pub get : Dict K V → K → Option V
  get [] k = none
  get ((j, v) ∷ d) k = if k == j then some v else get d k

  -- `k in d`
  abbrev pub has : Dict K V → K → Bool
  has d k = is_some (get d k)

  -- `d[k] = v`: a known key keeps its place, a new one goes to the end.
  unfoldable pub put : Dict K V → K → V → Dict K V
  put [] k v = (k, v) ∷ []
  put ((j, w) ∷ d) k v = if k == j then (j, v) ∷ d else (j, w) ∷ put d k v

  -- `d.pop(k, None)` and, for a known key, `del d[k]`. A real dict has at most one entry of a key.
  unfoldable pub remove : Dict K V → K → Dict K V
  remove [] k = []
  remove ((j, w) ∷ d) k = let rest = remove d k in if k == j then rest else (j, w) ∷ rest

  -- `d.update(changes)` and `{**d, **changes}`
  unfoldable pub update : Dict K V → Dict K V → Dict K V
  update d [] = d
  update d ((k, v) ∷ changes) = update (put d k v) changes

  pub get-nil : (k : K) → get [] k ≡ none
  unfolding get
  get-nil k = refl

  pub get-put :
      (d : Dict K V) (k : K) (v : V) (j : K)
      → get (put d k v) j ≡ (if j == k then some v else get d j)
  unfolding get put
  get-put [] k v j = refl
  get-put ((i, w) ∷ d) k v j = ground (arith, get-put d k v j)

  pub get-remove :
      (d : Dict K V) (k j : K) → get (remove d k) j ≡ (if j == k then none else get d j)
  unfolding get remove
  get-remove [] k j = ground arith
  get-remove ((i, w) ∷ d) k j = ground (arith, get-remove d k j)

  -- No key is listed twice.
  abbrev pub NodupKeys : Dict K V → Type κ
  NodupKeys [] = Unit
  NodupKeys ((k, v) ∷ d) = (get d k ≡ none) × NodupKeys d

  pub put-NodupKeys : (d : Dict K V) (k : K) (v : V) → NodupKeys d → NodupKeys (put d k v)
  unfolding put
  put-NodupKeys [] k v _ = (get-nil k, tt)
  put-NodupKeys ((j, w) ∷ d) k v (fresh, u) = ground (arith, put-NodupKeys d k v u, get-put d k v j)

  pub remove-NodupKeys : (d : Dict K V) (k : K) → NodupKeys d → NodupKeys (remove d k)
  unfolding remove
  remove-NodupKeys [] k _ = tt
  remove-NodupKeys ((j, w) ∷ d) k (fresh, u) =
      ground (arith, remove-NodupKeys d k u, get-remove d k j)

pub ruleset dict_laws = (get-nil, get-put, get-remove)

-- The laws at text keys, where `simp` need not look for the instance.
module _ {ℓ} {V : Type ℓ} where
  pub get-put_text :
      (d : Dict String V) (k : String) (v : V) (j : String)
      → get (put d k v) j ≡ (if j == k then some v else get d j)
  get-put_text d k v j = get-put d k v j

  pub get-remove_text :
      (d : Dict String V) (k j : String) → get (remove d k) j ≡ (if j == k then none else get d j)
  get-remove_text d k j = get-remove d k j

  pub get-put_here : (d : Dict String V) (k : String) (v : V) → get (put d k v) k ≡ some v
  get-put_here d k v = ground (arith, get-put_text d k v k)

  pub get-put_there :
      (d : Dict String V) (k : String) (v : V) (j : String) → j ≢ k → get (put d k v) j ≡ get d j
  get-put_there d k v j ne = ground (arith, get-put_text d k v j)

  pub get-update-none :
      (d changes : Dict String V) (k : String)
      → get changes k ≡ none
      → get (update d changes) k ≡ get d k
  unfolding get update
  get-update-none d [] k absent = refl
  get-update-none d ((j, v) ∷ changes) k absent =
      ground (arith, absent, get-put_text d j v k, get-update-none (put d j v) changes k)

  pub get-update-some :
      (d changes : Dict String V) (k : String) (v : V)
      → NodupKeys changes
      → get changes k ≡ some v
      → get (update d changes) k ≡ some v
  unfolding get update
  get-update-some d [] k v _ h = absurd (cc h)
  get-update-some d ((j, w) ∷ changes) k v (fresh, u) h = ground (
    arith,
    h,
    fresh,
    get-put_text d j w k,
    get-update-none (put d j w) changes k,
    get-update-some (put d j w) changes k v u,
  )

-- The laws at number keys.
module _ {ℓ} {V : Type ℓ} where
  pub get-put_nat :
      (d : Dict ℕ V) (k : ℕ) (v : V) (j : ℕ)
      → get (put d k v) j ≡ (if j == k then some v else get d j)
  get-put_nat d k v j = get-put d k v j

  pub get-remove_nat :
      (d : Dict ℕ V) (k j : ℕ) → get (remove d k) j ≡ (if j == k then none else get d j)
  get-remove_nat d k j = get-remove d k j

-- What a look-up finds after one write.
pub get-put_cases {ℓ} :
    {V : Type ℓ} (d : Dict String V) (k : String) (v : V) (j : String) {w : V}
    → get (put d k v) j ≡ some w
    → (j ≡ k) × (v ≡ w) ⊎ (j ≢ k) × (get d j ≡ some w)
get-put_cases d k v j found = ground (arith, get-put_text d k v j)

pub ruleset text_laws = (get-put_text, get-remove_text)
