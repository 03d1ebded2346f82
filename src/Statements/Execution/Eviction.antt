-- ===== src/Statements/Execution/Eviction.antt =====
-- The cache keeps the newest statements, up to its size.
use minilake.Prelude.{
  ℕ, zero, suc, ◌-◌, ◌≤◌, String, ◌≡◌, refl, ap, ◌∙◌, inl, inr, none, some, List, [], ◌∷◌, ◌++◌,
  string_eq, leb, length, arith, Bool-cases,
}
use minilake.Prelude.Int.{ℤ, pos, negsuc}
use minilake.Prelude.Dict.{Dict, get, put}
use minilake.Paging.{drop}
use minilake.Statements.Model.{Statement, State}
use minilake.Statements.Execution.{at_least_one, evict, record_statement}

pub at_least_one-positive : (n : ℤ) → 1 ≤ at_least_one n
at_least_one-positive (pos zero) = omega arith
at_least_one-positive (pos (suc n)) = omega arith
at_least_one-positive (negsuc n) = omega arith

drop_eq {ℓ} : {A : Type ℓ} (xs : List A) (m n : ℕ) → m ≡ n → drop m xs ≡ drop n xs
drop_eq xs m n e = ap (λ k. drop k xs) e

evict-drop {ℓ} :
    {A : Type ℓ} (limit : ℕ) (xs : List A) → evict limit xs ≡ drop (length xs - limit) xs
unfolding evict
evict-drop limit [] = drop_eq [] 0 (0 - limit) (omega arith)
evict-drop limit (x ∷ xs) = elim (Bool-cases (leb (length (x ∷ xs)) limit)) [
  | inl fits ↦ rw fits (drop_eq (x ∷ xs) 0 (length (x ∷ xs) - limit) (ground (arith, fits)))
  | inr more ↦ rw more (
      evict-drop limit xs
      ∙ drop_eq (x ∷ xs) (suc (length xs - limit)) (length (x ∷ xs) - limit) (ground (arith, more)))
]

put-append {ℓ} :
    {V : Type ℓ} (d : Dict String V) (k : String) (v : V)
    → get d k ≡ none
    → put d k v ≡ d ++ (k, v) ∷ []
unfolding put get
put-append [] k v fresh = refl
put-append ((j, w) ∷ d) k v fresh = ground (arith, fresh, put-append d k v)

length-append_one {ℓ} : {A : Type ℓ} (xs : List A) (x : A) → length (xs ++ x ∷ []) ≡ suc (length xs)
length-append_one [] x = refl
length-append_one (y ∷ xs) x = ap suc (length-append_one xs x)

length-evict {ℓ} : {A : Type ℓ} (limit : ℕ) (xs : List A) → length (evict limit xs) ≤ limit
unfolding evict
length-evict limit [] = omega arith
length-evict limit (x ∷ xs) = ground (arith, length-evict limit xs)

get-append_one {ℓ} :
    {V : Type ℓ} (d : Dict String V) (k : String) (v : V)
    → get d k ≡ none
    → get (d ++ (k, v) ∷ []) k ≡ some v
unfolding get
get-append_one [] k v fresh = ground arith
get-append_one ((j, w) ∷ d) k v fresh = ground (arith, fresh, get-append_one d k v)

-- The entry at the end stays where at least one entry may stay.
get-evict {ℓ} :
    {V : Type ℓ} (limit : ℕ) (d : Dict String V) (k : String) (v : V)
    → 1 ≤ limit
    → get d k ≡ none
    → get (evict limit (d ++ (k, v) ∷ [])) k ≡ some v
unfolding evict get
get-evict limit [] k v room fresh = ground (arith, room)
get-evict limit ((j, w) ∷ d) k v room fresh =
    ground (arith, room, fresh, get-evict limit d k v room, get-append_one d k v)

-- A new statement is added at the end and the oldest are dropped, as many as do not fit: what stays
-- is no more than the cache's size, at least one, and has the new statement.
pub record_statement-drop :
    {Row : Type 0} (cache_size : ℤ) (entry : Statement Row) (s : State Row)
    → get s entry.id ≡ none
    → (record_statement cache_size entry s
        ≡ drop (suc (length s) - at_least_one cache_size) (s ++ (entry.id, entry) ∷ []))
      × (length (record_statement cache_size entry s) ≤ at_least_one cache_size)
      × (get (record_statement cache_size entry s) entry.id ≡ some entry)
unfolding record_statement
record_statement-drop cache_size entry s fresh =
    let limit = at_least_one cache_size in
    let longer = s ++ (entry.id, entry) ∷ [] in
    rw (put-append s entry.id entry fresh) (
      evict-drop limit longer
          ∙ ap (λ n. drop (n - limit) longer) (length-append_one s (entry.id, entry)),
      length-evict limit longer,
      get-evict limit s entry.id entry (at_least_one-positive cache_size) fresh,
    )
