-- ===== src/Compute/References.antt =====
-- The references of the clusters: the policy and the instance pool that a cluster names.
pub mod Writes
pub mod Handlers
pub mod Runs
use minilake.Prelude.{
  String, ◌≡◌, ◌≢◌, refl, sym, subst, ap, ◌∙◌, Bool, true, false, not, ◌&&◌, Option, none, some,
  List, [], ◌∷◌, ◌⊎◌, inl, inr, arith, ◌==◌, string_eq, option_eq, if◌then◌else◌, is_some, nonempty,
  is_empty, Option-cases, if_pos, if_neg,
}
use minilake.Prelude.Dict.{
  Dict, get, has, put, remove, update, get-put_cases, get-put_text, get-remove_text,
}
use minilake.Compute.State.{State, Stored, text_at, holds}
use minilake.Compute.Policies.{users_of}

-- A reference, unless it is absent or empty, names an entry of the table.
abbrev pub IsKnown : Dict String Stored → Option String → Type 0
IsKnown table none = Unit
IsKnown table (some ref) = nonempty ref ≡ true → has table ref ≡ true

-- What every cluster names under `field` is in the table.
pub record Refers (field : String) (table clusters : Dict String Stored) : Type 0 where
  pub known :
      (id : String) (cluster : Stored)
      → get clusters id ≡ some cluster
      → IsKnown table (text_at cluster field)

module _ (field : String) (table clusters : Dict String Stored)
    (h : Refers field table clusters) where
  pub Refers-put :
      (id : String) (new : Stored)
      → IsKnown table (text_at new field)
      → Refers field table (put clusters id new)
  Refers-put id new k = record {
    known = λ j cluster found. elim (get-put_cases clusters id new j found) [
      | inl (_, f) ↦ subst (λ c. IsKnown table (text_at c field)) f k
      | inr (_, f) ↦ h.known j cluster f
    ];
  }

  pub Refers-remove : (id : String) → Refers field table (remove clusters id)
  Refers-remove id = record {
    known = λ j cluster found. h.known j cluster (after j (rw get-remove_text at found));
  }
    where
      after :
          (j : String) {cluster : Stored}
          → (if j == id then none else get clusters j) ≡ some cluster
          → get clusters j ≡ some cluster
      after j found = ground arith

  -- A new entry, or a changed one.
  pub Refers-grow : (k : String) (v : Stored) → Refers field (put table k v) clusters
  Refers-grow k v = record {
    known = λ id cluster found. still (text_at cluster field) (h.known id cluster found);
  }
    where
      still : (ref : Option String) → IsKnown table ref → IsKnown (put table k v) ref
      still none r = tt
      still (some ref) r = λ full. ground (arith, r full, get-put_text table k v ref)

-- `users_of` lists every cluster that names the id.
users_of_complete :
    (field k id : String) (clusters : Dict String Stored) (cluster : Stored)
    → get clusters id ≡ some cluster
    → text_at cluster field ≡ some k
    → is_empty (users_of field k clusters) ≡ false
unfolding users_of get
users_of_complete field k id [] cluster found names = cc
users_of_complete field k id ((j, c) ∷ rest) cluster found names =
    ground (arith, users_of_complete field k id rest cluster)

-- An entry that no cluster uses may go.
pub Refers-drop :
    (field : String) (table clusters : Dict String Stored) (k : String)
    → Refers field table clusters
    → is_empty (users_of field k clusters) ≡ true
    → Refers field (remove table k) clusters
Refers-drop field table clusters k h unused = record {
  known = λ id cluster found.
      still id cluster found (text_at cluster field) refl (h.known id cluster found);
}
  where
    still :
        (id : String) (cluster : Stored)
        → get clusters id ≡ some cluster
        → (ref : Option String) → text_at cluster field ≡ ref
        → IsKnown table ref
        → IsKnown (remove table k) ref
    still id cluster found none names r = tt
    still id cluster found (some ref) names r = λ full. elim (string_eq.dec ref k) [
      | yes e ↦ cc (users_of_complete field k id clusters cluster found (names ∙ ap some e))
      | no n ↦ rw (get-remove_text, if_neg _ n) (r full)
    ]
