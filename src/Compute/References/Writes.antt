-- ===== src/Compute/References/Writes.antt =====
-- The references after each of the writes that the handlers make.
use minilake.Prelude.{
  ℕ, String, ◌≡◌, ◌≢◌, refl, subst, Option, none, some, List, [], ◌∷◌, inl, inr, arith, string_eq,
  option_eq, text_ne, contains, Bool-cases, if_neg,
}
use minilake.Prelude.Int.{ℤ, pos}
use minilake.Prelude.Dict.{Dict, get, put, update as merge, get-put_text}
use minilake.Json.{Value, str, int, opt_str}
use minilake.Errors.{ok}
use minilake.Compute.State.{State, Stored, text_of, text_at, text_at-put}
use minilake.Compute.Clusters.{
  Spec, spec_fields, new_cluster, check_reference, arrive, starting, terminating, restarting,
  resizing, pick, picked, mask_updates,
}
use minilake.Compute.References.{IsKnown, Refers, Refers-put}

-- Every policy and every instance pool that a cluster names is there.
pub record Linked (policies pools clusters : Dict String Stored) : Type 0 where
  pub policy : Refers "policy_id" policies clusters
  pub pool : Refers "instance_pool_id" pools clusters

abbrev pub IsLinked : State → Type 0
IsLinked s = Linked s.policies s.pools s.clusters

-- The write leaves both references alone.
abbrev pub SameRefs : Stored → Stored → Type 0
SameRefs c d =
    (text_at d "policy_id" ≡ text_at c "policy_id")
    × (text_at d "instance_pool_id" ≡ text_at c "instance_pool_id")

module _ {policies pools clusters : Dict String Stored} (h : Linked policies pools clusters) where
  pub put-Linked :
      (id : String) (new : Stored)
      → IsKnown policies (text_at new "policy_id")
      → IsKnown pools (text_at new "instance_pool_id")
      → Linked policies pools (put clusters id new)
  put-Linked id new k l = record {
    policy = Refers-put _ _ _ h.policy id new k;
    pool = Refers-put _ _ _ h.pool id new l;
  }

  pub store-Linked :
      (id : String) (c d : Stored)
      → get clusters id ≡ some c
      → SameRefs c d
      → Linked policies pools (put clusters id d)
  store-Linked id c d found (same_policy, same_pool) =
      put-Linked id d (rw same_policy (h.policy.known id c found))
        (rw same_pool (h.pool.known id c found))

module _ (c : Stored) where
  pub starting_refs : SameRefs c (starting c)
  unfolding starting string_eq
  starting_refs = (simp text_at-put, simp text_at-put)

  pub terminating_refs : SameRefs c (terminating c)
  unfolding terminating string_eq
  terminating_refs = (simp text_at-put, simp text_at-put)

  pub restarting_refs : (now : ℕ) → SameRefs c (restarting now c)
  unfolding restarting string_eq
  restarting_refs now = (simp text_at-put, simp text_at-put)

  pub resizing_refs : (n : Option ℤ) (a : Option Value) → SameRefs c (resizing n a c)
  unfolding resizing string_eq
  resizing_refs none none = (simp text_at-put, simp text_at-put)
  resizing_refs none (some a) = (simp text_at-put, simp text_at-put)
  resizing_refs (some n) none = (simp text_at-put, simp text_at-put)
  resizing_refs (some n) (some a) = (simp text_at-put, simp text_at-put)

  text_at-arrive :
      (now : ℕ) (target f : String)
      → f ≢ "state"
      → f ≢ "state_message"
      → f ≢ "start_time"
      → f ≢ "terminated_time"
      → text_at (arrive now target c) f ≡ text_at c f
  unfolding arrive
  text_at-arrive now target f n₁ n₂ n₃ n₄ =
      let settled = put (put c "state" (str target)) "state_message" (str "") in
      ground (
        arith,
        text_at-put c "state" (str target) f,
        text_at-put (put c "state" (str target)) "state_message" (str "") f,
        text_at-put settled "start_time" (int (pos now)) f,
        text_at-put settled "terminated_time" (int (pos now)) f,
      )

  pub arrive_refs : (now : ℕ) (target : String) → SameRefs c (arrive now target c)
  arrive_refs now target = (
    text_at-arrive now target _ (text_ne _ _ refl) (text_ne _ _ refl) (text_ne _ _ refl)
        (text_ne _ _ refl),
    text_at-arrive now target _ (text_ne _ _ refl) (text_ne _ _ refl) (text_ne _ _ refl)
        (text_ne _ _ refl),
  )

-- What `create` and `edit` check is what they write.
pub check_IsKnown :
    (kind : String) (table : Dict String Stored) (ref : Option String)
    → check_reference kind table ref ≡ ok tt
    → IsKnown table ref
unfolding check_reference
check_IsKnown kind table none h = tt
check_IsKnown kind table (some ref) h = λ full. ground arith

pub text_of-opt_str : (o : Option String) → text_of (opt_str o) ≡ o
text_of-opt_str none = refl
text_of-opt_str (some s) = refl

pub new_cluster_policy :
    (id : String) (now : ℕ) (req : Spec)
    → text_at (new_cluster id now req) "policy_id" ≡ text_of (opt_str req.policy_id)
unfolding new_cluster text_at get string_eq
new_cluster_policy id now req = refl

pub new_cluster_pool :
    (id : String) (now : ℕ) (req : Spec)
    → text_at (new_cluster id now req) "instance_pool_id" ≡ text_of (opt_str req.instance_pool_id)
unfolding new_cluster text_at get string_eq
new_cluster_pool id now req = refl

pub edited_policy :
    (c : Stored) (req : Spec)
    → text_at (merge c (spec_fields req)) "policy_id" ≡ text_of (opt_str req.policy_id)
unfolding spec_fields merge string_eq
edited_policy c req = simp text_at-put

pub edited_pool :
    (c : Stored) (req : Spec)
    → text_at (merge c (spec_fields req)) "instance_pool_id"
      ≡ text_of (opt_str req.instance_pool_id)
unfolding spec_fields merge string_eq
edited_pool c req = simp text_at-put

pick_absent :
    (payload : Stored) (fs : List String) (acc : Stored) (k : String)
    → get payload k ≡ none
    → get acc k ≡ none
    → get (pick payload fs acc) k ≡ none
unfolding pick
pick_absent payload [] acc k h a = a
pick_absent payload (f ∷ fs) acc k h a =
    pick_absent payload fs (picked acc f (get payload f)) k h (step (get payload f) refl)
  where
    step : (o : Option Value) → get payload f ≡ o → get (picked acc f o) k ≡ none
    step none e = a
    step (some v) e = elim (string_eq.dec k f) [
      | yes same ↦ cc (subst (λ x. get payload x ≡ none) same h)
      | no n ↦ rw (get-put_text, if_neg _ n) a
    ]

-- A mask writes no key that the payload lacks.
pub mask_updates_absent :
    (fields : List String) (payload : Stored) (k : String)
    → get payload k ≡ none
    → get (mask_updates fields payload) k ≡ none
unfolding mask_updates get
mask_updates_absent fields payload k h = elim (Bool-cases (contains fields "*")) [
  | inl star ↦ rw star h
  | inr star ↦ rw star (pick_absent payload fields [] k h refl)
]
