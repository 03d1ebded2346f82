-- ===== src/Compute/Lifecycle/Writes.antt =====
-- The state that a cluster waits for after each of the writes that the handlers make.
use minilake.Prelude.{
  ℕ, String, ◌≡◌, ◌≢◌, refl, sym, subst, ◌∙◌, Bool, true, false, not, ◌&&◌, Option, none, some,
  List, [], ◌∷◌, ◌⊎◌, inl, inr, arith, ◌==◌, string_eq, text_ne, contains, if_pos, if_neg,
  Bool-cases, select_nil, not_contains,
}
use minilake.Prelude.Int.{ℤ}
use minilake.Prelude.Dict.{get, put, remove, update, get-put_text}
use minilake.Json.{Value, str}
use minilake.Compute.State.{Stored, text_at, text_at-put, text_at-remove, text_at-update}
use minilake.Compute.Clusters.{
  starting, terminating, restarting, resizing, Spec, spec_fields, new_cluster, updatable_fields,
  unknown_fields, picked, pick, mask_updates,
}
use minilake.Compute.Lifecycle.{goal_of, awaited}

-- A write under another key.
pub goal_of-put_ne :
    (c : Stored) (k : String) (v : Value) → "state" ≢ k → goal_of (put c k v) ≡ goal_of c
unfolding goal_of
goal_of-put_ne c k v n = rw (text_at-put, if_neg _ n)

pub goal_of-remove_ne : (c : Stored) (k : String) → "state" ≢ k → goal_of (remove c k) ≡ goal_of c
unfolding goal_of
goal_of-remove_ne c k n = rw (text_at-remove, if_neg _ n)

pub goal_of-put_state :
    (c : Stored) (s : String) → goal_of (put c "state" (str s)) ≡ awaited (some s)
unfolding goal_of
goal_of-put_state c s = rw (text_at-put, if_pos _ refl)

pub goal_of-update :
    (c changes : Stored) → get changes "state" ≡ none → goal_of (update c changes) ≡ goal_of c
unfolding goal_of
goal_of-update c changes h = rw (text_at-update c changes "state" h)

-- The fields that `edit` writes do not hold the state.
pub spec_fields_state : (req : Spec) → get (spec_fields req) "state" ≡ none
unfolding spec_fields get string_eq
spec_fields_state req = refl

pub goal_of-new_cluster :
    (id : String) (now : ℕ) (req : Spec) → goal_of (new_cluster id now req) ≡ some "RUNNING"
unfolding goal_of awaited new_cluster text_at get string_eq
goal_of-new_cluster id now req = refl

module _ (c : Stored) where
  pub goal_of-starting : goal_of (starting c) ≡ some "RUNNING"
  unfolding starting awaited string_eq
  goal_of-starting =
      goal_of-put_ne _ _ _ (text_ne _ _ refl)
      ∙ goal_of-put_ne _ _ _ (text_ne _ _ refl)
      ∙ goal_of-put_state c "PENDING"

  pub goal_of-terminating : goal_of (terminating c) ≡ some "TERMINATED"
  unfolding terminating awaited string_eq
  goal_of-terminating = goal_of-put_ne _ _ _ (text_ne _ _ refl) ∙ goal_of-put_state c "TERMINATING"

  pub goal_of-restarting : (now : ℕ) → goal_of (restarting now c) ≡ some "RUNNING"
  unfolding restarting awaited string_eq
  goal_of-restarting now =
      goal_of-put_ne _ _ _ (text_ne _ _ refl)
      ∙ goal_of-put_ne _ _ _ (text_ne _ _ refl)
      ∙ goal_of-put_state c "RESTARTING"

  pub goal_of-resizing :
      (n : Option ℤ) (a : Option Value) → goal_of (resizing n a c) ≡ some "RUNNING"
  unfolding resizing awaited string_eq
  goal_of-resizing n a = goal_of-put_ne _ _ _ (text_ne _ _ refl) ∙ goal_of-put_state _ "RESIZING"

state_not_updatable : contains updatable_fields "state" ≡ false
unfolding string_eq
state_not_updatable = refl

-- An updatable field is not the state.
updatable_ne_state : (f : String) → contains updatable_fields f ≡ true → "state" ≢ f
updatable_ne_state f known e =
    cc (subst (λ x. contains updatable_fields x ≡ true) (sym e) known, state_not_updatable)

is_known : (u star : Bool) → (not u && not star) ≡ false → star ≡ false → u ≡ true
is_known u star h k = ground arith

get-picked :
    (acc : Stored) (f : String) (o : Option Value)
    → get acc "state" ≡ none
    → "state" ≢ f
    → get (picked acc f o) "state" ≡ none
get-picked acc f none h n = h
get-picked acc f (some v) h n = rw (get-put_text, if_neg _ n) h

pick_state :
    (payload : Stored) (fs : List String) (acc : Stored)
    → unknown_fields fs ≡ []
    → contains fs "*" ≡ false
    → get acc "state" ≡ none
    → get (pick payload fs acc) "state" ≡ none
unfolding pick
pick_state payload [] acc known star h = h
pick_state payload (f ∷ fs) acc known star h =
    let (here, later) =
      select_nil (λ g. not (contains updatable_fields g) && not (g == "*")) f fs known in
    let (n, others) = not_contains f "*" fs star in
    pick_state payload fs (picked acc f (get payload f)) later others (
      get-picked acc f (get payload f) h
        (updatable_ne_state f (is_known _ _ here (if_neg _ (λ e. n (sym e)) true false))))

-- Under a mask without "*" the written fields do not hold the state; with it they are the payload.
pub mask_updates_state :
    (fields : List String) (payload : Stored)
    → unknown_fields fields ≡ []
    → (contains fields "*" ≡ false) ⊎ (get payload "state" ≡ none)
    → get (mask_updates fields payload) "state" ≡ none
unfolding mask_updates get
mask_updates_state fields payload known (inl star) =
    rw star (pick_state payload fields [] known star refl)
mask_updates_state fields payload known (inr absent) = elim (Bool-cases (contains fields "*")) [
  | inl star ↦ rw star absent
  | inr star ↦ rw star (pick_state payload fields [] known star refl)
]
