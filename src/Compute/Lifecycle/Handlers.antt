-- ===== src/Compute/Lifecycle/Handlers.antt =====
-- The handlers of the compute plane, one by one, on driven states.
use minilake.Prelude.{
  ℕ, String, ◌≡◌, refl, false, Option, none, some, List, ◌⊎◌, inl, inr, arith, ◌==◌, string_eq,
  text_ne, contains, Option-cases, Bool-cases, is_empty, is_empty-eq_nil, if_neg, ◌≢◌,
  if◌then◌else◌,
}
use minilake.Prelude.Int.{ℤ}
use minilake.Prelude.Dict.{get, put, remove, update, get-remove_text}
use minilake.Json.{Value, str}
use minilake.Text.{split}
use minilake.Compute.State.{State, Stored}
use minilake.Compute.Clusters.{
  Spec, spec_fields, new_cluster, create_cluster, edit_cluster, update_cluster, apply_mask,
  mask_fields, mask_updates, unknown_fields, start_cluster, terminate_cluster, restart_cluster,
  starting, terminating, restarting, resizing, resize_cluster, pin_cluster, unpin_cluster,
  permanent_delete_cluster, change_owner, reset_clusters,
}
use minilake.Compute.Lifecycle.{IsDriven, store-IsDriven, schedule-IsDriven}
use minilake.Compute.Lifecycle.Writes.{
  goal_of-put_ne, goal_of-remove_ne, goal_of-update, spec_fields_state, goal_of-new_cluster,
  goal_of-starting, goal_of-terminating, goal_of-restarting, goal_of-resizing, mask_updates_state,
}

-- `create`: the new cluster waits for RUNNING, and so does its transition.
pub create-IsDriven :
    (id token : String) (now : ℕ) (req : Spec) (s : State)
    → IsDriven s
    → IsDriven (create_cluster id token now req s).1
unfolding create_cluster
create-IsDriven id token now req s h = ground (
  arith,
  h,
  schedule-IsDriven s h id (new_cluster id now req) token "RUNNING" (goal_of-new_cluster id now req)
      (inl refl),
)

module _ {Info : Type 0} (cluster_info : Stored → Option Info) where
  pub restart-IsDriven :
      (token : String) (now : ℕ) (id : String) (s : State)
      → IsDriven s
      → IsDriven (restart_cluster cluster_info token now id s).1
  unfolding restart_cluster
  restart-IsDriven token now id s h = elim (Option-cases (get s.clusters id)) [
    | inl e ↦ ground (arith, h)
    | inr (c, e) ↦ ground (
      arith,
      schedule-IsDriven s h id (restarting now c) token "RUNNING" (goal_of-restarting c now)
          (inl refl),
    )
  ]

  pub resize-IsDriven :
      (token id : String) (n : Option ℤ) (a : Option Value) (s : State)
      → IsDriven s
      → IsDriven (resize_cluster cluster_info token id n a s).1
  unfolding resize_cluster
  resize-IsDriven token id n a s h = elim (Option-cases (get s.clusters id)) [
    | inl e ↦ ground (arith, h)
    | inr (c, e) ↦ ground (
      arith,
      schedule-IsDriven s h id (resizing n a c) token "RUNNING" (goal_of-resizing c n a) (inl refl),
    )
  ]

  pub start-IsDriven :
      (token id : String) (s : State)
      → IsDriven s
      → IsDriven (start_cluster cluster_info token id s).1
  unfolding start_cluster
  start-IsDriven token id s h = elim (Option-cases (get s.clusters id)) [
    | inl e ↦ ground (arith, h)
    | inr (c, e) ↦ ground (
      arith,
      h,
      schedule-IsDriven s h id (starting c) token "RUNNING" (goal_of-starting c) (inl refl),
    )
  ]

  pub terminate-IsDriven :
      (token id : String) (s : State)
      → IsDriven s
      → IsDriven (terminate_cluster cluster_info token id s).1
  unfolding terminate_cluster
  terminate-IsDriven token id s h = elim (Option-cases (get s.clusters id)) [
    | inl e ↦ ground (arith, h)
    | inr (c, e) ↦ ground (
      arith,
      h,
      schedule-IsDriven s h id (terminating c) token "TERMINATED" (goal_of-terminating c)
          (inr refl),
    )
  ]

  pub edit-IsDriven :
      (id : String) (req : Spec) (s : State)
      → IsDriven s
      → IsDriven (edit_cluster cluster_info id req s).1
  unfolding edit_cluster
  edit-IsDriven id req s h = elim (Option-cases (get s.clusters id)) [
    | inl e ↦ ground (arith, h)
    | inr (c, e) ↦ ground (
      arith,
      h,
      store-IsDriven s h id c (update c (spec_fields req)) e
          (goal_of-update c (spec_fields req) (spec_fields_state req)),
    )
  ]

  apply_mask-IsDriven :
      (id : String) (c : Stored) (fields : List String) (payload : Stored) (s : State)
      → IsDriven s
      → get s.clusters id ≡ some c
      → (contains fields "*" ≡ false) ⊎ (get payload "state" ≡ none)
      → IsDriven (apply_mask cluster_info id c fields payload s).1
  unfolding apply_mask
  apply_mask-IsDriven id c fields payload s h e guarded =
      elim (Bool-cases (is_empty (unknown_fields fields))) [
        | inl known ↦
            rw (known, apply_mask)
              (store-IsDriven s h id c (update c (mask_updates fields payload)) e (
                goal_of-update c (mask_updates fields payload)
                  (mask_updates_state fields payload (is_empty-eq_nil _ known) guarded)))
        | inr unknown ↦ rw (unknown, apply_mask) h
      ]

  -- `update` with a mask that is not "*", or whose payload does not name the state.
  pub update-IsDriven :
      (id : String) (mask : Option String) (payload : Stored) (s : State)
      → IsDriven s
      → ((text : String)
          → mask ≡ some text
          → (contains (mask_fields (split b',' text)) "*" ≡ false) ⊎ (get payload "state" ≡ none))
      → IsDriven (update_cluster cluster_info id mask payload s).1
  unfolding update_cluster
  update-IsDriven id none payload s h guarded = elim (Option-cases (get s.clusters id)) [
    | inl e ↦ ground (arith, h)
    | inr (c, e) ↦ ground (arith, h)
  ]
  update-IsDriven id (some text) payload s h guarded = elim (Option-cases (get s.clusters id)) [
    | inl e ↦ ground (arith, h)
    | inr (c, e) ↦ ground (
      arith,
      h,
      apply_mask-IsDriven id c (mask_fields (split b',' text)) payload s h e (guarded text refl),
    )
  ]

module _ (s : State) (h : IsDriven s) (id : String) where
  pub pin-IsDriven : IsDriven (pin_cluster id s).1
  unfolding pin_cluster
  pin-IsDriven = elim (Option-cases (get s.clusters id)) [
    | inl e ↦ ground (arith, h)
    | inr (c, e) ↦ ground (
      arith,
      store-IsDriven s h id c (put c "pinned_by_user_name" (str "minilake-user")) e
          (goal_of-put_ne c _ _ (text_ne _ _ refl)),
    )
  ]

  pub unpin-IsDriven : IsDriven (unpin_cluster id s).1
  unfolding unpin_cluster
  unpin-IsDriven = elim (Option-cases (get s.clusters id)) [
    | inl e ↦ ground (arith, h)
    | inr (c, e) ↦ ground (
      arith,
      store-IsDriven s h id c (remove c "pinned_by_user_name") e
          (goal_of-remove_ne c _ (text_ne _ _ refl)),
    )
  ]

  pub change_owner-IsDriven : (owner : String) → IsDriven (change_owner id owner s).1
  unfolding change_owner
  change_owner-IsDriven owner = elim (Option-cases (get s.clusters id)) [
    | inl e ↦ ground (arith, h)
    | inr (c, e) ↦ ground (
      arith,
      store-IsDriven s h id c (put c "creator_user_name" (str owner)) e
          (goal_of-put_ne c _ _ (text_ne _ _ refl)),
    )
  ]

  without-IsDriven : IsDriven (record s {
    clusters = remove s.clusters id;
    transition_tokens = remove s.transition_tokens id;
  })
  without-IsDriven = record {
    driven = λ j cluster target found waits.
        let (n, f) = kept j cluster (rw get-remove_text at found) in
        let (token, known, asleep) = h.driven j cluster target f waits in
        (token, rw (get-remove_text, if_neg _ n) known, asleep);
    settling = h.settling;
  }
    where
      kept :
          (j : String) (cluster : Stored)
          → (if j == id then none else get s.clusters j) ≡ some cluster
          → (j ≢ id) × (get s.clusters j ≡ some cluster)
      kept j cluster found = (ground arith, ground arith)

  pub permanent_delete-IsDriven : IsDriven (permanent_delete_cluster id s).1
  unfolding permanent_delete_cluster
  permanent_delete-IsDriven = ground (arith, h, without-IsDriven)

-- A reset leaves no cluster that could wait.
pub reset-IsDriven : (s : State) → IsDriven s → IsDriven (reset_clusters s)
unfolding reset_clusters get
reset-IsDriven s h = record { driven = λ id cluster target found waits. cc; settling = h.settling }
