-- ===== src/Compute/References/Handlers.antt =====
-- The handlers of the compute plane, one by one, and the references of the clusters.
use minilake.Prelude.{
  ℕ, String, ◌≡◌, refl, true, Option, none, some, List, ◌⊎◌, inl, inr, arith, ◌==◌, string_eq,
  option_eq, is_empty, Option-cases, Bool-cases,
}
use minilake.Prelude.Int.{ℤ}
use minilake.Prelude.Dict.{get, put, remove, update as merge}
use minilake.Json.{Value, str}
use minilake.Text.{split}
use minilake.Errors.{ok}
use minilake.Compute.State.{State, Stored, Transition, text_at-put, text_at-remove, text_at-update}
use minilake.Compute.Clusters.{
  Spec, spec_fields, new_cluster, check_reference, create_cluster, edit_cluster, update_cluster,
  apply_mask, mask_updates, mask_fields, start_cluster, terminate_cluster, restart_cluster,
  resize_cluster, pin_cluster, unpin_cluster, permanent_delete_cluster, change_owner, resume,
  arrive, write_arrival, task_at, drop_at, transition, starting, terminating, restarting, resizing,
}
use minilake.Compute.Policies.{create_policy, new_policy, edit_policy, delete_policy, users_of}
use minilake.Compute.Pools.{
  create_instance_pool, new_pool, edit_instance_pool, delete_instance_pool,
}
use minilake.Compute.References.{Refers-remove, Refers-grow, Refers-drop}
use minilake.Compute.References.Writes.{
  Linked, IsLinked, put-Linked, store-Linked, starting_refs, terminating_refs, restarting_refs,
  resizing_refs, arrive_refs, check_IsKnown, text_of-opt_str, new_cluster_policy, new_cluster_pool,
  edited_policy, edited_pool, mask_updates_absent,
}

module _ (s : State) (h : IsLinked s) (id : String) where
  create_checked :
      (now : ℕ) (req : Spec)
      → check_reference "Cluster policy" s.policies req.policy_id ≡ ok tt
      → check_reference "Instance pool" s.pools req.instance_pool_id ≡ ok tt
      → Linked s.policies s.pools (put s.clusters id (new_cluster id now req))
  create_checked now req k l =
      put-Linked h id (new_cluster id now req)
        (rw (new_cluster_policy, text_of-opt_str) (check_IsKnown _ s.policies req.policy_id k))
        (rw (new_cluster_pool, text_of-opt_str) (check_IsKnown _ s.pools req.instance_pool_id l))

  pub create-Linked :
      (token : String) (now : ℕ) (req : Spec) → IsLinked (create_cluster id token now req s).1
  unfolding create_cluster
  create-Linked token now req = ground (arith, h, create_checked now req)

  edit_checked :
      (c : Stored) (req : Spec)
      → check_reference "Cluster policy" s.policies req.policy_id ≡ ok tt
      → check_reference "Instance pool" s.pools req.instance_pool_id ≡ ok tt
      → Linked s.policies s.pools (put s.clusters id (merge c (spec_fields req)))
  edit_checked c req k l =
      put-Linked h id (merge c (spec_fields req))
        (rw (edited_policy, text_of-opt_str) (check_IsKnown _ s.policies req.policy_id k))
        (rw (edited_pool, text_of-opt_str) (check_IsKnown _ s.pools req.instance_pool_id l))

  -- A permanent deletion, and a settled transition.
  pub remove-Linked : Linked s.policies s.pools (remove s.clusters id)
  remove-Linked = record {
    policy = Refers-remove _ _ _ h.policy id;
    pool = Refers-remove _ _ _ h.pool id;
  }

  pub permanent_delete-Linked : IsLinked (permanent_delete_cluster id s).1
  unfolding permanent_delete_cluster
  permanent_delete-Linked = ground (arith, h, remove-Linked)

  pub pin-Linked : IsLinked (pin_cluster id s).1
  unfolding pin_cluster
  pin-Linked = elim (Option-cases (get s.clusters id)) [
    | inl e ↦ ground (arith, h)
    | inr (c, e) ↦ ground (
      arith,
      store-Linked h id c (put c "pinned_by_user_name" (str "minilake-user")) e
          (unfold string_eq in (simp text_at-put, simp text_at-put)),
    )
  ]

  pub unpin-Linked : IsLinked (unpin_cluster id s).1
  unfolding unpin_cluster
  unpin-Linked = elim (Option-cases (get s.clusters id)) [
    | inl e ↦ ground (arith, h)
    | inr (c, e) ↦ ground (
      arith,
      store-Linked h id c (remove c "pinned_by_user_name") e
          (unfold string_eq in (simp text_at-remove, simp text_at-remove)),
    )
  ]

  pub change_owner-Linked : (owner : String) → IsLinked (change_owner id owner s).1
  unfolding change_owner
  change_owner-Linked owner = elim (Option-cases (get s.clusters id)) [
    | inl e ↦ ground (arith, h)
    | inr (c, e) ↦ ground (
      arith,
      store-Linked h id c (put c "creator_user_name" (str owner)) e
          (unfold string_eq in (simp text_at-put, simp text_at-put)),
    )
  ]

  module _ {Info : Type 0} (cluster_info : Stored → Option Info) where
    pub start-Linked : (token : String) → IsLinked (start_cluster cluster_info token id s).1
    unfolding start_cluster
    start-Linked token = elim (Option-cases (get s.clusters id)) [
      | inl e ↦ ground (arith, h)
      | inr (c, e) ↦ ground (arith, h, store-Linked h id c (starting c) e (starting_refs c))
    ]

    pub terminate-Linked : (token : String) → IsLinked (terminate_cluster cluster_info token id s).1
    unfolding terminate_cluster
    terminate-Linked token = elim (Option-cases (get s.clusters id)) [
      | inl e ↦ ground (arith, h)
      | inr (c, e) ↦ ground (arith, h, store-Linked h id c (terminating c) e (terminating_refs c))
    ]

    pub restart-Linked :
        (token : String) (now : ℕ) → IsLinked (restart_cluster cluster_info token now id s).1
    unfolding restart_cluster
    restart-Linked token now = elim (Option-cases (get s.clusters id)) [
      | inl e ↦ ground (arith, h)
      | inr (c, e) ↦
          ground (arith, store-Linked h id c (restarting now c) e (restarting_refs c now))
    ]

    pub resize-Linked :
        (token : String) (n : Option ℤ) (a : Option Value)
        → IsLinked (resize_cluster cluster_info token id n a s).1
    unfolding resize_cluster
    resize-Linked token n a = elim (Option-cases (get s.clusters id)) [
      | inl e ↦ ground (arith, h)
      | inr (c, e) ↦ ground (arith, store-Linked h id c (resizing n a c) e (resizing_refs c n a))
    ]

    pub edit-Linked : (req : Spec) → IsLinked (edit_cluster cluster_info id req s).1
    unfolding edit_cluster
    edit-Linked req = elim (Option-cases (get s.clusters id)) [
      | inl e ↦ ground (arith, h)
      | inr (c, e) ↦ ground (arith, h, edit_checked c req)
    ]

    pub apply_mask-Linked :
        (c : Stored) (fields : List String) (payload : Stored)
        → get s.clusters id ≡ some c
        → get payload "policy_id" ≡ none
        → get payload "instance_pool_id" ≡ none
        → IsLinked (apply_mask cluster_info id c fields payload s).1
    unfolding apply_mask
    apply_mask-Linked c fields payload e k l = ground (
      arith,
      h,
      store-Linked h id c (merge c (mask_updates fields payload)) e (
        text_at-update c (mask_updates fields payload) "policy_id"
            (mask_updates_absent fields payload "policy_id" k),
        text_at-update c (mask_updates fields payload) "instance_pool_id"
            (mask_updates_absent fields payload "instance_pool_id" l),
      ),
    )

    pub update-Linked :
        (mask : Option String) (payload : Stored)
        → get payload "policy_id" ≡ none
        → get payload "instance_pool_id" ≡ none
        → IsLinked (update_cluster cluster_info id mask payload s).1
    unfolding update_cluster
    update-Linked none payload k l = elim (Option-cases (get s.clusters id)) [
      | inl e ↦ ground (arith, h)
      | inr (c, e) ↦ ground (arith, h)
    ]
    update-Linked (some text) payload k l = elim (Option-cases (get s.clusters id)) [
      | inl e ↦ ground (arith, h)
      | inr (c, e) ↦
          ground (arith, h, apply_mask-Linked c (mask_fields (split b',' text)) payload e k l)
    ]

  pub drop_policy-Linked : IsLinked (delete_policy id s).1
  unfolding delete_policy
  drop_policy-Linked = ground (arith, h, dropped)
    where
      dropped :
          is_empty (users_of "policy_id" id s.clusters) ≡ true
          → Linked (remove s.policies id) s.pools s.clusters
      dropped unused = record { policy = Refers-drop _ _ _ id h.policy unused; pool = h.pool }

  pub drop_pool-Linked : IsLinked (delete_instance_pool id s).1
  unfolding delete_instance_pool
  drop_pool-Linked = ground (arith, h, dropped)
    where
      dropped :
          is_empty (users_of "instance_pool_id" id s.clusters) ≡ true
          → Linked s.policies (remove s.pools id) s.clusters
      dropped unused = record { policy = h.policy; pool = Refers-drop _ _ _ id h.pool unused }

  grow_policies : (v : Stored) → Linked (put s.policies id v) s.pools s.clusters
  grow_policies v = record { policy = Refers-grow _ _ _ h.policy id v; pool = h.pool }

  grow_pools : (v : Stored) → Linked s.policies (put s.pools id v) s.clusters
  grow_pools v = record { policy = h.policy; pool = Refers-grow _ _ _ h.pool id v }

  module _ (loads : String → String ⊎ Value) where
    pub create_policy-Linked :
        (now : ℕ) (req : Stored) → IsLinked (create_policy loads id now req s).1
    unfolding create_policy
    create_policy-Linked now req = ground (arith, h, grow_policies (new_policy id now req))

    pub edit_policy-Linked : (req : Stored) → IsLinked (edit_policy loads id req s).1
    unfolding edit_policy
    edit_policy-Linked req = elim (Option-cases (get s.policies id)) [
      | inl e ↦ ground (arith, h)
      | inr (p, e) ↦ ground (arith, h, grow_policies (merge p (put req "policy_id" (str id))))
    ]

  pub create_pool-Linked : (req : Stored) → IsLinked (create_instance_pool id req s).1
  unfolding create_instance_pool
  create_pool-Linked req = ground (arith, h, grow_pools (new_pool id req))

  pub edit_pool-Linked : (req : Stored) → IsLinked (edit_instance_pool id req s).1
  unfolding edit_instance_pool
  edit_pool-Linked req = elim (Option-cases (get s.pools id)) [
    | inl e ↦ ground (arith, h)
    | inr (p, e) ↦ ground (arith, h, grow_pools (merge p (put req "instance_pool_id" (str id))))
  ]

pub arrived-Linked :
    (now : ℕ) (t : Transition) (s : State) (o : Option Stored)
    → IsLinked s
    → get s.clusters t.cluster_id ≡ o
    → Linked s.policies s.pools (write_arrival now t s.clusters o)
unfolding write_arrival
arrived-Linked now t s none h found = h
arrived-Linked now t s (some c) h found =
    store-Linked h t.cluster_id c (arrive now t.target_state c) found
      (arrive_refs c now t.target_state)

pub transition-Linked :
    (now : ℕ) (t : Transition) (s : State) → IsLinked s → IsLinked (transition now t s)
unfolding transition
transition-Linked now t s h =
    elim (Bool-cases (get s.transition_tokens t.cluster_id == some t.token)) [
      | inl current ↦
          rw (current, transition) (arrived-Linked now t s (get s.clusters t.cluster_id) h refl)
      | inr stale ↦ rw (stale, transition) h
    ]

pub resume-Linked : (now i : ℕ) (s : State) → IsLinked s → IsLinked (resume now i s)
unfolding resume
resume-Linked now i s h = elim (Option-cases (task_at i s.tasks)) [
  | inl e ↦ rw (e, resume) h
  | inr (t, e) ↦ rw (e, resume) (transition-Linked now t (record s { tasks = drop_at i s.tasks }) h)
]
