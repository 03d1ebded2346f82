-- ===== src/Compute/Failures.antt =====
-- What a request that is refused leaves behind.
use minilake.Prelude.{
  ℕ, String, ◌≡◌, refl, Bool, true, false, Option, some, [], ◌∷◌, ◌⊎◌, arith, string_eq, nonempty,
}
use minilake.Prelude.Dict.{get, put, update as merge}
use minilake.Json.{Value}
use minilake.Text.{split, strip}
use minilake.Errors.{Result, ok, raised}
use minilake.Compute.State.{State, Stored}
use minilake.Compute.Clusters.{
  mask_fields, mask_updates, pick, unknown_fields, apply_mask, Spec, create_cluster, edit_cluster,
  update_cluster, start_cluster, terminate_cluster, restart_cluster, resize_cluster,
  permanent_delete_cluster, pin_cluster, unpin_cluster, change_owner,
}
use minilake.Compute.Policies.{create_policy, edit_policy, delete_policy}
use minilake.Compute.Pools.{create_instance_pool, edit_instance_pool, delete_instance_pool}
use minilake.Compute.Events.{
  Event, create, edit, update, start, terminate, restart, resize, permanent_delete, pin, unpin,
  set_owner, wake, reset_all_clusters, add_policy, change_policy, drop_policy, add_pool,
  change_pool, drop_pool, step,
}

abbrev pub is_raised {ℓ} : {A : Type ℓ} → Result A → Bool
is_raised (ok _) = false
is_raised (raised _) = true

module _ {Info : Type 0} (cluster_info : Stored → Option Info)
    (loads : String → String ⊎ Value) where
  create_fails :
      (id : String) (token : String) (now : ℕ) (req : Spec) (s : State)
      → is_raised (create_cluster id token now req s).0 ≡ true
      → (create_cluster id token now req s).1 ≡ s
  unfolding create_cluster
  create_fails id token now req s h = ground arith

  edit_fails :
      (id : String) (req : Spec) (s : State)
      → is_raised (edit_cluster cluster_info id req s).0 ≡ true
      → (edit_cluster cluster_info id req s).1 ≡ s
  unfolding edit_cluster
  edit_fails id req s h = ground arith

  permanent_delete_fails :
      (id : String) (s : State)
      → is_raised (permanent_delete_cluster id s).0 ≡ true
      → (permanent_delete_cluster id s).1 ≡ s
  unfolding permanent_delete_cluster
  permanent_delete_fails id s h = ground arith

  pin_fails :
      (id : String) (s : State) → is_raised (pin_cluster id s).0 ≡ true → (pin_cluster id s).1 ≡ s
  unfolding pin_cluster
  pin_fails id s h = ground arith

  unpin_fails :
      (id : String) (s : State)
      → is_raised (unpin_cluster id s).0 ≡ true
      → (unpin_cluster id s).1 ≡ s
  unfolding unpin_cluster
  unpin_fails id s h = ground arith

  set_owner_fails :
      (id : String) (owner : String) (s : State)
      → is_raised (change_owner id owner s).0 ≡ true
      → (change_owner id owner s).1 ≡ s
  unfolding change_owner
  set_owner_fails id owner s h = ground arith

  add_policy_fails :
      (id : String) (now : ℕ) (req : Stored) (s : State)
      → is_raised (create_policy loads id now req s).0 ≡ true
      → (create_policy loads id now req s).1 ≡ s
  unfolding create_policy
  add_policy_fails id now req s h = ground arith

  change_policy_fails :
      (id : String) (req : Stored) (s : State)
      → is_raised (edit_policy loads id req s).0 ≡ true
      → (edit_policy loads id req s).1 ≡ s
  unfolding edit_policy
  change_policy_fails id req s h = ground arith

  drop_policy_fails :
      (id : String) (s : State)
      → is_raised (delete_policy id s).0 ≡ true
      → (delete_policy id s).1 ≡ s
  unfolding delete_policy
  drop_policy_fails id s h = ground arith

  add_pool_fails :
      (id : String) (req : Stored) (s : State)
      → is_raised (create_instance_pool id req s).0 ≡ true
      → (create_instance_pool id req s).1 ≡ s
  unfolding create_instance_pool
  add_pool_fails id req s h = ground arith

  change_pool_fails :
      (id : String) (req : Stored) (s : State)
      → is_raised (edit_instance_pool id req s).0 ≡ true
      → (edit_instance_pool id req s).1 ≡ s
  unfolding edit_instance_pool
  change_pool_fails id req s h = ground arith

  drop_pool_fails :
      (id : String) (s : State)
      → is_raised (delete_instance_pool id s).0 ≡ true
      → (delete_instance_pool id s).1 ≡ s
  unfolding delete_instance_pool
  drop_pool_fails id s h = ground arith

  -- Whether the event is a request that is answered by an error.
  unfoldable pub fails : Event → State → Bool
  fails (create id token now req) s = is_raised (create_cluster id token now req s).0
  fails (edit id req) s = is_raised (edit_cluster cluster_info id req s).0
  fails (update id mask payload) s = is_raised (update_cluster cluster_info id mask payload s).0
  fails (start token id) s = is_raised (start_cluster cluster_info token id s).0
  fails (terminate token id) s = is_raised (terminate_cluster cluster_info token id s).0
  fails (restart token now id) s = is_raised (restart_cluster cluster_info token now id s).0
  fails (resize token id n a) s = is_raised (resize_cluster cluster_info token id n a s).0
  fails (permanent_delete id) s = is_raised (permanent_delete_cluster id s).0
  fails (pin id) s = is_raised (pin_cluster id s).0
  fails (unpin id) s = is_raised (unpin_cluster id s).0
  fails (set_owner id owner) s = is_raised (change_owner id owner s).0
  fails (wake now i) s = false
  fails reset_all_clusters s = false
  fails (add_policy id now req) s = is_raised (create_policy loads id now req s).0
  fails (change_policy id req) s = is_raised (edit_policy loads id req s).0
  fails (drop_policy id) s = is_raised (delete_policy id s).0
  fails (add_pool id req) s = is_raised (create_instance_pool id req s).0
  fails (change_pool id req) s = is_raised (edit_instance_pool id req s).0
  fails (drop_pool id) s = is_raised (delete_instance_pool id s).0

  -- The handlers that build their answer before they write, or from nothing that they wrote.
  abbrev pub AnswersFirst : Event → Type 0
  AnswersFirst (update _ _ _) = ⊥
  AnswersFirst (start _ _) = ⊥
  AnswersFirst (terminate _ _) = ⊥
  AnswersFirst (restart _ _ _) = ⊥
  AnswersFirst (resize _ _ _ _) = ⊥
  AnswersFirst _ = Unit

  -- A request that is answered by an error leaves the whole compute plane as it was, unless it is
  -- one of `update`, `start`, `delete`, `restart` and `resize`, which write before the response model
  -- has accepted the cluster.
  pub fails_unchanged :
      (e : Event) (s : State) → AnswersFirst e → fails e s ≡ true → step cluster_info loads e s ≡ s
  unfolding fails step
  fails_unchanged (create id token now req) s _ h = create_fails id token now req s h
  fails_unchanged (edit id req) s _ h = edit_fails id req s h
  fails_unchanged (permanent_delete id) s _ h = permanent_delete_fails id s h
  fails_unchanged (pin id) s _ h = pin_fails id s h
  fails_unchanged (unpin id) s _ h = unpin_fails id s h
  fails_unchanged (set_owner id owner) s _ h = set_owner_fails id owner s h
  fails_unchanged (wake now i) s _ h = cc
  fails_unchanged reset_all_clusters s _ h = cc
  fails_unchanged (add_policy id now req) s _ h = add_policy_fails id now req s h
  fails_unchanged (change_policy id req) s _ h = change_policy_fails id req s h
  fails_unchanged (drop_policy id) s _ h = drop_policy_fails id s h
  fails_unchanged (add_pool id req) s _ h = add_pool_fails id req s h
  fails_unchanged (change_pool id req) s _ h = change_pool_fails id req s h
  fails_unchanged (drop_pool id) s _ h = drop_pool_fails id s h
  fails_unchanged _ s h _ = elim h [ ]

-- The fields of this mask.
policy_mask : mask_fields (split b',' "policy_id") ≡ "policy_id" ∷ []
unfolding mask_fields split strip string_eq nonempty
policy_mask = refl

-- What an `update` with this mask takes out of its payload.
policy_update :
    (payload : Stored) (ref : Value)
    → get payload "policy_id" ≡ some ref
    → mask_updates ("policy_id" ∷ []) payload ≡ ("policy_id", ref) ∷ []
unfolding mask_updates pick put string_eq
policy_update payload ref given = rw given refl

policy_known : unknown_fields ("policy_id" ∷ []) ≡ []
unfolding string_eq
policy_known = refl

policy_applied :
    {Info : Type 0} (cluster_info : Stored → Option Info) (s : State) (id : String)
    (payload : Stored) (ref : Value) (c : Stored)
    → get payload "policy_id" ≡ some ref
    → (apply_mask cluster_info id c ("policy_id" ∷ []) payload s).1.clusters
      ≡ put s.clusters id (put c "policy_id" ref)
unfolding apply_mask merge
policy_applied cluster_info s id payload ref c given =
    rw (policy_known, apply_mask) (rw (policy_update payload ref given, merge))

update_known :
    {Info : Type 0} (cluster_info : Stored → Option Info) (s : State) (id text : String)
    (payload c : Stored)
    → get s.clusters id ≡ some c
    → nonempty text ≡ true
    → update_cluster cluster_info id (some text) payload s
      ≡ apply_mask cluster_info id c (mask_fields (split b',' text)) payload s
unfolding update_cluster
update_known cluster_info s id text payload c known full = ground arith

policy_mask_full : nonempty "policy_id" ≡ true
unfolding nonempty string_eq
policy_mask_full = refl

-- An `update` of a known cluster with the mask "policy_id" stores the policy id of its payload, for
-- every payload that has one, every value of it and every table of policies, whether or not the
-- response model accepts the cluster, and stores no other change of a cluster.
pub update_unchecked :
    {Info : Type 0} (cluster_info : Stored → Option Info) (s : State) (id : String)
    (payload : Stored) (ref : Value) (c : Stored)
    → get s.clusters id ≡ some c
    → get payload "policy_id" ≡ some ref
    → (update_cluster cluster_info id (some "policy_id") payload s).1.clusters
      ≡ put s.clusters id (put c "policy_id" ref)
update_unchecked cluster_info s id payload ref c known given =
    rw (update_known cluster_info s id "policy_id" _ c known policy_mask_full)
      (rw policy_mask (policy_applied cluster_info s id payload ref c given))
