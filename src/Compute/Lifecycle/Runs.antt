-- ===== src/Compute/Lifecycle/Runs.antt =====
-- The lifecycle over every sequence of events.
use mathlib.Core.Option.{some-injective}
use minilake.Prelude.{
  ℕ, suc, String, ap, ◌++◌, ◌≡◌, ◌≢◌, refl, sym, Bool, true, false, ◌==◌, if◌then◌else◌, Option,
  none, some, List, [], ◌∷◌, ◌⊎◌, inl, inr, arith, string_eq, contains, if_pos, All,
}
use minilake.Prelude.Dict.{get, put, get-put_text}
use minilake.Prelude.Int.{pos}
use minilake.Json.{Value, int, str}
use minilake.Text.{split}
use minilake.Compute.State.{State, Stored, Transition, empty, text_at, text_at-put}
use minilake.Compute.Clusters.{
  mask_fields, resume, transition, arrive, write_arrival, drop_at, task_at, schedule_transition,
}
use minilake.Compute.Policies.{create_policy, edit_policy, delete_policy}
use minilake.Compute.Pools.{create_instance_pool, edit_instance_pool, delete_instance_pool}
use minilake.Compute.Events.{
  Event, create, edit, update, start, terminate, restart, resize, permanent_delete, pin, unpin,
  set_owner, wake, reset_all_clusters, add_policy, change_policy, drop_policy, add_pool,
  change_pool, drop_pool, step, run,
}
use minilake.Compute.Lifecycle.{IsDriven, goal_of, Sleeps, the_transition}
use minilake.Compute.Lifecycle.Resumption.{resume-IsDriven, transition_stale}
use minilake.Compute.Lifecycle.Handlers.{
  create-IsDriven, edit-IsDriven, update-IsDriven, start-IsDriven, terminate-IsDriven,
  restart-IsDriven, resize-IsDriven, permanent_delete-IsDriven, pin-IsDriven, unpin-IsDriven,
  change_owner-IsDriven, reset-IsDriven,
}

-- The handler touches neither the clusters nor the transitions.
pub record SameLifecycle (s t : State) : Type 0 where
  pub clusters : t.clusters ≡ s.clusters
  pub tokens : t.transition_tokens ≡ s.transition_tokens
  pub tasks : t.tasks ≡ s.tasks

IsDriven-SameLifecycle : (s t : State) → SameLifecycle s t → IsDriven s → IsDriven t
IsDriven-SameLifecycle s t same h = record {
  driven = λ id cluster target found waits.
      rw (same.tokens, same.tasks) (h.driven id cluster target (rw same.clusters at found) waits);
  settling = λ u asleep. h.settling u (rw same.tasks at asleep);
}

-- An update with a `*` mask writes no state of its own.
abbrev pub LeavesState : Event → Type 0
LeavesState (update id mask payload) =
    (text : String)
    → mask ≡ some text
    → (contains (mask_fields (split b',' text)) "*" ≡ false) ⊎ (get payload "state" ≡ none)
LeavesState _ = Unit

module _ {Info : Type 0} (cluster_info : Stored → Option Info) (loads : String → String ⊎ Value)
    (s : State) where
  create_policy_same :
      (id : String) (now : ℕ) (req : Stored) → SameLifecycle s (create_policy loads id now req s).1
  unfolding create_policy
  create_policy_same id now req = ground arith

  edit_policy_same : (id : String) (req : Stored) → SameLifecycle s (edit_policy loads id req s).1
  unfolding edit_policy
  edit_policy_same id req = ground arith

  delete_policy_same : (id : String) → SameLifecycle s (delete_policy id s).1
  unfolding delete_policy
  delete_policy_same id = ground arith

  create_pool_same :
      (id : String) (req : Stored) → SameLifecycle s (create_instance_pool id req s).1
  unfolding create_instance_pool
  create_pool_same id req = ground arith

  edit_pool_same : (id : String) (req : Stored) → SameLifecycle s (edit_instance_pool id req s).1
  unfolding edit_instance_pool
  edit_pool_same id req = ground arith

  delete_pool_same : (id : String) → SameLifecycle s (delete_instance_pool id s).1
  unfolding delete_instance_pool
  delete_pool_same id = ground arith

module _ {Info : Type 0} (cluster_info : Stored → Option Info)
    (loads : String → String ⊎ Value) where
  step-IsDriven :
      (e : Event) (s : State) → LeavesState e → IsDriven s → IsDriven (step cluster_info loads e s)
  unfolding step
  step-IsDriven (create id token now req) s ok h = create-IsDriven id token now req s h
  step-IsDriven (edit id req) s ok h = edit-IsDriven cluster_info id req s h
  step-IsDriven (update id mask payload) s ok h =
      update-IsDriven cluster_info id mask payload s h ok
  step-IsDriven (start token id) s ok h = start-IsDriven cluster_info token id s h
  step-IsDriven (terminate token id) s ok h = terminate-IsDriven cluster_info token id s h
  step-IsDriven (restart token now id) s ok h = restart-IsDriven cluster_info token now id s h
  step-IsDriven (resize token id n a) s ok h = resize-IsDriven cluster_info token id n a s h
  step-IsDriven (permanent_delete id) s ok h = permanent_delete-IsDriven s h id
  step-IsDriven (pin id) s ok h = pin-IsDriven s h id
  step-IsDriven (unpin id) s ok h = unpin-IsDriven s h id
  step-IsDriven (set_owner id owner) s ok h = change_owner-IsDriven s h id owner
  step-IsDriven (wake now i) s ok h = resume-IsDriven now i s h
  step-IsDriven reset_all_clusters s ok h = reset-IsDriven s h
  step-IsDriven (add_policy id now req) s ok h =
      IsDriven-SameLifecycle s _ (create_policy_same cluster_info loads s id now req) h
  step-IsDriven (change_policy id req) s ok h =
      IsDriven-SameLifecycle s _ (edit_policy_same cluster_info loads s id req) h
  step-IsDriven (drop_policy id) s ok h =
      IsDriven-SameLifecycle s _ (delete_policy_same cluster_info loads s id) h
  step-IsDriven (add_pool id req) s ok h =
      IsDriven-SameLifecycle s _ (create_pool_same cluster_info loads s id req) h
  step-IsDriven (change_pool id req) s ok h =
      IsDriven-SameLifecycle s _ (edit_pool_same cluster_info loads s id req) h
  step-IsDriven (drop_pool id) s ok h =
      IsDriven-SameLifecycle s _ (delete_pool_same cluster_info loads s id) h

  -- After any events, from a driven state (the empty one is), every cluster that is PENDING,
  -- RESTARTING, RESIZING or TERMINATING has a sleeping transition with its current token to the
  -- state that it waits for. The `update` events are those whose mask has no "*" or whose payload
  -- has no "state".
  pub run-IsDriven :
      (es : List Event) (s : State)
      → All LeavesState es
      → IsDriven s
      → IsDriven (run cluster_info loads es s)
  unfolding run
  run-IsDriven [] s ok h = h
  run-IsDriven (e ∷ es) s (ok, oks) h =
      run-IsDriven es (step cluster_info loads e s) oks (step-IsDriven e s ok h)

pub empty-IsDriven : IsDriven empty
unfolding get
empty-IsDriven = record {
  driven = λ id cluster target found waits. cc;
  settling = λ t asleep. elim asleep [ ];
}

Sleeps-task_at :
    (t : Transition) (us : List Transition) → Sleeps t us → (i : ℕ) × (task_at i us ≡ some t)
unfolding task_at
Sleeps-task_at t [] h = elim h [ ]
Sleeps-task_at t (u ∷ us) (inl e) = (0, ap some e)
Sleeps-task_at t (u ∷ us) (inr h) = let (i, e) = Sleeps-task_at t us h in (suc i, e)

arrive_state :
    (now : ℕ) (target : String) (cluster : Stored)
    → text_at (arrive now target cluster) "state" ≡ some target
unfolding arrive string_eq
arrive_state now target cluster = reached (target == "RUNNING") (target == "TERMINATED")
  where
    written : Stored
    written = put (put cluster "state" (str target)) "state_message" (str "")

    reached :
        (a b : Bool)
        → text_at
            (if a
              then put written "start_time" (int (pos now))
              else if b
              then put written "terminated_time" (int (pos now))
              else written)
            "state"
          ≡ some target
    reached true b = simp text_at-put
    reached false true = simp text_at-put
    reached false false = simp text_at-put

-- In a driven state, a cluster that waits for a state is stored with that state after one of the
-- sleeping transitions is resumed, at whatever time that is.
pub driven_arrives :
    (s : State) (id : String) (cluster : Stored) (target : String)
    → IsDriven s
    → get s.clusters id ≡ some cluster
    → goal_of cluster ≡ some target
    → (i : ℕ) × ((now : ℕ)
        → (arrived : Stored) × (get (resume now i s).clusters id ≡ some arrived)
          × (text_at arrived "state" ≡ some target))
unfolding resume transition write_arrival
driven_arrives s id cluster target h found waits =
    let (token, known, asleep) = h.driven id cluster target found waits in
    let (i, at_i) = Sleeps-task_at (the_transition id token target) s.tasks asleep in
    (
      i,
      λ now. (
        arrive now target cluster,
        rw (at_i, resume) (rw (if_pos _ known) (rw found (rw (get-put_text, if_pos _ refl)))),
        arrive_state now target cluster,
      ),
    )

task_at-append :
    (i : ℕ) (us vs : List Transition) (t : Transition)
    → task_at i us ≡ some t
    → task_at i (us ++ vs) ≡ some t
unfolding task_at
task_at-append i [] vs t h = cc
task_at-append ℕ.zero (u ∷ us) vs t h = h
task_at-append (suc i) (u ∷ us) vs t h = task_at-append i us vs t h

-- Of the transitions of one cluster only the last that was scheduled takes effect: an earlier one,
-- whose token differs, is dropped from the event loop when it is resumed and nothing else changes.
pub schedule_supersedes :
    (id token target : String) (s : State) (now i : ℕ) (t : Transition)
    → task_at i s.tasks ≡ some t
    → t.cluster_id ≡ id
    → t.token ≢ token
    → let s' = (schedule_transition id token target s).1 in
      resume now i s' ≡ record s' { tasks = drop_at i s'.tasks }
unfolding schedule_transition resume
schedule_supersedes id token target s now i t at_i same other =
    rw (task_at-append i s.tasks (the_transition id token target ∷ []) t at_i, resume)
      (transition_stale now i t (schedule_transition id token target s).1 superseded)
  where
    superseded : get (put s.transition_tokens id token) t.cluster_id ≢ some t.token
    superseded = rw (same, get-put_text, if_pos _ refl) (λ e. other (sym (some-injective _ _ e)))
