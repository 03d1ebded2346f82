-- ===== src/Compute/References/Runs.antt =====
-- The references over every sequence of events.
use minilake.Prelude.{String, ◌≡◌, Option, none, List, [], ◌∷◌, ◌⊎◌, string_eq, All}
use minilake.Prelude.Dict.{get}
use minilake.Json.{Value}
use minilake.Compute.State.{State, Stored, empty}
use minilake.Compute.Clusters.{reset_clusters}
use minilake.Compute.Events.{
  Event, create, edit, update, start, terminate, restart, resize, permanent_delete, pin, unpin,
  set_owner, wake, reset_all_clusters, add_policy, change_policy, drop_policy, add_pool,
  change_pool, drop_pool, step, run,
}
use minilake.Compute.References.Writes.{IsLinked}
use minilake.Compute.References.Handlers.{
  create-Linked, edit-Linked, update-Linked, start-Linked, terminate-Linked, restart-Linked,
  resize-Linked, permanent_delete-Linked, pin-Linked, unpin-Linked, change_owner-Linked,
  resume-Linked, create_policy-Linked, edit_policy-Linked, drop_policy-Linked, create_pool-Linked,
  edit_pool-Linked, drop_pool-Linked,
}

-- An `update` whose payload names neither a policy nor a pool, and any other event.
abbrev pub LeavesRefs : Event → Type 0
LeavesRefs (update id mask payload) =
    (get payload "policy_id" ≡ none) × (get payload "instance_pool_id" ≡ none)
LeavesRefs _ = Unit

reset-Linked : (s : State) → IsLinked s → IsLinked (reset_clusters s)
unfolding reset_clusters get
reset-Linked s h = record {
  policy = record { known = λ id cluster found. absurd (cc found) };
  pool = record { known = λ id cluster found. absurd (cc found) };
}

module _ {Info : Type 0} (cluster_info : Stored → Option Info)
    (loads : String → String ⊎ Value) where
  step-IsLinked :
      (e : Event) (s : State) → LeavesRefs e → IsLinked s → IsLinked (step cluster_info loads e s)
  unfolding step
  step-IsLinked (create id token now req) s ok h = create-Linked s h id token now req
  step-IsLinked (edit id req) s ok h = edit-Linked s h id cluster_info req
  step-IsLinked (update id mask payload) s (k, l) h =
      update-Linked s h id cluster_info mask payload k l
  step-IsLinked (start token id) s ok h = start-Linked s h id cluster_info token
  step-IsLinked (terminate token id) s ok h = terminate-Linked s h id cluster_info token
  step-IsLinked (restart token now id) s ok h = restart-Linked s h id cluster_info token now
  step-IsLinked (resize token id n a) s ok h = resize-Linked s h id cluster_info token n a
  step-IsLinked (permanent_delete id) s ok h = permanent_delete-Linked s h id
  step-IsLinked (pin id) s ok h = pin-Linked s h id
  step-IsLinked (unpin id) s ok h = unpin-Linked s h id
  step-IsLinked (set_owner id owner) s ok h = change_owner-Linked s h id owner
  step-IsLinked (wake now i) s ok h = resume-Linked now i s h
  step-IsLinked reset_all_clusters s ok h = reset-Linked s h
  step-IsLinked (add_policy id now req) s ok h = create_policy-Linked s h id loads now req
  step-IsLinked (change_policy id req) s ok h = edit_policy-Linked s h id loads req
  step-IsLinked (drop_policy id) s ok h = drop_policy-Linked s h id
  step-IsLinked (add_pool id req) s ok h = create_pool-Linked s h id req
  step-IsLinked (change_pool id req) s ok h = edit_pool-Linked s h id req
  step-IsLinked (drop_pool id) s ok h = drop_pool-Linked s h id

  -- After any events, from a state in which this holds (the empty one), every policy and every
  -- instance pool that a cluster names, by a text that is not empty, is in its table. The `update`
  -- events are those whose payload has neither a "policy_id" nor an "instance_pool_id".
  pub run-IsLinked :
      (es : List Event) (s : State)
      → All LeavesRefs es
      → IsLinked s
      → IsLinked (run cluster_info loads es s)
  unfolding run
  run-IsLinked [] s ok h = h
  run-IsLinked (e ∷ es) s (ok, oks) h =
      run-IsLinked es (step cluster_info loads e s) oks (step-IsLinked e s ok h)

pub empty-IsLinked : IsLinked empty
unfolding get
empty-IsLinked = record {
  policy = record { known = λ id cluster found. absurd (cc found) };
  pool = record { known = λ id cluster found. absurd (cc found) };
}
