-- ===== src/Compute/Lifecycle/Resumption.antt =====
-- The resumption of a transition on driven states.
use mathlib.Core.Option.{none-ne-some}
use minilake.Prelude.{
  ℕ, String, ◌≡◌, ◌≢◌, sym, subst, ◌∙◌, none, some, ◌⊎◌, inl, inr, arith, string_eq, option_eq,
  Option-cases, if_pos, if_neg,
}
use minilake.Prelude.Dict.{get, remove, get-put_cases, get-remove_text}
use minilake.Compute.State.{State, Stored, Transition}
use minilake.Compute.Clusters.{arrive, write_arrival, transition, resume, drop_at, task_at}
use minilake.Compute.Lifecycle.{
  still_asleep, goal_of, Settles, IsDriven, drop_at-Sleeps, task_at-Sleeps, goal_of-arrive,
}

-- A transition whose token is not current is forgotten.
stale-IsDriven :
    (i : ℕ) (t : Transition) (s : State)
    → IsDriven s
    → task_at i s.tasks ≡ some t
    → get s.transition_tokens t.cluster_id ≢ some t.token
    → IsDriven (record s { tasks = drop_at i s.tasks })
stale-IsDriven i t s h e stale = record {
  driven = λ id cluster target found waits.
      let (token, known, asleep) = h.driven id cluster target found waits in
      (token, known, still_asleep s h id i t token target e (other id token known) asleep);
  settling = λ u asleep. h.settling u (drop_at-Sleeps u i s.tasks asleep);
}
  where
    other :
        (id token : String)
        → get s.transition_tokens id ≡ some token
        → (t.cluster_id ≢ id) ⊎ (t.token ≢ token)
    other id token known = elim (string_eq.dec t.cluster_id id) [
      | yes same ↦ inr (λ q. stale (rw (same, q) known))
      | no n ↦ inl n
    ]

-- The clusters once a current transition has run.
settled : ℕ → Transition → State → State
settled now t s = record s {
  transition_tokens = remove s.transition_tokens t.cluster_id;
  clusters = write_arrival now t s.clusters (get s.clusters t.cluster_id);
}

-- Only its own cluster changes, and that one waits for nothing.
settled_cases :
    (now : ℕ) (t : Transition) (s : State) (id target : String) (cluster : Stored)
    → Settles t.target_state
    → get (settled now t s).clusters id ≡ some cluster
    → goal_of cluster ≡ some target
    → (t.cluster_id ≢ id) × (get s.clusters id ≡ some cluster)
unfolding settled write_arrival
settled_cases now t s id target cluster settles found waits =
    elim (Option-cases (get s.clusters t.cluster_id)) [
      | inl gone ↦ (
        λ same.
            cc (subst (λ x. get s.clusters x ≡ none) same gone, rw (gone, write_arrival) at found),
        rw (gone, write_arrival) at found,
      )
      | inr (old, known) ↦
          elim (get-put_cases s.clusters t.cluster_id (arrive now t.target_state old) id
            (rw (known, write_arrival) at found)) [
              | inl (_, f) ↦ absurd (
                  none-ne-some target
                    (sym (goal_of-arrive now t.target_state old settles) ∙ (rw f waits)))
              | inr (n, f) ↦ (λ same. n (sym same), f)
            ]
    ]

settled-IsDriven :
    (now i : ℕ) (t : Transition) (s : State)
    → IsDriven s
    → task_at i s.tasks ≡ some t
    → IsDriven (record (settled now t s) { tasks = drop_at i s.tasks })
settled-IsDriven now i t s h e = record {
  driven = λ id cluster target found waits.
      let (n, before) =
        settled_cases now t s id target cluster (h.settling t (task_at-Sleeps t i s.tasks e)) found
          waits in
      let (token, known, asleep) = h.driven id cluster target before waits in
      (
        token,
        unfold settled in rw get-remove_text (ground (arith, n)),
        still_asleep s h id i t token target e (inl n) asleep,
      );
  settling = λ u asleep. h.settling u (drop_at-Sleeps u i s.tasks asleep);
}

transition_taken :
    (now i : ℕ) (t : Transition) (s : State)
    → get s.transition_tokens t.cluster_id ≡ some t.token
    → transition now t (record s { tasks = drop_at i s.tasks })
      ≡ record (settled now t s) { tasks = drop_at i s.tasks }
unfolding transition settled
transition_taken now i t s current = rw (if_pos _ current)

pub transition_stale :
    (now i : ℕ) (t : Transition) (s : State)
    → get s.transition_tokens t.cluster_id ≢ some t.token
    → transition now t (record s { tasks = drop_at i s.tasks })
      ≡ record s { tasks = drop_at i s.tasks }
unfolding transition
transition_stale now i t s stale = rw (if_neg _ stale)

-- A transition that runs, whether or not its token is still the current one, keeps the others driven.
pub resume-IsDriven : (now i : ℕ) (s : State) → IsDriven s → IsDriven (resume now i s)
unfolding resume
resume-IsDriven now i s h = elim (Option-cases (task_at i s.tasks)) [
  | inl e ↦ rw (e, resume) h
  | inr (t, e) ↦
      rw (e, resume)
        (elim (option_eq.dec (get s.transition_tokens t.cluster_id) (some t.token)) [
          | yes current ↦
              subst IsDriven (sym (transition_taken now i t s current))
                (settled-IsDriven now i t s h e)
          | no stale ↦
              subst IsDriven (sym (transition_stale now i t s stale))
                (stale-IsDriven i t s h e stale)
        ])
]
