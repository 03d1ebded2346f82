-- ===== src/Compute/Lifecycle.antt =====
-- The lifecycle of a cluster: what each state waits for, and the transitions on the event loop that
-- answer it.
pub mod Writes
pub mod Handlers
pub mod Runs
pub mod Resumption
use mathlib.Core.Option.{some-injective, none-ne-some}
use minilake.Prelude.{
  ℕ, String, ◌≡◌, ◌≢◌, refl, sym, subst, ◌∙◌, ap, Bool, true, false, Option, none, some, List, [],
  ◌∷◌, ◌++◌, ◌⊎◌, inl, inr, arith, ◌==◌, string_eq, option_eq, if◌then◌else◌, Option-cases, ite,
  if_pos, if_neg,
}
use minilake.Prelude.Dict.{Dict, get, put, remove, get-put_cases, get-put_text, get-remove_text}
use minilake.Compute.State.{State, Stored, Transition, text_at, text_at-put}
use minilake.Compute.Clusters.{arrive, write_arrival, transition, resume, drop_at, task_at}

-- The state that a cluster in this state is on its way to.
unfoldable pub awaited : Option String → Option String
awaited none = none
awaited (some s) =
    if s == "PENDING"
    then some "RUNNING"
    else if s == "RESTARTING"
    then some "RUNNING"
    else if s == "RESIZING"
    then some "RUNNING"
    else if s == "TERMINATING"
    then some "TERMINATED"
    else none

unfoldable pub goal_of : Stored → Option String
goal_of cluster = awaited (text_at cluster "state")

-- The transition is one of those that sleep.
abbrev pub Sleeps : Transition → List Transition → Type 0
Sleeps t [] = ⊥
Sleeps t (u ∷ us) = (u ≡ t) ⊎ Sleeps t us

abbrev pub Settles : String → Type 0
Settles target = (target ≡ "RUNNING") ⊎ (target ≡ "TERMINATED")

abbrev pub the_transition : String → String → String → Transition
the_transition id token target = record { cluster_id = id; token = token; target_state = target }

-- Every cluster that is on its way to a state has a transition asleep that takes it there and whose
-- token is still the current one; no transition leads to a state that waits again.
pub record IsDriven (s : State) : Type 0 where
  pub driven :
      (id : String) (cluster : Stored) (target : String)
      → get s.clusters id ≡ some cluster
      → goal_of cluster ≡ some target
      → (token : String) × (get s.transition_tokens id ≡ some token)
        × Sleeps (the_transition id token target) s.tasks
  pub settling : (t : Transition) → Sleeps t s.tasks → Settles t.target_state

pub Sleeps-append : (t : Transition) (us vs : List Transition) → Sleeps t us → Sleeps t (us ++ vs)
Sleeps-append t [] vs h = elim h [ ]
Sleeps-append t (u ∷ us) vs (inl e) = inl e
Sleeps-append t (u ∷ us) vs (inr h) = inr (Sleeps-append t us vs h)

pub Sleeps-last : (t : Transition) (us : List Transition) → Sleeps t (us ++ t ∷ [])
Sleeps-last t [] = inl refl
Sleeps-last t (u ∷ us) = inr (Sleeps-last t us)

pub Sleeps-append_cases :
    (t v : Transition) (us : List Transition) → Sleeps t (us ++ v ∷ []) → Sleeps t us ⊎ (v ≡ t)
Sleeps-append_cases t v [] (inl e) = inr e
Sleeps-append_cases t v [] (inr h) = elim h [ ]
Sleeps-append_cases t v (u ∷ us) (inl e) = inl (inl e)
Sleeps-append_cases t v (u ∷ us) (inr h) = elim (Sleeps-append_cases t v us h) [
  | inl k ↦ inl (inr k)
  | inr e ↦ inr e
]

-- Only the resumed transition leaves the loop.
Sleeps-drop_at :
    (t : Transition) (i : ℕ) (us : List Transition)
    → Sleeps t us
    → Sleeps t (drop_at i us) ⊎ (task_at i us ≡ some t)
unfolding drop_at task_at
Sleeps-drop_at t i [] h = elim h [ ]
Sleeps-drop_at t ℕ.zero (u ∷ us) (inl e) = inr (ap some e)
Sleeps-drop_at t ℕ.zero (u ∷ us) (inr h) = inl h
Sleeps-drop_at t (ℕ.suc i) (u ∷ us) (inl e) = inl (inl e)
Sleeps-drop_at t (ℕ.suc i) (u ∷ us) (inr h) = elim (Sleeps-drop_at t i us h) [
  | inl k ↦ inl (inr k)
  | inr e ↦ inr e
]

pub drop_at-Sleeps :
    (t : Transition) (i : ℕ) (us : List Transition) → Sleeps t (drop_at i us) → Sleeps t us
unfolding drop_at
drop_at-Sleeps t i [] h = elim h [ ]
drop_at-Sleeps t ℕ.zero (u ∷ us) h = inr h
drop_at-Sleeps t (ℕ.suc i) (u ∷ us) (inl e) = inl e
drop_at-Sleeps t (ℕ.suc i) (u ∷ us) (inr h) = inr (drop_at-Sleeps t i us h)

pub task_at-Sleeps :
    (t : Transition) (i : ℕ) (us : List Transition) → task_at i us ≡ some t → Sleeps t us
unfolding task_at
task_at-Sleeps t i [] h = cc
task_at-Sleeps t ℕ.zero (u ∷ us) h = inl (some-injective u t h)
task_at-Sleeps t (ℕ.suc i) (u ∷ us) h = inr (task_at-Sleeps t i us h)

-- A cluster that has arrived waits for nothing.
pub goal_of-arrive :
    (now : ℕ) (target : String) (cluster : Stored)
    → Settles target
    → goal_of (arrive now target cluster) ≡ none
unfolding goal_of awaited arrive string_eq
goal_of-arrive now target cluster (inl e) = rw e (simp text_at-put)
goal_of-arrive now target cluster (inr e) = rw e (simp text_at-put)

module _ (s : State) (h : IsDriven s) (id : String) where
  -- A write that leaves the awaited state alone.
  pub store-IsDriven :
      (old new : Stored)
      → get s.clusters id ≡ some old
      → goal_of new ≡ goal_of old
      → IsDriven (record s { clusters = put s.clusters id new })
  store-IsDriven old new known same = record {
    driven = λ j cluster target found waits. elim (get-put_cases s.clusters id new j found) [
      | inl (e, f) ↦ h.driven j old target (rw e known) (sym same ∙ (rw f waits))
      | inr (n, f) ↦ h.driven j cluster target f waits
    ];
    settling = h.settling;
  }

  -- A write whose awaited state the transition scheduled with it brings about.
  pub schedule-IsDriven :
      (new : Stored) (token target : String)
      → goal_of new ≡ some target
      → Settles target
      → IsDriven (record s {
        clusters = put s.clusters id new;
        transition_tokens = put s.transition_tokens id token;
        tasks = s.tasks ++ the_transition id token target ∷ [];
      })
  schedule-IsDriven new token target goal settles = record {
    driven = λ j cluster wanted found waits. elim (get-put_cases s.clusters id new j found) [
      | inl (e, f) ↦ (
        token,
        rw (get-put_text, e) (ground arith),
        subst (λ x. Sleeps x (s.tasks ++ the_transition id token target ∷ [])) (ground arith)
            (Sleeps-last (the_transition id token target) s.tasks),
      )
      | inr (n, f) ↦
          let (current, known, asleep) = h.driven j cluster wanted f waits in
          (
            current,
            (ground (arith, get-put_text s.transition_tokens id token j)),
            Sleeps-append _ s.tasks _ asleep,
          )
    ];
    settling = λ t asleep. elim (Sleeps-append_cases t _ s.tasks asleep) [
      | inl before ↦ h.settling t before
      | inr e ↦ (subst Settles (ap (λ u. u.target_state) e) settles)
    ];
  }

  -- What stays asleep for a cluster when the i-th transition, of another token or cluster, is taken.
  pub still_asleep :
      (i : ℕ) (t : Transition) (token target : String)
      → task_at i s.tasks ≡ some t
      → (t.cluster_id ≢ id) ⊎ (t.token ≢ token)
      → Sleeps (the_transition id token target) s.tasks
      → Sleeps (the_transition id token target) (drop_at i s.tasks)
  still_asleep i t token target at_i other asleep =
      elim (Sleeps-drop_at (the_transition id token target) i s.tasks asleep) [
        | inl k ↦ k
        | inr e ↦ absurd (apart (some-injective _ _ (sym at_i ∙ e)) other)
      ]
    where
      apart : t ≡ the_transition id token target → (t.cluster_id ≢ id) ⊎ (t.token ≢ token) → ⊥
      apart e (inl n) = n (ap (λ u. u.cluster_id) e)
      apart e (inr n) = n (ap (λ u. u.token) e)
