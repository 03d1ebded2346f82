-- ===== src/Secrets/Levels/Runs.antt =====
-- The levels in the access-control lists over every sequence of requests.
use minilake.Prelude.{
  ℕ, String, ◌≡◌, inl, inr, refl, true, Option, List, [], ◌∷◌, string_eq, contains, Bool-cases,
  arith,
}
use minilake.Prelude.Dict.{get, put, remove}
use minilake.Secrets.{
  State, acl_permissions, create_scope, delete_scope, put_secret, delete_secret, scope_or_404,
  put_acl, get_acl, list_acls, delete_acl, first_manager,
}
use minilake.Secrets.Levels.{
  IsLevelled, new_scope, create_scope-cases, delete_scope-cases, Rewrites-IsLevelled,
  put_secret-Rewrites, delete_secret-Rewrites, scope_or_404-Rewrites, Changes-IsLevelled,
  delete_acl-Changes, put_acl-Changes, put_acl-refused, store-IsLevelled, drop-IsLevelled,
  put-Levelled, remove-Levelled, nil-Levelled,
}

pub data Event : Type 0 where
  create : (scope : String) (manager : Option String) → Event
  drop : (scope : String) → Event
  store_secret : (now : ℕ) (scope key : String) (text bytes : Option String) → Event
  drop_secret : (scope key : String) → Event
  grant : (scope who permission : String) → Event
  revoke : (scope who : String) → Event
  ask : (scope who : String) → Event
  ask_all : (scope : String) → Event

manage : contains acl_permissions "MANAGE" ≡ true
unfolding string_eq
manage = refl

get_acl-state :
    (scope who : String) (s : State) → (get_acl scope who s).1 ≡ (scope_or_404 scope s).1
unfolding get_acl
get_acl-state scope who s = ground arith

module _ (upper : String → String) where
  unfoldable pub step : Event → State → State
  step (create scope manager) s = (create_scope scope manager s).1
  step (drop scope) s = (delete_scope scope s).1
  step (store_secret now scope key text bytes) s = (put_secret now scope key text bytes s).1
  step (drop_secret scope key) s = (delete_secret scope key s).1
  step (grant scope who permission) s = (put_acl upper scope who permission s).1
  step (revoke scope who) s = (delete_acl scope who s).1
  step (ask scope who) s = (get_acl scope who s).1
  step (ask_all scope) s = (list_acls scope s).1

  unfoldable pub run : List Event → State → State
  unfolding step
  run [] s = s
  run (e ∷ es) s = run es (step e s)

  create-IsLevelled :
      (scope : String) (manager : Option String) (s : State)
      → IsLevelled s
      → IsLevelled (create_scope scope manager s).1
  unfolding put
  create-IsLevelled scope manager s h = elim (create_scope-cases scope manager s) [
    | inl e ↦ rw e h
    | inr e ↦ rw e (
        store-IsLevelled s scope (new_scope manager)
          (put-Levelled [] (first_manager manager) "MANAGE" manage nil-Levelled) h)
  ]

  drop_scope-IsLevelled :
      (scope : String) (s : State) → IsLevelled s → IsLevelled (delete_scope scope s).1
  drop_scope-IsLevelled scope s h = elim (delete_scope-cases scope s) [
    | inl e ↦ rw e h
    | inr e ↦ rw e (drop-IsLevelled s scope h)
  ]

  grant-IsLevelled :
      (scope who permission : String) (s : State)
      → IsLevelled s
      → IsLevelled (put_acl upper scope who permission s).1
  grant-IsLevelled scope who permission s h =
      elim (Bool-cases (contains acl_permissions (upper permission))) [
        | inl good ↦
            Changes-IsLevelled scope (λ acls. put acls who (upper permission)) s _
              (λ acls fine. put-Levelled acls who (upper permission) good fine)
              (put_acl-Changes upper scope who permission s good) h
        | inr bad ↦
            rw (put_acl-refused upper scope who permission s bad)
              (Rewrites-IsLevelled scope s _ (scope_or_404-Rewrites scope s) h)
      ]

  step-IsLevelled : (e : Event) (s : State) → IsLevelled s → IsLevelled (step e s)
  unfolding step list_acls
  step-IsLevelled (create scope manager) s h = create-IsLevelled scope manager s h
  step-IsLevelled (drop scope) s h = drop_scope-IsLevelled scope s h
  step-IsLevelled (store_secret now scope key text bytes) s h =
      Rewrites-IsLevelled scope s _ (put_secret-Rewrites now scope key text bytes s) h
  step-IsLevelled (drop_secret scope key) s h =
      Rewrites-IsLevelled scope s _ (delete_secret-Rewrites scope key s) h
  step-IsLevelled (grant scope who permission) s h = grant-IsLevelled scope who permission s h
  step-IsLevelled (revoke scope who) s h =
      Changes-IsLevelled scope (λ acls. remove acls who) s _
        (λ acls fine. remove-Levelled acls who fine) (delete_acl-Changes scope who s) h
  step-IsLevelled (ask scope who) s h =
      rw (get_acl-state scope who s)
        (Rewrites-IsLevelled scope s _ (scope_or_404-Rewrites scope s) h)
  step-IsLevelled (ask_all scope) s h =
      Rewrites-IsLevelled scope s _ (scope_or_404-Rewrites scope s) h

  -- After any requests on scopes, secrets and access-control lists, from a state in which this holds
  -- (the empty one), every level in a scope's list is one of MANAGE, READ and WRITE, however the
  -- requests spelled it.
  pub run-IsLevelled : (es : List Event) (s : State) → IsLevelled s → IsLevelled (run es s)
  unfolding run
  run-IsLevelled [] s h = h
  run-IsLevelled (e ∷ es) s h = run-IsLevelled es (step e s) (step-IsLevelled e s h)

pub empty-IsLevelled : IsLevelled []
unfolding get
empty-IsLevelled = record { levelled = λ scope stored found. absurd (cc found) }
