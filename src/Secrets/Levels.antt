-- ===== src/Secrets/Levels.antt =====
-- The levels in the access-control lists of the scopes, handler by handler.
pub mod Runs
use minilake.Prelude.{
  ℕ, String, ◌≡◌, ◌⊎◌, inl, inr, refl, subst, Bool, true, false, not, ◌||◌, Option, none, some,
  List, [], ◌∷◌, ◌==◌, arith, string_eq, contains, get_or, is_some, nonempty, Option-cases,
  Bool-cases, if◌then◌else◌,
}
use minilake.Prelude.Dict.{
  Dict, get, has, put, remove, get-put_text, get-remove_text, get-nil, get-put_cases,
}
use minilake.Errors.{Exception, Result, ok, raised}
use minilake.Secrets.{
  State, Scope, Secret, acl_permissions, create_scope, delete_scope, get_scope, given_value,
  find_secret, put_secret, delete_secret, scope_or_404, store_acls, put_acl, get_acl, list_acls,
  delete_acl, first_manager,
}

-- Every level in the list is one of MANAGE, READ and WRITE.
abbrev pub Levelled : Dict String String → Type 0
Levelled acls =
    (who level : String) → get acls who ≡ some level → contains acl_permissions level ≡ true

pub record IsLevelled (s : State) : Type 0 where
  pub levelled :
      (scope : String) (stored : Scope)
      → get s scope ≡ some stored
      → Levelled (get_or stored.acls [])

pub nil-Levelled : Levelled []
nil-Levelled who level h = absurd (cc (get-nil {K = String} {V = String} who, h))

pub put-Levelled :
    (acls : Dict String String) (who level : String)
    → contains acl_permissions level ≡ true
    → Levelled acls
    → Levelled (put acls who level)
put-Levelled acls who level good h w l found = elim (get-put_cases acls who level w found) [
  | inl (_, same) ↦ rw same at good
  | inr (_, before) ↦ h w l before
]

pub remove-Levelled :
    (acls : Dict String String) (who : String) → Levelled acls → Levelled (remove acls who)
remove-Levelled acls who h w l found = h w l (ground (arith, get-remove_text acls who w))

pub store-IsLevelled :
    (s : State) (scope : String) (new : Scope)
    → Levelled (get_or new.acls [])
    → IsLevelled s
    → IsLevelled (put s scope new)
store-IsLevelled s scope new good h = record {
  levelled = λ j stored found who level at_who. elim (get-put_cases s scope new j found) [
    | inl (_, same) ↦ good who level (rw same at_who)
    | inr (_, before) ↦ h.levelled j stored before who level at_who
  ];
}

pub drop-IsLevelled : (s : State) (scope : String) → IsLevelled s → IsLevelled (remove s scope)
drop-IsLevelled s scope h = record {
  levelled = λ j stored found. h.levelled j stored (ground (arith, get-remove_text s scope j));
}

-- What each handler makes of the state.
abbrev pub new_scope : Option String → Scope
new_scope manager = record { secrets = []; acls = some ((first_manager manager, "MANAGE") ∷ []) }

pub create_scope-cases :
    (scope : String) (manager : Option String) (s : State)
    → ((create_scope scope manager s).1 ≡ s)
      ⊎ ((create_scope scope manager s).1 ≡ put s scope (new_scope manager))
unfolding create_scope
create_scope-cases scope manager s = ground arith

pub delete_scope-cases :
    (scope : String) (s : State)
    → ((delete_scope scope s).1 ≡ s) ⊎ ((delete_scope scope s).1 ≡ remove s scope)
unfolding delete_scope
delete_scope-cases scope s = ground arith

-- A write that keeps the access-control list of its scope, if it has one.
abbrev pub Rewrites : String → State → State → Type 0
Rewrites scope s t =
    (t ≡ s)
    ⊎ (stored : Scope) × (new : Scope) × (get s scope ≡ some stored)
      × (get_or new.acls [] ≡ get_or stored.acls [])
      × (t ≡ put s scope new)

pub Rewrites-IsLevelled :
    (scope : String) (s t : State) → Rewrites scope s t → IsLevelled s → IsLevelled t
Rewrites-IsLevelled scope s t (inl same) h = rw same h
Rewrites-IsLevelled scope s t (inr (stored, new, known, kept, e)) h =
    rw e (store-IsLevelled s scope new (rw kept (h.levelled scope stored known)) h)

pub put_secret-Rewrites :
    (now : ℕ) (scope key : String) (text bytes : Option String) (s : State)
    → Rewrites scope s (put_secret now scope key text bytes s).1
unfolding put_secret get_scope
put_secret-Rewrites now scope key text bytes s = elim (Option-cases (get s scope)) [
  | inl e ↦ inl (ground (arith, e))
  | inr (stored, e) ↦ elim (Option-cases (given_value text bytes)) [
    | inl v ↦ inl (ground (arith, e, v))
    | inr (value, v) ↦ inr (
      stored,
      record stored {
        secrets = put stored.secrets key (record { value = value; updated_at = now });
      },
      e,
      refl,
      ground (arith, e, v),
    )
  ]
]

pub delete_secret-Rewrites :
    (scope key : String) (s : State) → Rewrites scope s (delete_secret scope key s).1
unfolding delete_secret get_scope find_secret
delete_secret-Rewrites scope key s = elim (Option-cases (get s scope)) [
  | inl e ↦ inl (ground (arith, e))
  | inr (stored, e) ↦ elim (Option-cases (get stored.secrets key)) [
    | inl gone ↦ inl (ground (arith, e, gone))
    | inr (secret, there) ↦ inr (
      stored,
      record stored { secrets = remove stored.secrets key },
      e,
      refl,
      ground (arith, e, there),
    )
  ]
]

pub scope_or_404-Rewrites : (scope : String) (s : State) → Rewrites scope s (scope_or_404 scope s).1
unfolding scope_or_404
scope_or_404-Rewrites scope s = elim (Option-cases (get s scope)) [
  | inl e ↦ inl (rw e refl)
  | inr (stored, e) ↦
      inr (stored, record stored { acls = some (get_or stored.acls []) }, e, refl, rw e refl)
]

scope_or_404-Levelled :
    (scope : String) (s : State) (acls : Dict String String)
    → IsLevelled s
    → (scope_or_404 scope s).0 ≡ ok acls
    → Levelled acls
unfolding scope_or_404
scope_or_404-Levelled scope s acls h answered = elim (Option-cases (get s scope)) [
  | inl e ↦ absurd (ground (arith, e))
  | inr (stored, e) ↦ subst Levelled (ground (arith, e)) (h.levelled scope stored e)
]

store_acls-missing :
    (scope : String) (acls : Dict String String) (s : State)
    → get s scope ≡ none
    → (store_acls scope acls s).1 ≡ s
unfolding store_acls
store_acls-missing scope acls s e = ground (arith, e)

store_acls-known :
    (scope : String) (acls : Dict String String) (s : State) (stored : Scope)
    → get s scope ≡ some stored
    → (store_acls scope acls s).1 ≡ put s scope (record stored { acls = some acls })
unfolding store_acls
store_acls-known scope acls s stored e = ground (arith, e)

store_acls-IsLevelled :
    (scope : String) (acls : Dict String String) (s : State)
    → Levelled acls
    → IsLevelled s
    → IsLevelled (store_acls scope acls s).1
store_acls-IsLevelled scope acls s good h = elim (Option-cases (get s scope)) [
  | inl e ↦ rw (store_acls-missing scope acls s e) h
  | inr (stored, e) ↦
      rw (store_acls-known scope acls s stored e)
        (store-IsLevelled s scope (record stored { acls = some acls }) good h)
]

-- A change of the list that `_scope_or_404` answers, or none.
abbrev pub Changes : String → (Dict String String → Dict String String) → State → State → Type 0
Changes scope change s t =
    (t ≡ (scope_or_404 scope s).1)
    ⊎ (acls : Dict String String) × ((scope_or_404 scope s).0 ≡ ok acls)
      × (t ≡ (store_acls scope (change acls) (scope_or_404 scope s).1).1)

pub Changes-IsLevelled :
    (scope : String) (change : Dict String String → Dict String String) (s t : State)
    → ((acls : Dict String String) → Levelled acls → Levelled (change acls))
    → Changes scope change s t
    → IsLevelled s
    → IsLevelled t
Changes-IsLevelled scope change s t keeps (inl e) h =
    rw e (Rewrites-IsLevelled scope s _ (scope_or_404-Rewrites scope s) h)
Changes-IsLevelled scope change s t keeps (inr (acls, answered, e)) h = rw e (
    store_acls-IsLevelled scope (change acls) (scope_or_404 scope s).1
      (keeps acls (scope_or_404-Levelled scope s acls h answered))
      (Rewrites-IsLevelled scope s _ (scope_or_404-Rewrites scope s) h))

Result-cases {ℓ} :
    {A : Type ℓ} (r : Result A) → ((a : A) × (r ≡ ok a)) ⊎ ((x : Exception) × (r ≡ raised x))
Result-cases (ok a) = inl (a, refl)
Result-cases (raised x) = inr (x, refl)

pub delete_acl-Changes :
    (scope who : String) (s : State)
    → Changes scope (λ acls. remove acls who) s (delete_acl scope who s).1
unfolding delete_acl
delete_acl-Changes scope who s = elim (Result-cases (scope_or_404 scope s).0) [
  | inr (x, e) ↦ inl (ground (arith, e))
  | inl (acls, e) ↦ elim (Bool-cases (has acls who)) [
    | inl there ↦ inr (acls, e, ground (arith, e, there))
    | inr gone ↦ inl (ground (arith, e, gone))
  ]
]

pub put_acl-Changes :
    (upper : String → String) (scope who permission : String) (s : State)
    → contains acl_permissions (upper permission) ≡ true
    → Changes scope
        (λ acls. put acls who (upper permission))
        s
        (put_acl upper scope who permission s).1
unfolding put_acl
put_acl-Changes upper scope who permission s good = elim (Result-cases (scope_or_404 scope s).0) [
  | inr (x, e) ↦ inl (ground (arith, e))
  | inl (acls, e) ↦ inr (acls, e, ground (arith, e, good))
]

pub put_acl-refused :
    (upper : String → String) (scope who permission : String) (s : State)
    → contains acl_permissions (upper permission) ≡ false
    → (put_acl upper scope who permission s).1 ≡ (scope_or_404 scope s).1
unfolding put_acl
put_acl-refused upper scope who permission s bad = elim (Result-cases (scope_or_404 scope s).0) [
  | inr (x, e) ↦ ground (arith, e)
  | inl (acls, e) ↦ ground (arith, e, bad)
]
