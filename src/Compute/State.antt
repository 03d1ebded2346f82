-- ===== src/Compute/State.antt =====
-- The `_state` of clusters.py, cluster_policies.py and instance_pools.py, the transition tokens of
-- clusters.py, and the delayed transitions that `asyncio.create_task` has put on the event loop.
use minilake.Prelude.{
  refl, ◌∷◌, String, Bool, Option, none, some, List, [], ◌==◌, string_eq, option_eq, ◌≡◌, arith,
  if◌then◌else◌,
}
use minilake.Prelude.Dict.{Dict, get, put, remove, update, get-put_text, get-remove_text}
use minilake.Json.{Value, str}
use minilake.Errors.{Result, ok, raised, key_error}

-- A stored cluster, policy or pool: a Python dict with text keys.
abbrev pub Stored : Type 0
Stored = Dict String Value

-- The arguments of one `_transition` that still sleeps.
pub record Transition : Type 0 where
  pub cluster_id : String
  pub token : String
  pub target_state : String

pub record State : Type 0 where
  pub clusters : Dict String Stored
  pub transition_tokens : Dict String String
  pub tasks : List Transition
  pub policies : Dict String Stored
  pub pools : Dict String Stored

abbrev pub empty : State
empty = record { clusters = []; transition_tokens = []; tasks = []; policies = []; pools = [] }

-- The text under a key, as `req.name` reads it from a request whose fields are typed.
abbrev pub text_of : Value → Option String
text_of (str s) = some s
text_of _ = none

unfoldable pub text_at : Stored → String → Option String
text_at d k = elim (get d k) [ some v ↦ text_of v | none ↦ none ]

pub text_at-put :
    (d : Stored) (k : String) (v : Value) (j : String)
    → text_at (put d k v) j ≡ (if j == k then text_of v else text_at d j)
unfolding text_at
text_at-put d k v j = ground (arith, get-put_text d k v j)

pub text_at-remove :
    (d : Stored) (k j : String) → text_at (remove d k) j ≡ (if j == k then none else text_at d j)
unfolding text_at
text_at-remove d k j = ground (arith, get-remove_text d k j)

-- `d.get(k) == s` for a text `s`
abbrev pub holds : Stored → String → String → Bool
holds d k s = text_at d k == some s

-- `d[k]`
abbrev pub item : Stored → String → Result Value
item d k = elim (get d k) [ none ↦ raised (key_error k) | some v ↦ ok v ]

pub text_at-update :
    (c changes : Stored) (k : String)
    → get changes k ≡ none
    → text_at (update c changes) k ≡ text_at c k
unfolding update get
text_at-update c [] k h = refl
text_at-update c ((j, v) ∷ changes) k h =
    ground (arith, text_at-update (put c j v) changes k, text_at-put c j v k)
