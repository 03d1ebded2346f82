-- ===== src/WorkspaceAdmin/ListTypes.antt =====
-- The types of the stored IP access lists.
use minilake.Prelude.{
  ℕ, String, ◌≡◌, ◌⊎◌, inl, inr, sym, ◌∙◌, Bool-cases, Option, none, some, Option-cases, List, [],
  ◌∷◌, string_eq, arith,
}
use minilake.Prelude.Dict.{
  Dict, get, put, get-put_here, get-put_there, remove, has, get-nil, get-remove_text,
}
use minilake.Errors.{ok, Result-cases}
use minilake.WorkspaceAdmin.{State, IpAccessList, new_state}
use minilake.WorkspaceAdmin.IpLists.{
  CreateIpAccessListRequest, UpdateIpAccessListRequest, validate_list_type, create_ip_access_list,
  or_old, new_list, replaced, patched, replace_ip_access_list, update_ip_access_list,
  delete_ip_access_list,
}

abbrev pub IsListType : Option String → Type 0
IsListType list_type =
    (list_type ≡ none) ⊎ ((list_type ≡ some "ALLOW") ⊎ (list_type ≡ some "BLOCK"))

-- Every stored list has such a type.
abbrev pub IsTyped : State → Type 0
IsTyped s =
    (list_id : String) (r : IpAccessList)
    → get s.ip_access_lists list_id ≡ some r
    → IsListType r.list_type

pub data Request : Type 0 where
  creating : (list_id : String) (now : ℕ) → CreateIpAccessListRequest → Request
  replacing : (list_id : String) (now : ℕ) → UpdateIpAccessListRequest → Request
  updating : (list_id : String) (now : ℕ) → UpdateIpAccessListRequest → Request
  deleting : String → Request

get-put-cases :
    {V : Type 0} (d : Dict String V) (k : String) (v : V) (j : String) (x : V)
    → get (put d k v) j ≡ some x
    → (v ≡ x) ⊎ (get d j ≡ some x)
get-put-cases d k v j x found = elim (string_eq.dec j k) [
  | yes e ↦ inl (cc (e, get-put_here d k v, found))
  | no ne ↦ inr (sym (get-put_there d k v j ne) ∙ found)
]

put-IsTyped :
    (s : State) (list_id : String) (r : IpAccessList)
    → IsTyped s
    → IsListType r.list_type
    → IsTyped (record s { ip_access_lists = put s.ip_access_lists list_id r })
put-IsTyped s list_id r h typed j old found =
    elim (get-put-cases s.ip_access_lists list_id r j old found) [
      | inl e ↦ rw (sym e) typed
      | inr e ↦ h j old e
    ]

remove-IsTyped :
    (s : State) (list_id : String)
    → IsTyped s
    → IsTyped (record s { ip_access_lists = remove s.ip_access_lists list_id })
remove-IsTyped s list_id h j old found =
    h j old (ground (arith, found, get-remove_text s.ip_access_lists list_id j))

or_old-IsListType :
    (new old : Option String) → IsListType new → IsListType old → IsListType (or_old new old)
or_old-IsListType none old h k = k
or_old-IsListType (some new) old h k = h

module _ (upper : String → String) where
  unfoldable pub step : Request → State → State
  step (creating list_id now req) s = (create_ip_access_list upper list_id now req s).1
  step (replacing list_id now req) s = (replace_ip_access_list upper list_id now req s).1
  step (updating list_id now req) s = (update_ip_access_list upper list_id now req s).1
  step (deleting list_id) s = (delete_ip_access_list list_id s).1

  unfoldable pub run : List Request → State → State
  run [] s = s
  run (r ∷ rs) s = run rs (step r s)

  validate_list_type-IsListType :
      (t u : Option String) → validate_list_type upper t ≡ ok u → IsListType u
  unfolding validate_list_type
  validate_list_type-IsListType none u e = ground (arith, e)
  validate_list_type-IsListType (some t) u e = ground (arith, e)

  create-IsTyped :
      (list_id : String) (now : ℕ) (req : CreateIpAccessListRequest) (s : State)
      → IsTyped s
      → IsTyped (create_ip_access_list upper list_id now req s).1
  unfolding create_ip_access_list new_list
  create-IsTyped list_id now req s h =
      elim (Result-cases (validate_list_type upper (some req.list_type))) [
        | inr (x, e) ↦ rw (e, create_ip_access_list) h
        | inl (t, e) ↦
            rw (e, create_ip_access_list)
              (put-IsTyped s list_id (new_list list_id now req t) h
                (validate_list_type-IsListType (some req.list_type) t e))
      ]

  replace-IsTyped :
      (list_id : String) (now : ℕ) (req : UpdateIpAccessListRequest) (s : State)
      → IsTyped s
      → IsTyped (replace_ip_access_list upper list_id now req s).1
  unfolding replace_ip_access_list replaced
  replace-IsTyped list_id now req s h = elim (Option-cases (get s.ip_access_lists list_id)) [
    | inl e ↦ rw (e, replace_ip_access_list) h
    | inr (r, e) ↦ elim (Result-cases (validate_list_type upper req.list_type)) [
      | inr (x, f) ↦ rw (e, f, replace_ip_access_list) h
      | inl (t, f) ↦
          rw (e, f, replace_ip_access_list)
            (put-IsTyped s list_id (replaced now req t r) h
              (validate_list_type-IsListType req.list_type t f))
    ]
  ]

  update-IsTyped :
      (list_id : String) (now : ℕ) (req : UpdateIpAccessListRequest) (s : State)
      → IsTyped s
      → IsTyped (update_ip_access_list upper list_id now req s).1
  unfolding update_ip_access_list patched
  update-IsTyped list_id now req s h = elim (Option-cases (get s.ip_access_lists list_id)) [
    | inl e ↦ rw (e, update_ip_access_list) h
    | inr (r, e) ↦ elim (Result-cases (validate_list_type upper req.list_type)) [
      | inr (x, f) ↦ rw (e, f, update_ip_access_list) h
      | inl (t, f) ↦
          rw (e, f, update_ip_access_list)
            (put-IsTyped s list_id (patched now req t r) h (
              or_old-IsListType t r.list_type (validate_list_type-IsListType req.list_type t f)
                (h list_id r e)))
    ]
  ]

  delete-IsTyped :
      (list_id : String) (s : State) → IsTyped s → IsTyped (delete_ip_access_list list_id s).1
  unfolding delete_ip_access_list
  delete-IsTyped list_id s h = elim (Bool-cases (has s.ip_access_lists list_id)) [
    | inr e ↦ rw (e, delete_ip_access_list) h
    | inl e ↦ rw (e, delete_ip_access_list) (remove-IsTyped s list_id h)
  ]

  step-IsTyped : (r : Request) (s : State) → IsTyped s → IsTyped (step r s)
  unfolding step
  step-IsTyped (creating list_id now req) s h = create-IsTyped list_id now req s h
  step-IsTyped (replacing list_id now req) s h = replace-IsTyped list_id now req s h
  step-IsTyped (updating list_id now req) s h = update-IsTyped list_id now req s h
  step-IsTyped (deleting list_id) s h = delete-IsTyped list_id s h

  -- After any requests on the IP access lists of a state whose lists have the type ALLOW, BLOCK or
  -- none, the stored lists have one of these, whatever `str.upper` gives.
  pub run-IsTyped : (rs : List Request) (s : State) → IsTyped s → IsTyped (run rs s)
  unfolding run
  run-IsTyped [] s h = h
  run-IsTyped (r ∷ rs) s h = run-IsTyped rs (step r s) (step-IsTyped r s h)

pub new_state-IsTyped : IsTyped new_state
unfolding new_state
new_state-IsTyped =
    λ list_id r found. absurd (cc (found, get-nil {K = String} {V = IpAccessList} list_id))
