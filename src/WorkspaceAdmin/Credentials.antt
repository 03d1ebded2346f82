-- ===== src/WorkspaceAdmin/Credentials.antt =====
-- The ids of the credentials, and what is answered of one.
use minilake.Prelude.{
  ℕ, ◌<◌, ◌≡◌, inl, inr, none, some, List, [], ◌∷◌, string_eq, nat_eq, arith, Bool-cases,
  Option-cases,
}
use minilake.Prelude.Dict.{
  get, update, has, NodupKeys, get-nil, get-put_nat, get-remove_nat, put-NodupKeys,
  remove-NodupKeys,
}
use minilake.Names.{Fields}
use minilake.WorkspaceAdmin.{
  State, new_state, new_credential, create_credential, update_credential, delete_credential,
  text_keys, int_keys,
}
use minilake.WorkspaceAdmin.Snapshot.{int_keys-text_keys}

-- Each credential has an id below the next one, and is stored once.
pub record IsNumbered (s : State) : Type 0 where
  pub below :
      (id : ℕ) (fields : Fields) → get s.credentials id ≡ some fields → id < s.next_credential_id
  pub once : NodupKeys s.credentials

pub data Request : Type 0 where
  creating : Fields → Request
  updating : (id : ℕ) (changes : Fields) → Request
  deleting : ℕ → Request

unfoldable pub step : Request → State → State
step (creating payload) s = (create_credential payload s).1
step (updating id changes) s = (update_credential id changes s).1
step (deleting id) s = (delete_credential id s).1

unfoldable pub run : List Request → State → State
run [] s = s
run (r ∷ rs) s = run rs (step r s)

create-IsNumbered :
    (payload : Fields) (s : State) → IsNumbered s → IsNumbered (create_credential payload s).1
unfolding create_credential
create-IsNumbered payload s h = record {
  below = λ id fields found. ground (
    arith,
    found,
    h.below id fields,
    get-put_nat s.credentials s.next_credential_id (new_credential payload s) id,
  );
  once = ground (
    arith,
    h.once,
    put-NodupKeys s.credentials s.next_credential_id (new_credential payload s) h.once,
  );
}

update-IsNumbered :
    (id : ℕ) (changes : Fields) (s : State)
    → IsNumbered s
    → IsNumbered (update_credential id changes s).1
unfolding update_credential
update-IsNumbered id changes s h = elim (Option-cases (get s.credentials id)) [
  | inl e ↦ rw (e, update_credential) h
  | inr (old, e) ↦
      rw (e, update_credential)
        (record {
          below = λ j fields found. ground (
            arith,
            found,
            e,
            h.below j fields,
            h.below id old,
            get-put_nat s.credentials id (update old changes) j,
          );
          once = put-NodupKeys s.credentials id (update old changes) h.once;
        })
]

delete-IsNumbered : (id : ℕ) (s : State) → IsNumbered s → IsNumbered (delete_credential id s).1
unfolding delete_credential
delete-IsNumbered id s h = elim (Bool-cases (has s.credentials id)) [
  | inr e ↦ rw (e, delete_credential) h
  | inl e ↦
      rw (e, delete_credential)
        (record {
          below = λ j fields found.
              ground (arith, found, h.below j fields, get-remove_nat s.credentials id j);
          once = remove-NodupKeys s.credentials id h.once;
        })
]

step-IsNumbered : (r : Request) (s : State) → IsNumbered s → IsNumbered (step r s)
unfolding step
step-IsNumbered (creating payload) s h = create-IsNumbered payload s h
step-IsNumbered (updating id changes) s h = update-IsNumbered id changes s h
step-IsNumbered (deleting id) s h = delete-IsNumbered id s h

run-IsNumbered : (rs : List Request) (s : State) → IsNumbered s → IsNumbered (run rs s)
unfolding run
run-IsNumbered [] s h = h
run-IsNumbered (r ∷ rs) s h = run-IsNumbered rs (step r s) (step-IsNumbered r s h)

pub new_state-IsNumbered : IsNumbered new_state
unfolding new_state
new_state-IsNumbered = record {
  below = λ id fields found. absurd (cc (found, get-nil {K = ℕ} {V = Fields} id));
  once = tt;
}

-- After any requests on the credentials of a new state, no credential has the id that the next one
-- will get, and a snapshot of them through JSON, which turns their ids into texts, is restored as
-- the same dict.
pub run-restored :
    (rs : List Request)
    → (get (run rs new_state).credentials (run rs new_state).next_credential_id ≡ none)
      × (int_keys (text_keys (run rs new_state).credentials) []
          ≡ some (run rs new_state).credentials)
run-restored rs =
    let h = run-IsNumbered rs new_state new_state-IsNumbered in
    (unused (run rs new_state) h, int_keys-text_keys (run rs new_state).credentials h.once)
  where
    unused : (s : State) → IsNumbered s → get s.credentials s.next_credential_id ≡ none
    unused s h = elim (Option-cases (get s.credentials s.next_credential_id)) [
      | inl e ↦ e
      | inr (fields, e) ↦
          let below = h.below s.next_credential_id fields e in absurd (omega (arith, below))
    ]
