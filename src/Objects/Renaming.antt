-- ===== src/Objects/Renaming.antt =====
-- The updates that a mask chooses, and the display name that they bring.
use minilake.Prelude.{
  String, ◌≡◌, ◌⊎◌, inl, inr, sym, Bool, false, none, some, List, [], ◌∷◌, arith, text_ne, subst,
  string_eq, Option-cases, Bool-cases, refl, ap, ◌∙◌, contains, not_contains,
}
use minilake.Prelude.Dict.{get, put, NodupKeys, get-put_here, get-put_there, put-NodupKeys}
use minilake.Json.{str}
use minilake.Errors.{Exception, ok, raised}
use minilake.Names.{Fields, State, name_taken, resolve_name}
use minilake.Objects.{Kind, as_text, text_field, chosen, renamed}
use minilake.Objects.Creation.{resolve_name-free}

-- The fields that a mask without `*` chooses are fields it names.
pub chosen-NodupKeys :
    (fs : List String) (payload into : Fields) → NodupKeys into → NodupKeys (chosen fs payload into)
unfolding chosen
chosen-NodupKeys [] payload into u = u
chosen-NodupKeys (f ∷ fs) payload into u = elim (Option-cases (get payload f)) [
  | inl e ↦ rw (e, chosen) (chosen-NodupKeys fs payload into u)
  | inr (v, e) ↦
      rw (e, chosen) (chosen-NodupKeys fs payload (put into f v) (put-NodupKeys into f v u))
]

pub chosen-other :
    (fs : List String) (payload into : Fields) (key : String)
    → contains fs key ≡ false
    → get (chosen fs payload into) key ≡ get into key
unfolding chosen
chosen-other [] payload into key h = refl
chosen-other (f ∷ fs) payload into key h =
    let (differ, later) = not_contains f key fs h in
    elim (Option-cases (get payload f)) [
      | inl e ↦ rw (e, chosen) (chosen-other fs payload into key later)
      | inr (v, e) ↦
          rw (e, chosen)
            (chosen-other fs payload (put into f v) key later ∙ get-put_there into f v key differ)
    ]

-- What `renamed` answers has unique keys and a name that is free.
pub record IsRenamed (id : String) (s : State) (updates : Fields) : Type 0 where
  pub keys : NodupKeys updates
  pub no_id : get updates "id" ≡ none
  pub free :
      (name : String)
      → text_field updates "display_name" ≡ some name
      → name_taken s (some name) (some id) ≡ false

-- The three ways in which `renamed` answers.
renamed-cases :
    (kind : Kind) (id : String) (resolve : Bool) (updates : Fields) (s : State) (found : Fields)
    → (renamed kind id resolve updates s).0 ≡ ok found
    → ((updates ≡ found) × (text_field updates "display_name" ≡ none))
      ⊎ ((name : String) × (text_field updates "display_name" ≡ some name)
          × ((put updates "display_name" (str (resolve_name kind.fallback s (some name) (some id)))
                ≡ found)
              ⊎ (updates ≡ found) × (name_taken s (some name) (some id) ≡ false)))
unfolding renamed
renamed-cases kind id resolve updates s found h =
    elim (Option-cases (text_field updates "display_name")) [
      | inl e ↦ inl (answered (rw (e, renamed) at h), e)
      | inr (name, e) ↦ elim (Bool-cases resolve) [
        | inl r ↦ inr (name, e, inl (answered (rw (e, r, renamed) at h)))
        | inr r ↦ elim (Bool-cases (name_taken s (some name) (some id))) [
          | inl taken ↦ absurd (refused (rw (e, r, taken, renamed) at h))
          | inr free ↦ inr (name, e, inr (answered (rw (e, r, free, renamed) at h), free))
        ]
      ]
    ]
  where
    answered : {a : Fields} → ok a ≡ ok found → a ≡ found
    answered same = cc same

    refused : {x : Exception} → raised x ≡ ok found → ⊥
    refused never = cc never

pub renamed-IsRenamed :
    (kind : Kind) (id : String) (resolve : Bool) (updates : Fields) (s : State) (found : Fields)
    → NodupKeys updates
    → get updates "id" ≡ none
    → (renamed kind id resolve updates s).0 ≡ ok found
    → IsRenamed id s found
renamed-IsRenamed kind id resolve updates s found u no_id h =
    elim (renamed-cases kind id resolve updates s found h) [
      | inl (same, e) ↦
          subst (IsRenamed id s) same
            (record { keys = u; no_id = no_id; free = λ name named. absurd (cc (e, named)) })
      | inr (name, e, inr (same, free)) ↦ subst (IsRenamed id s) same (record {
        keys = u;
        no_id = no_id;
        free = λ other named. subst (λ n. name_taken s n (some id) ≡ false) (sym e ∙ named) free;
      })
      | inr (name, e, inl same) ↦
          let resolved = resolve_name kind.fallback s (some name) (some id) in
          subst (IsRenamed id s) same (record {
            keys = put-NodupKeys updates "display_name" (str resolved) u;
            no_id =
                get-put_there updates "display_name" (str resolved) "id"
                  (text_ne "id" "display_name" refl)
                ∙ no_id;
            free = λ other named.
                subst (λ n. name_taken s n (some id) ≡ false)
                  (sym (ap as_text (get-put_here updates "display_name" (str resolved))) ∙ named)
                  (resolve_name-free kind s (some name) (some id));
          })
    ]

pub renamed-state :
    (kind : Kind) (id : String) (resolve : Bool) (updates : Fields) (s : State)
    → (renamed kind id resolve updates s).1 ≡ s
unfolding renamed
renamed-state kind id resolve updates s = elim (Option-cases (text_field updates "display_name")) [
  | inl e ↦ rw (e, renamed) refl
  | inr (name, e) ↦ rw (e, renamed) (ground arith)
]
