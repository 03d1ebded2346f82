-- ===== src/Objects/Rewrites.antt =====
-- The writers of the legacy API keep the display names apart where they do not write one.
use minilake.Prelude.{
  String, ◌≡◌, ◌≢◌, refl, sym, ap, ◌∙◌, ◌⊎◌, inl, inr, Bool, true, false, none, some, List, [], ◌∷◌,
  string_eq, Option-cases, All, text_ne, is_empty, if◌then◌else◌,
}
use minilake.Prelude.Dict.{get, put, update, get-nil, get-put_there, get-update-none}
use minilake.Json.{Value, str}
use minilake.Errors.{Result, ok, Result-cases}
use minilake.Names.{Fields, State}
use minilake.Objects.{Kind, as_text}
use minilake.Objects.Unique.{HasUnique, put-HasUnique}
use minilake.Objects.Legacy.{
  Conversions, copied, query_names, legacy_to_query, alert_names, given_text, is_null, condition_of,
  options_of, with_options, legacy_to_alert, update_legacy, set_lifecycle,
}

-- A translation writes this key for no legacy name that the body has.
abbrev Avoids : String → Fields → List (String × String) → Type 0
Avoids key body names = All (λ (legacy, modern). (key ≢ modern) ⊎ (get body legacy ≡ none)) names

copied-Avoids :
    (key : String) (body : Fields) (names : List (String × String)) (mapped : Fields)
    → Avoids key body names
    → get mapped key ≡ none
    → get (copied names body mapped) key ≡ none
unfolding copied
copied-Avoids key body [] mapped avoids h = h
copied-Avoids key body ((legacy, modern) ∷ names) mapped (avoid, avoids) h =
    elim (Option-cases (get body legacy)) [
      | inl e ↦ rw (e, copied) (copied-Avoids key body names mapped avoids h)
      | inr (v, e) ↦ elim avoid [
        | inl other ↦
            rw (e, copied)
              (copied-Avoids key body names (put mapped modern v) avoids
                (get-put_there mapped modern v key other ∙ h))
        | inr absent ↦ absurd (cc (e, absent))
      ]
    ]

given_text-other :
    (key : String) (options mapped : Fields) (other : String)
    → other ≢ key
    → get (given_text key options mapped) other ≡ get mapped other
unfolding given_text
given_text-other key options mapped other ne = elim (Option-cases (get options key)) [
  | inl e ↦ rw (e, given_text) refl
  | inr (v, e) ↦ rw (e, given_text) (kept v (is_null v))
]
  where
    kept :
        (v : Value) (b : Bool)
        → get (if b then mapped else put mapped key v) other ≡ get mapped other
    kept v true = refl
    kept v false = get-put_there mapped key v other ne

with_options-other :
    (c : Conversions) (options mapped : Fields) (key : String)
    → key ≢ "condition"
    → key ≢ "custom_body"
    → key ≢ "custom_subject"
    → get (with_options c options mapped) key ≡ get mapped key
unfolding with_options
with_options-other c options mapped key ne ne' ne'' =
    given_text-other "custom_subject" options _ key ne''
    ∙ (given_text-other "custom_body" options _ key ne'
        ∙ kept (is_empty (condition_of c options)) _)
  where
    kept :
        (b : Bool) (v : Value)
        → get (if b then mapped else put mapped "condition" v) key ≡ get mapped key
    kept true v = refl
    kept false v = get-put_there mapped "condition" v key ne

-- A body without a name.
pub legacy_to_query-other :
    (body : Fields)
    → get body "name" ≡ none
    → (get (legacy_to_query body) "id" ≡ none) × (get (legacy_to_query body) "display_name" ≡ none)
unfolding legacy_to_query
legacy_to_query-other body unnamed = (
  copied-Avoids "id" body query_names []
      (
        inl (text_ne "id" "display_name" refl),
        (
          inl (text_ne "id" "description" refl),
          (
            inl (text_ne "id" "query_text" refl),
            (
              inl (text_ne "id" "warehouse_id" refl),
              (inl (text_ne "id" "tags" refl), (inl (text_ne "id" "options" refl), tt)),
            ),
          ),
        ),
      )
      (get-nil "id"),
  copied-Avoids "display_name" body query_names []
      (
        inr unnamed,
        (
          inl (text_ne "display_name" "description" refl),
          (
            inl (text_ne "display_name" "query_text" refl),
            (
              inl (text_ne "display_name" "warehouse_id" refl),
              (
                inl (text_ne "display_name" "tags" refl),
                (inl (text_ne "display_name" "options" refl), tt),
              ),
            ),
          ),
        ),
      )
      (get-nil "display_name"),
)

alert_mapped :
    (body : Fields)
    → get body "name" ≡ none
    → (get (copied alert_names body []) "id" ≡ none)
      × (get (copied alert_names body []) "display_name" ≡ none)
alert_mapped body unnamed = (
  copied-Avoids "id" body alert_names []
      (
        inl (text_ne "id" "display_name" refl),
        (inl (text_ne "id" "query_id" refl), (inl (text_ne "id" "seconds_to_retrigger" refl), tt)),
      )
      (get-nil "id"),
  copied-Avoids "display_name" body alert_names []
      (
        inr unnamed,
        (
          inl (text_ne "display_name" "query_id" refl),
          (inl (text_ne "display_name" "seconds_to_retrigger" refl), tt),
        ),
      )
      (get-nil "display_name"),
)

pub legacy_to_alert-other :
    (c : Conversions) (body mapped : Fields)
    → get body "name" ≡ none
    → legacy_to_alert c body ≡ ok mapped
    → (get mapped "id" ≡ none) × (get mapped "display_name" ≡ none)
unfolding legacy_to_alert
legacy_to_alert-other c body mapped unnamed e =
    elim (Result-cases (options_of c (get body "options"))) [
      | inr (x, refused) ↦ absurd (cc (rw (refused, legacy_to_alert) at e))
      | inl (options, given) ↦
          let same = ok_eq (rw (given, legacy_to_alert) at e) in
          let (no_id, no_name) = alert_mapped body unnamed in
          (
            ap (λ f. get f "id") (sym same)
                ∙ (with_options-other c options _ "id" (text_ne "id" "condition" refl)
                      (text_ne "id" "custom_body" refl) (text_ne "id" "custom_subject" refl)
                    ∙ no_id),
            ap (λ f. get f "display_name") (sym same)
                ∙ (with_options-other c options _ "display_name"
                      (text_ne "display_name" "condition" refl)
                      (text_ne "display_name" "custom_body" refl)
                      (text_ne "display_name" "custom_subject" refl)
                    ∙ no_name),
          )
    ]
  where
    ok_eq : {a b : Fields} → ok a ≡ ok b → a ≡ b
    ok_eq h = cc h

-- An object that is stored again with its id and its display name.
stored_again :
    (s : State) (id : String) (old new : Fields)
    → HasUnique "display_name" s
    → get s id ≡ some old
    → get new "id" ≡ get old "id"
    → get new "display_name" ≡ get old "display_name"
    → HasUnique "display_name" (put s id new)
stored_again s id old new h known same_id same_name =
    put-HasUnique "display_name" s id new h (ap as_text same_id ∙ h.ids id old known)
      (λ name named j g gj ng used.
        h.names j id g old name gj known ng (sym (ap as_text same_name) ∙ named) used)

pub update_legacy-HasUniqueNames :
    (kind : Kind) (translate : Fields → Result Fields) (id now : String) (body : Fields) (s : State)
    → ((mapped : Fields)
        → translate body ≡ ok mapped
        → (get mapped "id" ≡ none) × (get mapped "display_name" ≡ none))
    → HasUnique "display_name" s
    → HasUnique "display_name" (update_legacy kind translate id now body s).1
unfolding update_legacy
update_legacy-HasUniqueNames kind translate id now body s fixed h = elim (Option-cases (get s id)) [
  | inl e ↦ rw (e, update_legacy) h
  | inr (stored, e) ↦ elim (Result-cases (translate body)) [
    | inr (x, refused) ↦ rw (e, update_legacy) (rw (refused, update_legacy) h)
    | inl (mapped, t) ↦
        let (no_id, no_name) = fixed mapped t in
        rw (e, update_legacy)
          (rw (t, update_legacy)
            (stored_again s id stored (put (update stored mapped) "update_time" (str now)) h e
              (get-put_there (update stored mapped) "update_time" (str now) "id"
                  (text_ne "id" "update_time" refl)
                ∙ get-update-none stored mapped "id" no_id)
              (get-put_there (update stored mapped) "update_time" (str now) "display_name"
                  (text_ne "display_name" "update_time" refl)
                ∙ get-update-none stored mapped "display_name" no_name)))
  ]
]

pub set_lifecycle-HasUniqueNames :
    (kind : Kind) (lifecycle id : String) (s : State)
    → HasUnique "display_name" s
    → HasUnique "display_name" (set_lifecycle kind lifecycle id s).1
unfolding set_lifecycle
set_lifecycle-HasUniqueNames kind lifecycle id s h = elim (Option-cases (get s id)) [
  | inl e ↦ rw (e, set_lifecycle) h
  | inr (stored, e) ↦
      rw (e, set_lifecycle)
        (stored_again s id stored (put stored "lifecycle_state" (str lifecycle)) h e
          (get-put_there stored "lifecycle_state" (str lifecycle) "id"
            (text_ne "id" "lifecycle_state" refl))
          (get-put_there stored "lifecycle_state" (str lifecycle) "display_name"
            (text_ne "display_name" "lifecycle_state" refl)))
]
