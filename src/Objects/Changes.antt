-- ===== src/Objects/Changes.antt =====
-- Updates of fields that a mask names, and the display name they leave.
use minilake.Prelude.{
  String, ◌≡◌, ◌≢◌, ◌⊎◌, inl, inr, sym, Bool, false, Option, none, some, List, [], ◌∷◌, arith,
  nonempty, text_ne, subst, string_eq, Option-cases, Bool-cases, refl, ap, ◌∙◌, contains,
  is_empty-eq_nil, select_nil, not, ◌&&◌, ◌==◌,
}
use minilake.Prelude.Dict.{get, put, update, get-nil, get-update-none, get-update-some}
use minilake.Json.{or_str}
use minilake.Errors.{Exec, unwritten-cases, ◌>>=◌, ◌>>◌, ok, raised, bind-ok, bind-raised}
use minilake.Names.{Fields, State}
use minilake.Objects.{
  Kind, as_text, text_field, missing, get_or_404, store_updated, check_mask, given_mask,
  unknown_fields, mask_fields, chosen, masked, renamed, change,
}
use minilake.Objects.Unique.{HasUnique, IsFree, name_taken-IsFree, put-HasUnique}
use minilake.Objects.Creation.{IsKind}
use minilake.Objects.Renaming.{
  chosen-NodupKeys, chosen-other, IsRenamed, renamed-IsRenamed, renamed-state,
}

pub get_or_404-found :
    (kind : Kind) (id : String) (s : State) (stored : Fields)
    → get s id ≡ some stored
    → get_or_404 kind id s ≡ (ok stored, s)
unfolding get_or_404
get_or_404-found kind id s stored e = rw (e, get_or_404) refl

pub get_or_404-missing :
    (kind : Kind) (id : String) (s : State)
    → get s id ≡ none
    → get_or_404 kind id s ≡ (raised (missing kind id), s)
unfolding get_or_404
get_or_404-missing kind id s e = rw (e, get_or_404) refl

check_mask-state : (kind : Kind) (mask : String) (s : State) → (check_mask kind mask s).1 ≡ s
unfolding check_mask
check_mask-state kind mask s = elim (Bool-cases (nonempty mask)) [
  | inl e ↦ rw (e, check_mask) (ground arith)
  | inr e ↦ rw (e, check_mask) refl
]

check_mask-known :
    (kind : Kind) (mask : String) (s : State) (u : Unit {0})
    → (check_mask kind mask s).0 ≡ ok u
    → unknown_fields kind (mask_fields mask) ≡ []
unfolding check_mask
check_mask-known kind mask s u h =
    is_empty-eq_nil (unknown_fields kind (mask_fields mask)) (ground (arith, h))

-- An update stores one object with updates that respect the mask, or changes nothing.
record IsChange (kind : Kind) (id now : String) (payload : Fields) (mask : String) (resolve : Bool)
    (s after : State) : Type 0 where
  stored : Fields
  found : Fields
  known : get s id ≡ some stored
  allowed : unknown_fields kind (mask_fields mask) ≡ []
  answered : (renamed kind id resolve (masked (mask_fields mask) payload) s).0 ≡ ok found
  written : after ≡ put s id (update (update stored found) (kind.touched now))

change-cases :
    (kind : Kind) (id now : String) (payload : Fields) (body_mask query_mask : Option String)
    (resolve : Bool) (s : State)
    → ((change kind id now payload body_mask query_mask resolve s).1 ≡ s)
      ⊎ IsChange kind id now payload
          (given_mask (or_str body_mask query_mask))
          resolve
          s
          (change kind id now payload body_mask query_mask resolve s).1
unfolding change store_updated
change-cases kind id now payload body_mask query_mask resolve s = elim (Option-cases (get s id)) [
  | inl e ↦ inl (
      ap (λ r. r.1)
        (bind-raised (get_or_404 kind id) found_change s (missing kind id) s
          (get_or_404-missing kind id s e)))
  | inr (stored, e) ↦
      let step =
        ap (λ r. r.1)
          (bind-ok (get_or_404 kind id) found_change s stored s
            (get_or_404-found kind id s stored e)) in
      subst (λ after. (after ≡ s) ⊎ IsChange kind id now payload mask resolve s after) (sym step)
        (checked stored e)
]
  where
    mask : String
    mask = given_mask (or_str body_mask query_mask)

    rename : Exec State Fields
    rename = renamed kind id resolve (masked (mask_fields mask) payload)

    found_change : Fields → Exec State Fields
    found_change stored = check_mask kind mask >> rename >>= store_updated kind id now stored

    checked :
        (stored : Fields)
        → get s id ≡ some stored
        → ((found_change stored s).1 ≡ s)
          ⊎ IsChange kind id now payload mask resolve s (found_change stored s).1
    checked stored e =
        elim (unwritten-cases (check_mask kind mask) s (check_mask-state kind mask s)) [
          | inr (x, refused) ↦ inl (
              ap (λ r. r.1)
                (bind-raised (check_mask kind mask >> rename) (store_updated kind id now stored) s x
                  s (bind-raised (check_mask kind mask) (λ _. rename) s x s refused)))
          | inl (u, passed) ↦
              let renames = bind-ok (check_mask kind mask) (λ _. rename) s u s passed in
              elim (unwritten-cases rename s
                (renamed-state kind id resolve (masked (mask_fields mask) payload) s)) [
                  | inr (x, refused) ↦ inl (
                      ap (λ r. r.1)
                        (bind-raised (check_mask kind mask >> rename)
                          (store_updated kind id now stored) s x s (renames ∙ refused)))
                  | inl (found, answered) ↦ inr (record {
                    stored = stored;
                    found = found;
                    known = e;
                    allowed = check_mask-known kind mask s u (ap (λ r. r.0) passed);
                    answered = ap (λ r. r.0) answered;
                    written =
                        ap (λ r. r.1)
                          (bind-ok (check_mask kind mask >> rename)
                            (store_updated kind id now stored) s found s (renames ∙ answered));
                  })
                ]
        ]

unknown_fields-contains :
    (kind : Kind) (fs : List String) (f : String)
    → unknown_fields kind fs ≡ []
    → contains kind.updatable f ≡ false
    → f ≢ "*"
    → contains fs f ≡ false
unknown_fields-contains kind [] f h fixed ne = refl
unknown_fields-contains kind (g ∷ fs) f h fixed ne =
    let (here, later) =
      select_nil (λ f. not (contains kind.updatable f) && not (f == "*")) g fs h in
    let rest = unknown_fields-contains kind fs f later fixed ne in ground (arith, here, rest, fixed)

module _ (kind : Kind) (k : IsKind kind) (id now : String) (stored found : Fields) where
  abbrev written_fields : Fields
  written_fields = update (update stored found) (kind.touched now)

  written-id : get found "id" ≡ none → get written_fields "id" ≡ get stored "id"
  written-id no_id =
      get-update-none (update stored found) (kind.touched now) "id" (k.touched_id now)
      ∙ get-update-none stored found "id" no_id

  written-name : get written_fields "display_name" ≡ get (update stored found) "display_name"
  written-name =
      get-update-none (update stored found) (kind.touched now) "display_name" (k.touched_name now)

  written-IsFree :
      (s : State)
      → HasUnique "display_name" s
      → get s id ≡ some stored
      → IsRenamed id s found
      → (name : String) → text_field written_fields "display_name" ≡ some name
      → IsFree "display_name" s id name
  written-IsFree s h known r name named = elim (Option-cases (get found "display_name")) [
    | inl e ↦
        let before =
          sym (ap as_text (written-name ∙ get-update-none stored found "display_name" e)) ∙ named in
        λ j g gj ng used. h.names j id g stored name gj known ng before used
    | inr (v, e) ↦
        let same =
          ap as_text
            (e ∙ sym (written-name ∙ get-update-some stored found "display_name" v r.keys e))
          ∙ named in
        name_taken-IsFree s name id (some id) h (inr refl) (r.free name same)
  ]

masked_named :
    (fields : List String) (payload : Fields)
    → contains fields "*" ≡ false
    → masked fields payload ≡ chosen fields payload []
unfolding masked
masked_named fields payload e = rw e refl

pub change-HasUniqueNames :
    (kind : Kind)
    → IsKind kind
    → (id now : String) (payload : Fields) (body_mask query_mask : Option String) (resolve : Bool)
      (s : State)
    → contains (mask_fields (given_mask (or_str body_mask query_mask))) "*" ≡ false
    → HasUnique "display_name" s
    → HasUnique "display_name" (change kind id now payload body_mask query_mask resolve s).1
change-HasUniqueNames kind k id now payload body_mask query_mask resolve s no_star h =
    elim (change-cases kind id now payload body_mask query_mask resolve s) [
      | inl e ↦ rw e h
      | inr c ↦
          let fields = mask_fields (given_mask (or_str body_mask query_mask)) in
          let updates = chosen fields payload [] in
          let no_id =
            chosen-other fields payload [] "id" (
              unknown_fields-contains kind fields "id" c.allowed k.id_fixed (text_ne "id" "*" refl))
            ∙ get-nil "id" in
          let r =
            renamed-IsRenamed kind id resolve updates s c.found
              (chosen-NodupKeys fields payload [] tt) no_id
              (rw (masked_named fields payload no_star) at c.answered) in
          rw c.written (
            put-HasUnique "display_name" s id (written_fields kind k id now c.stored c.found) h
              (ap as_text (written-id kind k id now c.stored c.found r.no_id)
                ∙ h.ids id c.stored c.known)
              (written-IsFree kind k id now c.stored c.found s h c.known r))
    ]
