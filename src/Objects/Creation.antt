-- ===== src/Objects/Creation.antt =====
-- Creation under a name that is free.
use minilake.Prelude.{
  String, ◌≡◌, ◌⊎◌, inl, inr, sym, Bool, true, false, Option, none, some, arith, text_ne, subst,
  string_eq, refl, ap, ◌∙◌, contains,
}
use minilake.Prelude.Dict.{get, put, update, get-put_here, get-put_there, get-update-none}
use minilake.Json.{str, opt_str}
use minilake.Errors.{unwritten-cases, ok, bind-ok, bind-raised}
use minilake.Names.{Fields, State, name_taken, resolve_name}
use minilake.Names.Fresh.{resolve_name-IsResolved}
use minilake.Objects.{Kind, as_text, text_field, new_name, created_fields, store_new, create}
use minilake.Objects.Unique.{HasUnique, name_taken-IsFree, put-HasUnique}

-- The fields that a service fills in by itself are neither the id nor the display name, and no mask
-- may name the id.
pub record IsKind (kind : Kind) : Type 0 where
  pub id_fixed : contains kind.updatable "id" ≡ false
  pub created_id : get kind.created "id" ≡ none
  pub created_name : get kind.created "display_name" ≡ none
  pub touched_id : (now : String) → get (kind.touched now) "id" ≡ none
  pub touched_name : (now : String) → get (kind.touched now) "display_name" ≡ none

pub resolve_name-free :
    (kind : Kind) (s : State) (name exclude : Option String)
    → name_taken s (some (resolve_name kind.fallback s name exclude)) exclude ≡ false
resolve_name-free kind s name exclude = (resolve_name-IsResolved kind.fallback s name exclude).0

-- What `new_name` answers is free.
new_name-free :
    (kind : Kind) (name : Option String) (resolve : Bool) (s : State) (found : Option String)
    → (new_name kind name resolve s).0 ≡ ok found
    → name_taken s found none ≡ false
unfolding new_name
new_name-free kind name true s found h =
    subst (λ n. name_taken s n none ≡ false) (answered found h) (resolve_name-free kind s name none)
  where
    answered :
        (found : Option String)
        → ok (some (resolve_name kind.fallback s name none)) ≡ ok found
        → some (resolve_name kind.fallback s name none) ≡ found
    answered found e = cc e
new_name-free kind name false s found h = ground (arith, h)

new_name-state :
    (kind : Kind) (name : Option String) (resolve : Bool) (s : State)
    → (new_name kind name resolve s).1 ≡ s
unfolding new_name
new_name-state kind name true s = refl
new_name-state kind name false s = ground arith

created_fields-id :
    (kind : Kind)
    → IsKind kind
    → (id now : String) (payload : Fields) (name : Option String)
    → get (created_fields kind id now payload name) "id" ≡ some (str id)
unfolding created_fields
created_fields-id kind k id now payload name =
    rw
      (
        get-put_there
            (put
              (update (put (put payload "id" (str id)) "display_name" (opt_str name)) kind.created)
              "create_time" (str now))
            "update_time" (str now) "id" (text_ne "id" "update_time" refl),
        get-put_there
            (update (put (put payload "id" (str id)) "display_name" (opt_str name)) kind.created)
            "create_time" (str now) "id" (text_ne "id" "create_time" refl),
        get-update-none (put (put payload "id" (str id)) "display_name" (opt_str name)) kind.created
            "id" k.created_id,
        get-put_there (put payload "id" (str id)) "display_name" (opt_str name) "id"
            (text_ne "id" "display_name" refl),
      )
      (get-put_here payload "id" (str id))

created_fields-name :
    (kind : Kind)
    → IsKind kind
    → (id now : String) (payload : Fields) (name : Option String)
    → get (created_fields kind id now payload name) "display_name" ≡ some (opt_str name)
unfolding created_fields
created_fields-name kind k id now payload name =
    rw
      (
        get-put_there
            (put
              (update (put (put payload "id" (str id)) "display_name" (opt_str name)) kind.created)
              "create_time" (str now))
            "update_time" (str now) "display_name" (text_ne "display_name" "update_time" refl),
        get-put_there
            (update (put (put payload "id" (str id)) "display_name" (opt_str name)) kind.created)
            "create_time" (str now) "display_name" (text_ne "display_name" "create_time" refl),
        get-update-none (put (put payload "id" (str id)) "display_name" (opt_str name)) kind.created
            "display_name" k.created_name,
      )
      (get-put_here (put payload "id" (str id)) "display_name" (opt_str name))

-- Creation stores one object under a name that is free, or changes nothing.
create-state :
    (kind : Kind) (id now : String) (payload : Fields) (resolve : Bool) (s : State)
    → ((create kind id now payload resolve s).1 ≡ s)
      ⊎ (found : Option String) × (name_taken s found none ≡ false)
        × ((create kind id now payload resolve s).1
            ≡ put s id (created_fields kind id now payload found))
unfolding create store_new
create-state kind id now payload resolve s =
    let name = new_name kind (text_field payload "display_name") resolve in
    let store = store_new kind id now payload in
    elim (unwritten-cases name s
      (new_name-state kind (text_field payload "display_name") resolve s)) [
        | inr (x, e) ↦ inl (ap (λ r. r.1) (bind-raised name store s x s e))
        | inl (found, e) ↦ inr (
          found,
          new_name-free kind (text_field payload "display_name") resolve s found (ap (λ r. r.0) e),
          ap (λ r. r.1) (bind-ok name store s found s e),
        )
      ]

as_text-opt_str :
    (name : Option String) (found : String)
    → as_text (some (opt_str name)) ≡ some found
    → name ≡ some found
as_text-opt_str none found h = absurd (cc h)
as_text-opt_str (some name) found h = h

pub create-HasUniqueNames :
    (kind : Kind)
    → IsKind kind
    → (id now : String) (payload : Fields) (resolve : Bool) (s : State) → HasUnique "display_name" s
    → HasUnique "display_name" (create kind id now payload resolve s).1
create-HasUniqueNames kind k id now payload resolve s h =
    elim (create-state kind id now payload resolve s) [
      | inl e ↦ rw e h
      | inr (found, free, e) ↦ rw e (
          put-HasUnique "display_name" s id (created_fields kind id now payload found) h
            (ap as_text (created_fields-id kind k id now payload found))
            (λ name named. name_taken-IsFree s name id none h (inl refl) (
              subst (λ n. name_taken s n none ≡ false)
                (as_text-opt_str found name
                  (sym (ap as_text (created_fields-name kind k id now payload found)) ∙ named))
                free)))
    ]
