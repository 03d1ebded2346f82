-- ===== src/Objects/Unique.antt =====
-- Two stored objects never share a display name: what a single write has to respect.
use minilake.Prelude.{
  String, ◌≡◌, ◌⊎◌, inl, inr, Bool, true, false, Option, none, some, [], ◌∷◌, arith, any, nonempty,
  string_eq,
}
use minilake.Prelude.Dict.{get-nil, get, put, remove, values, get-put_cases, get-remove_text}
use minilake.Json.{Value, null, bool, int, float, str, list, dict}
use minilake.Names.{Fields, State, is_text, has_name, name_taken}
use minilake.Objects.{as_text, text_field}

-- Every object carries its id, and no two have the same text in an attribute unless it is empty.
pub record HasUnique (attribute : String) (s : State) : Type 0 where
  pub ids :
      (id : String) (fields : Fields) → get s id ≡ some fields → text_field fields "id" ≡ some id
  pub names :
      (i j : String) (f g : Fields) (name : String)
      → get s i ≡ some f
      → get s j ≡ some g
      → text_field f attribute ≡ some name
      → text_field g attribute ≡ some name
      → nonempty name ≡ true
      → i ≡ j

-- No object but this one has the name.
abbrev pub IsFree : String → State → String → String → Type 0
IsFree attribute s id name =
    (j : String) (g : Fields)
    → get s j ≡ some g
    → text_field g attribute ≡ some name
    → nonempty name ≡ true
    → j ≡ id

is_text_same :
    (v : Option Value) (name : String) → as_text v ≡ some name → is_text v (some name) ≡ true
unfolding is_text
is_text_same (some (str t)) name h = ground (arith, h)
is_text_same none name h = absurd (cc h)
is_text_same (some null) name h = absurd (cc h)
is_text_same (some (bool _)) name h = absurd (cc h)
is_text_same (some (int _)) name h = absurd (cc h)
is_text_same (some (float _)) name h = absurd (cc h)
is_text_same (some (list _)) name h = absurd (cc h)
is_text_same (some (dict _)) name h = absurd (cc h)

is_text_other :
    (v : Option Value) (id : String)
    → as_text v ≡ some id
    → (exclude : Option String) → is_text v exclude ≡ true
    → exclude ≡ some id
unfolding is_text
is_text_other (some (str t)) id h none same = absurd (cc same)
is_text_other (some (str t)) id h (some e) same = ground (arith, h, same)
is_text_other none id h exclude same = absurd (cc h)
is_text_other (some null) id h exclude same = absurd (cc h)
is_text_other (some (bool _)) id h exclude same = absurd (cc h)
is_text_other (some (int _)) id h exclude same = absurd (cc h)
is_text_other (some (float _)) id h exclude same = absurd (cc h)
is_text_other (some (list _)) id h exclude same = absurd (cc h)
is_text_other (some (dict _)) id h exclude same = absurd (cc h)

pub any-values :
    (p : Fields → Bool) (s : State) (id : String) (fields : Fields)
    → any p (values s) ≡ false
    → get s id ≡ some fields
    → p fields ≡ false
unfolding values get
any-values p [] id fields h found = absurd (cc found)
any-values p ((j, g) ∷ s) id fields h found = ground (arith, h, found, any-values p s id fields)

-- A name that `name_taken` does not find has at most the excluded object.
pub name_taken-IsFree :
    (s : State) (name id : String) (exclude : Option String)
    → HasUnique "display_name" s
    → (exclude ≡ none) ⊎ (exclude ≡ some id)
    → name_taken s (some name) exclude ≡ false
    → IsFree "display_name" s id name
unfolding name_taken has_name
name_taken-IsFree s name id exclude ok excluded free j g found named used =
    let nobody = any-values (has_name name exclude) s j g (ground (arith, free, used)) found in
    let same =
      is_text_other (get g "id") j (ok.ids j g found) exclude
        (ground (arith, nobody, is_text_same (get g "display_name") name named)) in
    elim excluded [ inl e ↦ absurd (cc (e, same)) | inr e ↦ cc (e, same) ]

pub put-HasUnique :
    (attribute : String) (s : State) (id : String) (fields : Fields)
    → HasUnique attribute s
    → text_field fields "id" ≡ some id
    → ((name : String) → text_field fields attribute ≡ some name → IsFree attribute s id name)
    → HasUnique attribute (put s id fields)
put-HasUnique attribute s id fields ok own free = record {
  ids = λ j g found. elim (get-put_cases s id fields j found) [
    | inl (here, same) ↦ cc (here, same, own)
    | inr (other, before) ↦ ok.ids j g before
  ];
  names = λ i j f g name fi gj nf ng used. elim (get-put_cases s id fields i fi) [
    | inl (here, same) ↦ elim (get-put_cases s id fields j gj) [
      | inl (here', same') ↦ cc (here, here')
      | inr (other', before') ↦ cc (here, free name (cc (same, nf)) j g before' ng used)
    ]
    | inr (other, before) ↦ elim (get-put_cases s id fields j gj) [
      | inl (here', same') ↦ cc (here', free name (cc (same', ng)) i f before nf used)
      | inr (other', before') ↦ ok.names i j f g name before before' nf ng used
    ]
  ];
}

get-remove_before :
    (s : State) (id j : String) (g : Fields) → get (remove s id) j ≡ some g → get s j ≡ some g
get-remove_before s id j g found = ground (arith, found, get-remove_text s id j)

pub remove-HasUnique :
    (attribute : String) (s : State) (id : String)
    → HasUnique attribute s
    → HasUnique attribute (remove s id)
remove-HasUnique attribute s id ok = record {
  ids = λ j g found. ok.ids j g (get-remove_before s id j g found);
  names = λ i j f g name fi gj nf ng used.
      ok.names i j f g name (get-remove_before s id i f fi) (get-remove_before s id j g gj) nf ng
        used;
}

pub nothing-HasUnique : (attribute : String) → HasUnique attribute []
nothing-HasUnique attribute = record {
  ids = λ id fields found. absurd (nowhere id found);
  names = λ i j f g name fi gj nf ng used. absurd (nowhere i fi);
}
  where
    nowhere : (id : String) {fields : Fields} → get [] id ≡ some fields → ⊥
    nowhere id found = cc (get-nil {K = String} {V = Fields} id, found)
