-- ===== src/Scim/Uniqueness.antt =====
-- The helpers of SCIM keep the unique attribute of a resource apart.
use minilake.Prelude.{
  String, ◌≡◌, ◌≢◌, ◌⊎◌, inl, inr, refl, ◌∙◌, subst, true, false, Option, none, some, List, [], ◌∷◌,
  arith, ◌==◌, string_eq, nonempty, contains, not_contains, not,
}
use minilake.Prelude.Dict.{get, put, get-put_there, get-remove_text}
use minilake.Json.{
  Value, null, bool, int, float, str, list, dict, Values, no_values, value, opt_value,
}
use minilake.Errors.{ok}
use minilake.Names.{Fields, State}
use minilake.Objects.{as_text, text_field}
use minilake.Objects.Unique.{HasUnique, IsFree, any-values, put-HasUnique}
use minilake.Scim.{
  Python, Resource, put_kept, prune_found, kept_values, prune, prune_all, prune_empty, multi_valued,
  clashes, unique_check,
}

-- What Python does with texts: `==`, `is None` and whether a text counts as true.
pub record IsPython (python : Python) : Type 0 where
  pub same_text : (a b : String) → python.same (str a) (str b) ≡ (a == b)
  pub same_null : (a : String) → python.same (str a) null ≡ false
  pub truthy_text : (a : String) → python.truthy (str a) ≡ nonempty a

-- The unique attribute is neither multi-valued nor the id.
pub record IsResource (resource : Resource) : Type 0 where
  pub single : contains multi_valued resource.unique ≡ false
  pub not_id : resource.unique ≢ "id"

pub as_text-str : (v : Option Value) (s : String) → as_text v ≡ some s → v ≡ some (str s)
as_text-str (some (str t)) s h = cc h
as_text-str none s h = absurd (cc h)
as_text-str (some null) s h = absurd (cc h)
as_text-str (some (bool _)) s h = absurd (cc h)
as_text-str (some (int _)) s h = absurd (cc h)
as_text-str (some (float _)) s h = absurd (cc h)
as_text-str (some (list _)) s h = absurd (cc h)
as_text-str (some (dict _)) s h = absurd (cc h)

put_kept-other :
    (payload : Fields) (attribute key : String) (vs : Values)
    → key ≢ attribute
    → get (put_kept payload attribute vs) key ≡ get payload key
unfolding put_kept
put_kept-other payload attribute key no_values other =
    ground (arith, other, get-remove_text payload attribute key)
put_kept-other payload attribute key (value v vs) other =
    get-put_there payload attribute (list (value v vs)) key other

prune_found-other :
    (payload : Fields) (attribute key : String) (v : Option Value)
    → key ≢ attribute
    → get (prune_found payload attribute v) key ≡ get payload key
unfolding prune_found
prune_found-other payload attribute key (some (list vs)) other =
    put_kept-other payload attribute key (kept_values vs) other
prune_found-other payload attribute key none other = refl
prune_found-other payload attribute key (some null) other = refl
prune_found-other payload attribute key (some (bool _)) other = refl
prune_found-other payload attribute key (some (int _)) other = refl
prune_found-other payload attribute key (some (float _)) other = refl
prune_found-other payload attribute key (some (str _)) other = refl
prune_found-other payload attribute key (some (dict _)) other = refl

prune-other :
    (payload : Fields) (attribute key : String)
    → key ≢ attribute
    → get (prune payload attribute) key ≡ get payload key
unfolding prune
prune-other payload attribute key other =
    prune_found-other payload attribute key (get payload attribute) other

prune_all-other :
    (attributes : List String) (payload : Fields) (key : String)
    → contains attributes key ≡ false
    → get (prune_all attributes payload) key ≡ get payload key
unfolding prune_all
prune_all-other [] payload key h = refl
prune_all-other (a ∷ attributes) payload key h =
    let (differ, later) = not_contains a key attributes h in
    prune_all-other attributes (prune payload a) key later ∙ prune-other payload a key differ

pub prune_empty-other :
    (payload : Fields) (key : String)
    → contains multi_valued key ≡ false
    → get (prune_empty payload) key ≡ get payload key
unfolding prune_empty
prune_empty-other payload key h = prune_all-other multi_valued payload key h

module _ (python : Python) (p : IsPython python) (resource : Resource) where
  clashes-texts :
      (name id : String) (exclude : Value) (stored : Fields)
      → get stored resource.unique ≡ some (str name)
      → get stored "id" ≡ some (str id)
      → clashes python resource (str name) exclude stored ≡ not (python.same (str id) exclude)
  unfolding clashes
  clashes-texts name id exclude stored named known =
      rw (named, known, p.same_text name name) (ground arith)

  -- A check that passes leaves the text to at most the excluded resource.
  unique_check-IsFree :
      (s : State) (name id : String) (exclude : Value) (u : Unit {0})
      → HasUnique resource.unique s
      → (exclude ≡ null) ⊎ (exclude ≡ str id)
      → unique_check python resource (str name) exclude s ≡ ok u
      → IsFree resource.unique s id name
  unfolding unique_check
  unique_check-IsFree s name id exclude u h excluded passed j g found named used =
      let same =
        clashes-texts name j exclude g (as_text-str (get g resource.unique) name named)
          (as_text-str (get g "id") j (h.ids j g found)) in
      let nobody =
        any-values (clashes python resource (str name) exclude) s j g
          (ground (arith, passed, p.truthy_text name, used)) found in
      let equal : python.same (str j) exclude ≡ true = ground (arith, same, nobody) in
      elim excluded [
        | inl none_excluded ↦
            absurd (never (subst (λ e. python.same (str j) e ≡ true) none_excluded equal))
        | inr this ↦ known_by (subst (λ e. python.same (str j) e ≡ true) this equal)
      ]
    where
      never : python.same (str j) null ≡ true → ⊥
      never e = cc (e, p.same_null j)

      known_by : python.same (str j) (str id) ≡ true → j ≡ id
      known_by e = ground (arith, e, p.same_text j id)

  -- A resource that is stored after a check that passes.
  pub put_checked :
      (s : State) (id : String) (exclude : Value) (payload : Fields) (u : Unit {0})
      → HasUnique resource.unique s
      → (exclude ≡ null) ⊎ (exclude ≡ str id)
      → text_field payload "id" ≡ some id
      → unique_check python resource (opt_value (get payload resource.unique)) exclude s ≡ ok u
      → HasUnique resource.unique (put s id payload)
  put_checked s id exclude payload u h excluded own passed =
      put-HasUnique resource.unique s id payload h own (λ name named.
        unique_check-IsFree s name id exclude u h excluded (
          subst (λ v. unique_check python resource (opt_value v) exclude s ≡ ok u)
            (as_text-str (get payload resource.unique) name named) passed))
