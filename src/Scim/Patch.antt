-- ===== src/Scim/Patch.antt =====
-- `_apply_patch` and `_patch_resource`: a PATCH builds a candidate and stores it only when every
-- operation and the uniqueness check pass.
use minilake.Prelude.{
  String, ◌<>◌, Option, none, some, List, [], ◌∷◌, ◌==◌, string_eq, contains, nonempty,
  if◌then◌else◌,
}
use minilake.Prelude.Dict.{get, put, remove}
use minilake.Json.{
  Value, null, list, dict, Values, no_values, value, Entries, no_entries, entry, opt_value,
}
use minilake.Errors.{Exec, key_error, Result, ok, raised, error}
use minilake.Names.{Fields, State}
use minilake.Scim.{Python, Resource, get_or_404, unique_check, prune_empty}

pub record Operation : Type 0 where
  pub op : String
  pub path : Option String
  pub value_of : Value

-- `_as_list`
abbrev pub as_list : Value → Values
as_list null = no_values
as_list (list vs) = vs
as_list v = value v no_values

abbrev pub append : Values → Values → Values
append no_values later = later
append (value v vs) later = value v (append vs later)

abbrev lookup : Entries → String → Value
lookup no_entries key = null
lookup (entry k v rest) key = let later = lookup rest key in if key == k then v else later

-- `candidate.update(value)` and `for key in value: candidate.pop(key, None)`
unfoldable pub merge : Fields → Entries → Fields
merge fields no_entries = fields
merge fields (entry k v rest) = merge (put fields k v) rest

unfoldable pub pop_all : Fields → Entries → Fields
pop_all fields no_entries = fields
pop_all fields (entry k v rest) = pop_all (remove fields k) rest

-- `path_filter` reads a path of the form `attr[key eq "value"]`; a path of another form has none.
module _ (python : Python) (path_filter : String → Option (String × String × String)) where
  -- `[e for e in current if str(e.get(key)) != wanted]`, none where an entry is no dict
  unfoldable pub without_entries : String → String → Values → Option Values
  without_entries key wanted no_values = some no_values
  without_entries key wanted (value (dict e) vs) = elim (without_entries key wanted vs) [
    | none ↦ none
    | some rest ↦
        some (if python.str_of (lookup e key) == wanted then rest else value (dict e) rest)
  ]
  without_entries key wanted (value _ vs) = none

  -- A path with a filter; an entry or an attribute of the wrong type ends in an uncaught exception,
  -- which stands here as a `key_error`.
  unfoldable pub apply_filtered : String → String × String × String → Value → Fields → Result Fields
  apply_filtered op (attr, key, wanted) v candidate =
      elim (python.entries (opt_value (get candidate attr))) [
        | none ↦ raised (key_error attr)
        | some current ↦
            if op == "remove"
            then stored (without_entries key wanted current)
            else ok (put candidate attr (list (append current (as_list v))))
      ]
    where
      stored : Option Values → Result Fields
      stored none = raised (key_error attr)
      stored (some vs) = ok (put candidate attr (list vs))

  unfoldable pub apply_whole : String → Value → Fields → Result Fields
  apply_whole op (dict entries) candidate =
      if op == "remove" then ok (pop_all candidate entries) else ok (merge candidate entries)
  apply_whole op _ candidate = raised (
      error "INVALID_PARAMETER_VALUE" "A PATCH operation without a path must carry an object value"
        400)

  unfoldable pub apply_path : String → String → Value → Fields → Fields
  apply_path op path v candidate =
      if op == "remove"
      then remove candidate path
      else if op == "add"
      then added (get candidate path)
      else put candidate path v
    where
      added : Option Value → Fields
      added (some (list vs)) = put candidate path (list (append vs (as_list v)))
      added _ = put candidate path v

  -- A path that is empty has no filter either, but is a path.
  abbrev filter_of : String → Option (String × String × String)
  filter_of path = if nonempty path then path_filter path else none

  unfoldable pub apply_known : String → Option String → Value → Fields → Result Fields
  apply_known op none v candidate = apply_whole op v candidate
  apply_known op (some path) v candidate = elim (filter_of path) [
    | some found ↦ apply_filtered op found v candidate
    | none ↦ ok (apply_path op path v candidate)
  ]

  abbrev op_of : Operation → String
  op_of o = python.lower o.op

  unfoldable pub apply_operation : Operation → Fields → Result Fields
  apply_operation o candidate =
      if contains ("add" ∷ "remove" ∷ "replace" ∷ []) (op_of o)
      then apply_known (op_of o) o.path o.value_of candidate
      else raised (error "INVALID_PARAMETER_VALUE" ("Unsupported PATCH op '" <> o.op <> "'") 400)

  unfoldable pub apply_operations : List Operation → Fields → Result Fields
  apply_operations [] candidate = ok candidate
  apply_operations (o ∷ os) candidate = elim (apply_operation o candidate) [
    | raised x ↦ raised x
    | ok changed ↦ apply_operations os changed
  ]

  unfoldable pub checked : Resource → Fields → State → Fields → Result Fields
  checked resource stored s candidate =
      elim (unique_check python resource (opt_value (get candidate resource.unique))
        (opt_value (get stored "id")) s) [ raised x ↦ raised x | ok _ ↦ ok (prune_empty candidate) ]

  unfoldable pub apply_patch : Resource → Fields → List Operation → State → Result Fields
  apply_patch resource stored [] s =
      raised (error "INVALID_PARAMETER_VALUE" "PATCH body must contain at least one operation" 400)
  apply_patch resource stored (o ∷ os) s = elim (apply_operations (o ∷ os) stored) [
    | raised x ↦ raised x
    | ok candidate ↦ checked resource stored s candidate
  ]

  unfoldable pub patch_resource : Resource → String → List Operation → Exec State Fields
  patch_resource resource id operations s = elim (get_or_404 resource id s).0 [
    | raised x ↦ (raised x, s)
    | ok stored ↦ elim (apply_patch resource stored operations s) [
      | raised x ↦ (raised x, s)
      | ok candidate ↦ (ok candidate, put s id candidate)
    ]
  ]
