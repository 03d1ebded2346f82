-- ===== src/UnityCatalog/Functions.antt =====
-- The handlers on functions, and the macro behind a SQL function. The payload of a request is its
-- dict, whose names are texts. Where Python raises a TypeError or an AttributeError on the shape of
-- the parameters, `value_error` stands for it. `is_valid` says whether pydantic's FunctionInfo accepts
-- what a handler returns, and `upper` is `str.upper`.
use minilake.Prelude.{
  ℕ, String, ◌<>◌, Bool, true, false, not, ◌&&◌, Option, none, some, List, [], ◌∷◌, ◌==◌, string_eq,
  nonempty, leb, if◌then◌else◌,
}
use minilake.Prelude.Int.{ℤ, pos, negsuc}
use minilake.Prelude.Dict.{get, has, put, remove, update}
use minilake.Text.{strip, join}
use minilake.Json.{
  Value, null, int, str, list, dict, Values, no_values, value, Entries, no_entries, entry,
}
use minilake.Errors.{
  Exec, Exception, Result, ok, raised, pure, lift, ◌>>=◌, ◌>>◌, raise_if, error, key_error,
  value_error, invalid_response,
}
use minilake.Names.{Fields}
use minilake.Objects.{text_field}
use minilake.ColumnTypes.Specs.{validate_identifier}
use minilake.UnityCatalog.State.{
  World, State, trying, registered, register, requiring, look_up, with_pool,
}
use minilake.UnityCatalog.Tables.{full_name_of}

abbrev given : Option String → String
given none = ""
given (some s) = s

find_entry : Entries → String → Option Value
find_entry no_entries k = none
find_entry (entry j v es) k = if k == j then some v else find_entry es k

leb_int : ℤ → ℤ → Bool
leb_int (pos a) (pos b) = leb a b
leb_int (pos a) (negsuc b) = false
leb_int (negsuc a) (pos b) = true
leb_int (negsuc a) (negsuc b) = leb b a

-- `p.get("position") or 0`
unfoldable pub position_of : Entries → Result ℤ
unfolding find_entry
position_of p = elim (find_entry p "position") [
  | none ↦ ok (pos 0)
  | some null ↦ ok (pos 0)
  | some (int n) ↦ ok n
  | _ ↦ raised (value_error "position")
]

-- The parameters with their positions, in a stable order.
insert_by_position : ℤ × Entries → List (ℤ × Entries) → List (ℤ × Entries)
insert_by_position (n, p) [] = (n, p) ∷ []
insert_by_position (n, p) ((m, q) ∷ rest) =
    let later = insert_by_position (n, p) rest in
    if leb_int n m then (n, p) ∷ (m, q) ∷ rest else (m, q) ∷ later

unfoldable pub by_position : Values → Result (List (ℤ × Entries))
unfolding position_of insert_by_position leb_int
by_position no_values = ok []
by_position (value (dict p) ps) =
    let later = by_position ps in
    elim (position_of p) [
      | raised x ↦ raised x
      | ok n ↦ elim later [ raised x ↦ raised x | ok rest ↦ ok (insert_by_position (n, p) rest) ]
    ]
by_position (value _ ps) = raised (value_error "parameters")

unfoldable pub parameter_names : List (ℤ × Entries) → Result (List String)
unfolding find_entry
parameter_names [] = ok []
parameter_names ((n, p) ∷ ps) =
    let later = parameter_names ps in
    elim (find_entry p "name") [
      | none ↦ raised (key_error "name")
      | some (str name) ↦ elim later [ raised x ↦ raised x | ok names ↦ ok (name ∷ names) ]
      | some _ ↦ raised (value_error "name")
    ]

-- `((function.get("input_params") or {}).get("parameters")) or []`
unfoldable pub parameters_of : Fields → Result Values
unfolding find_entry
parameters_of function = elim (get function "input_params") [
  | none ↦ ok no_values
  | some null ↦ ok no_values
  | some (dict es) ↦ elim (find_entry es "parameters") [
    | none ↦ ok no_values
    | some null ↦ ok no_values
    | some (list ps) ↦ ok ps
    | some _ ↦ raised (value_error "parameters")
  ]
  | some _ ↦ raised (value_error "input_params")
]

-- `_macro_signature`
unfoldable pub macro_signature : Fields → Result String
unfolding by_position parameter_names parameters_of
macro_signature function = elim (parameters_of function) [
  | raised x ↦ raised x
  | ok ps ↦ elim (by_position ps) [
    | raised x ↦ raised x
    | ok ordered ↦ elim (parameter_names ordered) [
      | raised x ↦ raised x
      | ok names ↦
          ok ("\"" <> given (text_field function "name") <> "\"(" <> join ", " names <> ")")
    ]
  ]
]

-- The fields that `create_function` adds to the payload.
unfoldable pub new_function : String → ℕ → String → Fields → Fields
new_function function_id now full_name payload = update payload (
    ("full_name", str full_name)
    ∷ ("function_id", str function_id)
    ∷ ("metastore_id", str "00000000-0000-0000-0000-0000000000m1")
    ∷ (
      "specific_name",
      str (
          if nonempty (given (text_field payload "specific_name"))
          then given (text_field payload "specific_name")
          else given (text_field payload "name")),
    )
    ∷ ("owner", str "minilake-user")
    ∷ ("created_at", int (pos now))
    ∷ ("created_by", str "minilake-user")
    ∷ ("updated_at", int (pos now))
    ∷ ("updated_by", str "minilake-user")
    ∷ [])

abbrev pub function_not_found : String → Exception
function_not_found full_name =
    error "RESOURCE_DOES_NOT_EXIST" ("Function '" <> full_name <> "' does not exist") 404

module _ {W : Type 0} (world : World W) (is_valid : Fields → Bool) where
  -- `_create_duckdb_macro`: what DuckDB cannot express is only logged, but a parameter without a name
  -- raises.
  unfoldable pub create_duckdb_macro : (String → String) → Fields → Exec (State W) (Unit {0})
  unfolding macro_signature
  create_duckdb_macro upper function =
      let definition = strip (given (text_field function "routine_definition")) in
      if upper (given (text_field function "routine_body")) == "SQL" && nonempty definition
      then with_pool world
          (do
            signature ← lift (macro_signature function)
            trying (
                world.execute (
                  "CREATE OR REPLACE MACRO \""
                  <> given (text_field function "catalog_name")
                  <> "\".\""
                  <> given (text_field function "schema_name")
                  <> "\"."
                  <> signature
                  <> " AS ("
                  <> definition
                  <> ")"))
            pure tt)
          (pure tt)
      else pure tt

  unfoldable pub drop_duckdb_macro : Fields → Exec (State W) (Unit {0})
  drop_duckdb_macro function =
      with_pool world
        (trying (
            world.execute (
              "DROP MACRO IF EXISTS \""
              <> given (text_field function "catalog_name")
              <> "\".\""
              <> given (text_field function "schema_name")
              <> "\".\""
              <> given (text_field function "name")
              <> "\""))
          >> pure tt)
        (pure tt)

  abbrev info_of : Fields → Exec (State W) Fields
  info_of function = lift (if is_valid function then ok function else raised invalid_response)

  unfoldable pub create_function : (String → String) → String → ℕ → Fields → Exec (State W) Fields
  unfolding create_duckdb_macro
  create_function upper function_id now payload =
      let name = given (text_field payload "name") in
      let catalog_name = given (text_field payload "catalog_name") in
      let schema_name = given (text_field payload "schema_name") in
      let full_name = full_name_of catalog_name schema_name name in
      let function = new_function function_id now full_name payload in
      do
        raise_if (not (nonempty name && nonempty catalog_name && nonempty schema_name))
            (error "INVALID_PARAMETER_VALUE" "name, catalog_name and schema_name are required" 400)
        lift (validate_identifier name "function")
        requiring (λ r. has r.schemas (catalog_name <> "." <> schema_name))
            (error "INVALID_REQUEST"
              ("Schema '" <> catalog_name <> "." <> schema_name <> "' does not exist") 400)
            (do
              r ← registered
              raise_if (has r.functions full_name)
                  (error "ALREADY_EXISTS" ("Function '" <> full_name <> "' already exists") 409)
              register (λ r. record r { functions = put r.functions full_name function })
              create_duckdb_macro upper function
              info_of function)

  unfoldable pub function_or_404 : String → Exec (State W) Fields
  function_or_404 full_name =
      look_up (λ r. get r.functions full_name) (function_not_found full_name)

  unfoldable pub get_function : String → Exec (State W) Fields
  unfolding function_or_404
  get_function full_name = do function ← function_or_404 full_name; info_of function

  unfoldable pub update_function : ℕ → String → Option String → Exec (State W) Fields
  unfolding function_or_404
  update_function now full_name owner = do
    function ← function_or_404 full_name
    let owned : Fields = elim owner [
      | none ↦ function
      | some name ↦ put function "owner" (str name)
    ]
    let changed = put owned "updated_at" (int (pos now))
    register (λ r. record r { functions = put r.functions full_name changed })
    info_of changed

  unfoldable pub delete_function : String → Exec (State W) (Unit {0})
  unfolding function_or_404 drop_duckdb_macro
  delete_function full_name = do
    function ← function_or_404 full_name
    drop_duckdb_macro function
    register (λ r. record r { functions = remove r.functions full_name })
