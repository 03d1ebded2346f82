-- ===== src/Objects/Legacy.antt =====
-- services/preview_sql.py, as far as it writes the saved queries and the alerts: the translation of
-- a legacy body, the update without an update mask, and the trash. What Python makes of a JSON value is
-- a parameter; an `op` that cannot be hashed is left out.
use minilake.Prelude.{
  String, Bool, true, false, Option, none, some, List, [], ◌∷◌, ◌++◌, string_eq, is_empty, get_or,
  if◌then◌else◌,
}
use minilake.Prelude.Dict.{Dict, get, put, update}
use minilake.Json.{Value, null, bool, int, float, str, dict, Entries, no_entries, entry}
use minilake.Errors.{Exec, Result, attribute_error, ok, raised}
use minilake.Names.{Fields, State}
use minilake.Objects.{Kind, missing}

-- `bool(v)`, `str(v)`, `float(v)` of a number, and `str.upper`
pub record Conversions : Type 0 where
  pub truthy : Value → Bool
  pub text_of : Value → String
  pub float_of : Value → Value
  pub upper : String → String

unfoldable pub fields_of : Entries → Fields
fields_of no_entries = []
fields_of (entry key v rest) = (key, v) ∷ fields_of rest

entries_of : Fields → Entries
entries_of [] = no_entries
entries_of ((key, v) ∷ rest) = entry key v (entries_of rest)

-- `if legacy in body: mapped[modern] = body[legacy]`, for each pair of names
unfoldable pub copied : List (String × String) → Fields → Fields → Fields
copied [] body mapped = mapped
copied ((legacy, modern) ∷ names) body mapped = elim (get body legacy) [
  | none ↦ copied names body mapped
  | some v ↦ copied names body (put mapped modern v)
]

abbrev pub query_names : List (String × String)
query_names =
    ("name", "display_name")
    ∷ ("description", "description")
    ∷ ("query", "query_text")
    ∷ ("data_source_id", "warehouse_id")
    ∷ ("tags", "tags")
    ∷ ("options", "options")
    ∷ []

unfoldable pub legacy_to_query : Fields → Fields
unfolding copied
legacy_to_query body = copied query_names body []

abbrev pub alert_names : List (String × String)
alert_names =
    ("name", "display_name") ∷ ("query_id", "query_id") ∷ ("rearm", "seconds_to_retrigger") ∷ []

-- `_LEGACY_TO_MODERN_OP`
abbrev pub modern_ops : Dict String String
modern_ops =
    (">", "GREATER_THAN")
    ∷ (">=", "GREATER_THAN_OR_EQUAL")
    ∷ ("<", "LESS_THAN")
    ∷ ("<=", "LESS_THAN_OR_EQUAL")
    ∷ ("==", "EQUAL")
    ∷ ("=", "EQUAL")
    ∷ ("!=", "NOT_EQUAL")
    ∷ []

abbrev pub is_null : Value → Bool
is_null null = true
is_null v = false

-- `if options.get(key) is not None: mapped[key] = options[key]`
unfoldable pub given_text : String → Fields → Fields → Fields
given_text key options mapped = elim (get options key) [
  | none ↦ mapped
  | some v ↦ if is_null v then mapped else put mapped key v
]

module _ (c : Conversions) where
  unfoldable pub modern_op : Value → String
  modern_op (str op) = get_or (get modern_ops op) (c.upper op)
  modern_op v = c.upper (c.text_of v)

  unfoldable pub threshold_of : Option Value → Fields
  threshold_of none = []
  threshold_of (some null) = []
  threshold_of (some (bool b)) = ("bool_value", bool b) ∷ []
  threshold_of (some (int n)) = ("double_value", c.float_of (int n)) ∷ []
  threshold_of (some (float t)) = ("double_value", c.float_of (float t)) ∷ []
  threshold_of (some v) = ("string_value", str (c.text_of v)) ∷ []

  unfoldable pub condition_of : Fields → Fields
  unfolding modern_op threshold_of entries_of
  condition_of options =
      (elim (get options "op") [
        | none ↦ []
        | some v ↦ if c.truthy v then ("op", str (modern_op v)) ∷ [] else []
      ])
      ++ (elim (get options "column") [
        | none ↦ []
        | some v ↦
            if c.truthy v
            then ("operand", dict (entry "column" (dict (entry "name" v no_entries)) no_entries))
              ∷ []
            else []
      ])
      ++ (let threshold = threshold_of (get options "value") in
          if is_empty threshold
          then []
          else ("threshold", dict (entry "value" (dict (entries_of threshold)) no_entries)) ∷ [])

  -- `body.get("options") or {}`, on which `.get` is called where it counts as true
  unfoldable pub options_of : Option Value → Result Fields
  unfolding fields_of
  options_of none = ok []
  options_of (some (dict entries)) = ok (fields_of entries)
  options_of (some v) = if c.truthy v then raised (attribute_error "get") else ok []

  unfoldable pub with_options : Fields → Fields → Fields
  unfolding condition_of given_text entries_of
  with_options options mapped =
      let condition = condition_of options in
      let conditioned =
        if is_empty condition
        then mapped
        else put mapped "condition" (dict (entries_of condition)) in
      given_text "custom_subject" options (given_text "custom_body" options conditioned)

  unfoldable pub legacy_to_alert : Fields → Result Fields
  unfolding options_of with_options copied
  legacy_to_alert body = elim (options_of (get body "options")) [
    | raised x ↦ raised x
    | ok options ↦ ok (with_options options (copied alert_names body []))
  ]

-- `update_query_legacy` and `update_alert_legacy`, by what they make of the body.
unfoldable pub update_legacy :
    Kind → (Fields → Result Fields) → String → String → Fields → Exec State Fields
update_legacy kind translate id now body s = elim (get s id) [
  | none ↦ (raised (missing kind id), s)
  | some stored ↦ elim (translate body) [
    | raised x ↦ (raised x, s)
    | ok mapped ↦
        let updated = put (update stored mapped) "update_time" (str now) in
        (ok updated, put s id updated)
  ]
]

-- `trash_query_legacy` and `restore_query_legacy` differ in the state that they write.
unfoldable pub set_lifecycle : Kind → String → String → Exec State (Unit {0})
set_lifecycle kind lifecycle id s = elim (get s id) [
  | none ↦ (raised (missing kind id), s)
  | some stored ↦ (ok tt, put s id (put stored "lifecycle_state" (str lifecycle)))
]
