-- ===== src/Alerts/Evaluation.antt =====
-- The evaluation of an alert: its query is run and its condition is compared with the first row.
use minilake.Prelude.{
  String, ◌<>◌, Bool, true, false, not, ◌&&◌, ◌||◌, Option, none, some, List, [], ◌∷◌, ◌==◌,
  string_eq, nonempty, if◌then◌else◌,
}
use minilake.Prelude.Dict.{Dict, get, put}
use minilake.Text.{strip, join}
use minilake.Json.{Value, null, str, dict, Entries, no_entries, entry, opt_value}
use minilake.Errors.{Exec, Result, ok, raised, error, pure, ◌>>=◌, ◌>>◌, modify, lift}
use minilake.Names.{Fields, State}
use minilake.Objects.{text_field}
use minilake.SavedQueries.{resolve_query_for_execution}
use minilake.Alerts.{get_alert_or_404}

-- What the code asks of the values that the engine returns and of Python's numbers: a value of a row
-- or a threshold as a number, as a text and as a Boolean, and the orders of numbers and texts.
pub record Values (V : Type 0) (F : Type 0) : Type 0 where
  pub is_none : V → Bool
  pub is_bool : V → Bool
  pub to_bool : V → Bool
  pub to_float : V → Option F
  pub to_str : V → String
  pub threshold_of : Value → V
  pub float_eq : F → F → Bool
  pub float_lt : F → F → Bool
  pub str_lt : String → String → Bool

-- `(d or {}).get(key)` on a value that is a dict where it is not absent
abbrev pub field : Value → String → Value
field (dict entries) key = found entries
  where
    found : Entries → Value
    found no_entries = null
    found (entry k v rest) = let later = found rest in if key == k then v else later
field _ key = null

abbrev is_null : Value → Bool
is_null null = true
is_null _ = false

-- `threshold.value.{double,string,bool}_value`, the first that is there
unfoldable pub threshold_value : Value → Option Value
threshold_value condition =
    let value = field (field condition "threshold") "value" in
    first (field value "double_value")
      (first (field value "string_value") (last (field value "bool_value")))
  where
    last : Value → Option Value
    last v = if is_null v then none else some v

    first : Value → Option Value → Option Value
    first v later = if is_null v then later else some v

-- `AlertEvaluation`; its message is left out.
pub record AlertEvaluation (V : Type 0) : Type 0 where
  pub state : String
  pub triggered : Bool
  pub column : Option String
  pub observed : Option V
  pub threshold : Option Value
  pub row : Option (Dict String V)

-- The two sides of a comparison once `_coerce_for_compare` has made them comparable.
pub data Sides (F : Type 0) : Type 0 where
  bools : Bool → Bool → Sides F
  floats : F → F → Sides F
  texts : String → String → Sides F

-- The comparison of a key of `_COMPARATORS`, from how the sides compare.
unfoldable pub comparator : String → Option (Bool → Bool → Bool → Bool)
comparator op =
    if op == "EQUAL"
    then some (λ less same more. same)
    else if op == "NOT_EQUAL"
    then some (λ less same more. not same)
    else if op == "GREATER_THAN"
    then some (λ less same more. more)
    else if op == "GREATER_THAN_OR_EQUAL"
    then some (λ less same more. more || same)
    else if op == "LESS_THAN"
    then some (λ less same more. less)
    else if op == "LESS_THAN_OR_EQUAL"
    then some (λ less same more. less || same)
    else none

-- `dict(zip(columns, row))`
unfoldable pub row_dict {ℓ} : {V : Type ℓ} → List String → List V → Dict String V → Dict String V
row_dict [] row into = into
row_dict (c ∷ columns) [] into = into
row_dict (c ∷ columns) (v ∷ row) into = row_dict columns row (put into c v)

module _ {V F : Type 0} (values : Values V F) where
  unfoldable pub coerce_for_compare : V → V → Sides F
  coerce_for_compare observed threshold =
      if values.is_bool observed || values.is_bool threshold
      then bools (values.to_bool observed) (values.to_bool threshold)
      else sides (values.to_float observed) (values.to_float threshold)
    where
      sides : Option F → Option F → Sides F
      sides (some a) (some b) = floats a b
      sides _ _ = texts (values.to_str observed) (values.to_str threshold)

  unfoldable pub compare_sides : (Bool → Bool → Bool → Bool) → Sides F → Bool
  compare_sides f (bools true b) = f false b (not b)
  compare_sides f (bools false b) = f b (not b) false
  compare_sides f (floats a b) = f (values.float_lt a b) (values.float_eq a b) (values.float_lt b a)
  compare_sides f (texts a b) = f (values.str_lt a b) (a == b) (values.str_lt b a)

  -- Whether the condition holds of the value that the first row has in its column.
  unfoldable pub is_triggered : String → V → Option Value → Result Bool
  is_triggered op observed threshold =
      if op == "IS_NULL"
      then ok (values.is_none observed)
      else if op == "IS_NOT_NULL"
      then ok (not (values.is_none observed))
      else elim (comparator op) [
        | none ↦ raised (
            error "INVALID_PARAMETER_VALUE" ("Unsupported alert condition operator '" <> op <> "'")
              400)
        | some f ↦ ok (holds f threshold)
      ]
    where
      holds : (Bool → Bool → Bool → Bool) → Option Value → Bool
      holds f none = false
      holds f (some t) =
          if values.is_none observed
          then false
          else compare_sides f (coerce_for_compare observed (values.threshold_of t))

  abbrev pub without_row : String → AlertEvaluation V
  without_row state = record {
    state = state;
    triggered = state == "TRIGGERED";
    column = none;
    observed = none;
    threshold = none;
    row = none;
  }

  abbrev pub without_condition : Dict String V → AlertEvaluation V
  without_condition row = record {
    state = "OK";
    triggered = false;
    column = none;
    observed = none;
    threshold = none;
    row = some row;
  }

  abbrev pub compared : Dict String V → String → V → Option Value → Bool → AlertEvaluation V
  compared row column observed threshold triggered = record {
    state = if triggered then "TRIGGERED" else "OK";
    triggered = triggered;
    column = some column;
    observed = some observed;
    threshold = threshold;
    row = some row;
  }

  abbrev pub text_or : Value → String → String
  text_or (str s) b = if nonempty s then s else b
  text_or _ b = b

  -- The comparison of one column of the first row.
  unfoldable pub evaluate_column :
      List String → Dict String V → String → String → Option Value → Result (AlertEvaluation V)
  evaluate_column columns row column op threshold = elim (get row column) [
    | none ↦ raised (
        error "INVALID_PARAMETER_VALUE"
          ("Alert condition names column '"
            <> column
            <> "', which the query does not return (got: "
            <> got columns
            <> ")")
          400)
    | some observed ↦ elim (is_triggered op observed threshold) [
      | raised x ↦ raised x
      | ok triggered ↦ ok (compared row column observed threshold triggered)
    ]
  ]
    where
      got : List String → String
      got names = let joined = join ", " names in if nonempty joined then joined else "no columns"

  abbrev pub op_of : Value → String
  op_of condition = text_or (field condition "op") ""

  abbrev pub column_of : Value → String
  column_of condition = text_or (field (field (field condition "operand") "column") "name") ""

  -- The evaluation of a condition over a result; `condition` is null where the alert has none.
  unfoldable pub evaluate : Value → List String → List (List V) → Result (AlertEvaluation V)
  evaluate condition columns [] =
      ok (without_row (text_or (field condition "empty_result_state") "UNKNOWN"))
  evaluate condition columns (first ∷ rows) =
      let row = row_dict columns first [] in
      if nonempty (op_of condition) && nonempty (column_of condition)
      then evaluate_column columns row (column_of condition) (op_of condition)
          (threshold_value condition)
      else ok (without_condition row)

-- What `_record_state` leaves of an alert.
unfoldable pub recorded : {V : Type 0} → String → AlertEvaluation V → Fields → Fields
recorded now e stored =
    let stated = put stored "state" (str e.state) in
    if e.triggered then put stated "trigger_time" (str now) else stated

unfoldable pub record_state :
    {V : Type 0} → String → String → Fields → AlertEvaluation V → Exec State (AlertEvaluation V)
record_state now alert_id stored e = do
  modify (λ (s : State). put s alert_id (recorded now e stored))
  pure e

-- `execute` is the SQL engine: for a warehouse, a query, a catalog and a schema the columns and the
-- rows of the result, or what it raises. `queries` are the saved queries.
module _ {V F : Type 0} (values : Values V F)
    (execute : String
      → String
      → Option String
      → Option String
      → Result (List String × List (List V)))
    (queries : State) where
  unfoldable pub evaluate_result :
      Value → Result (List String × List (List V)) → Result (AlertEvaluation V)
  evaluate_result condition (raised x) = raised x
  evaluate_result condition (ok (columns, rows)) = evaluate values condition columns rows

  unfoldable pub evaluate_query :
      String → Value → Result (String × Option String × Option String) → Result (AlertEvaluation V)
  evaluate_query warehouse_id condition (raised x) = raised x
  evaluate_query warehouse_id condition (ok (sql, catalog, schema)) =
      evaluate_result condition (execute warehouse_id sql catalog schema)

  abbrev pub query_id_of : Fields → String
  query_id_of stored = strip (given (text_field stored "query_id"))
    where
      given : Option String → String
      given none = ""
      given (some s) = s

  unfoldable pub run_query : String → String → Fields → Result (AlertEvaluation V)
  run_query alert_id warehouse_id stored =
      if nonempty (query_id_of stored)
      then evaluate_query warehouse_id (opt_value (get stored "condition"))
          (resolve_query_for_execution (query_id_of stored) queries).0
      else raised
          (error "INVALID_PARAMETER_VALUE" ("Alert '" <> alert_id <> "' has no query_id") 400)

  unfoldable pub evaluate_alert : String → String → String → Exec State (AlertEvaluation V)
  evaluate_alert now alert_id warehouse_id = get_alert_or_404 alert_id >>= λ stored.
      lift (run_query alert_id warehouse_id stored) >>= record_state now alert_id stored
