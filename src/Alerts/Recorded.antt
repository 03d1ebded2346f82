-- ===== src/Alerts/Recorded.antt =====
-- What an evaluation leaves in the alert.
use minilake.Prelude.{
  String, ◌≡◌, ◌≢◌, ◌⊎◌, inl, inr, refl, ◌∙◌, Bool, true, false, Option, some, List, [], ◌∷◌, ◌==◌,
  string_eq, arith, Option-cases, nonempty, ◌&&◌, ◌<>◌, Bool-cases, if◌then◌else◌, text_ne,
}
use minilake.Prelude.Dict.{Dict, get, put, get-put_here, get-put_there}
use minilake.Json.{Value, str, opt_value}
use minilake.Errors.{
  Exec, error, Exception, Result, ok, raised, lift, Result-cases, bind-ok, bind-raised, ◌>>=◌,
}
use minilake.Names.{Fields, State}
use minilake.Objects.{missing}
use minilake.Objects.Changes.{get_or_404-found, get_or_404-missing}
use minilake.SavedQueries.{resolve_query_for_execution}
use minilake.Alerts.{alert_kind, get_alert_or_404}
use minilake.Alerts.Evaluation.{
  Values, AlertEvaluation, is_triggered, without_condition, op_of, column_of, query_id_of, row_dict,
  threshold_value, compared, evaluate_column, evaluate_query, evaluate_result, evaluate, recorded,
  record_state, run_query, evaluate_alert,
}

-- An evaluation is triggered exactly in the state TRIGGERED.
abbrev pub IsSettled : {V : Type 0} → AlertEvaluation V → Type 0
IsSettled e = e.triggered ≡ (e.state == "TRIGGERED")

abbrev AreSettled : {V : Type 0} → Result (AlertEvaluation V) → Type 0
AreSettled (ok e) = IsSettled e
AreSettled (raised x) = Unit

AreSettled-if :
    {V : Type 0} (b : Bool) (x y : Result (AlertEvaluation V))
    → AreSettled x
    → AreSettled y
    → AreSettled (if b then x else y)
AreSettled-if true x y hx hy = hx
AreSettled-if false x y hx hy = hy

module _ {V F : Type 0} (values : Values V F) where
  compared-IsSettled :
      (row : Dict String V) (column : String) (observed : V) (threshold : Option Value)
      (triggered : Bool)
      → IsSettled (compared values row column observed threshold triggered)
  compared-IsSettled row column observed threshold true = ground arith
  compared-IsSettled row column observed threshold false =
      ground (arith, text_ne "OK" "TRIGGERED" refl)

  evaluate_column-AreSettled :
      (columns : List String) (row : Dict String V) (column op : String) (threshold : Option Value)
      → AreSettled (evaluate_column values columns row column op threshold)
  unfolding evaluate_column
  evaluate_column-AreSettled columns row column op threshold =
      elim (Option-cases (get row column)) [
        | inl e ↦ rw (e, evaluate_column) tt
        | inr (observed, e) ↦ elim (Result-cases (is_triggered values op observed threshold)) [
          | inl (triggered, t) ↦
              rw (e, evaluate_column)
                (rw (t, evaluate_column)
                  (compared-IsSettled row column observed threshold triggered))
          | inr (x, t) ↦ rw (e, evaluate_column) (rw (t, evaluate_column) tt)
        ]
      ]

  evaluate-AreSettled :
      (condition : Value) (columns : List String) (rows : List (List V))
      → AreSettled (evaluate values condition columns rows)
  unfolding evaluate
  evaluate-AreSettled condition columns [] = refl
  evaluate-AreSettled condition columns (first ∷ rows) =
      let row = row_dict columns first [] in
      AreSettled-if (nonempty (op_of values condition) && nonempty (column_of values condition))
        (evaluate_column values columns row (column_of values condition) (op_of values condition)
          (threshold_value condition))
        (ok (without_condition values row))
        (evaluate_column-AreSettled columns row (column_of values condition)
          (op_of values condition) (threshold_value condition))
        (ground (arith, text_ne "OK" "TRIGGERED" refl))

-- What one evaluation records: the state, the time of a trigger, and nothing else.
pub record IsRecorded {V : Type 0} (now : String) (e : AlertEvaluation V) (before after : Fields)
    : Type 0 where
  pub state : get after "state" ≡ some (str e.state)
  pub trigger_time :
      get after "trigger_time" ≡ (if e.triggered then some (str now) else get before "trigger_time")
  pub others :
      (key : String) → key ≢ "state" → key ≢ "trigger_time" → get after key ≡ get before key

recorded-IsRecorded :
    {V : Type 0} (now : String) (e : AlertEvaluation V) (stored : Fields)
    → IsRecorded now e stored (recorded now e stored)
unfolding recorded
recorded-IsRecorded now e stored = elim (Bool-cases e.triggered) [
  | inl hit ↦ rw hit (record {
    state =
        get-put_there stated "trigger_time" (str now) "state" (text_ne "state" "trigger_time" refl)
        ∙ get-put_here stored "state" (str e.state);
    trigger_time = (get-put_here stated "trigger_time" (str now));
    others = λ key a b.
        get-put_there stated "trigger_time" (str now) key b
        ∙ get-put_there stored "state" (str e.state) key a;
  })
  | inr miss ↦ rw miss (record {
    state = get-put_here stored "state" (str e.state);
    trigger_time =
        (get-put_there stored "state" (str e.state) "trigger_time"
          (text_ne "trigger_time" "state" refl));
    others = λ key a b. get-put_there stored "state" (str e.state) key a;
  })
]
  where
    stated : Fields
    stated = put stored "state" (str e.state)

module _ {V F : Type 0} (values : Values V F)
    (execute : String
      → String
      → Option String
      → Option String
      → Result (List String × List (List V)))
    (queries : State) where
  evaluate_result-AreSettled :
      (condition : Value) (r : Result (List String × List (List V)))
      → AreSettled (evaluate_result values execute queries condition r)
  unfolding evaluate_result
  evaluate_result-AreSettled condition (raised x) = tt
  evaluate_result-AreSettled condition (ok (columns, rows)) =
      evaluate-AreSettled values condition columns rows

  evaluate_query-AreSettled :
      (warehouse_id : String) (condition : Value)
      (r : Result (String × Option String × Option String))
      → AreSettled (evaluate_query values execute queries warehouse_id condition r)
  unfolding evaluate_query
  evaluate_query-AreSettled warehouse_id condition (raised x) = tt
  evaluate_query-AreSettled warehouse_id condition (ok (sql, catalog, schema)) =
      evaluate_result-AreSettled condition (execute warehouse_id sql catalog schema)

  run_query-AreSettled :
      (id warehouse_id : String) (stored : Fields)
      → AreSettled (run_query values execute queries id warehouse_id stored)
  unfolding run_query
  run_query-AreSettled id warehouse_id stored =
      let query_id = query_id_of values execute queries stored in
      let found = (resolve_query_for_execution query_id queries).0 in
      AreSettled-if (nonempty query_id)
        (evaluate_query values execute queries warehouse_id (opt_value (get stored "condition"))
          found)
        (raised (error "INVALID_PARAMETER_VALUE" ("Alert '" <> id <> "' has no query_id") 400))
        (evaluate_query-AreSettled warehouse_id (opt_value (get stored "condition")) found) tt

  -- An evaluation that is refused changes nothing. Any other is of a stored alert; it records its
  -- state, and the time if it triggered, in that alert alone, and it triggered exactly if that state
  -- is TRIGGERED.
  pub evaluate_alert-IsRecorded :
      (now id warehouse_id : String) (s : State)
      → ((x : Exception) × (evaluate_alert values execute queries now id warehouse_id s
            ≡ (raised x, s)))
        ⊎ (e : AlertEvaluation V) × (stored : Fields) × (after : Fields) × (get s id ≡ some stored)
          × (evaluate_alert values execute queries now id warehouse_id s ≡ (ok e, put s id after))
          × IsSettled e
          × IsRecorded now e stored after
  unfolding evaluate_alert get_alert_or_404 record_state
  evaluate_alert-IsRecorded now id warehouse_id s = elim (Option-cases (get s id)) [
    | inl e ↦ inl (
      missing alert_kind id,
      bind-raised (get_alert_or_404 id) go s (missing alert_kind id) s
          (get_or_404-missing alert_kind id s e),
    )
    | inr (stored, e) ↦
        let start =
          bind-ok (get_alert_or_404 id) go s stored s (get_or_404-found alert_kind id s stored e) in
        let settled = run_query-AreSettled id warehouse_id stored in
        elim (Result-cases (run_query values execute queries id warehouse_id stored)) [
          | inr (x, r) ↦ inl (
            x,
            start
                ∙ bind-raised (lift (run_query values execute queries id warehouse_id stored))
                    (record_state now id stored) s x s (λ i. (r i, s)),
          )
          | inl (a, r) ↦ inr (
            a,
            stored,
            recorded now a stored,
            e,
            start
                ∙ bind-ok (lift (run_query values execute queries id warehouse_id stored))
                    (record_state now id stored) s a s (λ i. (r i, s)),
            rw r at settled,
            recorded-IsRecorded now a stored,
          )
        ]
  ]
    where
      go : Fields → Exec State (AlertEvaluation V)
      go stored =
          lift (run_query values execute queries id warehouse_id stored)
          >>= record_state now id stored
