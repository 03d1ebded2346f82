-- ===== src/SavedQueries/Tests.antt =====
-- Saved queries and alerts at concrete requests.
use minilake.Prelude.{
  ℕ, String, ◌≡◌, refl, true, false, Option, none, some, List, [], ◌∷◌, nonempty, All, string_eq,
  ◌⊎◌, leb, eqb, not,
}
use minilake.Prelude.Int.{pos}
use minilake.Prelude.Dict.{get, put}
use minilake.Text.{show, split, pieces, strip, lstrip, rstrip, is_space}
use minilake.Json.{Value, int, str, dict, no_entries, entry}
use minilake.Errors.{Exception, Result, ok, raised}
use minilake.Names.{Fields, State, base_name, resolve_name}
use minilake.Names.Fresh.{IsResolved, resolve_name-IsResolved}
use minilake.Paging.{page_limit}
use minilake.Paging.Walk.{walk, walk_lem}
use minilake.Objects.{mask_fields}
use minilake.Objects.Unique.{HasUnique, nothing-HasUnique}
use minilake.Objects.Creation.{IsKind}
use minilake.Objects.Legacy.{Conversions}
use minilake.Objects.Requests.{
  Request, NamesFields, creating, changing, deleting, rewriting_query, trashing, run,
  run-HasUniqueNames,
}
use minilake.SavedQueries.{query_kind, updatable_fields, created_query, touched_query}
use minilake.Alerts.Evaluation.{Values, AlertEvaluation, evaluate_alert}
use minilake.Alerts.Recorded.{IsSettled, IsRecorded, evaluate_alert-IsRecorded}

walk_lem_example :
    walk {A = ℕ} "page_size" 4 (7 ∷ 8 ∷ 9 ∷ []) (some (pos 2)) none ≡ some (7 ∷ 8 ∷ 9 ∷ [])
unfolding page_limit
walk_lem_example = walk_lem "page_size" (7 ∷ 8 ∷ 9 ∷ []) (some (pos 2)) 1 refl

abbrev sales : Fields
sales = ("id", str "q1") ∷ ("display_name", str "Sales") ∷ ("query_text", str " select 1 ") ∷ []

abbrev numbered_sales : Fields
numbered_sales = ("id", str "q2") ∷ ("display_name", str "Sales (1)") ∷ []

abbrev stored : State
stored = ("q1", sales) ∷ ("q2", numbered_sales) ∷ []

resolve_name-IsResolved_example :
    IsResolved stored
      (base_name "New query" (some "Sales"))
      none
      (resolve_name "New query" stored (some "Sales") none)
resolve_name-IsResolved_example = resolve_name-IsResolved "New query" stored (some "Sales") none

query_kind-IsKind : IsKind query_kind
unfolding query_kind updatable_fields created_query touched_query get string_eq
query_kind-IsKind = record {
  id_fixed = refl;
  created_id = refl;
  created_name = refl;
  touched_id = λ now. refl;
  touched_name = λ now. refl;
}

abbrev requests : List Request
requests =
    creating "q1" "t1" sales false
    ∷ creating "q2" "t2" (("display_name", str "Sales") ∷ []) true
    ∷ changing "q2" "t3" (("display_name", str "Sales") ∷ []) (some "display_name") none false
    ∷ rewriting_query "q2" "t4" (("query", str "select 2") ∷ [])
    ∷ trashing "q2"
    ∷ deleting "q1"
    ∷ []

-- Texts stand for themselves, and the other values for nothing.
abbrev conversions : Conversions
conversions = record {
  truthy = λ v. elim v [ str t ↦ nonempty t | _ ↦ false ];
  text_of = λ v. elim v [ str t ↦ t | _ ↦ "" ];
  float_of = λ v. v;
  upper = λ t. t;
}

named : All NamesFields requests
unfolding get mask_fields split pieces strip lstrip rstrip is_space string_eq nonempty
named = (tt, (tt, (refl, (refl, (tt, (tt, tt))))))

run-HasUniqueNames_example : HasUnique "display_name" (run conversions query_kind requests [])
run-HasUniqueNames_example =
    run-HasUniqueNames conversions query_kind requests [] query_kind-IsKind named
      (nothing-HasUnique "display_name")

-- Numbers that are never NULL.
abbrev numbers : Values ℕ ℕ
numbers = record {
  is_none = λ n. false;
  is_bool = λ n. false;
  to_bool = λ n. not (eqb n 0);
  to_float = λ n. some n;
  to_str = show;
  threshold_of = λ v. elim v [ int (pos n) ↦ n | _ ↦ 0 ];
  float_eq = eqb;
  float_lt = λ a b. not (leb b a);
  str_lt = λ a b. false;
}

abbrev condition : Value
condition = dict (
    entry "op" (str "GREATER_THAN") (
      entry "operand" (dict (entry "column" (dict (entry "name" (str "n") no_entries)) no_entries))
        (entry "threshold"
          (dict (entry "value" (dict (entry "double_value" (int (pos 3)) no_entries)) no_entries))
          no_entries)))

abbrev alerts : State
alerts = ("a1", ("id", str "a1") ∷ ("query_id", str "q1") ∷ ("condition", condition) ∷ []) ∷ []

abbrev five : String → String → Option String → Option String → Result (List String × List (List ℕ))
five warehouse sql catalog schema = ok ("n" ∷ [], (5 ∷ []) ∷ [])

evaluate_alert-IsRecorded_example :
    ((x : Exception) × (evaluate_alert numbers five stored "t" "a1" "w" alerts
        ≡ (raised x, alerts)))
    ⊎ (e : AlertEvaluation ℕ) × (before : Fields) × (after : Fields) × (get alerts "a1"
        ≡ some before)
      × (evaluate_alert numbers five stored "t" "a1" "w" alerts ≡ (ok e, put alerts "a1" after))
      × IsSettled e
      × IsRecorded "t" e before after
evaluate_alert-IsRecorded_example =
    evaluate_alert-IsRecorded numbers five stored "t" "a1" "w" alerts
