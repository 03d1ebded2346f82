-- ===== src/Statements/History.antt =====
-- The query history, which is the cache of statements seen newest first.
pub mod Newest
use minilake.Prelude.{
  ℕ, zero, suc, ◌-◌, String, ◌<>◌, Bool, true, false, not, ◌&&◌, ◌||◌, Option, none, some, List, [],
  ◌∷◌, ◌==◌, string_eq, leb, eqb, length, contains, is_empty, nonempty, select, if◌then◌else◌,
}
use minilake.Prelude.Int.{ℤ, pos, negsuc}
use minilake.Prelude.Dict.{values}
use minilake.Text.Numbers.{parse_int}
use minilake.Paging.{list_page}
use minilake.Errors.{Result, ok, raised, error}
use minilake.SavedQueries
use minilake.SavedQueries.{reverse_onto}
use minilake.Statements.Model.{
  StatementState, pending, running, succeeded, failed, canceled, closed, Statement, State,
}

pub data QueryStatus : Type 0 where
  queued : QueryStatus
  is_running : QueryStatus
  compiled : QueryStatus
  compiling : QueryStatus
  started : QueryStatus
  finished : QueryStatus
  has_failed : QueryStatus
  was_canceled : QueryStatus

-- `_QUERY_STATUS_BY_STATE`
unfoldable pub query_status : StatementState → QueryStatus
query_status pending = queued
query_status running = is_running
query_status succeeded = finished
query_status failed = has_failed
query_status canceled = was_canceled
query_status closed = finished

-- `status.value`
unfoldable pub status_value : QueryStatus → String
status_value queued = "QUEUED"
status_value is_running = "RUNNING"
status_value compiled = "COMPILED"
status_value compiling = "COMPILING"
status_value started = "STARTED"
status_value finished = "FINISHED"
status_value has_failed = "FAILED"
status_value was_canceled = "CANCELED"

pub record QueryMetrics : Type 0 where
  pub total_time_ms : ℤ
  pub execution_time_ms : ℤ
  pub rows_produced_count : ℕ
  pub read_bytes : ℕ

pub record QueryInfo : Type 0 where
  pub query_id : String
  pub query_text : String
  pub status : QueryStatus
  pub statement_type : Option String
  pub warehouse_id : String
  pub endpoint_id : String
  pub duration : ℤ
  pub rows_produced : ℕ
  pub query_start_time_ms : ℕ
  pub query_end_time_ms : ℕ
  pub execution_end_time_ms : ℕ
  pub is_final : Bool
  pub user_name : String
  pub executed_as_user_name : String
  pub error_message : Option String
  pub metrics : Option QueryMetrics

-- `a - b`
abbrev pub difference : ℕ → ℕ → ℤ
difference a b = if leb b a then pos (a - b) else negsuc (b - a - 1)

-- `a < b`
abbrev pub int_lt : ℤ → ℤ → Bool
int_lt (pos a) (pos b) = not (leb b a)
int_lt (pos a) (negsuc b) = false
int_lt (negsuc a) (pos b) = true
int_lt (negsuc a) (negsuc b) = not (leb a b)

-- `started_at or created_at`
abbrev pub start_of : {Row : Type 0} → Statement Row → ℕ
start_of stmt = if eqb stmt.started_at 0 then stmt.created_at else stmt.started_at

-- `statement_type` is the upper-cased first keyword of a statement, which a regular expression finds.
unfoldable pub query_info :
    {Row : Type 0} → (String → Option String) → Bool → Statement Row → QueryInfo
query_info statement_type include_metrics stmt =
    let duration = difference stmt.ended_at (start_of stmt) in
    record {
      query_id = stmt.id;
      query_text = stmt.sql;
      status = query_status stmt.status;
      statement_type = statement_type stmt.sql;
      warehouse_id = stmt.warehouse_id;
      endpoint_id = stmt.warehouse_id;
      duration = duration;
      rows_produced = stmt.row_count;
      query_start_time_ms = start_of stmt;
      query_end_time_ms = stmt.ended_at;
      execution_end_time_ms = stmt.ended_at;
      is_final = true;
      user_name = SavedQueries.user_name;
      executed_as_user_name = SavedQueries.user_name;
      error_message = stmt.error_message;
      metrics =
          if include_metrics
          then some (record {
            total_time_ms = duration;
            execution_time_ms = duration;
            rows_produced_count = stmt.row_count;
            read_bytes = 0;
          })
          else none;
    }

-- A query filter: an absent list of values is an empty one.
pub record Filters : Type 0 where
  pub statuses : List String
  pub warehouse_ids : List String
  pub statement_ids : List String
  pub user_ids : List String
  pub start_time_ms : Option ℤ
  pub end_time_ms : Option ℤ

-- The parameters of a request: `params.get` and `params.getlist`.
pub record Params : Type 0 where
  pub get_param : String → Option String
  pub getlist : String → List String

-- One bound of the time range
unfoldable pub time_bound : Params → String → Result (Option ℤ)
time_bound params name = elim (params.get_param ("filter_by.query_start_time_range." <> name)) [
  | none ↦ ok none
  | some text ↦ elim (parse_int text) [
    | some n ↦ ok (some n)
    | none ↦ raised (
        error "INVALID_PARAMETER_VALUE"
          ("filter_by.query_start_time_range." <> name <> " must be an integer") 400)
  ]
]

abbrev given : Option String → String
given none = ""
given (some s) = s

-- `loads` is json.loads of an object with these fields, none for anything else.
unfoldable pub parse_filter_by : (String → Option Filters) → Params → Result Filters
parse_filter_by loads params =
    if nonempty (given (params.get_param "filter_by"))
    then parsed (loads (given (params.get_param "filter_by")))
    else elim (time_bound params "start_time_ms") [
      | raised x ↦ raised x
      | ok start ↦ elim (time_bound params "end_time_ms") [
        | raised x ↦ raised x
        | ok end ↦ ok (record {
          statuses = params.getlist "filter_by.statuses";
          warehouse_ids = params.getlist "filter_by.warehouse_ids";
          statement_ids = params.getlist "filter_by.statement_ids";
          user_ids = params.getlist "filter_by.user_ids";
          start_time_ms = start;
          end_time_ms = end;
        })
      ]
    ]
  where
    parsed : Option Filters → Result Filters
    parsed none = raised (
        error "INVALID_PARAMETER_VALUE"
          "filter_by must be a JSON object, or use the filter_by.<field> form" 400)
    parsed (some filters) = ok filters

-- `values and value not in values` is false.
abbrev pub allows : List String → String → Bool
allows [] value = true
allows (v ∷ vs) value = contains (v ∷ vs) value

abbrev pub not_before : ℕ → Option ℤ → Bool
not_before begun none = true
not_before begun (some start) = not (int_lt (pos begun) start)

abbrev pub not_after : ℕ → Option ℤ → Bool
not_after begun none = true
not_after begun (some end) = not (int_lt end (pos begun))

unfoldable pub matches_filter : Filters → QueryInfo → Bool
matches_filter filters info =
    allows filters.statuses (status_value info.status)
    && allows filters.warehouse_ids info.warehouse_id
    && allows filters.statement_ids info.query_id
    && not_before info.query_start_time_ms filters.start_time_ms
    && not_after info.query_start_time_ms filters.end_time_ms

-- The loop over the statements
unfoldable pub infos_of :
    {Row : Type 0}
    → (String → Option String)
    → Bool
    → Filters
    → List (Statement Row)
    → List QueryInfo
infos_of statement_type include_metrics filters [] = []
infos_of statement_type include_metrics filters (stmt ∷ stmts) =
    let rest = infos_of statement_type include_metrics filters stmts in
    let info = query_info statement_type include_metrics stmt in
    if matches_filter filters info then info ∷ rest else rest

unfoldable pub history_entries :
    {Row : Type 0} → (String → Option String) → Bool → Filters → State Row → List QueryInfo
history_entries statement_type include_metrics filters s =
    reverse_onto (infos_of statement_type include_metrics filters (values s)) []

unfoldable pub list_query_history :
    {Row : Type 0}
    → (String → Option String)
    → (String → Option Filters)
    → Params
    → Option ℤ
    → Option String
    → Bool
    → State Row
    → Result (List QueryInfo × Option String)
list_query_history statement_type loads params max_results page_token include_metrics s =
    elim (parse_filter_by loads params) [
      | raised x ↦ raised x
      | ok filters ↦
          list_page "max_results" (history_entries statement_type include_metrics filters s)
            max_results page_token
    ]
