-- ===== src/Statements/History/Newest.antt =====
-- The statement that was executed last comes first in the history.
use minilake.Prelude.{
  ℕ, zero, suc, ◌-◌, ◌≤◌, String, ◌≡◌, ◌⊎◌, refl, ap, inl, inr, Bool, false, Option, none, some,
  List, [], ◌∷◌, ◌++◌, ◌==◌, string_eq, nonempty, length, arith,
}
use minilake.Prelude.Int.{ℤ, pos}
use minilake.Prelude.Dict.{Dict, get, values}
use minilake.Errors.{Exception, Result, ok, raised}
use minilake.Paging.{drop, take, list_page, page_limit, page_offset, page_at}
use minilake.SavedQueries.{reverse_onto}
use minilake.Warehouses
use minilake.Statements.Model.{Statement, State, Wire, ExecuteStatementRequest}
use minilake.Statements.Execution.{
  at_least_one, record_statement, rejected, format_of, Outcome, executed, refused, crashed,
  ExecuteStatementResponse, failed_entry, succeeded_entry, record_failure, finish_statement,
  execute_statement,
}
use minilake.Statements.Execution.Eviction.{at_least_one-positive, record_statement-drop}
use minilake.Statements.History.{
  QueryInfo, finished, has_failed, query_status, query_info, Filters, Params, time_bound,
  parse_filter_by, matches_filter, infos_of, history_entries, list_query_history,
}

module _ {ℓ} {A : Type ℓ} where
  drop-append_one :
      (n : ℕ) (xs : List A) (x : A) → n ≤ length xs → drop n (xs ++ x ∷ []) ≡ drop n xs ++ x ∷ []
  drop-append_one zero xs x h = refl
  drop-append_one (suc n) [] x h = absurd (omega arith)
  drop-append_one (suc n) (y ∷ xs) x h = drop-append_one n xs x (omega arith)

  reverse_onto-append_one :
      (xs : List A) (x : A) (later : List A)
      → reverse_onto (xs ++ x ∷ []) later ≡ x ∷ reverse_onto xs later
  reverse_onto-append_one [] x later = refl
  reverse_onto-append_one (y ∷ xs) x later = reverse_onto-append_one xs x (y ∷ later)

values-append_one {ℓ} :
    {V : Type ℓ} (d : Dict String V) (k : String) (v : V)
    → values (d ++ (k, v) ∷ []) ≡ values d ++ v ∷ []
unfolding values
values-append_one [] k v = refl
values-append_one ((j, w) ∷ d) k v = ap (λ vs. w ∷ vs) (values-append_one d k v)

-- A request without parameters
abbrev pub no_params : Params
no_params = record { get_param = λ name. none; getlist = λ name. [] }

abbrev no_filters : Filters
no_filters = record {
  statuses = [];
  warehouse_ids = [];
  statement_ids = [];
  user_ids = [];
  start_time_ms = none;
  end_time_ms = none;
}

parse_filter_by-nothing :
    (loads : String → Option Filters) → parse_filter_by loads no_params ≡ ok no_filters
unfolding parse_filter_by time_bound nonempty string_eq
parse_filter_by-nothing loads = refl

module _ {Row : Type 0} (statement_type : String → Option String) (metrics : Bool) where
  infos_of-append_one :
      (stmts : List (Statement Row)) (stmt : Statement Row)
      → infos_of statement_type metrics no_filters (stmts ++ stmt ∷ [])
        ≡ infos_of statement_type metrics no_filters stmts
          ++ query_info statement_type metrics stmt ∷ []
  unfolding infos_of matches_filter
  infos_of-append_one [] stmt = refl
  infos_of-append_one (s ∷ stmts) stmt =
      ap (λ infos. query_info statement_type metrics s ∷ infos) (infos_of-append_one stmts stmt)

  -- The state that ends with a statement shows it first.
  history_entries-last :
      (s : State Row) (id : String) (stmt : Statement Row)
      → (rest : List QueryInfo) × (history_entries statement_type metrics no_filters
            (s ++ (id, stmt) ∷ [])
          ≡ query_info statement_type metrics stmt ∷ rest)
  unfolding history_entries
  history_entries-last s id stmt = (
    reverse_onto (infos_of statement_type metrics no_filters (values s)) [],
    rw (values-append_one s id stmt, infos_of-append_one (values s) stmt)
        (reverse_onto-append_one (infos_of statement_type metrics no_filters (values s))
          (query_info statement_type metrics stmt) []),
  )

  list_query_history-first :
      (loads : String → Option Filters) (s : State Row) (info : QueryInfo) (rest : List QueryInfo)
      → history_entries statement_type metrics no_filters s ≡ info ∷ rest
      → (later : List QueryInfo) × (token : Option String) × (list_query_history statement_type
            loads no_params none none metrics s
          ≡ ok (info ∷ later, token))
  unfolding list_query_history list_page page_limit page_offset page_at
  list_query_history-first loads s info rest e = (
    take 99 rest,
    (page_at (info ∷ rest) (pos 0) 100).1,
    rw (parse_filter_by-nothing loads, list_query_history)
        (ap (λ entries. list_page "max_results" entries none none) e),
  )

  -- After a new entry is recorded.
  recorded_first :
      (cache_size : ℤ) (s : State Row) (entry : Statement Row)
      → get s entry.id ≡ none
      → (rest : List QueryInfo) × (history_entries statement_type metrics no_filters
            (record_statement cache_size entry s)
          ≡ query_info statement_type metrics entry ∷ rest)
  recorded_first cache_size s entry fresh =
      let (kept, _, _) = record_statement-drop cache_size entry s fresh in
      let room = at_least_one-positive cache_size in
      rw
        (
          kept,
          drop-append_one (suc (length s) - at_least_one cache_size) s (entry.id, entry)
              (omega arith),
        )
        (history_entries-last (drop (suc (length s) - at_least_one cache_size) s) entry.id entry)

-- What the history says of a request and its answer.
abbrev pub IsReported :
    {Row : Type 0}
    → String
    → ExecuteStatementRequest
    → Result (ExecuteStatementResponse Row)
    → QueryInfo
    → Type 0
IsReported {Row} id req answer info =
    (info.query_id ≡ id)
    × (info.query_text ≡ req.statement)
    × (((r : ExecuteStatementResponse Row) × (answer ≡ ok r) × (info.status ≡ finished))
        ⊎ ((x : Exception) × (answer ≡ raised x) × (info.status ≡ has_failed)))

module _ {Row Bytes : Type 0} (wire : Wire Row Bytes) (base : String) (cache_size : ℤ)
    (statement_type : String → Option String) (loads : String → Option Filters) (id : String)
    (now ended : ℕ) (req : ExecuteStatementRequest) (s : State Row) where
  abbrev pub ShowsFirst : Result (ExecuteStatementResponse Row) × State Row → Type 0
  ShowsFirst r =
      (info : QueryInfo) × (later : List QueryInfo) × (token : Option String) × (list_query_history
          statement_type loads no_params none none false r.1
        ≡ ok (info ∷ later, token))
      × IsReported id req r.0 info

  recorded-ShowsFirst :
      (entry : Statement Row) (answer : Result (ExecuteStatementResponse Row))
      → get s entry.id ≡ none
      → IsReported id req answer (query_info statement_type false entry)
      → ShowsFirst (answer, record_statement cache_size entry s)
  recorded-ShowsFirst entry answer fresh reported =
      let (rest, e) = recorded_first statement_type false cache_size s entry fresh in
      let (later, token, listed) =
        list_query_history-first statement_type false loads (record_statement cache_size entry s)
          (query_info statement_type false entry) rest e in
      (query_info statement_type false entry, later, token, listed, reported)

  finish-ShowsFirst :
      (o : Outcome Row)
      → get s id ≡ none
      → ShowsFirst (finish_statement wire base cache_size id now ended req o s)
  unfolding finish_statement record_failure succeeded_entry failed_entry query_info query_status
  finish-ShowsFirst (executed columns types rows arrow) fresh =
      recorded-ShowsFirst
        (succeeded_entry wire base cache_size id now ended req columns types rows arrow) _ fresh
        (refl, refl, inl (_, refl, refl))
  finish-ShowsFirst (refused e) fresh =
      recorded-ShowsFirst
        (failed_entry wire base cache_size id now ended req (some e.error_code) (some e.message)) _
        fresh (refl, refl, inr (_, refl, refl))
  finish-ShowsFirst (crashed text) fresh =
      recorded-ShowsFirst
        (failed_entry wire base cache_size id now ended req (some "INTERNAL_ERROR") _) _ fresh
        (refl, refl, inr (_, refl, refl))

  execute_statement-passed :
      (warehouses : Warehouses.State)
      (execute : String → String → Option String → Option String → Bool → Outcome Row)
      → rejected warehouses req ≡ none
      → execute_statement wire base cache_size id now ended req warehouses execute s
        ≡ finish_statement wire base cache_size id now ended req
            (execute req.warehouse_id req.statement req.catalog req.schema_name
              (format_of req == "ARROW_STREAM"))
            s
  unfolding execute_statement
  execute_statement-passed warehouses execute passed = rw (passed, execute_statement) refl

  -- A statement that passes the guards comes first in the history afterwards, however it ended: as
  -- FINISHED if it was answered and as FAILED if it raised. Its id is not in the cache before.
  pub execute_statement-ShowsFirst :
      (warehouses : Warehouses.State)
      (execute : String → String → Option String → Option String → Bool → Outcome Row)
      → rejected warehouses req ≡ none
      → get s id ≡ none
      → ShowsFirst (execute_statement wire base cache_size id now ended req warehouses execute s)
  unfolding execute_statement
  execute_statement-ShowsFirst warehouses execute passed fresh =
      rw (execute_statement-passed warehouses execute passed) (finish-ShowsFirst _ fresh)
