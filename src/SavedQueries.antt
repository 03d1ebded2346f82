-- ===== src/SavedQueries.antt =====
-- services/saved_queries.py: queries that are stored by id; `Objects` has the handlers that alerts
-- share.
mod Tests
use minilake.Prelude.{
  String, ◌<>◌, Bool, true, false, not, Option, none, some, List, [], ◌∷◌, ◌++◌, string_eq, select,
  nonempty, if◌then◌else◌,
}
use minilake.Prelude.Int.{ℤ}
use minilake.Prelude.Dict.{Dict, get, values}
use minilake.Text.{strip}
use minilake.Json.{Value, str}
use minilake.Errors.{Exec, Result, ok, raised, error, pure, raise, ◌>>=◌}
use minilake.Names.{Fields, State, is_text, name_taken, resolve_name}
use minilake.Paging.{list_page}
use minilake.Objects.{Kind, text_field, get_or_404, create, change, delete}

-- identity.py's `USER_NAME`
abbrev pub user_name : String
user_name = "minilake-user"

unfoldable pub updatable_fields : List String
updatable_fields =
    "display_name" ∷ "description" ∷ "query_text" ∷ "catalog" ∷ "schema" ∷ "warehouse_id" ∷ "tags"
    ∷ "apply_auto_limit" ∷ "run_as_mode" ∷ "owner_user_name" ∷ []

-- The fields that `create_query` and `update_query` fill in by themselves.
unfoldable pub created_query : Fields
created_query =
    ("owner_user_name", str user_name)
    ∷ ("last_modifier_user_name", str user_name)
    ∷ ("lifecycle_state", str "ACTIVE")
    ∷ []

unfoldable pub touched_query : String → Fields
touched_query now = ("last_modifier_user_name", str user_name) ∷ ("update_time", str now) ∷ []

unfoldable pub query_kind : Kind
query_kind = record {
  label = "Query";
  fallback = "New query";
  updatable = updatable_fields;
  created = created_query;
  touched = touched_query;
}

unfoldable pub get_query : String → Exec State Fields
get_query = get_or_404 query_kind

unfoldable pub display_name_taken : State → Option String → Option String → Bool
display_name_taken = name_taken

unfoldable pub resolve_display_name : State → Option String → Option String → String
resolve_display_name = resolve_name "New query"

-- The text of a stored query, without spaces around it, and its catalog and schema.
unfoldable pub resolve_query_for_execution :
    String → Exec State (String × Option String × Option String)
resolve_query_for_execution query_id = get_query query_id >>= λ stored.
    let query_text = strip (or_empty (text_field stored "query_text")) in
    if nonempty query_text
    then pure (query_text, text_field stored "catalog", text_field stored "schema")
    else raise (
        error "INVALID_PARAMETER_VALUE" ("Query '" <> query_id <> "' has no query_text to run") 400)
  where
    or_empty : Option String → String
    or_empty none = ""
    or_empty (some s) = s

unfoldable pub resolve_query_text : String → Exec State String
resolve_query_text query_id =
    resolve_query_for_execution query_id >>= λ (text, catalog, schema). pure text

unfoldable pub create_query : String → String → Fields → Bool → Exec State Fields
create_query = create query_kind

abbrev pub reverse_onto {ℓ} : {A : Type ℓ} → List A → List A → List A
reverse_onto [] later = later
reverse_onto (x ∷ xs) later = reverse_onto xs (x ∷ later)

-- Newest first, without the queries that the legacy API moved to the trash.
unfoldable pub query_entries : State → List Fields
query_entries s =
    reverse_onto (select (λ q. not (is_text (get_state_of q) (some "TRASHED"))) (values s)) []
  where
    get_state_of : Fields → Option Value
    get_state_of q = get q "lifecycle_state"

unfoldable pub list_queries :
    Option ℤ → Option String → State → Result (List Fields × Option String)
list_queries page_size page_token s = list_page "page_size" (query_entries s) page_size page_token

unfoldable pub update_query :
    String → String → Fields → Option String → Option String → Bool → Exec State Fields
update_query = change query_kind

unfoldable pub delete_query : String → Exec State (Unit {0})
delete_query = delete query_kind

-- A snapshot is the stored queries; one that lacks them changes nothing.
unfoldable pub restore_state : Option State → State → State
restore_state none s = s
restore_state (some stored) s = stored

unfoldable pub reset : State → State
reset s = []
