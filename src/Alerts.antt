-- ===== src/Alerts.antt =====
-- services/alerts.py: alerts on saved queries, stored by id; `Objects` has the handlers that saved
-- queries share.
pub mod Evaluation
pub mod Recorded
use minilake.Prelude.{String, Bool, Option, none, some, List, [], ◌∷◌, string_eq}
use minilake.Prelude.Int.{ℤ}
use minilake.Prelude.Dict.{Dict, values}
use minilake.Json.{Value, str}
use minilake.Errors.{Exec, Result}
use minilake.Names.{Fields, State, name_taken, resolve_name}
use minilake.Paging.{list_page}
use minilake.Objects.{Kind, get_or_404, create, change, delete}
use minilake.SavedQueries.{user_name, reverse_onto}

unfoldable pub updatable_fields : List String
updatable_fields =
    "display_name" ∷ "query_id" ∷ "condition" ∷ "custom_body" ∷ "custom_subject" ∷ "notify_on_ok"
    ∷ "owner_user_name" ∷ "seconds_to_retrigger" ∷ []

-- The fields that `create_alert` and `update_alert` fill in by themselves.
unfoldable pub created_alert : Fields
created_alert =
    ("owner_user_name", str user_name)
    ∷ ("lifecycle_state", str "ACTIVE")
    ∷ ("state", str "UNKNOWN")
    ∷ []

unfoldable pub touched_alert : String → Fields
touched_alert now = ("update_time", str now) ∷ []

unfoldable pub alert_kind : Kind
alert_kind = record {
  label = "Alert";
  fallback = "New alert";
  updatable = updatable_fields;
  created = created_alert;
  touched = touched_alert;
}

unfoldable pub get_alert_or_404 : String → Exec State Fields
get_alert_or_404 = get_or_404 alert_kind

unfoldable pub display_name_taken : State → Option String → Option String → Bool
display_name_taken = name_taken

unfoldable pub resolve_display_name : State → Option String → Option String → String
resolve_display_name = resolve_name "New alert"

unfoldable pub create_alert : String → String → Fields → Bool → Exec State Fields
create_alert = create alert_kind

-- Newest first.
unfoldable pub list_alerts : Option ℤ → Option String → State → Result (List Fields × Option String)
list_alerts page_size page_token s =
    list_page "page_size" (reverse_onto (values s) []) page_size page_token

unfoldable pub update_alert :
    String → String → Fields → Option String → Option String → Bool → Exec State Fields
update_alert = change alert_kind

unfoldable pub delete_alert : String → Exec State (Unit {0})
delete_alert = delete alert_kind

-- A snapshot is the stored alerts; one that lacks them changes nothing.
unfoldable pub restore_state : Option State → State → State
restore_state none s = s
restore_state (some stored) s = stored

unfoldable pub reset : State → State
reset s = []
