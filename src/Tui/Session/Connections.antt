-- ===== src/Tui/Session/Connections.antt =====
-- app_logic/runtime/connect.rs (`poll_connect_result`, `apply_connected_profile`) and
-- app_logic/runtime/handle.rs (`on_tick`): what is done with the outcome of a connection, and what
-- happens at each tick.
use myr.Prelude.{
  ℕ, zero, suc, ◌+◌, ◌-◌, ◌/◌, ◌%◌, Bool, true, false, ◌&&◌, Option, none, some, List, [], ◌∷◌,
  ◌++◌, ltb, ◌==◌, is_none, and_then, if◌then◌else◌,
}
use myr.Prelude.Text.{Text, codes}
use myr.Prelude.Text.Decimal.{decimal}
use myr.SqlGenerator.{qualified}
use myr.ResultsBuffer.{push_all, len}
use myr.QueryRunner.{QueryRow}
use myr.Profiles.{ConnectionProfile}
use myr.Actions.Catalog.{SchemaSelection}
use myr.Tui.Wizard.{wizard_form_from_profile}
use myr.Tui.Editor.{Editor, replace_query_text}
use myr.Tui.Pagination.{finalize_pagination_after_query}
use myr.Tui.Session.{
  TuiApp, schema_explorer, ConnectIntent, manual, auto_reconnect, connection_error, succeeded,
  append_audit_event, auto_reconnect_limit, start_query, empty_results,
}
use myr.Tui.Session.Polls.{
  QueryWorkerOutcome, one_more, open_error_panel, start_connect_with_profile, known_profile,
  poll_query_result,
}

-- A successful connection comes with the selection that the explorer has after it reloaded.
pub data ConnectWorkerOutcome : Type 0 where
  connected : ConnectionProfile → SchemaSelection → ConnectWorkerOutcome
  connect_failed : Text → ConnectWorkerOutcome

-- `set_query_editor_to_selected_table`
unfoldable pub selected_table_sql : SchemaSelection → Option Text
selected_table_sql s =
    and_then s.table (λ table. some (codes "SELECT * FROM " ++ qualified s.database table))

abbrev pub show_selected : Option Text → Editor → Editor
show_selected none e = e
show_selected (some sql) e = replace_query_text e sql

-- `apply_connected_profile`; the profile is saved as in `save_connected`.
unfoldable pub apply_connected_profile : TuiApp → ConnectionProfile → SchemaSelection → TuiApp
apply_connected_profile a p selection = record a {
  active_connection_profile = some p;
  last_connect_profile = some p;
  wizard_form = wizard_form_from_profile p;
  data_backend = some p;
  selection = selection;
  pagination_state = none;
  pending_page_transition = none;
  editor = show_selected (selected_table_sql selection) a.editor;
  pane = schema_explorer;
}

-- After a reconnection the query that was under way is started again.
unfoldable pub resume_query : Option Text → TuiApp → TuiApp
resume_query (some sql) a = start_query (record a { pending_retry_query = none }) sql
resume_query none a = a

unfoldable pub resume : ConnectIntent → TuiApp → TuiApp
resume manual a = a
resume auto_reconnect a = resume_query a.pending_retry_query a

unfoldable pub connection_lost : TuiApp → TuiApp
connection_lost a =
    open_error_panel (record a { pending_retry_query = none; reconnect_attempts = 0 })
      connection_error

unfoldable pub connect_again : Option ConnectionProfile → TuiApp → TuiApp
connect_again (some p) a =
    start_connect_with_profile (record a { reconnect_attempts = one_more a.reconnect_attempts }) p
      auto_reconnect
connect_again none a = connection_lost a

abbrev pub is_auto : ConnectIntent → Bool
is_auto manual = false
is_auto auto_reconnect = true

unfoldable pub connect_outcome : TuiApp → ConnectIntent → ConnectWorkerOutcome → TuiApp
connect_outcome a intent (connected p selection) =
    resume intent
      (record (apply_connected_profile (record a { reconnect_attempts = 0 }) p selection) {
        error_panel = none;
      })
connect_outcome a intent (connect_failed error) =
    if is_auto intent && ltb a.reconnect_attempts auto_reconnect_limit
    then connect_again (known_profile a) a
    else connection_lost a

abbrev pub connect_done : TuiApp → TuiApp
connect_done a = record a {
  connect_result_rx = false;
  connect_requested = false;
  connect_intent = manual;
}

unfoldable pub poll_connect_result : TuiApp → Option ConnectWorkerOutcome → TuiApp
poll_connect_result a none = a
poll_connect_result a (some outcome) =
    if a.connect_result_rx then connect_outcome (connect_done a) a.connect_intent outcome else a

-- `populate_demo_results`: five hundred rows, from the first one on.
abbrev pub demo_row : Text → ℕ → QueryRow
demo_row table index =
    let day = (index - 1) % 28 + 1 in
    record {
      values =
          decimal index
          ∷ (table ++ codes "-value-" ++ decimal index)
          ∷ (codes "2026-02-" ++ (b'0' + day / 10) ∷ (b'0' + day % 10) ∷ [])
          ∷ [];
    }

unfoldable pub demo_rows : Text → ℕ → List QueryRow
demo_rows table zero = []
demo_rows table (suc count) = demo_rows table count ++ demo_row table (suc count) ∷ []

abbrev pub table_or : Option Text → Text
table_or (some table) = table
table_or none = codes "unknown"

unfoldable pub populate_demo_results : TuiApp → TuiApp
populate_demo_results a = record a {
  results = push_all empty_results (demo_rows (table_or a.selection.table) 500);
  result_columns = codes "id" ∷ codes "value" ∷ codes "observed_at" ∷ [];
  has_results = true;
}

abbrev pub sql_or_empty : Option Text → Text
sql_or_empty (some sql) = sql
sql_or_empty none = []

unfoldable pub finish_demo : TuiApp → TuiApp
finish_demo a =
    let demo = populate_demo_results (record a { query_running = false }) in
    let (pagination_state, transition) =
      finalize_pagination_after_query demo.pagination_state demo.pending_page_transition
        demo.results demo.result_columns in
    append_audit_event
      (record demo {
        query_retry_attempts = 0;
        inflight_query_sql = none;
        last_failed_query = none;
        pagination_state = pagination_state;
        pending_page_transition = transition;
      })
      succeeded (sql_or_empty a.inflight_query_sql) (some (len demo.results)) none

-- Without a backend a query is a countdown.
unfoldable pub count_down : TuiApp → TuiApp
count_down a =
    if a.query_running && is_none a.data_backend
    then (if a.query_ticks_remaining == 0
        then finish_demo a
        else record a { query_ticks_remaining = a.query_ticks_remaining - 1 })
    else a

unfoldable pub on_tick : TuiApp → Option ConnectWorkerOutcome → Option QueryWorkerOutcome → TuiApp
on_tick a connect_found query_found =
    count_down (poll_query_result (poll_connect_result a connect_found) query_found)
