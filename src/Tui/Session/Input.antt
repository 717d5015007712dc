-- ===== src/Tui/Session/Input.antt =====
-- app_logic/runtime/query.rs (`submit` in the query editor), app_logic/runtime/connect.rs
-- (`connect_from_wizard`), app_logic/runtime/handle.rs (`Msg::CancelQuery`, `Msg::ToggleSafeMode`),
-- app_logic/query_actions/action_dispatch.rs (`RunSql`, `CancelQuery`, the pages),
-- app_logic/query_actions/pagination.rs (the transitions) and error_panel.rs: what the user asks.
use myr.Prelude.{
  ℕ, true, false, not, Option, none, some, List, [], ◌∷◌, ◌==◌, or_else, if◌then◌else◌,
}
use myr.Prelude.Text.{Text, codes}
use myr.SafeMode.Guard.{Confirmation, confirm, set_enabled}
use myr.Profiles.{ConnectionProfile}
use myr.Tui.Wizard.{WizardResult, commit_wizard_edit, wizard_profile}
use myr.Tui.Pagination.{
  PageTransition, PaginationState, PageSql, reset, next, previous, pagination_sql,
  build_preview_pagination_state,
}
use myr.Tui.Session.{
  TuiApp, PendingSql, cancelled, cancelled_worker, ErrorKind, connection_error, query_error, manual,
  append_audit_event, start_query, execute_sql_with_guard,
}
use myr.Tui.Session.Polls.{QueryWorkerOutcome, start_connect_with_profile, known_profile}
use myr.Tui.Session.Connections.{ConnectWorkerOutcome, sql_or_empty, on_tick}

-- `Msg::CancelQuery`; where no query runs it is the first step to leave the program.
unfoldable pub cancel_worker : Option ℕ → TuiApp → TuiApp
cancel_worker (some worker) a = record a { effects = cancelled_worker worker ∷ a.effects }
cancel_worker none a =
    append_audit_event (record a { query_running = false; query_ticks_remaining = 0 }) cancelled
      (sql_or_empty a.inflight_query_sql) none (some (codes "cancel requested"))

unfoldable pub cancel_message : TuiApp → TuiApp
cancel_message a =
    if a.query_running
    then cancel_worker a.query_cancellation (record a { cancel_requested = true })
    else a

-- `apply_invocation` of `ActionInvocation::CancelQuery`
unfoldable pub cancel_action : TuiApp → TuiApp
cancel_action a =
    append_audit_event
      (record a { query_running = false; query_ticks_remaining = 0; cancel_requested = true })
      cancelled (sql_or_empty a.inflight_query_sql) none (some (codes "cancel action"))

unfoldable pub toggle_safe_mode : TuiApp → TuiApp
toggle_safe_mode a = record a {
  safe_mode_guard = set_enabled a.safe_mode_guard (not a.safe_mode_guard.enabled);
  pending_confirmation = none;
}

unfoldable pub clear_pagination_state : TuiApp → TuiApp
clear_pagination_state a = record a { pagination_state = none; pending_page_transition = none }

abbrev pub columns_or : List Text → List Text → List Text
columns_or [] result_columns = result_columns
columns_or (c ∷ cs) result_columns = c ∷ cs

unfoldable pub wizard_choice : WizardResult → Option ConnectionProfile
wizard_choice (WizardResult.ok p) = some p
wizard_choice (WizardResult.err e) = none

unfoldable pub connect_to : Option ConnectionProfile → TuiApp → TuiApp
connect_to none a = a
connect_to (some p) a = start_connect_with_profile a p manual

-- `connect` in the pane of the wizard: an edit that is under way is committed first.
unfoldable pub connect_from_wizard : TuiApp → TuiApp
connect_from_wizard a =
    let committed = record a { wizard_form = commit_wizard_edit a.wizard_form } in
    if committed.connect_requested
    then committed
    else connect_to (wizard_choice (wizard_profile committed.wizard_form)) committed

unfoldable pub reconnect_from_error_panel : TuiApp → TuiApp
reconnect_from_error_panel a =
    if a.connect_requested
    then a
    else connect_to (or_else (known_profile a) (wizard_choice (wizard_profile a.wizard_form))) a

-- `run_primary_error_action`, for each kind of panel.
unfoldable pub primary_action : Option ErrorKind → Option Text → TuiApp → TuiApp
primary_action none failed a = a
primary_action (some connection_error) failed a = reconnect_from_error_panel a
primary_action (some query_error) none a = reconnect_from_error_panel a
primary_action (some query_error) (some sql) a = start_query (record a { error_panel = none }) sql

unfoldable pub run_primary_error_action : TuiApp → TuiApp
run_primary_error_action a = primary_action a.error_panel a.last_failed_query a

-- What may happen, one at a time.
pub data Event : Type 0 where
  ran : Text → Event
  previewed : Text → List Text → Event
  turned : PageTransition → List Text → Event
  submitted cancelled_by_key cancelled_by_action toggled_safe_mode : Event
  connecting reconnecting primary : Event
  ticked : Option ConnectWorkerOutcome → Option QueryWorkerOutcome → Event

module _ (hash : Text → ℕ) where
  -- `apply_invocation` of `ActionInvocation::RunSql`, but for the preview of a table
  unfoldable pub run_sql : TuiApp → Text → TuiApp
  run_sql a sql = execute_sql_with_guard hash (clear_pagination_state a) sql

  -- The schema's columns are those that the explorer shows.
  unfoldable pub show_page : TuiApp → PageTransition → List Text → PageSql → TuiApp
  show_page a transition schema_columns (PageSql.err e) = a
  show_page a transition schema_columns (PageSql.ok sql) =
      execute_sql_with_guard hash
        (record a {
          result_columns = columns_or schema_columns a.result_columns;
          pending_page_transition = some transition;
        })
        sql

  unfoldable pub preview_first : TuiApp → List Text → PaginationState → PageSql → TuiApp
  preview_first a schema_columns s (PageSql.err e) = clear_pagination_state a
  preview_first a schema_columns s (PageSql.ok sql) =
      show_page (record a { pagination_state = some s }) reset schema_columns (PageSql.ok sql)

  unfoldable pub preview_page : TuiApp → Text → List Text → Option PaginationState → TuiApp
  preview_page a fallback_sql schema_columns none = run_sql a fallback_sql
  preview_page a fallback_sql schema_columns (some s) =
      preview_first a schema_columns s (pagination_sql s reset)

  unfoldable pub start_preview_paged_query : TuiApp → Text → List Text → TuiApp
  start_preview_paged_query a fallback_sql schema_columns =
      preview_page a fallback_sql schema_columns
        (build_preview_pagination_state a.selection schema_columns)

  unfoldable pub turn_page : TuiApp → PageTransition → List Text → PaginationState → TuiApp
  turn_page a previous schema_columns s =
      if s.page_index == 0
      then a
      else show_page a previous schema_columns (pagination_sql s previous)
  turn_page a next schema_columns s = show_page a next schema_columns (pagination_sql s next)
  turn_page a reset schema_columns s = show_page a reset schema_columns (pagination_sql s reset)

  unfoldable pub turn_active_page :
      Option PaginationState → TuiApp → PageTransition → List Text → TuiApp
  turn_active_page none a transition schema_columns = a
  turn_active_page (some s) a transition schema_columns = turn_page a transition schema_columns s

  unfoldable pub run_pagination_transition : TuiApp → PageTransition → List Text → TuiApp
  run_pagination_transition a transition schema_columns =
      turn_active_page a.pagination_state a transition schema_columns

  -- `submit` in the query editor, where a confirmation is pending.
  unfoldable pub follow_confirmation : TuiApp → Text → Confirmation → TuiApp
  follow_confirmation a sql Confirmation.ok = start_query a sql
  follow_confirmation a sql (Confirmation.err e) = a

  unfoldable pub submit_pending : Option PendingSql → TuiApp → TuiApp
  submit_pending none a = a
  submit_pending (some pending) a =
      let (guard, confirmation) = confirm hash a.safe_mode_guard pending.token pending.sql in
      follow_confirmation (record a { safe_mode_guard = guard; pending_confirmation = none })
        pending.sql confirmation

  unfoldable pub submit_confirmation : TuiApp → TuiApp
  submit_confirmation a = submit_pending a.pending_confirmation a

  unfoldable pub handle : TuiApp → Event → TuiApp
  handle a (ran sql) = run_sql a sql
  handle a (previewed sql schema_columns) = start_preview_paged_query a sql schema_columns
  handle a (turned transition schema_columns) =
      run_pagination_transition a transition schema_columns
  handle a submitted = submit_confirmation a
  handle a cancelled_by_key = cancel_message a
  handle a cancelled_by_action = cancel_action a
  handle a toggled_safe_mode = toggle_safe_mode a
  handle a connecting = connect_from_wizard a
  handle a reconnecting = reconnect_from_error_panel a
  handle a primary = run_primary_error_action a
  handle a (ticked connect_found query_found) = on_tick a connect_found query_found

  unfoldable pub run : TuiApp → List Event → TuiApp
  run a [] = a
  run a (e ∷ es) = run (handle a e) es
