-- ===== src/Tui/Session/Examples.antt =====
-- The theorems on the application with a connected profile.
use myr.Prelude.{
  ℕ, ◌+◌, ◌*◌, ◌≡◌, refl, true, false, none, some, List, [], ◌∷◌, length, arith, All, Option,
  is_some,
}
use myr.Prelude.Text.{Text, codes}
use myr.SafeMode.Assess.{assess_sql_safety}
use myr.SafeMode.Guard.{evaluate}
use myr.SafeMode.Guard.Examples.{risky, guard, token, risky-asks}
use myr.Profiles.{ConnectionProfile, new}
use myr.Actions.Catalog.{SchemaSelection, ActionContext, default_context, next_page}
use myr.Actions.Engine
use myr.Actions.Engine.{ActionsEngine, invoke}
use myr.Tui.Pagination.{offset}
use myr.Tui.Wizard.{default_form}
use myr.Tui.Session.{TuiApp, connection_wizard, manual, empty_results}
use myr.Tui.Session.Polls.{QueryWorkerOutcome, query_failed, query_done, poll_query_result}
use myr.Tui.Session.Connections.{connected}
use myr.Tui.Session.Input.{
  Event, ran, submitted, cancelled_by_key, ticked, toggled_safe_mode, handle, toggle_safe_mode, run,
  cancel_message, cancel_action, submit_confirmation,
}
use myr.Tui.Session.Starts.{IsLimited, wait, wait-IsLimited}
use myr.Tui.Session.Dispatch.{IsReadAnswer, invoke-IsReadAnswer}
use myr.Tui.Session.Guarded.{IsGuarded}
use myr.Tui.Session.ReadOnly.{IsReadEffect, run-IsGuarded}
use myr.Tui.Session.Failures.{keep_failing, keep_failing_ends}
use myr.Tui.Session.Restarts.{running, restarts, restarts_without_end}
use myr.Tui.Session.Cancel.{stopped, cancel_action-cancel_message, submit_confirmation-read_only}

abbrev hash : Text → ℕ
hash s = length s

abbrev prod : ConnectionProfile
prod = record (new (codes "prod") (codes "db.example") (codes "app")) { read_only = true }

abbrev tables : SchemaSelection
tables = record { database = some (codes "app"); table = some (codes "users"); column = none }

abbrev engine : ActionsEngine
engine = Engine.new

abbrev started : TuiApp
started = record {
  pane = connection_wizard;
  wizard_form = default_form;
  editor = record {
    query_editor_text = [];
    query_cursor = 0;
    query_history = [];
    query_history_index = none;
    query_history_draft = none;
  };
  selection = tables;
  safe_mode_guard = guard;
  pending_confirmation = none;
  query_running = false;
  query_ticks_remaining = 0;
  has_results = false;
  results = empty_results;
  result_columns = [];
  pagination_state = none;
  pending_page_transition = none;
  cancel_requested = false;
  connect_requested = false;
  connect_intent = manual;
  connect_result_rx = false;
  query_result_rx = none;
  query_cancellation = none;
  data_backend = some prod;
  active_connection_profile = some prod;
  last_connect_profile = some prod;
  pending_retry_query = none;
  reconnect_attempts = 0;
  query_retry_attempts = 0;
  inflight_query_sql = none;
  last_failed_query = none;
  error_panel = none;
  workers = 0;
  effects = [];
}

abbrev events : List Event
events =
    ran (codes "SELECT 1")
    ∷ ticked none (some (query_failed (codes "Lost connection")))
    ∷ cancelled_by_key
    ∷ ran (codes "DELETE FROM users")
    ∷ submitted
    ∷ ticked (some (connected prod tables)) (some (query_failed (codes "timeout")))
    ∷ []

run-IsGuarded_example :
    IsGuarded (run hash started events) × All IsReadEffect (run hash started events).effects
run-IsGuarded_example =
    run-IsGuarded hash started events (tt, (tt, (tt, (tt, (tt, (refl, tt))))))
      ((refl, refl), refl, tt, tt, tt, tt)

abbrev busy : TuiApp
busy = running started prod (codes "SELECT 1") 0

abbrev errors : ℕ → Text × Text
errors n = (codes "connection refused", codes "lost connection")

-- The safe mode is switched off while a query runs.
abbrev switched : TuiApp
switched = run hash busy (toggled_safe_mode ∷ [])

switched-connected : is_some switched.data_backend ≡ true
unfolding run handle toggle_safe_mode running
switched-connected = refl

-- The query fails, is retried and fails again, and then the new connection fails.
abbrev ticks : List (Option Text × Option QueryWorkerOutcome)
ticks =
    (none, some (query_failed (codes "lost connection")))
    ∷ (none, some (query_failed (codes "lost connection")))
    ∷ (some (codes "connection refused"), none)
    ∷ []

wait-IsLimited_example : IsLimited switched (wait switched ticks)
wait-IsLimited_example =
    wait-IsLimited hash busy (toggled_safe_mode ∷ []) ticks (omega arith, omega arith, refl, refl)
      switched-connected

-- The second page of a preview is shown, and the next one is asked for.
abbrev paged : TuiApp
paged = record started {
  pagination_state = some (record {
    database = some (codes "app");
    table = codes "users";
    page_size = 200;
    page_index = 1;
    last_page_row_count = 200;
    plan = offset;
  });
}

abbrev paging : ActionContext
paging = record default_context { pagination_enabled = true; can_page_next = true }

invoke-IsReadAnswer_example : IsReadAnswer paged [] next_page (invoke engine next_page paging).1
invoke-IsReadAnswer_example = invoke-IsReadAnswer engine next_page paging paged [] refl

keep_failing_ends_example :
    ((keep_failing 8 errors busy).query_result_rx ≡ none)
    × ((keep_failing 8 errors busy).connect_result_rx ≡ false)
keep_failing_ends_example = keep_failing_ends errors busy (omega arith, omega arith, refl, refl)

restarts_without_end_example :
    (b : TuiApp) × (run hash
        (running started prod (b'S' ∷ codes "ELECT 1") 0)
        (restarts prod tables 3)
      ≡ running b prod (b'S' ∷ codes "ELECT 1") (0 + 2 * 3))
restarts_without_end_example =
    restarts_without_end prod b'S' (codes "ELECT 1") hash tables 3 started 0

cancel_action-cancel_message_example :
    (stopped (cancel_message busy).effects ≡ 0 ∷ stopped busy.effects)
    × (stopped (cancel_action busy).effects ≡ stopped busy.effects)
    × ((cancel_action busy).query_running ≡ false)
    × ((cancel_action busy).query_result_rx ≡ some 0)
    × ((poll_query_result (cancel_action busy) (some (query_done empty_results 7 false))).results
        ≡ empty_results)
cancel_action-cancel_message_example =
    cancel_action-cancel_message busy 0 7 empty_results refl refl refl

abbrev confirming : TuiApp
confirming = record started {
  safe_mode_guard = (evaluate length guard risky).0;
  pending_confirmation = some (record { token = token; sql = risky });
}

submit_confirmation-read_only_example :
    ((submit_confirmation length confirming).query_result_rx ≡ some 0)
    × ((submit_confirmation length confirming).inflight_query_sql ≡ some risky)
    × ((submit_confirmation length confirming).active_connection_profile ≡ some prod)
submit_confirmation-read_only_example =
    submit_confirmation-read_only length confirming guard risky token (assess_sql_safety risky) prod
      risky-asks refl refl refl
