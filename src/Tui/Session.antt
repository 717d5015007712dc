-- ===== src/Tui/Session.antt =====
-- crates/tui/src/state/app.rs, state/runtime.rs, state/navigation.rs (`Pane`) and
-- app_logic/query_actions/query_execution.rs: the part of the application's state that the life of
-- a query and of a connection hangs on, and how a query starts. What the handlers only write for
-- the screen is left out: the status line, the flash of a pane, the cursors and the search of the
-- results view, the texts of the error panel. A worker thread and its channel are named by the
-- number of the worker; the effects are listed, the latest first.
pub mod Polls
pub mod Connections
pub mod Input
pub mod Guarded
pub mod ReadOnly
pub mod Failures
pub mod Restarts
pub mod Cancel
pub mod Dispatch
pub mod Starts
pub mod Attempts
pub mod Bounded
mod Examples
use myr.Prelude.{
  ℕ, ◌+◌, Bool, true, false, not, ◌&&◌, Option, none, some, List, [], ◌∷◌, ◌++◌, length, take, ltb,
  is_some, is_some_and, or_else, and_then, any, if◌then◌else◌,
}
use myr.Prelude.Text.{Text, codes, to_ascii_lowercase, contains, split_whitespace, join}
use myr.SafeMode.Assess.{assess_sql_safety, is_safe_read_only}
use myr.SafeMode.Guard.{
  SafeModeGuard, ConfirmationToken, GuardDecision, allow, require_confirmation, evaluate,
}
use myr.ResultsBuffer.{ResultsRingBuffer}
use myr.QueryRunner.{QueryRow}
use myr.Profiles.{ConnectionProfile}
use myr.Actions.Catalog.{SchemaSelection}
use myr.Tui.Wizard.{ConnectionWizardForm}
use myr.Tui.Editor.{Editor, byte_len, run_query_text}
use myr.Tui.Pagination.{PaginationState, PageTransition}

pub data Pane : Type 0 where
  connection_wizard schema_explorer results_pane query_editor profile_bookmarks : Pane

pub data ConnectIntent : Type 0 where
  manual auto_reconnect : ConnectIntent

pub data ErrorKind : Type 0 where
  connection_error query_error : ErrorKind

pub data AuditOutcome : Type 0 where
  started succeeded failed cancelled blocked : AuditOutcome

-- Without its two times.
pub record AuditRecord : Type 0 where
  pub profile_name : Option Text
  pub database : Option Text
  pub outcome : AuditOutcome
  pub sql : Text
  pub rows_streamed : Option ℕ
  pub error : Option Text

-- What reaches the threads and the audit trail, where there is one.
pub data Effect : Type 0 where
  query_worker : ℕ → ConnectionProfile → Text → Effect
  connect_worker : ConnectionProfile → Effect
  cancelled_worker : ℕ → Effect
  audited : AuditRecord → Effect

pub record PendingSql : Type 0 where
  pub token : ConfirmationToken
  pub sql : Text

pub record TuiApp : Type 0 where
  pub pane : Pane
  pub wizard_form : ConnectionWizardForm
  pub editor : Editor
  pub selection : SchemaSelection
  pub safe_mode_guard : SafeModeGuard
  pub pending_confirmation : Option PendingSql
  pub query_running : Bool
  pub query_ticks_remaining : ℕ
  pub has_results : Bool
  pub results : ResultsRingBuffer QueryRow
  pub result_columns : List Text
  pub pagination_state : Option PaginationState
  pub pending_page_transition : Option PageTransition
  pub cancel_requested : Bool
  pub connect_requested : Bool
  pub connect_intent : ConnectIntent
  pub connect_result_rx : Bool
  pub query_result_rx : Option ℕ
  pub query_cancellation : Option ℕ
  pub data_backend : Option ConnectionProfile
  pub active_connection_profile : Option ConnectionProfile
  pub last_connect_profile : Option ConnectionProfile
  pub pending_retry_query : Option Text
  pub reconnect_attempts : ℕ
  pub query_retry_attempts : ℕ
  pub inflight_query_sql : Option Text
  pub last_failed_query : Option Text
  pub error_panel : Option ErrorKind
  pub workers : ℕ
  pub effects : List Effect

abbrev pub query_duration_ticks : ℕ
query_duration_ticks = 10

abbrev pub query_retry_limit : ℕ
query_retry_limit = 1

abbrev pub auto_reconnect_limit : ℕ
auto_reconnect_limit = 2

unfoldable pub truncate_for_audit : Text → ℕ → Text
truncate_for_audit value max_chars =
    take max_chars value ++ (if ltb max_chars (length value) then codes "..." else [])

unfoldable pub compact_sql_for_audit : Text → Text
compact_sql_for_audit sql = truncate_for_audit (join (codes " ") (split_whitespace sql)) 1000

-- The name of the connected profile is that of the active one.
unfoldable pub audit_record : TuiApp → AuditOutcome → Text → Option ℕ → Option Text → AuditRecord
audit_record a outcome sql rows_streamed error = record {
  profile_name = and_then a.active_connection_profile (λ p. some p.name);
  database = or_else a.selection.database (and_then a.active_connection_profile (λ p. p.database));
  outcome = outcome;
  sql = compact_sql_for_audit sql;
  rows_streamed = rows_streamed;
  error = and_then error (λ e. some (truncate_for_audit e 400));
}

unfoldable pub append_audit_event : TuiApp → AuditOutcome → Text → Option ℕ → Option Text → TuiApp
append_audit_event a outcome sql rows_streamed error = record a {
  effects = audited (audit_record a outcome sql rows_streamed error) ∷ a.effects;
}

abbrev pub show_text : Editor → Text → Editor
show_text e text = record e { query_editor_text = text; query_cursor = byte_len text }

abbrev pub empty_results : ResultsRingBuffer QueryRow
empty_results = record { capacity = 2000; rows = []; total_rows_seen = 0 }

-- `start_query_internal`: where it is not a retry, the counters and the history.
unfoldable pub forget_attempts : TuiApp → Text → TuiApp
forget_attempts a sql = record a {
  query_retry_attempts = 0;
  last_failed_query = none;
  pending_retry_query = none;
  reconnect_attempts = 0;
  editor = run_query_text a.editor sql;
}

-- A worker where there is a backend, and a countdown where there is none.
unfoldable pub spawn_query : Option ConnectionProfile → TuiApp → Text → TuiApp
spawn_query (some backend) a sql = record a {
  query_running = true;
  query_ticks_remaining = 0;
  results = empty_results;
  query_cancellation = some a.workers;
  query_result_rx = some a.workers;
  workers = a.workers + 1;
  effects = query_worker a.workers backend sql ∷ a.effects;
}
spawn_query none a sql = record a {
  query_running = true;
  query_ticks_remaining = query_duration_ticks;
}

unfoldable pub show_query : TuiApp → Text → TuiApp
show_query a sql = record a { inflight_query_sql = some sql; editor = show_text a.editor sql }

unfoldable pub begin_query : TuiApp → TuiApp
begin_query a = record a {
  pane = results_pane;
  error_panel = none;
  cancel_requested = false;
  has_results = false;
  query_cancellation = none;
  query_result_rx = none;
}

unfoldable pub start_query_internal : TuiApp → Text → Bool → TuiApp
start_query_internal a sql retrying =
    let fresh = if retrying then a else forget_attempts a sql in
    let shown = show_query fresh sql in
    let begun = begin_query (append_audit_event shown started sql none none) in
    spawn_query begun.data_backend begun sql

unfoldable pub start_query : TuiApp → Text → TuiApp
start_query a sql = start_query_internal a sql false

unfoldable pub current_profile_read_only : TuiApp → Bool
current_profile_read_only a =
    is_some_and (or_else a.active_connection_profile a.last_connect_profile) (λ p. p.read_only)

abbrev pub blocked_message : Text
blocked_message = codes "Blocked by read-only profile mode: write/DDL SQL is disabled"

unfoldable pub block_sql : TuiApp → Text → TuiApp
block_sql a sql =
    append_audit_event (record a { pending_confirmation = none }) blocked sql none
      (some blocked_message)

-- The two decisions of the guard.
unfoldable pub follow_decision : TuiApp → Text → GuardDecision → TuiApp
follow_decision a sql (allow assessment) =
    start_query (record a { pending_confirmation = none }) sql
follow_decision a sql (require_confirmation token assessment) = record a {
  pending_confirmation = some (record { token = token; sql = sql });
  editor = show_text a.editor sql;
  pane = query_editor;
}

module _ (hash : Text → ℕ) where
  unfoldable pub ask_guard : TuiApp → Text → TuiApp
  ask_guard a sql =
      let (guard, decision) = evaluate hash a.safe_mode_guard sql in
      follow_decision (record a { safe_mode_guard = guard }) sql decision

  unfoldable pub execute_sql_with_guard : TuiApp → Text → TuiApp
  execute_sql_with_guard a sql =
      if current_profile_read_only a && not (is_safe_read_only (assess_sql_safety sql))
      then block_sql a sql
      else ask_guard a sql

-- lib_helpers.rs: what an error text says.
unfoldable pub mentions : List Text → Text → Bool
mentions needles message =
    let normalized = to_ascii_lowercase message in any (contains normalized) needles

abbrev pub transient_needles : List Text
transient_needles =
    codes "timed out"
    ∷ codes "timeout"
    ∷ codes "temporary"
    ∷ codes "connection reset"
    ∷ codes "connection refused"
    ∷ codes "connection closed"
    ∷ codes "broken pipe"
    ∷ codes "server has gone away"
    ∷ codes "lost connection"
    ∷ codes "pool was disconnect"
    ∷ codes "i/o error"
    ∷ codes "io error"
    ∷ []

unfoldable pub is_transient_query_error : Text → Bool
is_transient_query_error message = mentions transient_needles message

abbrev pub lost_needles : List Text
lost_needles =
    codes "pool was disconnect"
    ∷ codes "server has gone away"
    ∷ codes "lost connection"
    ∷ codes "connection reset"
    ∷ codes "connection refused"
    ∷ codes "connection closed"
    ∷ codes "broken pipe"
    ∷ codes "not connected"
    ∷ []

unfoldable pub is_connection_lost_error : Text → Bool
is_connection_lost_error message = mentions lost_needles message
