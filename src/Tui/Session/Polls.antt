-- ===== src/Tui/Session/Polls.antt =====
-- app_logic/runtime/query.rs (`poll_query_result`): what is done with the outcome of a query. What
-- the channel holds when it is asked is an input; a worker that went away without an outcome counts
-- as a failure with the text that the source gives it.
use myr.Prelude.{
  ℕ, ◌+◌, Bool, true, false, not, ◌&&◌, Option, none, some, [], ◌∷◌, is_empty, ltb, ◌==◌, is_some,
  or_else, if◌then◌else◌,
}
use Prim.Native.Nat.{min}
use myr.Prelude.Text.{Text, trim}
use myr.ResultsBuffer.{ResultsRingBuffer, len}
use myr.QueryRunner.{QueryRow}
use myr.Profiles.{ConnectionProfile}
use myr.Tui.Pagination.{finalize_pagination_after_query}
use myr.Tui.Session.{
  TuiApp, ConnectIntent, manual, auto_reconnect, ErrorKind, query_error, succeeded, failed,
  cancelled, connect_worker, append_audit_event, query_retry_limit, auto_reconnect_limit,
  start_query_internal, is_transient_query_error, is_connection_lost_error,
}

pub data QueryWorkerOutcome : Type 0 where
  query_done : ResultsRingBuffer QueryRow → ℕ → Bool → QueryWorkerOutcome
  query_failed : Text → QueryWorkerOutcome

-- `saturating_add(1)` on a `u8`
abbrev pub one_more : ℕ → ℕ
one_more n = min 255 (n + 1)

unfoldable pub open_error_panel : TuiApp → ErrorKind → TuiApp
open_error_panel a kind = record a { error_panel = some kind }

abbrev pub attempts_for : ConnectIntent → ℕ → ℕ
attempts_for manual attempts = 0
attempts_for auto_reconnect attempts = attempts

unfoldable pub start_connect_with_profile : TuiApp → ConnectionProfile → ConnectIntent → TuiApp
start_connect_with_profile a p intent = record a {
  reconnect_attempts = attempts_for intent a.reconnect_attempts;
  error_panel = none;
  connect_result_rx = true;
  connect_requested = true;
  connect_intent = intent;
  last_connect_profile = some p;
  effects = connect_worker p ∷ a.effects;
}

-- The text for the audit trail: the query under way, or else what the editor holds.
abbrev pub inflight_or : Option Text → Text → Text
inflight_or (some sql) editor_text = sql
inflight_or none editor_text = if is_empty (trim editor_text) then [] else editor_text

unfoldable pub audit_sql : TuiApp → Text
audit_sql a = inflight_or a.inflight_query_sql a.editor.query_editor_text

unfoldable pub query_sql : TuiApp → Option Text
query_sql a = let sql = audit_sql a in if is_empty sql then none else some sql

unfoldable pub known_profile : TuiApp → Option ConnectionProfile
known_profile a = or_else a.active_connection_profile a.last_connect_profile

unfoldable pub finish_query : TuiApp → ResultsRingBuffer QueryRow → ℕ → Bool → TuiApp
finish_query a results rows_streamed was_cancelled =
    let (pagination_state, transition) =
      finalize_pagination_after_query a.pagination_state a.pending_page_transition results
        a.result_columns in
    let done = record a {
      results = results;
      has_results = not (len results == 0);
      query_retry_attempts = 0;
      reconnect_attempts = 0;
      inflight_query_sql = none;
      last_failed_query = none;
      pagination_state = pagination_state;
      pending_page_transition = transition;
    } in
    record (append_audit_event done (if was_cancelled then cancelled else succeeded) (audit_sql a)
      (some rows_streamed) none) { cancel_requested = false }

-- The three ways out of a failure.
unfoldable pub retry_query : TuiApp → Text → TuiApp
retry_query a sql =
    record (start_query_internal
      (record a { query_retry_attempts = one_more a.query_retry_attempts }) sql true) {
        cancel_requested = false;
      }

unfoldable pub reconnect : TuiApp → Option Text → ConnectionProfile → TuiApp
reconnect a sql p =
    record (start_connect_with_profile
      (record a { pending_retry_query = sql; reconnect_attempts = one_more a.reconnect_attempts }) p
      auto_reconnect) { cancel_requested = false }

unfoldable pub give_up : TuiApp → Option Text → TuiApp
give_up a sql =
    open_error_panel
      (record a {
        query_retry_attempts = 0;
        reconnect_attempts = 0;
        inflight_query_sql = none;
        last_failed_query = sql;
        pending_retry_query = none;
        cancel_requested = false;
      })
      query_error

unfoldable pub can_retry : TuiApp → Text → Bool
can_retry a error =
    is_transient_query_error error
    && not a.cancel_requested
    && ltb a.query_retry_attempts query_retry_limit

unfoldable pub can_reconnect : TuiApp → Text → Bool
can_reconnect a error =
    is_connection_lost_error error
    && not a.cancel_requested
    && ltb a.reconnect_attempts auto_reconnect_limit

unfoldable pub reconnect_or_give_up : Option ConnectionProfile → TuiApp → Option Text → TuiApp
reconnect_or_give_up (some p) a sql = reconnect a sql p
reconnect_or_give_up none a sql = give_up a sql

unfoldable pub after_retry : TuiApp → Text → Option Text → TuiApp
after_retry a error sql =
    if can_reconnect a error then reconnect_or_give_up (known_profile a) a sql else give_up a sql

unfoldable pub retry_or : Option Text → TuiApp → Text → TuiApp
retry_or (some sql) a error =
    if can_retry a error then retry_query a sql else after_retry a error (some sql)
retry_or none a error = after_retry a error none

unfoldable pub fail_query : TuiApp → Text → TuiApp
fail_query a error =
    let failing = record a {
      pending_page_transition = none;
      has_results = not (len a.results == 0);
    } in
    retry_or (query_sql a) (append_audit_event failing failed (audit_sql a) none (some error)) error

abbrev pub worker_done : TuiApp → TuiApp
worker_done a = record a {
  query_result_rx = none;
  query_cancellation = none;
  query_running = false;
}

unfoldable pub query_outcome : TuiApp → QueryWorkerOutcome → TuiApp
query_outcome a (query_done results rows_streamed was_cancelled) =
    finish_query a results rows_streamed was_cancelled
query_outcome a (query_failed error) = fail_query a error

unfoldable pub poll_query_result : TuiApp → Option QueryWorkerOutcome → TuiApp
poll_query_result a none = a
poll_query_result a (some outcome) =
    if is_some a.query_result_rx then query_outcome (worker_done a) outcome else a
