-- ===== src/Tui/Session/Bounded.antt =====
-- The counters of the attempts and the flags of the workers, after any events.
use myr.Prelude.{
  ℕ, ◌≡◌, refl, true, false, ◌&&◌, Option, none, some, List, [], ◌∷◌, ltb, ◌==◌, is_none, if_either,
  Bool-cases, inl, inr, arith,
}
use myr.Prelude.Text.{Text}
use myr.SafeMode.Guard.{Confirmation}
use myr.Profiles.{ConnectionProfile}
use myr.Tui.Wizard.{commit_wizard_edit}
use myr.Tui.Pagination.{
  PageTransition, PaginationState, PageSql, reset, next, previous, pagination_sql,
}
use myr.Tui.Session.{
  TuiApp, PendingSql, ConnectIntent, manual, auto_reconnect, ErrorKind, connection_error,
  query_error, append_audit_event, start_query,
}
use myr.Tui.Session.Polls.{QueryWorkerOutcome, one_more, open_error_panel, known_profile}
use myr.Tui.Session.Connections.{
  ConnectWorkerOutcome, connected, connect_failed, apply_connected_profile, resume_query, resume,
  connection_lost, connect_again, is_auto, connect_outcome, connect_done, poll_connect_result,
  populate_demo_results, finish_demo, count_down, on_tick,
}
use myr.Tui.Session.Input.{
  cancel_worker, cancel_message, cancel_action, toggle_safe_mode, clear_pagination_state,
  connect_to, connect_from_wizard, reconnect_from_error_panel, primary_action,
  run_primary_error_action, run_sql, show_page, preview_first, preview_page,
  start_preview_paged_query, turn_page, turn_active_page, run_pagination_transition,
  follow_confirmation, submit_pending, submit_confirmation, Event, ran, previewed, turned,
  submitted, cancelled_by_key, cancelled_by_action, toggled_safe_mode, connecting, reconnecting,
  primary, ticked, handle, run,
}
use myr.Tui.Session.Attempts.{
  IsBounded, start-IsBounded, execute-IsBounded, connect-IsBounded, one_more_attempt,
  poll_query-IsBounded,
}

resume_query-IsBounded :
    (sql : Option Text) (a : TuiApp) → IsBounded a → IsBounded (resume_query sql a)
unfolding resume_query start_query
resume_query-IsBounded none a h = h
resume_query-IsBounded (some sql) a h =
    start-IsBounded (record a { pending_retry_query = none }) sql false h

resume-IsBounded : (intent : ConnectIntent) (a : TuiApp) → IsBounded a → IsBounded (resume intent a)
unfolding resume
resume-IsBounded manual a h = h
resume-IsBounded auto_reconnect a h = resume_query-IsBounded a.pending_retry_query a h

connection_lost-IsBounded : (a : TuiApp) → IsBounded a → IsBounded (connection_lost a)
unfolding connection_lost open_error_panel
connection_lost-IsBounded a (retries, reconnects, flags, token) =
    (retries, omega arith, flags, token)

connect_again-IsBounded :
    (p : Option ConnectionProfile) (a : TuiApp)
    → ltb a.reconnect_attempts 2 ≡ true
    → IsBounded a
    → IsBounded (connect_again p a)
unfolding connect_again
connect_again-IsBounded none a left h = connection_lost-IsBounded a h
connect_again-IsBounded (some p) a left (retries, reconnects, flags, token) =
    connect-IsBounded (record a { reconnect_attempts = one_more a.reconnect_attempts }) p
      auto_reconnect
      (retries, one_more_attempt a.reconnect_attempts 2 left (omega arith), flags, token)

connect_failed-IsBounded :
    (a : TuiApp) (intent : ConnectIntent) (error : Text)
    → IsBounded a
    → IsBounded (connect_outcome a intent (connect_failed error))
unfolding connect_outcome
connect_failed-IsBounded a intent error h =
    elim (Bool-cases (is_auto intent && ltb a.reconnect_attempts 2)) [
      | inl again ↦
          rw (connect_outcome, again) (connect_again-IsBounded (known_profile a) a (ground arith) h)
      | inr stop ↦ rw (connect_outcome, stop) (connection_lost-IsBounded a h)
    ]

connect_outcome-IsBounded :
    (a : TuiApp) (intent : ConnectIntent) (outcome : ConnectWorkerOutcome)
    → IsBounded a
    → IsBounded (connect_outcome a intent outcome)
unfolding connect_outcome apply_connected_profile
connect_outcome-IsBounded a intent (connected p selection) (retries, reconnects, flags, token) =
    resume-IsBounded intent _ (retries, omega arith, flags, token)
connect_outcome-IsBounded a intent (connect_failed error) h =
    connect_failed-IsBounded a intent error h

pub poll_connect-IsBounded :
    (a : TuiApp) (found : Option ConnectWorkerOutcome)
    → IsBounded a
    → IsBounded (poll_connect_result a found)
unfolding poll_connect_result
poll_connect-IsBounded a none h = h
poll_connect-IsBounded a (some outcome) (retries, reconnects, flags, token) =
    if_either IsBounded a.connect_result_rx
      (connect_outcome-IsBounded (connect_done a) a.connect_intent outcome
        (retries, reconnects, refl, token))
      (retries, reconnects, flags, token)

count_down-IsBounded : (a : TuiApp) → IsBounded a → IsBounded (count_down a)
unfolding count_down finish_demo populate_demo_results append_audit_event
count_down-IsBounded a (retries, reconnects, flags, token) =
    if_either IsBounded (a.query_running && is_none a.data_backend)
      (if_either IsBounded (a.query_ticks_remaining == 0) (omega arith, reconnects, flags, token)
        (retries, reconnects, flags, token))
      (retries, reconnects, flags, token)

pub on_tick-IsBounded :
    (a : TuiApp) (c : Option ConnectWorkerOutcome) (q : Option QueryWorkerOutcome)
    → IsBounded a
    → IsBounded (on_tick a c q)
unfolding on_tick
on_tick-IsBounded a c q h =
    count_down-IsBounded _
      (poll_query-IsBounded (poll_connect_result a c) q (poll_connect-IsBounded a c h))

cancel_worker-IsBounded :
    (token : Option ℕ) (a : TuiApp) → IsBounded a → IsBounded (cancel_worker token a)
unfolding cancel_worker append_audit_event
cancel_worker-IsBounded none a h = h
cancel_worker-IsBounded (some worker) a h = h

connect_to-IsBounded :
    (p : Option ConnectionProfile) (a : TuiApp) → IsBounded a → IsBounded (connect_to p a)
unfolding connect_to
connect_to-IsBounded none a h = h
connect_to-IsBounded (some p) a h = connect-IsBounded a p manual h

reconnecting-IsBounded : (a : TuiApp) → IsBounded a → IsBounded (reconnect_from_error_panel a)
unfolding reconnect_from_error_panel
reconnecting-IsBounded a h = if_either IsBounded a.connect_requested h (connect_to-IsBounded _ a h)

primary-IsBounded :
    (kind : Option ErrorKind) (sql : Option Text) (a : TuiApp)
    → IsBounded a
    → IsBounded (primary_action kind sql a)
unfolding primary_action start_query
primary-IsBounded none sql a h = h
primary-IsBounded (some connection_error) sql a h = reconnecting-IsBounded a h
primary-IsBounded (some query_error) none a h = reconnecting-IsBounded a h
primary-IsBounded (some query_error) (some sql) a h =
    start-IsBounded (record a { error_panel = none }) sql false h

module _ (hash : Text → ℕ) where
  show_page-IsBounded :
      (a : TuiApp) (transition : PageTransition) (columns : List Text) (sql : PageSql)
      → IsBounded a
      → IsBounded (show_page hash a transition columns sql)
  unfolding show_page
  show_page-IsBounded a transition columns (PageSql.err e) h = h
  show_page-IsBounded a transition columns (PageSql.ok sql) h = execute-IsBounded hash _ sql h

  preview_first-IsBounded :
      (a : TuiApp) (columns : List Text) (s : PaginationState) (sql : PageSql)
      → IsBounded a
      → IsBounded (preview_first hash a columns s sql)
  unfolding preview_first clear_pagination_state
  preview_first-IsBounded a columns s (PageSql.err e) h = h
  preview_first-IsBounded a columns s (PageSql.ok sql) h =
      show_page-IsBounded (record a { pagination_state = some s }) reset columns (PageSql.ok sql) h

  preview-IsBounded :
      (a : TuiApp) (sql : Text) (columns : List Text) (s : Option PaginationState)
      → IsBounded a
      → IsBounded (preview_page hash a sql columns s)
  unfolding preview_page run_sql clear_pagination_state
  preview-IsBounded a sql columns none h = execute-IsBounded hash _ sql h
  preview-IsBounded a sql columns (some s) h =
      preview_first-IsBounded a columns s (pagination_sql s reset) h

  turn-IsBounded :
      (a : TuiApp) (transition : PageTransition) (columns : List Text) (s : Option PaginationState)
      → IsBounded a
      → IsBounded (turn_active_page hash s a transition columns)
  unfolding turn_active_page turn_page
  turn-IsBounded a transition columns none h = h
  turn-IsBounded a previous columns (some s) h =
      if_either IsBounded (s.page_index == 0) h (show_page-IsBounded a previous columns _ h)
  turn-IsBounded a next columns (some s) h = show_page-IsBounded a next columns _ h
  turn-IsBounded a reset columns (some s) h = show_page-IsBounded a reset columns _ h

  follow-IsBounded :
      (a : TuiApp) (sql : Text) (c : Confirmation)
      → IsBounded a
      → IsBounded (follow_confirmation hash a sql c)
  unfolding follow_confirmation start_query
  follow-IsBounded a sql Confirmation.ok h = start-IsBounded a sql false h
  follow-IsBounded a sql (Confirmation.err e) h = h

  submit-IsBounded :
      (pending : Option PendingSql) (a : TuiApp)
      → IsBounded a
      → IsBounded (submit_pending hash pending a)
  unfolding submit_pending
  submit-IsBounded none a h = h
  submit-IsBounded (some pending) a h = follow-IsBounded _ pending.sql _ h

  handle-IsBounded : (a : TuiApp) (e : Event) → IsBounded a → IsBounded (handle hash a e)
  unfolding handle run_sql clear_pagination_state start_preview_paged_query
      run_pagination_transition submit_confirmation cancel_message cancel_action toggle_safe_mode
      connect_from_wizard run_primary_error_action append_audit_event
  handle-IsBounded a (ran sql) h = execute-IsBounded hash _ sql h
  handle-IsBounded a (previewed sql columns) h = preview-IsBounded a sql columns _ h
  handle-IsBounded a (turned transition columns) h =
      turn-IsBounded a transition columns a.pagination_state h
  handle-IsBounded a submitted h = submit-IsBounded a.pending_confirmation a h
  handle-IsBounded a cancelled_by_key h =
      if_either IsBounded a.query_running
        (cancel_worker-IsBounded a.query_cancellation (record a { cancel_requested = true }) h) h
  handle-IsBounded a cancelled_by_action h = h
  handle-IsBounded a toggled_safe_mode h = h
  handle-IsBounded a connecting h =
      let committed = record a { wizard_form = commit_wizard_edit a.wizard_form } in
      if_either IsBounded a.connect_requested h (connect_to-IsBounded _ committed h)
  handle-IsBounded a reconnecting h = reconnecting-IsBounded a h
  handle-IsBounded a primary h = primary-IsBounded a.error_panel a.last_failed_query a h
  handle-IsBounded a (ticked c q) h = on_tick-IsBounded a c q h

  -- If the counters and flags are within their limits at first, they are so after any events.
  pub run-IsBounded : (a : TuiApp) (es : List Event) → IsBounded a → IsBounded (run hash a es)
  unfolding run
  run-IsBounded a [] h = h
  run-IsBounded a (e ∷ es) h = run-IsBounded (handle hash a e) es (handle-IsBounded a e h)
