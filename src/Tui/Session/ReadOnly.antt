-- ===== src/Tui/Session/ReadOnly.antt =====
-- What starts in a session with a read-only profile, whatever happens.
use myr.Prelude.{
  ℕ, ◌≡◌, refl, Bool, true, false, ◌&&◌, Option, none, some, List, [], ◌∷◌, ltb, ◌==◌, is_some,
  is_none, if_either, All, ◌⊎◌,
}
use mathlib.Core.Bool.{false≢true}
use myr.Prelude.Text.{Text}
use myr.SafeMode.Scan.{split_statements}
use myr.SafeMode.Assess.Verdict.{safe_iff}
use myr.SqlGenerator.Opening.{IsReadSql}
use myr.Profiles.{ConnectionProfile}
use myr.Tui.Wizard.{commit_wizard_edit}
use myr.Tui.Pagination.{
  PageTransition, PaginationState, PageSql, reset, next, previous, pagination_sql,
}
use myr.Tui.Session.{
  TuiApp, PendingSql, ConnectIntent, manual, auto_reconnect, ErrorKind, connection_error,
  query_error, append_audit_event, start_query, Effect, query_worker, connect_worker,
  cancelled_worker, audited,
}
use myr.Tui.Session.Polls.{QueryWorkerOutcome, one_more, open_error_panel, known_profile}
use myr.Tui.Session.Connections.{
  ConnectWorkerOutcome, connected, connect_failed, apply_connected_profile, resume_query, resume,
  connection_lost, connect_again, is_auto, connect_outcome, connect_done, poll_connect_result,
  count_down, on_tick,
}
use myr.Tui.Session.Input.{
  cancel_worker, cancel_message, cancel_action, toggle_safe_mode, clear_pagination_state,
  connect_to, connect_from_wizard, reconnect_from_error_panel, primary_action,
  run_primary_error_action, run_sql, show_page, preview_first, preview_page,
  start_preview_paged_query, turn_page, turn_active_page, run_pagination_transition, submit_pending,
  submit_confirmation, Event, ran, previewed, turned, submitted, cancelled_by_key,
  cancelled_by_action, toggled_safe_mode, connecting, reconnecting, primary, ticked, handle, run,
}
use myr.Tui.Session.Guarded.{
  IsSafeOption, IsSafeEffect, IsGuarded, start-IsGuarded, execute-IsGuarded, connect-IsGuarded,
  poll_query-IsGuarded,
}

resume-IsGuarded :
    (sql : Option Text) (a : TuiApp)
    → IsSafeOption sql
    → IsGuarded a
    → IsGuarded (resume_query sql a)
unfolding resume_query start_query
resume-IsGuarded none a safe h = h
resume-IsGuarded (some sql) a safe (ro, pending, failed, retry, awaited, log) =
    start-IsGuarded (record a { pending_retry_query = none }) sql false safe
      (ro, pending, failed, tt, awaited, log)

connection_lost-IsGuarded : (a : TuiApp) → IsGuarded a → IsGuarded (connection_lost a)
unfolding connection_lost open_error_panel
connection_lost-IsGuarded a (ro, pending, failed, retry, awaited, log) =
    (ro, pending, failed, tt, awaited, log)

-- The profiles that connect are read-only.
abbrev pub IsReadOnlyOutcome : Option ConnectWorkerOutcome → Type 0
IsReadOnlyOutcome none = Unit
IsReadOnlyOutcome (some (connected p selection)) = p.read_only ≡ true
IsReadOnlyOutcome (some (connect_failed error)) = Unit

abbrev pub IsReadOnlyEvent : Event → Type 0
IsReadOnlyEvent (ran sql) = Unit
IsReadOnlyEvent (previewed sql columns) = Unit
IsReadOnlyEvent (turned transition columns) = Unit
IsReadOnlyEvent submitted = Unit
IsReadOnlyEvent cancelled_by_key = Unit
IsReadOnlyEvent cancelled_by_action = Unit
IsReadOnlyEvent toggled_safe_mode = Unit
IsReadOnlyEvent connecting = Unit
IsReadOnlyEvent reconnecting = Unit
IsReadOnlyEvent primary = Unit
IsReadOnlyEvent (ticked c q) = IsReadOnlyOutcome c

connect_outcome-IsGuarded :
    (a : TuiApp) (intent : ConnectIntent) (outcome : ConnectWorkerOutcome)
    → IsReadOnlyOutcome (some outcome)
    → IsGuarded a
    → IsGuarded (connect_outcome a intent outcome)
unfolding connect_outcome apply_connected_profile resume connect_again
connect_outcome-IsGuarded a manual (connected p selection) now
      (ro, pending, failed, retry, awaited, log) =
    ((now, refl), pending, failed, retry, awaited, log)
connect_outcome-IsGuarded a auto_reconnect (connected p selection) now
      (ro, pending, failed, retry, awaited, log) =
    resume-IsGuarded a.pending_retry_query _ retry
      ((now, refl), pending, failed, retry, awaited, log)
connect_outcome-IsGuarded a intent (connect_failed error) now h =
    if_either IsGuarded (is_auto intent && ltb a.reconnect_attempts 2) (again (known_profile a))
      (connection_lost-IsGuarded a h)
  where
    again : (p : Option ConnectionProfile) → IsGuarded (connect_again p a)
    again none = connection_lost-IsGuarded a h
    again (some p) =
        connect-IsGuarded (record a { reconnect_attempts = one_more a.reconnect_attempts }) p
          auto_reconnect h

poll_connect-IsGuarded :
    (a : TuiApp) (found : Option ConnectWorkerOutcome)
    → IsReadOnlyOutcome found
    → IsGuarded a
    → IsGuarded (poll_connect_result a found)
unfolding poll_connect_result
poll_connect-IsGuarded a none now h = h
poll_connect-IsGuarded a (some outcome) now h =
    if_either IsGuarded a.connect_result_rx
      (connect_outcome-IsGuarded (connect_done a) a.connect_intent outcome now h) h

count_down-IsGuarded : (a : TuiApp) → IsGuarded a → IsGuarded (count_down a)
unfolding count_down
count_down-IsGuarded a h =
    let idle : (a.query_running && is_none a.data_backend) ≡ false =
      no_countdown a.query_running a.data_backend h.0.1 in
    rw (count_down, idle) h
  where
    no_countdown :
        (running : Bool) (backend : Option ConnectionProfile)
        → is_some backend ≡ true
        → (running && is_none backend) ≡ false
    no_countdown running none e = absurd (false≢true e)
    no_countdown true (some p) e = refl
    no_countdown false (some p) e = refl

on_tick-IsGuarded :
    (a : TuiApp) (c : Option ConnectWorkerOutcome) (q : Option QueryWorkerOutcome)
    → IsReadOnlyOutcome c
    → IsGuarded a
    → IsGuarded (on_tick a c q)
unfolding on_tick
on_tick-IsGuarded a c q now h =
    let polled = poll_connect_result a c in
    count_down-IsGuarded _
      (poll_query-IsGuarded polled.query_result_rx polled q (poll_connect-IsGuarded a c now h))

cancel_worker-IsGuarded :
    (token : Option ℕ) (a : TuiApp) → IsGuarded a → IsGuarded (cancel_worker token a)
unfolding cancel_worker append_audit_event
cancel_worker-IsGuarded none a (ro, pending, failed, retry, awaited, log) =
    (ro, pending, failed, retry, awaited, (tt, log))
cancel_worker-IsGuarded (some worker) a (ro, pending, failed, retry, awaited, log) =
    (ro, pending, failed, retry, awaited, (tt, log))

connect_to-IsGuarded :
    (p : Option ConnectionProfile) (a : TuiApp) → IsGuarded a → IsGuarded (connect_to p a)
unfolding connect_to
connect_to-IsGuarded none a h = h
connect_to-IsGuarded (some p) a h = connect-IsGuarded a p manual h

reconnecting-IsGuarded : (a : TuiApp) → IsGuarded a → IsGuarded (reconnect_from_error_panel a)
unfolding reconnect_from_error_panel
reconnecting-IsGuarded a h = if_either IsGuarded a.connect_requested h (connect_to-IsGuarded _ a h)

primary-IsGuarded :
    (kind : Option ErrorKind) (sql : Option Text) (a : TuiApp)
    → IsSafeOption sql
    → IsGuarded a
    → IsGuarded (primary_action kind sql a)
unfolding primary_action start_query
primary-IsGuarded none sql a safe h = h
primary-IsGuarded (some connection_error) sql a safe h = reconnecting-IsGuarded a h
primary-IsGuarded (some query_error) none a safe h = reconnecting-IsGuarded a h
primary-IsGuarded (some query_error) (some sql) a safe h =
    start-IsGuarded (record a { error_panel = none }) sql false safe h

-- What a query worker was started for.
abbrev pub IsReadEffect : Effect → Type 0
IsReadEffect (query_worker worker backend sql) = (split_statements sql ≡ []) ⊎ IsReadSql sql
IsReadEffect (connect_worker p) = Unit
IsReadEffect (cancelled_worker worker) = Unit
IsReadEffect (audited r) = Unit

read_effect : (e : Effect) → IsSafeEffect e → IsReadEffect e
read_effect (query_worker worker backend sql) h = (safe_iff sql).0 h
read_effect (connect_worker p) h = tt
read_effect (cancelled_worker worker) h = tt
read_effect (audited r) h = tt

read_effects : (es : List Effect) → All IsSafeEffect es → All IsReadEffect es
read_effects [] h = tt
read_effects (e ∷ es) (he, h) = (read_effect e he, read_effects es h)

module _ (hash : Text → ℕ) where
  show_page-IsGuarded :
      (a : TuiApp) (transition : PageTransition) (columns : List Text) (sql : PageSql)
      → IsGuarded a
      → IsGuarded (show_page hash a transition columns sql)
  unfolding show_page
  show_page-IsGuarded a transition columns (PageSql.err e) h = h
  show_page-IsGuarded a transition columns (PageSql.ok sql) h = execute-IsGuarded hash _ sql h

  preview_first-IsGuarded :
      (a : TuiApp) (columns : List Text) (s : PaginationState) (sql : PageSql)
      → IsGuarded a
      → IsGuarded (preview_first hash a columns s sql)
  unfolding preview_first clear_pagination_state
  preview_first-IsGuarded a columns s (PageSql.err e) h = h
  preview_first-IsGuarded a columns s (PageSql.ok sql) h =
      show_page-IsGuarded (record a { pagination_state = some s }) reset columns (PageSql.ok sql) h

  preview-IsGuarded :
      (a : TuiApp) (sql : Text) (columns : List Text) (s : Option PaginationState)
      → IsGuarded a
      → IsGuarded (preview_page hash a sql columns s)
  unfolding preview_page run_sql clear_pagination_state
  preview-IsGuarded a sql columns none h = execute-IsGuarded hash _ sql h
  preview-IsGuarded a sql columns (some s) h =
      preview_first-IsGuarded a columns s (pagination_sql s reset) h

  turn-IsGuarded :
      (a : TuiApp) (transition : PageTransition) (columns : List Text) (s : Option PaginationState)
      → IsGuarded a
      → IsGuarded (turn_active_page hash s a transition columns)
  unfolding turn_active_page turn_page
  turn-IsGuarded a transition columns none h = h
  turn-IsGuarded a previous columns (some s) h =
      if_either IsGuarded (s.page_index == 0) h (show_page-IsGuarded a previous columns _ h)
  turn-IsGuarded a next columns (some s) h = show_page-IsGuarded a next columns _ h
  turn-IsGuarded a reset columns (some s) h = show_page-IsGuarded a reset columns _ h

  nothing_pending :
      (a : TuiApp) (pending : Option PendingSql)
      → pending ≡ none
      → IsGuarded a
      → IsGuarded (submit_pending hash pending a)
  unfolding submit_pending
  nothing_pending a none e h = h
  nothing_pending a (some pending) e h = absurd cc

  handle-IsGuarded :
      (a : TuiApp) (e : Event) → IsReadOnlyEvent e → IsGuarded a → IsGuarded (handle hash a e)
  unfolding handle run_sql clear_pagination_state start_preview_paged_query
      run_pagination_transition submit_confirmation cancel_message cancel_action toggle_safe_mode
      connect_from_wizard run_primary_error_action append_audit_event
  handle-IsGuarded a (ran sql) now h = execute-IsGuarded hash _ sql h
  handle-IsGuarded a (previewed sql columns) now h = preview-IsGuarded a sql columns _ h
  handle-IsGuarded a (turned transition columns) now h =
      turn-IsGuarded a transition columns a.pagination_state h
  handle-IsGuarded a submitted now h = nothing_pending a a.pending_confirmation h.1 h
  handle-IsGuarded a cancelled_by_key now h =
      if_either IsGuarded a.query_running
        (cancel_worker-IsGuarded a.query_cancellation (record a { cancel_requested = true }) h) h
  handle-IsGuarded a cancelled_by_action now (ro, pending, failed, retry, awaited, log) =
      (ro, pending, failed, retry, awaited, (tt, log))
  handle-IsGuarded a toggled_safe_mode now (ro, pending, failed, retry, awaited, log) =
      (ro, refl, failed, retry, awaited, log)
  handle-IsGuarded a connecting now h =
      let committed = record a { wizard_form = commit_wizard_edit a.wizard_form } in
      if_either IsGuarded a.connect_requested h (connect_to-IsGuarded _ committed h)
  handle-IsGuarded a reconnecting now h = reconnecting-IsGuarded a h
  handle-IsGuarded a primary now h = primary-IsGuarded a.error_panel a.last_failed_query a h.2 h
  handle-IsGuarded a (ticked c q) now h = on_tick-IsGuarded a c q now h

  events-IsGuarded :
      (a : TuiApp) (es : List Event)
      → All IsReadOnlyEvent es
      → IsGuarded a
      → IsGuarded (run hash a es)
  unfolding run
  events-IsGuarded a [] now h = h
  events-IsGuarded a (e ∷ es) (now, later) h =
      events-IsGuarded (handle hash a e) es later (handle-IsGuarded a e now h)

  -- From a state with a connected read-only profile, nothing to confirm, and only texts that pass as
  -- safe in what was started and may start again: after any events, in which only read-only profiles
  -- connect, the state is again such a state, and every text that a query worker was started for has
  -- no statement that `split_statements` finds, or exactly one, whose first word is a reading
  -- keyword.
  pub run-IsGuarded :
      (a : TuiApp) (es : List Event)
      → All IsReadOnlyEvent es
      → IsGuarded a
      → IsGuarded (run hash a es) × All IsReadEffect (run hash a es).effects
  run-IsGuarded a es now h =
      let after = events-IsGuarded a es now h in
      (after, read_effects (run hash a es).effects after.5)
