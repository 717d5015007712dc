-- ===== src/Tui/Session/Attempts.antt =====
-- The counters of the attempts and the flags of the workers.
use myr.Prelude.{
  ℕ, ◌≤◌, ◌≡◌, refl, Bool, true, false, not, ◌&&◌, Option, none, some, ltb, is_some, Bool-cases,
  inl, inr, arith,
}
use myr.Prelude.Text.{Text}
use myr.SafeMode.Assess.{assess_sql_safety, is_safe_read_only}
use myr.SafeMode.Guard.{GuardDecision, allow, require_confirmation, evaluate}
use myr.Profiles.{ConnectionProfile}
use myr.Tui.Session.{
  TuiApp, ConnectIntent, manual, auto_reconnect, append_audit_event, forget_attempts, show_query,
  begin_query, spawn_query, start_query_internal, start_query, current_profile_read_only, block_sql,
  follow_decision, ask_guard, execute_sql_with_guard,
}
use myr.Tui.Session.Polls.{
  QueryWorkerOutcome, query_done, query_failed, one_more, open_error_panel,
  start_connect_with_profile, query_sql, known_profile, finish_query, retry_query, reconnect,
  give_up, can_retry, can_reconnect, reconnect_or_give_up, after_retry, retry_or, fail_query,
  worker_done, query_outcome, poll_query_result,
}

-- The attempts are within their limits, a connection is awaited exactly where it was requested, and
-- the token of a query is there exactly where its outcome is awaited, for the same worker.
abbrev pub IsBounded : TuiApp → Type 0
IsBounded a =
    (a.query_retry_attempts ≤ 1)
    × (a.reconnect_attempts ≤ 2)
    × (a.connect_requested ≡ a.connect_result_rx)
    × (a.query_cancellation ≡ a.query_result_rx)

spawn-IsBounded :
    (backend : Option ConnectionProfile) (a : TuiApp) (sql : Text)
    → IsBounded a
    → IsBounded (spawn_query backend a sql)
unfolding spawn_query
spawn-IsBounded none a sql h = h
spawn-IsBounded (some backend) a sql (retries, reconnects, flags, token) =
    (retries, reconnects, flags, refl)

pub start-IsBounded :
    (a : TuiApp) (sql : Text) (retrying : Bool)
    → IsBounded a
    → IsBounded (start_query_internal a sql retrying)
unfolding start_query_internal begin_query append_audit_event show_query forget_attempts
start-IsBounded a sql true (retries, reconnects, flags, token) =
    spawn-IsBounded a.data_backend _ sql (retries, reconnects, flags, refl)
start-IsBounded a sql false (retries, reconnects, flags, token) =
    spawn-IsBounded a.data_backend _ sql (omega arith, omega arith, flags, refl)

follow_decision-IsBounded :
    (a : TuiApp) (sql : Text) (d : GuardDecision)
    → IsBounded a
    → IsBounded (follow_decision a sql d)
unfolding follow_decision start_query
follow_decision-IsBounded a sql (allow assessment) h =
    start-IsBounded (record a { pending_confirmation = none }) sql false h
follow_decision-IsBounded a sql (require_confirmation token assessment) h = h

module _ (hash : Text → ℕ) where
  pub execute-IsBounded :
      (a : TuiApp) (sql : Text) → IsBounded a → IsBounded (execute_sql_with_guard hash a sql)
  unfolding execute_sql_with_guard ask_guard block_sql append_audit_event
  execute-IsBounded a sql h =
      elim (Bool-cases
        (current_profile_read_only a && not (is_safe_read_only (assess_sql_safety sql)))) [
          | inl blocks ↦ rw (execute_sql_with_guard, blocks) h
          | inr goes ↦
              rw (execute_sql_with_guard, goes)
                (follow_decision-IsBounded
                  (record a { safe_mode_guard = (evaluate hash a.safe_mode_guard sql).0 }) sql
                  (evaluate hash a.safe_mode_guard sql).1 h)
        ]

pub connect-IsBounded :
    (a : TuiApp) (p : ConnectionProfile) (intent : ConnectIntent)
    → IsBounded a
    → IsBounded (start_connect_with_profile a p intent)
unfolding start_connect_with_profile
connect-IsBounded a p manual (retries, reconnects, flags, token) =
    (retries, omega arith, refl, token)
connect-IsBounded a p auto_reconnect (retries, reconnects, flags, token) =
    (retries, reconnects, refl, token)

-- One more attempt stays within the limit where the limit was not reached.
pub one_more_attempt : (n limit : ℕ) → ltb n limit ≡ true → limit ≤ 2 → one_more n ≤ limit
one_more_attempt n limit h k = ground arith

pub retry_left :
    (a : TuiApp) (error : Text) → can_retry a error ≡ true → ltb a.query_retry_attempts 1 ≡ true
unfolding can_retry
retry_left a error can = ground arith

pub reconnect_left :
    (a : TuiApp) (error : Text) → can_reconnect a error ≡ true → ltb a.reconnect_attempts 2 ≡ true
unfolding can_reconnect
reconnect_left a error can = ground arith

retry-IsBounded :
    (a : TuiApp) (error sql : Text)
    → can_retry a error ≡ true
    → IsBounded a
    → IsBounded (retry_query a sql)
unfolding retry_query
retry-IsBounded a error sql can (retries, reconnects, flags, token) =
    start-IsBounded (record a { query_retry_attempts = one_more a.query_retry_attempts }) sql true
      (
        one_more_attempt a.query_retry_attempts 1 (retry_left a error can) (omega arith),
        reconnects,
        flags,
        token,
      )

reconnect-IsBounded :
    (a : TuiApp) (error : Text) (sql : Option Text) (p : ConnectionProfile)
    → can_reconnect a error ≡ true
    → IsBounded a
    → IsBounded (reconnect a sql p)
unfolding reconnect
reconnect-IsBounded a error sql p can (retries, reconnects, flags, token) =
    connect-IsBounded
      (record a { pending_retry_query = sql; reconnect_attempts = one_more a.reconnect_attempts }) p
      auto_reconnect
      (
        retries,
        one_more_attempt a.reconnect_attempts 2 (reconnect_left a error can) (omega arith),
        flags,
        token,
      )

give_up-IsBounded : (a : TuiApp) (sql : Option Text) → IsBounded a → IsBounded (give_up a sql)
unfolding give_up open_error_panel
give_up-IsBounded a sql (retries, reconnects, flags, token) =
    (omega arith, omega arith, flags, token)

reconnect_or-IsBounded :
    (p : Option ConnectionProfile) (a : TuiApp) (error : Text) (sql : Option Text)
    → can_reconnect a error ≡ true
    → IsBounded a
    → IsBounded (reconnect_or_give_up p a sql)
unfolding reconnect_or_give_up
reconnect_or-IsBounded (some p) a error sql can h = reconnect-IsBounded a error sql p can h
reconnect_or-IsBounded none a error sql can h = give_up-IsBounded a sql h

after_retry-IsBounded :
    (a : TuiApp) (error : Text) (sql : Option Text)
    → IsBounded a
    → IsBounded (after_retry a error sql)
unfolding after_retry
after_retry-IsBounded a error sql h = elim (Bool-cases (can_reconnect a error)) [
  | inl can ↦ rw (after_retry, can) (reconnect_or-IsBounded (known_profile a) a error sql can h)
  | inr cannot ↦ rw (after_retry, cannot) (give_up-IsBounded a sql h)
]

retry_or-IsBounded :
    (sql : Option Text) (a : TuiApp) (error : Text) → IsBounded a → IsBounded (retry_or sql a error)
unfolding retry_or
retry_or-IsBounded none a error h = after_retry-IsBounded a error none h
retry_or-IsBounded (some sql) a error h = elim (Bool-cases (can_retry a error)) [
  | inl can ↦ rw (retry_or, can) (retry-IsBounded a error sql can h)
  | inr cannot ↦ rw (retry_or, cannot) (after_retry-IsBounded a error (some sql) h)
]

query_outcome-IsBounded :
    (a : TuiApp) (outcome : QueryWorkerOutcome) → IsBounded a → IsBounded (query_outcome a outcome)
unfolding query_outcome finish_query fail_query append_audit_event
query_outcome-IsBounded a (query_done results rows was_cancelled)
      (retries, reconnects, flags, token) =
    (omega arith, omega arith, flags, token)
query_outcome-IsBounded a (query_failed error) h = retry_or-IsBounded (query_sql a) _ error h

pub poll_query-IsBounded :
    (a : TuiApp) (found : Option QueryWorkerOutcome)
    → IsBounded a
    → IsBounded (poll_query_result a found)
unfolding poll_query_result
poll_query-IsBounded a none h = h
poll_query-IsBounded a (some outcome) (retries, reconnects, flags, token) =
    elim (Bool-cases (is_some a.query_result_rx)) [
      | inl waiting ↦
          rw (poll_query_result, waiting)
            (query_outcome-IsBounded (worker_done a) outcome (retries, reconnects, flags, refl))
      | inr idle ↦ rw (poll_query_result, idle) (retries, reconnects, flags, token)
    ]
