-- ===== src/Tui/Session/Guarded.antt =====
-- What may start a query in a session with a read-only profile, and that it passes as safe.
use myr.Prelude.{
  ℕ, ◌≡◌, refl, Bool, true, false, not, ◌&&◌, Option, none, some, is_some, or_else, if_either,
  Bool-cases, inl, inr, arith, All, is_some_and, is_empty, sym,
}
use mathlib.Core.Bool.{false≢true}
use mathlib.Core.Path.{subst}
use myr.Prelude.Text.{Text}
use myr.SafeMode.Assess.{assess_sql_safety, is_safe_read_only}
use myr.SafeMode.Guard.{SafeModeGuard, allow, evaluate}
use myr.Profiles.{ConnectionProfile}
use myr.Tui.Session.{
  TuiApp, Effect, query_worker, connect_worker, cancelled_worker, audited, spawn_query, begin_query,
  show_query, forget_attempts, start_query_internal, current_profile_read_only, block_sql,
  follow_decision, ask_guard, execute_sql_with_guard, ConnectIntent, append_audit_event,
  start_query,
}
use myr.Tui.Session.Polls.{
  QueryWorkerOutcome, query_done, query_failed, audit_sql, query_sql, finish_query, retry_query,
  reconnect, give_up, can_retry, can_reconnect, reconnect_or_give_up, after_retry, retry_or,
  fail_query, worker_done, query_outcome, one_more, open_error_panel, start_connect_with_profile,
  known_profile, poll_query_result,
}

-- The text passes as safe and read-only.
abbrev pub IsSafeSql : Text → Type 0
IsSafeSql sql = is_safe_read_only (assess_sql_safety sql) ≡ true

abbrev pub IsSafeOption : Option Text → Type 0
IsSafeOption none = Unit
IsSafeOption (some sql) = IsSafeSql sql

-- The query whose outcome is awaited is known, and safe.
abbrev pub IsAwaited : Option ℕ → Option Text → Type 0
IsAwaited none inflight = Unit
IsAwaited (some worker) none = ⊥
IsAwaited (some worker) (some sql) = IsSafeSql sql

abbrev pub IsSafeEffect : Effect → Type 0
IsSafeEffect (query_worker worker backend sql) = IsSafeSql sql
IsSafeEffect (connect_worker p) = Unit
IsSafeEffect (cancelled_worker worker) = Unit
IsSafeEffect (audited r) = Unit

abbrev pub IsReadOnly : Option ConnectionProfile → Type 0
IsReadOnly p = is_some_and p (λ q. q.read_only) ≡ true

-- A profile is connected and read-only, nothing waits for a confirmation, and what may start again, and every
-- worker that was started, has a safe text.
abbrev pub IsGuarded : TuiApp → Type 0
IsGuarded a =
    (IsReadOnly a.active_connection_profile × (is_some a.data_backend ≡ true))
    × (a.pending_confirmation ≡ none)
    × IsSafeOption a.last_failed_query
    × IsSafeOption a.pending_retry_query
    × IsAwaited a.query_result_rx a.inflight_query_sql
    × All IsSafeEffect a.effects

spawn-IsGuarded :
    (backend : Option ConnectionProfile) (a : TuiApp) (sql : Text)
    → a.inflight_query_sql ≡ some sql
    → IsSafeSql sql
    → IsGuarded a
    → IsGuarded (spawn_query backend a sql)
unfolding spawn_query
spawn-IsGuarded none a sql e safe h = h
spawn-IsGuarded (some backend) a sql e safe (ro, pending, failed, retry, awaited, log) =
    (ro, pending, failed, retry, rw e safe, (safe, log))

pub start-IsGuarded :
    (a : TuiApp) (sql : Text) (retrying : Bool)
    → IsSafeSql sql
    → IsGuarded a
    → IsGuarded (start_query_internal a sql retrying)
unfolding start_query_internal begin_query append_audit_event show_query forget_attempts
start-IsGuarded a sql true safe (ro, pending, failed, retry, awaited, log) =
    spawn-IsGuarded a.data_backend _ sql refl safe (ro, pending, failed, retry, tt, (tt, log))
start-IsGuarded a sql false safe (ro, pending, failed, retry, awaited, log) =
    spawn-IsGuarded a.data_backend _ sql refl safe (ro, pending, tt, tt, tt, (tt, log))

read_only_current :
    (active last : Option ConnectionProfile)
    → IsReadOnly active
    → is_some_and (or_else active last) (λ p. p.read_only) ≡ true
read_only_current none last h = absurd (false≢true h)
read_only_current (some p) last h = h

module _ (hash : Text → ℕ) where
  evaluate-safe :
      (g : SafeModeGuard) (sql : Text)
      → IsSafeSql sql
      → evaluate hash g sql ≡ (g, allow (assess_sql_safety sql))
  unfolding evaluate
  evaluate-safe g sql safe = elim (Bool-cases g.enabled) [
    | inl on ↦ rw (safe, on) refl
    | inr off ↦ rw (safe, off) refl
  ]

  pub execute-safe :
      (a : TuiApp) (sql : Text)
      → IsSafeSql sql
      → execute_sql_with_guard hash a sql
        ≡ start_query (record a { pending_confirmation = none }) sql
  unfolding execute_sql_with_guard ask_guard follow_decision
  execute-safe a sql safe =
      let goes : (current_profile_read_only a && not (is_safe_read_only (assess_sql_safety sql)))
          ≡ false =
        ground arith in
      simp (execute_sql_with_guard, goes, evaluate-safe a.safe_mode_guard sql safe) refl

  pub execute-blocked :
      (a : TuiApp) (sql : Text)
      → current_profile_read_only a ≡ true
      → is_safe_read_only (assess_sql_safety sql) ≡ false
      → execute_sql_with_guard hash a sql ≡ block_sql a sql
  unfolding execute_sql_with_guard
  execute-blocked a sql ro unsafe = rw (execute_sql_with_guard, ro, unsafe) refl

  pub execute-IsGuarded :
      (a : TuiApp) (sql : Text) → IsGuarded a → IsGuarded (execute_sql_with_guard hash a sql)
  unfolding block_sql append_audit_event current_profile_read_only start_query
  execute-IsGuarded a sql (ro, pending, failed, retry, awaited, log) =
      elim (Bool-cases (is_safe_read_only (assess_sql_safety sql))) [
        | inl safe ↦ subst IsGuarded (sym (execute-safe a sql safe)) (
            start-IsGuarded (record a { pending_confirmation = none }) sql false safe
              (ro, refl, failed, retry, awaited, log))
        | inr unsafe ↦
            let known = read_only_current a.active_connection_profile a.last_connect_profile ro.0 in
            subst IsGuarded (sym (execute-blocked a sql known unsafe))
              (ro, refl, failed, retry, awaited, (tt, log))
      ]

pub connect-IsGuarded :
    (a : TuiApp) (p : ConnectionProfile) (intent : ConnectIntent)
    → IsGuarded a
    → IsGuarded (start_connect_with_profile a p intent)
unfolding start_connect_with_profile
connect-IsGuarded a p intent (ro, pending, failed, retry, awaited, log) =
    (ro, pending, failed, retry, awaited, (tt, log))

give_up-IsGuarded :
    (a : TuiApp) (sql : Option Text)
    → IsSafeOption sql
    → a.query_result_rx ≡ none
    → IsGuarded a
    → IsGuarded (give_up a sql)
unfolding give_up open_error_panel
give_up-IsGuarded a sql safe idle (ro, pending, failed, retry, awaited, log) =
    (ro, pending, safe, tt, rw idle tt, log)

after_retry-IsGuarded :
    (a : TuiApp) (error : Text) (sql : Option Text)
    → IsSafeOption sql
    → a.query_result_rx ≡ none
    → IsGuarded a
    → IsGuarded (after_retry a error sql)
unfolding after_retry reconnect_or_give_up reconnect start_connect_with_profile
after_retry-IsGuarded a error sql safe idle h =
    if_either IsGuarded (can_reconnect a error) (known (known_profile a))
      (give_up-IsGuarded a sql safe idle h)
  where
    known : (p : Option ConnectionProfile) → IsGuarded (reconnect_or_give_up p a sql)
    known none = give_up-IsGuarded a sql safe idle h
    known (some p) =
        let (ro, pending, failed, retry, awaited, log) = h in
        (ro, pending, failed, safe, awaited, (tt, log))

retry_or-IsGuarded :
    (sql : Option Text) (a : TuiApp) (error : Text)
    → IsSafeOption sql
    → a.query_result_rx ≡ none
    → IsGuarded a
    → IsGuarded (retry_or sql a error)
unfolding retry_or retry_query
retry_or-IsGuarded none a error safe idle h = after_retry-IsGuarded a error none tt idle h
retry_or-IsGuarded (some sql) a error safe idle h =
    if_either IsGuarded (can_retry a error)
      (start-IsGuarded (record a { query_retry_attempts = one_more a.query_retry_attempts }) sql
        true safe h)
      (after_retry-IsGuarded a error (some sql) safe idle h)

query_sql-safe :
    (inflight : Option Text) (a : TuiApp) (worker : ℕ)
    → IsAwaited (some worker) inflight
    → IsSafeOption (query_sql (record a { inflight_query_sql = inflight }))
unfolding query_sql audit_sql
query_sql-safe none a worker awaited = absurd awaited
query_sql-safe (some sql) a worker awaited = if_either IsSafeOption (is_empty sql) tt awaited

query_outcome-IsGuarded :
    (a : TuiApp) (outcome : QueryWorkerOutcome)
    → a.query_result_rx ≡ none
    → IsSafeOption (query_sql a)
    → IsGuarded a
    → IsGuarded (query_outcome a outcome)
unfolding query_outcome finish_query fail_query append_audit_event
query_outcome-IsGuarded a (query_done results rows was_cancelled) idle safe
      (ro, pending, failed, retry, awaited, log) =
    (ro, pending, tt, retry, rw idle tt, (tt, log))
query_outcome-IsGuarded a (query_failed error) idle safe
      (ro, pending, failed, retry, awaited, log) =
    retry_or-IsGuarded (query_sql a) _ error safe idle
      (ro, pending, failed, retry, awaited, (tt, log))

pub poll_query-IsGuarded :
    (rx : Option ℕ) (a : TuiApp) (found : Option QueryWorkerOutcome)
    → IsGuarded (record a { query_result_rx = rx })
    → IsGuarded (poll_query_result (record a { query_result_rx = rx }) found)
unfolding poll_query_result
poll_query-IsGuarded rx a none h = h
poll_query-IsGuarded none a (some outcome) h = h
poll_query-IsGuarded (some worker) a (some outcome) (ro, pending, failed, retry, awaited, log) =
    query_outcome-IsGuarded (worker_done a) outcome refl
      (query_sql-safe a.inflight_query_sql (worker_done a) worker awaited)
      (ro, pending, failed, retry, tt, log)
