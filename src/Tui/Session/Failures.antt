-- ===== src/Tui/Session/Failures.antt =====
-- Failures alone come to an end.
use myr.Prelude.{
  ℕ, zero, suc, ◌+◌, ◌-◌, ◌<◌, ◌≤◌, ◌≡◌, refl, Bool, true, false, Option, none, some, ltb, is_some,
  Bool-cases, if_either, inl, inr, arith, if◌then◌else◌,
}
use mathlib.Core.Path.{subst, sym}
use myr.Prelude.Text.{Text}
use myr.Profiles.{ConnectionProfile}
use myr.Tui.Session.{
  TuiApp, ConnectIntent, manual, auto_reconnect, append_audit_event, show_query, begin_query,
  spawn_query, start_query_internal,
}
use myr.Tui.Session.Polls.{
  query_failed, query_sql, known_profile, retry_query, reconnect, give_up, can_retry, can_reconnect,
  reconnect_or_give_up, after_retry, retry_or, fail_query, worker_done, query_outcome,
  poll_query_result, open_error_panel, start_connect_with_profile,
}
use myr.Tui.Session.Connections.{
  connect_failed, connection_lost, connect_again, connect_outcome, connect_done,
  poll_connect_result,
}
use myr.Tui.Session.Attempts.{IsBounded, poll_query-IsBounded, retry_left}
use myr.Tui.Session.Bounded.{poll_connect-IsBounded}

-- How many failures are left before nothing is awaited, at most.
abbrev query_budget : Option ℕ → ℕ → ℕ
query_budget none retries = 0
query_budget (some worker) retries = 5 - retries

abbrev connect_budget : Bool → ConnectIntent → ℕ → ℕ
connect_budget false intent reconnects = 0
connect_budget true manual reconnects = 1
connect_budget true auto_reconnect reconnects = 3 - reconnects

abbrev budget : TuiApp → ℕ
budget a =
    query_budget a.query_result_rx a.query_retry_attempts
    + connect_budget a.connect_result_rx a.connect_intent a.reconnect_attempts

query_budget_le : (rx : Option ℕ) (retries : ℕ) → query_budget rx retries ≤ 5
query_budget_le none retries = omega arith
query_budget_le (some worker) retries = omega arith

connect_budget_le :
    (rx : Bool) (intent : ConnectIntent) (reconnects : ℕ) → connect_budget rx intent reconnects ≤ 3
connect_budget_le false intent reconnects = omega arith
connect_budget_le true manual reconnects = omega arith
connect_budget_le true auto_reconnect reconnects = omega arith

-- Without attempts, what is awaited of a connection has at most two failures more.
connect_budget_reset :
    (rx : Bool) (intent : ConnectIntent) (reconnects : ℕ)
    → reconnects ≤ 2
    → connect_budget rx intent 0 ≤ connect_budget rx intent reconnects + 2
connect_budget_reset false intent reconnects h = omega arith
connect_budget_reset true manual reconnects h = omega arith
connect_budget_reset true auto_reconnect reconnects h = omega arith

budget-give_up :
    (a : TuiApp) (sql : Option Text)
    → a.query_result_rx ≡ none
    → a.reconnect_attempts ≤ 2
    → budget (give_up a sql)
      ≤ connect_budget a.connect_result_rx a.connect_intent a.reconnect_attempts + 2
unfolding give_up open_error_panel
budget-give_up a sql idle bound = rw idle (
    omega
      (arith, connect_budget_reset a.connect_result_rx a.connect_intent a.reconnect_attempts bound))

budget-reconnect :
    (a : TuiApp) (sql : Option Text) (p : ConnectionProfile)
    → a.query_result_rx ≡ none
    → budget (reconnect a sql p) ≤ 2
unfolding reconnect start_connect_with_profile
budget-reconnect a sql p idle = rw idle (omega arith)

spawn_budget :
    (backend : Option ConnectionProfile) (a : TuiApp) (sql : Text)
    → a.query_result_rx ≡ none
    → 1 ≤ a.query_retry_attempts
    → budget (spawn_query backend a sql)
      ≤ 4 + connect_budget a.connect_result_rx a.connect_intent a.reconnect_attempts
unfolding spawn_query
spawn_budget none a sql idle again = rw idle (omega arith)
spawn_budget (some p) a sql idle again = omega arith

retry_budget :
    (a : TuiApp) (sql : Text)
    → budget (retry_query a sql)
      ≤ 4 + connect_budget a.connect_result_rx a.connect_intent a.reconnect_attempts
unfolding retry_query start_query_internal begin_query append_audit_event show_query
retry_budget a sql = spawn_budget a.data_backend _ sql refl (omega arith)

-- Where a query has failed, its own budget is gone.
budget-after_retry :
    (a : TuiApp) (error : Text) (sql : Option Text)
    → a.query_result_rx ≡ none
    → a.reconnect_attempts ≤ 2
    → budget (after_retry a error sql)
      ≤ 2 + connect_budget a.connect_result_rx a.connect_intent a.reconnect_attempts
unfolding after_retry reconnect_or_give_up
budget-after_retry a error sql idle bound =
    if_either Fits (can_reconnect a error) (known (known_profile a)) given_up
  where
    Fits : TuiApp → Type 0
    Fits b = budget b ≤ 2 + connect_budget a.connect_result_rx a.connect_intent a.reconnect_attempts

    given_up : Fits (give_up a sql)
    given_up = omega (arith, budget-give_up a sql idle bound)

    known : (p : Option ConnectionProfile) → Fits (reconnect_or_give_up p a sql)
    known none = given_up
    known (some p) = omega (arith, budget-reconnect a sql p idle)

budget-retry_or :
    (sql : Option Text) (a : TuiApp) (error : Text)
    → a.query_result_rx ≡ none
    → IsBounded a
    → budget (retry_or sql a error) + 1
      ≤ 5
        - a.query_retry_attempts
        + connect_budget a.connect_result_rx a.connect_intent a.reconnect_attempts
unfolding retry_or
budget-retry_or none a error idle (retries, reconnects, flags, token) =
    omega (arith, budget-after_retry a error none idle reconnects)
budget-retry_or (some sql) a error idle (retries, reconnects, flags, token) =
    elim (Bool-cases (can_retry a error)) [
      | inl can ↦
          let first : a.query_retry_attempts < 1 =
            let left = retry_left a error can in ground arith in
          rw (retry_or, can) (omega (arith, retry_budget a sql))
      | inr cannot ↦
          rw (retry_or, cannot)
            (omega (arith, budget-after_retry a error (some sql) idle reconnects))
    ]

-- A failure that is delivered lowers the budget; one that nobody awaits changes nothing.
query_failure_budget :
    (rx : Option ℕ) (a : TuiApp) (error : Text)
    → IsBounded (record a { query_result_rx = rx })
    → budget (poll_query_result (record a { query_result_rx = rx }) (some (query_failed error)))
        + (if is_some rx then 1 else 0)
      ≤ budget (record a { query_result_rx = rx })
unfolding poll_query_result query_outcome fail_query append_audit_event
query_failure_budget none a error h = omega arith
query_failure_budget (some worker) a error (retries, reconnects, flags, token) =
    budget-retry_or (query_sql (worker_done a)) _ error refl (retries, reconnects, flags, refl)

budget-connection_lost :
    (a : TuiApp)
    → a.connect_result_rx ≡ false
    → budget (connection_lost a) ≤ query_budget a.query_result_rx a.query_retry_attempts
unfolding connection_lost open_error_panel
budget-connection_lost a idle = rw idle (omega arith)

budget-connect_again :
    (p : Option ConnectionProfile) (a : TuiApp)
    → a.connect_result_rx ≡ false
    → ltb a.reconnect_attempts 2 ≡ true
    → budget (connect_again p a) + 1
      ≤ query_budget a.query_result_rx a.query_retry_attempts + (3 - a.reconnect_attempts)
unfolding connect_again start_connect_with_profile
budget-connect_again none a idle left =
    let few : a.reconnect_attempts < 2 = ground arith in
    omega (arith, budget-connection_lost a idle)
budget-connect_again (some p) a idle left =
    let few : a.reconnect_attempts < 2 = ground arith in omega arith

connect_failure_budget :
    (rx : Bool) (intent : ConnectIntent) (a : TuiApp) (error : Text)
    → a.reconnect_attempts ≤ 2
    → budget (
          poll_connect_result
            (record a { connect_result_rx = rx; connect_intent = intent })
            (some (connect_failed error)))
        + (if rx then 1 else 0)
      ≤ budget (record a { connect_result_rx = rx; connect_intent = intent })
unfolding poll_connect_result connect_outcome
connect_failure_budget false intent a error bound = omega arith
connect_failure_budget true manual a error bound =
    omega (arith, budget-connection_lost (connect_done a) refl)
connect_failure_budget true auto_reconnect a error bound =
    elim (Bool-cases (ltb a.reconnect_attempts 2)) [
      | inl left ↦
          rw (connect_outcome, left)
            (omega (
              arith,
              budget-connect_again (known_profile (connect_done a)) (connect_done a) refl left,
            ))
      | inr over ↦
          rw (connect_outcome, over) (omega (arith, budget-connection_lost (connect_done a) refl))
    ]

-- Whatever is awaited fails, the connection first.
unfoldable pub all_fail : TuiApp → Text → Text → TuiApp
all_fail a connect_error query_error =
    poll_query_result (poll_connect_result a (some (connect_failed connect_error)))
      (some (query_failed query_error))

-- So many rounds, each with its own error texts.
unfoldable pub keep_failing : ℕ → (ℕ → Text × Text) → TuiApp → TuiApp
keep_failing zero errors a = a
keep_failing (suc n) errors a = keep_failing n errors (all_fail a (errors n).0 (errors n).1)

all_fail-IsBounded :
    (a : TuiApp) (connect_error query_error : Text)
    → IsBounded a
    → IsBounded (all_fail a connect_error query_error)
unfolding all_fail
all_fail-IsBounded a connect_error query_error h =
    poll_query-IsBounded _ (some (query_failed query_error))
      (poll_connect-IsBounded a (some (connect_failed connect_error)) h)

nothing_polled :
    (rx : Bool) (a : TuiApp) (error : Text)
    → a.connect_result_rx ≡ rx
    → rx ≡ false
    → poll_connect_result a (some (connect_failed error)) ≡ a
unfolding poll_connect_result
nothing_polled rx a error e idle = simp (e, idle) refl

one_less :
    (rx : Option ℕ) (retries left : ℕ)
    → left + (if is_some rx then 1 else 0) ≤ query_budget rx retries
    → left ≤ query_budget rx retries - 1
one_less none retries left h = omega arith
one_less (some worker) retries left h = omega arith

budget-all_fail :
    (a : TuiApp) (connect_error query_error : Text)
    → IsBounded a
    → budget (all_fail a connect_error query_error) ≤ budget a - 1
unfolding all_fail
budget-all_fail a connect_error query_error h = elim (Bool-cases a.connect_result_rx) [
  | inl waiting ↦
      let between = poll_connect_result a (some (connect_failed connect_error)) in
      let one : ◌≡◌ {A = ℕ} (if a.connect_result_rx then 1 else 0) 1 = rw waiting refl in
      omega (
        arith,
        one,
        connect_failure_budget a.connect_result_rx a.connect_intent a connect_error h.1,
        query_failure_budget between.query_result_rx between query_error
            (poll_connect-IsBounded a (some (connect_failed connect_error)) h),
      )
  | inr idle ↦
      let none_left : connect_budget a.connect_result_rx a.connect_intent a.reconnect_attempts ≡ 0 =
        rw idle refl in
      let failed = query_failure_budget a.query_result_rx a query_error h in
      let less =
        one_less a.query_result_rx a.query_retry_attempts
          (budget (poll_query_result a (some (query_failed query_error)))) (omega arith) in
      subst (λ b. budget (poll_query_result b (some (query_failed query_error))) ≤ budget a - 1)
        (sym (nothing_polled a.connect_result_rx a connect_error refl idle)) (omega arith)
]

budget-keep_failing :
    (n : ℕ) (errors : ℕ → Text × Text) (a : TuiApp)
    → IsBounded a
    → budget (keep_failing n errors a) ≤ budget a - n
unfolding keep_failing
budget-keep_failing zero errors a h = omega arith
budget-keep_failing (suc n) errors a h = omega (
  arith,
  budget-keep_failing n errors (all_fail a (errors n).0 (errors n).1)
      (all_fail-IsBounded a (errors n).0 (errors n).1 h),
  budget-all_fail a (errors n).0 (errors n).1 h,
)

awaited_budget :
    (intent : ConnectIntent) (reconnects : ℕ)
    → reconnects ≤ 2
    → 1 ≤ connect_budget true intent reconnects
awaited_budget manual reconnects h = omega arith
awaited_budget auto_reconnect reconnects h = omega arith

nothing_awaited :
    (rx : Option ℕ) (waiting : Bool) (a : TuiApp)
    → a.query_retry_attempts ≤ 1
    → a.reconnect_attempts ≤ 2
    → query_budget rx a.query_retry_attempts
        + connect_budget waiting a.connect_intent a.reconnect_attempts
      ≤ 0
    → (rx ≡ none) × (waiting ≡ false)
nothing_awaited none false a retries reconnects k = (refl, refl)
nothing_awaited (some worker) waiting a retries reconnects k = absurd (omega arith)
nothing_awaited none true a retries reconnects k =
    absurd (omega (arith, awaited_budget a.connect_intent a.reconnect_attempts reconnects))

keep_failing-IsBounded :
    (n : ℕ) (errors : ℕ → Text × Text) (a : TuiApp)
    → IsBounded a
    → IsBounded (keep_failing n errors a)
unfolding keep_failing
keep_failing-IsBounded zero errors a h = h
keep_failing-IsBounded (suc n) errors a h =
    keep_failing-IsBounded n errors _ (all_fail-IsBounded a (errors n).0 (errors n).1 h)

-- Where the attempts are within their limits, and each round lets fail what is awaited, nothing is
-- awaited any more after eight rounds, whatever the errors say.
pub keep_failing_ends :
    (errors : ℕ → Text × Text) (a : TuiApp)
    → IsBounded a
    → ((keep_failing 8 errors a).query_result_rx ≡ none)
      × ((keep_failing 8 errors a).connect_result_rx ≡ false)
keep_failing_ends errors a h =
    let last = keep_failing 8 errors a in
    let (retries, reconnects, flags, token) = keep_failing-IsBounded 8 errors a h in
    nothing_awaited last.query_result_rx last.connect_result_rx last retries reconnects (
      omega (
        arith,
        budget-keep_failing 8 errors a h,
        query_budget_le a.query_result_rx a.query_retry_attempts,
        connect_budget_le a.connect_result_rx a.connect_intent a.reconnect_attempts,
      ))
