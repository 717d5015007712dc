-- ===== src/Tui/Session/Starts.antt =====
-- How many workers the polls start on their own.
use myr.Prelude.{
  ℕ, suc, ◌+◌, ◌-◌, ◌<◌, ◌≤◌, ◌≡◌, refl, Bool, true, false, ◌&&◌, Option, none, some, List, [], ◌∷◌,
  ltb, is_some, is_none, Bool-cases, inl, inr, arith, if◌then◌else◌,
}
use mathlib.Core.Path.{subst, sym}
use myr.Prelude.Text.{Text}
use myr.Profiles.{ConnectionProfile}
use myr.Tui.Session.{
  TuiApp, ConnectIntent, manual, auto_reconnect, Effect, query_worker, connect_worker,
  cancelled_worker, audited, append_audit_event, show_query, begin_query, spawn_query,
  start_query_internal,
}
use myr.Tui.Session.Polls.{
  QueryWorkerOutcome, query_done, query_failed, query_sql, known_profile, retry_query, reconnect,
  give_up, can_retry, can_reconnect, reconnect_or_give_up, after_retry, retry_or, fail_query,
  finish_query, worker_done, query_outcome, poll_query_result, open_error_panel,
  start_connect_with_profile,
}
use myr.Tui.Session.Connections.{
  ConnectWorkerOutcome, connect_failed, connection_lost, connect_again, connect_outcome,
  connect_done, poll_connect_result, count_down, on_tick,
}
use myr.Tui.Session.Input.{Event, run}
use myr.Tui.Session.Attempts.{IsBounded, retry_left, reconnect_left}
use myr.Tui.Session.Bounded.{poll_connect-IsBounded, on_tick-IsBounded, run-IsBounded}

abbrev pub query_workers : List Effect → ℕ
query_workers [] = 0
query_workers (query_worker worker p sql ∷ es) = suc (query_workers es)
query_workers (connect_worker p ∷ es) = query_workers es
query_workers (cancelled_worker worker ∷ es) = query_workers es
query_workers (audited r ∷ es) = query_workers es

abbrev pub all_workers : List Effect → ℕ
all_workers [] = 0
all_workers (query_worker worker p sql ∷ es) = suc (all_workers es)
all_workers (connect_worker p ∷ es) = suc (all_workers es)
all_workers (cancelled_worker worker ∷ es) = all_workers es
all_workers (audited r ∷ es) = all_workers es

-- The retry that a query under way has left.
abbrev pub retries_left : Option ℕ → ℕ → ℕ
retries_left none retries = 0
retries_left (some worker) retries = 1 - retries

-- The attempts to connect that a connection under way has left.
abbrev pub attempts_left : Bool → ConnectIntent → ℕ → ℕ
attempts_left false intent reconnects = 0
attempts_left true manual reconnects = 0
attempts_left true auto_reconnect reconnects = 2 - reconnects

-- A query under way may have two attempts to connect behind its retry.
abbrev pub workers_left : TuiApp → ℕ
workers_left a =
    (if is_some a.query_result_rx then 2 else 0)
    + retries_left a.query_result_rx a.query_retry_attempts
    + attempts_left a.connect_result_rx a.connect_intent a.reconnect_attempts

abbrev Stays : ℕ → ℕ → Option ConnectionProfile → TuiApp → Type 0
Stays queries workers backend a =
    (query_workers a.effects + retries_left a.query_result_rx a.query_retry_attempts ≤ queries)
    × (all_workers a.effects + workers_left a ≤ workers)
    × (a.data_backend ≡ backend)

attempts_left_le :
    (rx : Bool) (intent : ConnectIntent) (reconnects : ℕ) → attempts_left rx intent reconnects ≤ 2
attempts_left_le false intent reconnects = omega arith
attempts_left_le true manual reconnects = omega arith
attempts_left_le true auto_reconnect reconnects = omega arith

module _ (queries workers : ℕ) (backend : Option ConnectionProfile) where
  lost-Stays :
      (a : TuiApp)
      → a.connect_result_rx ≡ false
      → Stays queries workers backend a
      → Stays queries workers backend (connection_lost a)
  unfolding connection_lost open_error_panel
  lost-Stays a idle (q, w, b) =
      let none_left : attempts_left a.connect_result_rx a.connect_intent 0 ≡ 0 = rw idle refl in
      (q, omega arith, b)

  again-Stays :
      (p : Option ConnectionProfile) (a : TuiApp)
      → a.connect_result_rx ≡ false
      → a.reconnect_attempts < 2
      → query_workers a.effects + retries_left a.query_result_rx a.query_retry_attempts ≤ queries
      → all_workers a.effects + workers_left a + (2 - a.reconnect_attempts) ≤ workers
      → a.data_backend ≡ backend
      → Stays queries workers backend (connect_again p a)
  unfolding connect_again start_connect_with_profile
  again-Stays none a idle few q w b = lost-Stays a idle (q, omega arith, b)
  again-Stays (some p) a idle few q w b = (q, omega arith, b)

  connect_failed-Stays :
      (rx : Bool) (intent : ConnectIntent) (a : TuiApp) (error : Text)
      → Stays queries workers backend (record a { connect_result_rx = rx; connect_intent = intent })
      → Stays queries workers backend (
          poll_connect_result
            (record a { connect_result_rx = rx; connect_intent = intent })
            (some (connect_failed error)))
  unfolding poll_connect_result connect_outcome
  connect_failed-Stays false intent a error h = h
  connect_failed-Stays true manual a error (q, w, b) =
      lost-Stays (connect_done a) refl (q, omega arith, b)
  connect_failed-Stays true auto_reconnect a error (q, w, b) =
      elim (Bool-cases (ltb a.reconnect_attempts 2)) [
        | inl left ↦
            let few : a.reconnect_attempts < 2 = ground arith in
            rw (connect_outcome, left)
              (again-Stays (known_profile (connect_done a)) (connect_done a) refl few q
                (omega arith) b)
        | inr over ↦
            rw (connect_outcome, over) (lost-Stays (connect_done a) refl (q, omega arith, b))
      ]

  give_up-Stays :
      (a : TuiApp) (sql : Option Text)
      → a.query_result_rx ≡ none
      → query_workers a.effects ≤ queries
      → all_workers a.effects + 2 ≤ workers
      → a.data_backend ≡ backend
      → Stays queries workers backend (give_up a sql)
  unfolding give_up open_error_panel
  give_up-Stays a sql idle q w b =
      let few = attempts_left_le a.connect_result_rx a.connect_intent 0 in
      rw idle (omega arith, omega arith, b)

  after_retry-Stays :
      (a : TuiApp) (error : Text) (sql : Option Text)
      → a.query_result_rx ≡ none
      → query_workers a.effects ≤ queries
      → all_workers a.effects + 2 ≤ workers
      → a.data_backend ≡ backend
      → Stays queries workers backend (after_retry a error sql)
  unfolding after_retry reconnect_or_give_up reconnect start_connect_with_profile
  after_retry-Stays a error sql idle q w b = elim (Bool-cases (can_reconnect a error)) [
    | inr cannot ↦ rw (after_retry, cannot) (give_up-Stays a sql idle q w b)
    | inl can ↦
        let few : a.reconnect_attempts < 2 =
          let left = reconnect_left a error can in ground arith in
        rw (after_retry, can) (known few (known_profile a))
  ]
    where
      known :
          a.reconnect_attempts < 2
          → (p : Option ConnectionProfile)
          → Stays queries workers backend (reconnect_or_give_up p a sql)
      known few none = give_up-Stays a sql idle q w b
      known few (some p) = rw idle (omega arith, omega arith, b)

  spawn-Stays :
      (p : Option ConnectionProfile) (a : TuiApp) (sql : Text)
      → a.query_result_rx ≡ none
      → 1 ≤ a.query_retry_attempts
      → query_workers a.effects + 1 ≤ queries
      → a.data_backend ≡ backend
      → attempts_left a.connect_result_rx a.connect_intent a.reconnect_attempts
          + all_workers a.effects
          + 3
        ≤ workers
      → Stays queries workers backend (spawn_query p a sql)
  unfolding spawn_query
  spawn-Stays none a sql idle again q b all = rw idle (omega arith, omega arith, b)
  spawn-Stays (some p) a sql idle again q b all = (omega arith, omega arith, b)

  retry-Stays :
      (a : TuiApp) (sql : Text)
      → query_workers a.effects + 1 ≤ queries
      → attempts_left a.connect_result_rx a.connect_intent a.reconnect_attempts
          + all_workers a.effects
          + 3
        ≤ workers
      → a.data_backend ≡ backend
      → Stays queries workers backend (retry_query a sql)
  unfolding retry_query start_query_internal begin_query append_audit_event show_query
  retry-Stays a sql q all b = spawn-Stays a.data_backend _ sql refl (omega arith) q b all

  retry_or-Stays :
      (sql : Option Text) (a : TuiApp) (error : Text)
      → a.query_result_rx ≡ none
      → a.query_retry_attempts ≤ 1
      → query_workers a.effects + (1 - a.query_retry_attempts) ≤ queries
      → attempts_left a.connect_result_rx a.connect_intent a.reconnect_attempts
          + all_workers a.effects
          + 2
          + (1 - a.query_retry_attempts)
        ≤ workers
      → a.data_backend ≡ backend
      → Stays queries workers backend (retry_or sql a error)
  unfolding retry_or
  retry_or-Stays none a error idle few q w b =
      after_retry-Stays a error none idle (omega arith) (omega arith) b
  retry_or-Stays (some sql) a error idle few q w b = elim (Bool-cases (can_retry a error)) [
    | inl can ↦
        let first : a.query_retry_attempts < 1 =
          let left = retry_left a error can in ground arith in
        rw (retry_or, can) (retry-Stays a sql (omega arith) (omega arith) b)
    | inr cannot ↦
        rw (retry_or, cannot)
          (after_retry-Stays a error (some sql) idle (omega arith) (omega arith) b)
  ]

  query_outcome-Stays :
      (a : TuiApp) (outcome : QueryWorkerOutcome)
      → a.query_result_rx ≡ none
      → a.query_retry_attempts ≤ 1
      → query_workers a.effects + (1 - a.query_retry_attempts) ≤ queries
      → attempts_left a.connect_result_rx a.connect_intent a.reconnect_attempts
          + all_workers a.effects
          + 2
          + (1 - a.query_retry_attempts)
        ≤ workers
      → a.data_backend ≡ backend
      → Stays queries workers backend (query_outcome a outcome)
  unfolding query_outcome finish_query fail_query append_audit_event
  query_outcome-Stays a (query_done results rows was_cancelled) idle few q w b =
      let left = attempts_left_le a.connect_result_rx a.connect_intent 0 in
      rw idle (omega arith, omega arith, b)
  query_outcome-Stays a (query_failed error) idle few q w b =
      retry_or-Stays (query_sql a) _ error idle few q w b

  poll_query-Stays :
      (rx : Option ℕ) (a : TuiApp) (found : Option QueryWorkerOutcome)
      → a.query_retry_attempts ≤ 1
      → Stays queries workers backend (record a { query_result_rx = rx })
      → Stays queries workers backend (poll_query_result (record a { query_result_rx = rx }) found)
  unfolding poll_query_result
  poll_query-Stays rx a none few h = h
  poll_query-Stays none a (some outcome) few h = h
  poll_query-Stays (some worker) a (some outcome) few (q, w, b) =
      query_outcome-Stays (worker_done a) outcome refl few q (omega arith) b

-- A worker that connects has failed, or has not answered yet.
abbrev pub failed_or_waiting : Option Text → Option ConnectWorkerOutcome
failed_or_waiting none = none
failed_or_waiting (some error) = some (connect_failed error)

-- Ticks only, in which no connection succeeds.
unfoldable pub wait : TuiApp → List (Option Text × Option QueryWorkerOutcome) → TuiApp
wait a [] = a
wait a ((error, found) ∷ rest) = wait (on_tick a (failed_or_waiting error) found) rest

idle_countdown :
    (running : Bool) (backend : Option ConnectionProfile)
    → is_some backend ≡ true
    → (running && is_none backend) ≡ false
idle_countdown true none h = cc
idle_countdown false none h = refl
idle_countdown true (some p) h = refl
idle_countdown false (some p) h = refl

tick-Stays :
    (a : TuiApp) (error : Option Text) (found : Option QueryWorkerOutcome) (queries workers : ℕ)
    → IsBounded a
    → is_some a.data_backend ≡ true
    → Stays queries workers a.data_backend a
    → Stays queries workers a.data_backend (on_tick a (failed_or_waiting error) found)
unfolding on_tick count_down
tick-Stays a error found queries workers bounded there h =
    let polled = poll_connect_result a (failed_or_waiting error) in
    let connecting : Stays queries workers a.data_backend polled = polled_connect error in
    let after = poll_query_result polled found in
    let both : Stays queries workers a.data_backend after =
      poll_query-Stays queries workers a.data_backend polled.query_result_rx polled found
        (poll_connect-IsBounded a (failed_or_waiting error) bounded).0 connecting in
    let still : is_some after.data_backend ≡ true = rw both.2 there in
    rw (idle_countdown after.query_running after.data_backend still) both
  where
    polled_connect :
        (error : Option Text)
        → Stays queries workers a.data_backend (poll_connect_result a (failed_or_waiting error))
    polled_connect none = unfold poll_connect_result in h
    polled_connect (some e) =
        connect_failed-Stays queries workers a.data_backend a.connect_result_rx a.connect_intent a e
          h

wait-Stays :
    (a : TuiApp) (ticks : List (Option Text × Option QueryWorkerOutcome)) (queries workers : ℕ)
    → IsBounded a
    → is_some a.data_backend ≡ true
    → Stays queries workers a.data_backend a
    → Stays queries workers a.data_backend (wait a ticks) × IsBounded (wait a ticks)
unfolding wait
wait-Stays a [] queries workers bounded there h = (h, bounded)
wait-Stays a ((error, found) ∷ rest) queries workers bounded there h =
    let next = on_tick a (failed_or_waiting error) found in
    let stays : Stays queries workers a.data_backend next =
      tick-Stays a error found queries workers bounded there h in
    let still : is_some next.data_backend ≡ true = rw stays.2 there in
    let later =
      wait-Stays next rest queries workers
        (on_tick-IsBounded a (failed_or_waiting error) found bounded) still
        (subst (λ b. Stays queries workers b next) (sym stays.2) stays) in
    (subst (λ b. Stays queries workers b (wait next rest)) stays.2 later.0, later.1)

-- The workers of one state against those of an earlier one, and the limits of the counters.
abbrev pub IsLimited : TuiApp → TuiApp → Type 0
IsLimited before after =
    (query_workers after.effects
      ≤ query_workers before.effects
        + retries_left before.query_result_rx before.query_retry_attempts)
    × (all_workers after.effects ≤ all_workers before.effects + workers_left before)
    × IsBounded after

-- From within the limits of the attempts, after any events: if there is a connection by then, and
-- from then on nothing happens but ticks, in which no connection succeeds and a query may end in any
-- way, a query is started again once at most, and not at all where it was retried before or none is
-- awaited. The workers of both kinds are at most that one, two attempts to connect for an awaited
-- query, and those that an automatic connection under way has left of two. The limits hold again.
pub wait-IsLimited :
    (hash : Text → ℕ) (a : TuiApp) (es : List Event)
    (ticks : List (Option Text × Option QueryWorkerOutcome))
    → IsBounded a
    → is_some (run hash a es).data_backend ≡ true
    → IsLimited (run hash a es) (wait (run hash a es) ticks)
wait-IsLimited hash a es ticks bounded there =
    let b = run hash a es in
    let ((queries, workers, backend), after) =
      wait-Stays b ticks
        (query_workers b.effects + retries_left b.query_result_rx b.query_retry_attempts)
        (all_workers b.effects + workers_left b) (run-IsBounded hash a es bounded) there
        (omega arith, omega arith, refl) in
    (omega arith, omega arith, after)
