-- ===== src/Tui/Session/Restarts.antt =====
-- A query that loses its connection again and again.
use myr.Prelude.{
  ℕ, zero, suc, ◌+◌, ◌*◌, ◌≡◌, refl, ap, ◌∙◌, true, false, none, some, List, [], ◌∷◌, arith,
}
use myr.Prelude.Text.{Text, codes, to_ascii_lowercase, contains}
use myr.Profiles.{ConnectionProfile}
use myr.Actions.Catalog.{SchemaSelection}
use myr.Tui.Session.{
  TuiApp, auto_reconnect, append_audit_event, forget_attempts, show_query, begin_query, spawn_query,
  start_query_internal, start_query, mentions, is_transient_query_error, is_connection_lost_error,
}
use myr.Tui.Session.Polls.{
  query_failed, audit_sql, query_sql, known_profile, retry_query, reconnect, can_retry,
  can_reconnect, reconnect_or_give_up, after_retry, retry_or, fail_query, query_outcome,
  poll_query_result, start_connect_with_profile,
}
use myr.Tui.Session.Connections.{
  connected, apply_connected_profile, resume_query, resume, connect_outcome, poll_connect_result,
  count_down, on_tick,
}
use myr.Tui.Session.Input.{Event, ticked, run, handle}

-- A query that a worker runs at its first attempt.
abbrev pub running : TuiApp → ConnectionProfile → Text → ℕ → TuiApp
running a p sql worker = record a {
  query_running = true;
  query_result_rx = some worker;
  query_cancellation = some worker;
  workers = worker + 1;
  data_backend = some p;
  active_connection_profile = some p;
  inflight_query_sql = some sql;
  query_retry_attempts = 0;
  reconnect_attempts = 0;
  cancel_requested = false;
}

abbrev pub lost : Text
lost = codes "Lost connection to MySQL server during query"

-- The query fails, its retry fails, and the connection is restored: no input of the user.
abbrev pub restarts : ConnectionProfile → SchemaSelection → ℕ → List Event
restarts p selection zero = []
restarts p selection (suc n) =
    ticked none (some (query_failed lost))
    ∷ ticked none (some (query_failed lost))
    ∷ ticked (some (connected p selection)) none
    ∷ restarts p selection n

transient : is_transient_query_error lost ≡ true
unfolding is_transient_query_error mentions to_ascii_lowercase contains
transient = refl

connection_gone : is_connection_lost_error lost ≡ true
unfolding is_connection_lost_error mentions to_ascii_lowercase contains
connection_gone = refl

-- The same query at its second attempt, and the reconnection behind that.
abbrev retried : TuiApp → ConnectionProfile → Text → ℕ → TuiApp
retried a p sql worker = record (running a p sql worker) { query_retry_attempts = 1 }

abbrev restoring : TuiApp → ConnectionProfile → Text → ℕ → TuiApp
restoring a p sql worker = record a {
  query_running = false;
  query_result_rx = none;
  query_cancellation = none;
  workers = worker;
  connect_result_rx = true;
  connect_intent = auto_reconnect;
  active_connection_profile = some p;
  data_backend = some p;
  pending_retry_query = some sql;
  cancel_requested = false;
}

module _ (p : ConnectionProfile) (c : ℕ) (s : Text) where
  first_failure :
      (a : TuiApp) (worker : ℕ)
      → (b : TuiApp) × (on_tick (running a p (c ∷ s) worker) none (some (query_failed lost))
          ≡ retried b p (c ∷ s) (worker + 1))
  unfolding on_tick poll_connect_result poll_query_result query_outcome fail_query retry_or
      can_retry query_sql audit_sql append_audit_event retry_query start_query_internal begin_query
      show_query spawn_query count_down
  first_failure a worker =
      (on_tick (running a p (c ∷ s) worker) none (some (query_failed lost)), simp transient refl)

  second_failure :
      (a : TuiApp) (worker : ℕ)
      → (b : TuiApp) × (on_tick (retried a p (c ∷ s) worker) none (some (query_failed lost))
          ≡ restoring b p (c ∷ s) (worker + 1))
  unfolding on_tick poll_connect_result poll_query_result query_outcome fail_query retry_or
      can_retry query_sql audit_sql append_audit_event after_retry can_reconnect
      reconnect_or_give_up reconnect known_profile start_connect_with_profile count_down
  second_failure a worker = (
    on_tick (retried a p (c ∷ s) worker) none (some (query_failed lost)),
    simp (transient, connection_gone) refl,
  )

  restored :
      (a : TuiApp) (selection : SchemaSelection) (worker : ℕ)
      → (b : TuiApp) × (on_tick (restoring a p (c ∷ s) worker) (some (connected p selection)) none
          ≡ running b p (c ∷ s) worker)
  unfolding on_tick poll_connect_result connect_outcome apply_connected_profile resume resume_query
      start_query start_query_internal forget_attempts begin_query append_audit_event show_query
      spawn_query poll_query_result count_down
  restored a selection worker =
      (on_tick (restoring a p (c ∷ s) worker) (some (connected p selection)) none, refl)

  -- However often a query, its retry and then the connection are lost and the connection comes
  -- back, the program runs the query again at its first attempt, with two more workers each time:
  -- the limits of the attempts do not end it.
  pub restarts_without_end :
      (hash : Text → ℕ) (selection : SchemaSelection) (n : ℕ) (a : TuiApp) (worker : ℕ)
      → (b : TuiApp) × (run hash (running a p (c ∷ s) worker) (restarts p selection n)
          ≡ running b p (c ∷ s) (worker + 2 * n))
  unfolding run handle
  restarts_without_end hash selection zero a worker =
      (running a p (c ∷ s) worker, ap (running a p (c ∷ s)) (omega arith))
  restarts_without_end hash selection (suc n) a worker =
      let (a1, e1) = first_failure a worker in
      let (a2, e2) = second_failure a1 (worker + 1) in
      let (a3, e3) = restored a2 selection (worker + 1 + 1) in
      let (b, e) = restarts_without_end hash selection n a3 (worker + 1 + 1) in
      let rest = restarts p selection n in
      let count : worker + 1 + 1 + 2 * n ≡ worker + 2 * suc n = omega arith in
      let tick : TuiApp → TuiApp = λ x. on_tick x none (some (query_failed lost)) in
      let restore : TuiApp → TuiApp = λ x. on_tick x (some (connected p selection)) none in
      (
        b,
        ap (λ x. run hash (restore (tick x)) rest) e1
            ∙ ap (λ x. run hash (restore x) rest) e2
            ∙ ap (λ x. run hash x rest) e3
            ∙ e
            ∙ ap (running b p (c ∷ s)) count,
      )
