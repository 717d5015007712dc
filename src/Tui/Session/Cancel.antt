-- ===== src/Tui/Session/Cancel.antt =====
-- The two ways to cancel, and a confirmation that outlives its profile.
use myr.Prelude.{ℕ, ◌≡◌, refl, ap, ◌∙◌, true, false, none, some, List, [], ◌∷◌, ◌==◌, arith}
use myr.Prelude.Text.{Text}
use myr.SafeMode.Assess.{SqlSafetyAssessment}
use myr.SafeMode.Guard.{
  SafeModeGuard, ConfirmationToken, require_confirmation, evaluate, confirm, Confirmation,
  fingerprint_of,
}
use myr.SafeMode.Guard.Confirm.{confirm-evaluate}
use myr.ResultsBuffer.{ResultsRingBuffer}
use myr.QueryRunner.{QueryRow}
use myr.Profiles.{ConnectionProfile}
use myr.Tui.Session.{
  TuiApp, Effect, cancelled_worker, append_audit_event, forget_attempts, show_query, begin_query,
  spawn_query, start_query_internal, start_query,
}
use myr.Tui.Session.Polls.{query_done, finish_query, query_outcome, poll_query_result}
use myr.Tui.Session.Input.{
  cancel_worker, cancel_message, cancel_action, follow_confirmation, submit_pending,
  submit_confirmation,
}

-- The workers that were told to stop.
unfoldable pub stopped : List Effect → List ℕ
stopped [] = []
stopped (cancelled_worker worker ∷ es) = worker ∷ stopped es
stopped (e ∷ es) = stopped es

-- The key tells the worker of the running query to stop. The action does not, although it takes
-- the query for no longer running: the outcome of the worker is still awaited, and its rows become
-- the results.
pub cancel_action-cancel_message :
    (a : TuiApp) (worker rows : ℕ) (results : ResultsRingBuffer QueryRow)
    → a.query_running ≡ true
    → a.query_result_rx ≡ some worker
    → a.query_cancellation ≡ some worker
    → (stopped (cancel_message a).effects ≡ worker ∷ stopped a.effects)
      × (stopped (cancel_action a).effects ≡ stopped a.effects)
      × ((cancel_action a).query_running ≡ false)
      × ((cancel_action a).query_result_rx ≡ some worker)
      × ((poll_query_result (cancel_action a) (some (query_done results rows false))).results
          ≡ results)
unfolding cancel_message cancel_worker cancel_action append_audit_event stopped poll_query_result
    query_outcome finish_query
cancel_action-cancel_message a worker rows results running awaited token =
    (rw (running, token) refl, refl, refl, awaited, rw awaited refl)

start_query-worker :
    (a : TuiApp) (sql : Text) (p : ConnectionProfile)
    → a.data_backend ≡ some p
    → ((start_query a sql).query_result_rx ≡ some a.workers)
      × ((start_query a sql).inflight_query_sql ≡ some sql)
      × ((start_query a sql).active_connection_profile ≡ a.active_connection_profile)
unfolding start_query start_query_internal forget_attempts begin_query append_audit_event show_query
    spawn_query
start_query-worker a sql p backend = (rw backend refl, rw backend refl, rw backend refl)

module _ (hash : Text → ℕ) where
  -- A text that the guard has asked a confirmation for is started when it is confirmed, in whatever
  -- state the program is by then, also where a read-only profile is connected.
  pub submit_confirmation-read_only :
      (a : TuiApp) (g : SafeModeGuard) (sql : Text) (token : ConfirmationToken)
      (assessment : SqlSafetyAssessment) (p : ConnectionProfile)
      → (evaluate hash g sql).1 ≡ require_confirmation token assessment
      → a.safe_mode_guard ≡ (evaluate hash g sql).0
      → a.pending_confirmation ≡ some (record { token = token; sql = sql })
      → a.data_backend ≡ some p
      → ((submit_confirmation hash a).query_result_rx ≡ some a.workers)
        × ((submit_confirmation hash a).inflight_query_sql ≡ some sql)
        × ((submit_confirmation hash a).active_connection_profile ≡ a.active_connection_profile)
  unfolding submit_confirmation submit_pending follow_confirmation
  submit_confirmation-read_only a g sql token assessment p asked guard pending backend =
      let same : (fingerprint_of hash sql == fingerprint_of hash sql) ≡ true = ground arith in
      let accepted : (confirm hash (evaluate hash g sql).0 token sql).1 ≡ Confirmation.ok =
        (confirm-evaluate hash g sql sql sql token assessment asked).0 ∙ rw same refl in
      let b = record a {
        safe_mode_guard = (confirm hash a.safe_mode_guard token sql).0;
        pending_confirmation = none;
      } in
      let e : submit_confirmation hash a ≡ start_query b sql =
        ap (λ pending. submit_pending hash pending a) pending
        ∙ ap (λ c. follow_confirmation hash b sql c)
            (ap (λ guard. (confirm hash guard token sql).1) guard ∙ accepted) in
      let (awaited, inflight, active) = start_query-worker b sql p backend in
      (
        ap (λ r. r.query_result_rx) e ∙ awaited,
        ap (λ r. r.inflight_query_sql) e ∙ inflight,
        ap (λ r. r.active_connection_profile) e ∙ active,
      )
