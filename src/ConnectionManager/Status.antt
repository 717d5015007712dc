-- ===== src/ConnectionManager/Status.antt =====
-- What the manager says about its connection.
use myr.Prelude.{
  ℕ, ◌≡◌, ◌≢◌, ◌⊎◌, refl, sym, ap, ◌∙◌, inl, inr, true, Option, none, some, is_some, List, [], ◌∷◌,
  Option-cases,
}
use myr.Profiles.{ConnectionProfile}
use myr.ConnectionManager.{
  BackendError, ok, err, Opened, opened, refused, ConnectionBackend, ConnectionManager,
  ConnectionStatus, new, status, After, pinged_new, opened_new, connect, pinged, health_check,
  closed, disconnect,
}

module _ {W C : Type 0} where
  -- After a call of `connect`: the manager was free and holds the new connection, or, whatever the
  -- error, nothing of the manager has changed.
  abbrev pub Connects : ConnectionManager C → ConnectionProfile → ℕ → After W C ℕ → Type 0
  Connects m profile now (ok latency, after, w) =
      (m.active ≡ none)
      × (status after ≡ record {
        profile_name = some profile.name;
        is_connected = true;
        last_latency = some latency;
        last_health_check_at = some now;
      })
  Connects m profile now (err e, after, w) = after ≡ m

  -- After a call of `disconnect`: there is no connection, even if the backend failed.
  abbrev pub Disconnects : After W C Unit → Type 0
  Disconnects (answer, after, w) = after.active ≡ none

-- A connection comes with a latency and the time of a health check.
abbrev pub IsTimed : {C : Type 0} → ConnectionManager C → Type 0
IsTimed m =
    (m.active ≡ none) ⊎ ((is_some m.last_latency ≡ true) × (is_some m.last_health_check_at ≡ true))

some≢none : {A : Type 0} {a : A} → some a ≢ none
some≢none h = cc

module _ {W C : Type 0} (b : ConnectionBackend W C) where
  opened-Connects :
      (m : ConnectionManager C) (profile : ConnectionProfile) (latency now : ℕ) (r : Opened C × W)
      → m.active ≡ none
      → Connects m profile now (opened_new b m profile latency now r)
  unfolding status
  opened-Connects m profile latency now (refused e, w) free = refl
  opened-Connects m profile latency now (opened handle, w) free = after_ping (b.ping w handle)
    where
      after_ping :
          (r : Option BackendError × C × W)
          → Connects m profile now (pinged_new b m profile latency now r)
      after_ping (some e, h, w') = refl
      after_ping (none, h, w') = (free, refl)

  connect_free :
      (m : ConnectionManager C) (w : W) (profile : ConnectionProfile) (latency now : ℕ)
      → m.active ≡ none
      → connect b m w profile latency now ≡ opened_new b m profile latency now (b.connect w profile)
  unfolding connect
  connect_free m w profile latency now free = simp (connect, free) refl

  health_check_free :
      (m : ConnectionManager C) (w : W) (latency now : ℕ)
      → m.active ≡ none
      → (health_check b m w latency now).1 ≡ m
  unfolding health_check
  health_check_free m w latency now free = simp (health_check, free) refl

  -- A connection is made only by a free manager, and is then the one of the status; every error
  -- leaves the manager as it was.
  pub connect_lem :
      (m : ConnectionManager C) (w : W) (profile : ConnectionProfile) (latency now : ℕ)
      → Connects m profile now (connect b m w profile latency now)
  unfolding connect
  connect_lem m w profile latency now = elim (Option-cases m.active) [
    | inl free ↦
        rw (connect_free m w profile latency now free)
          (opened-Connects m profile latency now (b.connect w profile) free)
    | inr (a, busy) ↦ simp (connect, busy) refl
  ]

  closed-Disconnects :
      (m : ConnectionManager C) (r : Option BackendError × W) → Disconnects (closed b m r)
  closed-Disconnects m (some e, w) = refl
  closed-Disconnects m (none, w) = refl

  -- After a disconnection there is no connection, also where the backend has failed.
  pub disconnect_lem : (m : ConnectionManager C) (w : W) → Disconnects (disconnect b m w)
  unfolding disconnect
  disconnect_lem m w = elim (Option-cases m.active) [
    | inl free ↦ rw (disconnect, free) free
    | inr (a, busy) ↦ rw (disconnect, busy) (closed-Disconnects m (b.disconnect w a.handle))
  ]

  -- What is asked of the manager.
  pub data Op : Type 0 where
    connects : ConnectionProfile → ℕ → ℕ → Op
    checks : ℕ → ℕ → Op
    disconnects : Op

  -- The manager and the server after a request.
  abbrev pub rest : {A : Type 0} → After W C A → ConnectionManager C × W
  rest (answer, m, w) = (m, w)

  unfoldable pub step : ConnectionManager C × W → Op → ConnectionManager C × W
  step (m, w) (connects profile latency now) = rest (connect b m w profile latency now)
  step (m, w) (checks latency now) = rest (health_check b m w latency now)
  step (m, w) disconnects = rest (disconnect b m w)

  unfoldable pub run : ConnectionManager C × W → List Op → ConnectionManager C × W
  run s [] = s
  run s (op ∷ ops) = run (step s op) ops

  connect-IsTimed :
      (m : ConnectionManager C) (profile : ConnectionProfile) (now : ℕ) (r : After W C ℕ)
      → IsTimed m
      → Connects m profile now r
      → IsTimed (rest r).0
  unfolding status
  connect-IsTimed m profile now (ok latency, after, w) timed (free, shown) = inr (
    ap is_some (ap (λ (s : ConnectionStatus). s.last_latency) shown),
    ap is_some (ap (λ (s : ConnectionStatus). s.last_health_check_at) shown),
  )
  connect-IsTimed m profile now (err e, after, w) timed same = rw same timed

  pinged-IsTimed :
      (m : ConnectionManager C) (profile : ConnectionProfile) (latency now : ℕ)
      (r : Option BackendError × C × W)
      → IsTimed m
      → (m.active ≢ none)
      → IsTimed (rest (pinged b m profile latency now r)).0
  pinged-IsTimed m profile latency now (some e, handle, w) (inl free) busy = absurd (busy free)
  pinged-IsTimed m profile latency now (some e, handle, w) (inr timed) busy = inr timed
  pinged-IsTimed m profile latency now (none, handle, w) timed busy = inr (refl, refl)

  check-IsTimed :
      (m : ConnectionManager C) (w : W) (latency now : ℕ)
      → IsTimed m
      → IsTimed (rest (health_check b m w latency now)).0
  unfolding health_check
  check-IsTimed m w latency now timed = elim (Option-cases m.active) [
    | inl free ↦ rw (health_check_free m w latency now free) timed
    | inr (a, busy) ↦
        rw (health_check, busy)
          (pinged-IsTimed m a.profile latency now (b.ping w a.handle) timed
            (λ free. some≢none (sym busy ∙ free)))
  ]

  step-IsTimed : (s : ConnectionManager C × W) (op : Op) → IsTimed s.0 → IsTimed (step s op).0
  unfolding step
  step-IsTimed (m, w) (connects profile latency now) timed =
      connect-IsTimed m profile now (connect b m w profile latency now) timed
        (connect_lem m w profile latency now)
  step-IsTimed (m, w) (checks latency now) timed = check-IsTimed m w latency now timed
  step-IsTimed (m, w) disconnects timed = inl (disconnect_lem m w)

  run-kept : (s : ConnectionManager C × W) (ops : List Op) → IsTimed s.0 → IsTimed (run s ops).0
  unfolding run
  run-kept s [] timed = timed
  run-kept s (op ∷ ops) timed = run-kept (step s op) ops (step-IsTimed s op timed)

  -- Whatever is asked of a new manager and whatever the backend answers, a manager with a connection
  -- knows a latency and the time of a health check.
  pub run-IsTimed : (w : W) (ops : List Op) → IsTimed (run (new, w) ops).0
  unfolding new
  run-IsTimed w ops = run-kept (new, w) ops (inl refl)
