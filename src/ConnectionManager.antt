-- ===== src/ConnectionManager.antt =====
-- crates/core/src/connection_manager.rs: at most one connection, its latency and its health.
pub mod Status
mod Examples
use myr.Prelude.{ℕ, Bool, true, false, Option, none, some, is_some}
use myr.Prelude.Text.{Text}
use myr.Profiles.{ConnectionProfile}

pub record BackendError : Type 0 where
  pub message : Text

pub data ConnectionManagerError : Type 0 where
  already_connected : Text → ConnectionManagerError
  not_connected : ConnectionManagerError
  backend : BackendError → ConnectionManagerError

pub data Outcome (A : Type 0) : Type 0 where
  ok : A → Outcome A
  err : ConnectionManagerError → Outcome A

-- What `connect` of the backend answers.
pub data Opened (C : Type 0) : Type 0 where
  opened : C → Opened C
  refused : BackendError → Opened C

-- The backend with the server behind it, whose state W every call may change.
pub record ConnectionBackend (W C : Type 0) : Type 0 where
  pub connect : W → ConnectionProfile → Opened C × W
  pub ping : W → C → Option BackendError × C × W
  pub disconnect : W → C → Option BackendError × W

pub record ActiveConnection (C : Type 0) : Type 0 where
  pub profile : ConnectionProfile
  pub handle : C

-- The manager without its backend. Times and durations are ticks of the clock.
pub record ConnectionManager (C : Type 0) : Type 0 where
  pub active : Option (ActiveConnection C)
  pub last_latency : Option ℕ
  pub last_health_check_at : Option ℕ

pub record ConnectionStatus : Type 0 where
  pub profile_name : Option Text
  pub is_connected : Bool
  pub last_latency : Option ℕ
  pub last_health_check_at : Option ℕ

abbrev pub disconnected : ConnectionStatus
disconnected = record {
  profile_name = none;
  is_connected = false;
  last_latency = none;
  last_health_check_at = none;
}

module _ {C : Type 0} where
  unfoldable pub new : ConnectionManager C
  new = record { active = none; last_latency = none; last_health_check_at = none }

  abbrev pub active_profile : Option (ActiveConnection C) → Option ConnectionProfile
  active_profile none = none
  active_profile (some a) = some a.profile

  abbrev name_of : Option (ActiveConnection C) → Option Text
  name_of none = none
  name_of (some a) = some a.profile.name

  unfoldable pub status : ConnectionManager C → ConnectionStatus
  status m = record {
    profile_name = name_of m.active;
    is_connected = is_some m.active;
    last_latency = m.last_latency;
    last_health_check_at = m.last_health_check_at;
  }

-- The answer, the manager and the server after a call.
abbrev pub After : Type 0 → Type 0 → Type 0 → Type 0
After W C A = Outcome A × ConnectionManager C × W

module _ {W C : Type 0} (b : ConnectionBackend W C) where
  -- The second half of `connect`, after the `ping`.
  abbrev pub pinged_new :
      ConnectionManager C → ConnectionProfile → ℕ → ℕ → Option BackendError × C × W → After W C ℕ
  pinged_new m profile latency now (some e, handle, w) = (err (backend e), m, w)
  pinged_new m profile latency now (none, handle, w) = (
    ok latency,
    record {
      active = some (record { profile = profile; handle = handle });
      last_latency = some latency;
      last_health_check_at = some now;
    },
    w,
  )

  abbrev pub opened_new :
      ConnectionManager C → ConnectionProfile → ℕ → ℕ → Opened C × W → After W C ℕ
  opened_new m profile latency now (refused e, w) = (err (backend e), m, w)
  opened_new m profile latency now (opened handle, w) =
      pinged_new m profile latency now (b.ping w handle)

  -- What is measured as elapsed, and the time afterwards, are arguments.
  unfoldable pub connect : ConnectionManager C → W → ConnectionProfile → ℕ → ℕ → After W C ℕ
  connect m w profile latency now = elim m.active [
    | some a ↦ (err (already_connected a.profile.name), m, w)
    | none ↦ opened_new m profile latency now (b.connect w profile)
  ]

  -- A failed `ping` may have changed the handle.
  abbrev pub pinged :
      ConnectionManager C → ConnectionProfile → ℕ → ℕ → Option BackendError × C × W → After W C ℕ
  pinged m profile latency now (some e, handle, w) = (
    err (backend e),
    record m { active = some (record { profile = profile; handle = handle }) },
    w,
  )
  pinged m profile latency now (none, handle, w) = (
    ok latency,
    record {
      active = some (record { profile = profile; handle = handle });
      last_latency = some latency;
      last_health_check_at = some now;
    },
    w,
  )

  unfoldable pub health_check : ConnectionManager C → W → ℕ → ℕ → After W C ℕ
  health_check m w latency now = elim m.active [
    | none ↦ (err not_connected, m, w)
    | some a ↦ pinged m a.profile latency now (b.ping w a.handle)
  ]

  -- `take` has emptied the manager before the backend answers.
  abbrev pub closed : ConnectionManager C → Option BackendError × W → After W C Unit
  closed m (some e, w) = (err (backend e), record m { active = none }, w)
  closed m (none, w) =
      (ok tt, record { active = none; last_latency = none; last_health_check_at = none }, w)

  unfoldable pub disconnect : ConnectionManager C → W → After W C Unit
  disconnect m w = elim m.active [
    | none ↦ (ok tt, m, w)
    | some a ↦ closed m (b.disconnect w a.handle)
  ]
