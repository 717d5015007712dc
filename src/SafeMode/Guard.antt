-- ===== src/SafeMode/Guard.antt =====
-- crates/core/src/safe_mode.rs, `SafeModeGuard`. The hash of the standard library, of which only
-- its width is documented, is a parameter.
pub mod Tokens
pub mod Confirm
pub mod Trace
pub mod Examples
use myr.Prelude.{
  ℕ, ◌≡◌, refl, Bool, true, false, not, ◌||◌, Option, none, some, [], ◌∷◌, ◌++◌, saturating_add,
  if◌then◌else◌, ◌==◌,
}
use myr.Prelude.Assoc.{Assoc, get, insert, remove}
use myr.Prelude.Text.{Text, codes, text_eq_instance}
use myr.Prelude.Text.Decimal.{decimal, hex16}
use myr.SafeMode.Assess.{SqlSafetyAssessment, assess_sql_safety, is_safe_read_only}

pub record ConfirmationToken : Type 0 where
  pub as_str : Text

pub data GuardDecision : Type 0 where
  allow : SqlSafetyAssessment → GuardDecision
  require_confirmation : ConfirmationToken → SqlSafetyAssessment → GuardDecision

pub data SafeModeError : Type 0 where
  invalid_token sql_mismatch : SafeModeError

pub data Confirmation : Type 0 where
  ok : Confirmation
  err : SafeModeError → Confirmation

pub record PendingConfirmation : Type 0 where
  pub sql_fingerprint : ℕ

pub record SafeModeGuard : Type 0 where
  pub enabled : Bool
  pub nonce : ℕ
  pub pending_confirmations : Assoc Text PendingConfirmation

unfoldable pub new : Bool → SafeModeGuard
new enabled = record { enabled = enabled; nonce = 0; pending_confirmations = [] }

unfoldable pub set_enabled : SafeModeGuard → Bool → SafeModeGuard
set_enabled g enabled =
    let g' = record g { enabled = enabled } in
    if not enabled then record g' { pending_confirmations = [] } else g'

-- `format!("confirm-{}-{fingerprint:016x}", nonce)`
unfoldable pub token_string : ℕ → ℕ → Text
token_string nonce fingerprint = codes "confirm-" ++ decimal nonce ++ b'-' ∷ hex16 fingerprint

module _ (hash : Text → ℕ) where
  unfoldable pub fingerprint_sql : Text → ℕ
  fingerprint_sql normalized_sql = hash normalized_sql

  unfoldable pub fingerprint_of : Text → ℕ
  unfolding fingerprint_sql
  fingerprint_of sql = fingerprint_sql (assess_sql_safety sql).normalized_sql

  -- The tail of `evaluate`: a new token for a risky text.
  issue : SafeModeGuard → SqlSafetyAssessment → SafeModeGuard × GuardDecision
  unfolding fingerprint_sql
  issue g assessment =
      let nonce = saturating_add g.nonce 1 in
      let fingerprint = fingerprint_sql assessment.normalized_sql in
      let token = token_string nonce fingerprint in
      let pending : PendingConfirmation = record { sql_fingerprint = fingerprint } in
      (
        record g {
          nonce = nonce;
          pending_confirmations = insert g.pending_confirmations token pending;
        },
        require_confirmation (record { as_str = token }) assessment,
      )

  unfoldable pub evaluate : SafeModeGuard → Text → SafeModeGuard × GuardDecision
  unfolding issue
  evaluate g sql =
      let assessment = assess_sql_safety sql in
      if not g.enabled || is_safe_read_only assessment
      then (g, allow assessment)
      else issue g assessment

  compare_fingerprints : Option PendingConfirmation → Text → Confirmation
  unfolding fingerprint_of
  compare_fingerprints none sql = err invalid_token
  compare_fingerprints (some pending) sql =
      if not (pending.sql_fingerprint == fingerprint_of sql) then err sql_mismatch else ok

  -- `remove` on the map: the entry goes, whether or not the fingerprints agree.
  unfoldable pub confirm : SafeModeGuard → ConfirmationToken → Text → SafeModeGuard × Confirmation
  unfolding compare_fingerprints
  confirm g token sql = (
    record g { pending_confirmations = remove g.pending_confirmations token.as_str },
    compare_fingerprints (get g.pending_confirmations token.as_str) sql,
  )
