-- ===== src/SafeMode/Guard/Confirm.antt =====
-- The protocol of the guard: when it asks, what a confirmation answers, and where the tokens that
-- it accepts come from.
use myr.Prelude.{
  ℕ, not, ◌||◌, ◌≡◌, ◌↔◌, ◌⊎◌, inl, inr, refl, ap, true, false, some, [], arith, if◌then◌else◌,
  ◌==◌, Bool-cases,
}
use myr.Prelude.Assoc.{get, get-insert_self, get-remove_self}
use myr.Prelude.Text.{Text, text_eq_instance}
use myr.SafeMode.Assess.{SqlSafetyAssessment, assess_sql_safety, is_safe_read_only}
use myr.SafeMode.Guard.{
  ConfirmationToken, GuardDecision, allow, require_confirmation, invalid_token, sql_mismatch, ok,
  err, SafeModeGuard, set_enabled, fingerprint_sql, fingerprint_of, evaluate, confirm, issue,
  compare_fingerprints,
}

abbrev pub decision_token : GuardDecision → Text
decision_token (allow a) = []
decision_token (require_confirmation token a) = token.as_str

pub allow_ne :
    {a b : SqlSafetyAssessment} {token : ConfirmationToken}
    → allow a ≡ require_confirmation token b
    → ⊥
allow_ne h = cc

module _ (hash : Text → ℕ) where
  issue_pending :
      (g : SafeModeGuard) (assessed : SqlSafetyAssessment) (token : ConfirmationToken)
      (a : SqlSafetyAssessment)
      → (issue hash g assessed).1 ≡ require_confirmation token a
      → get (issue hash g assessed).0.pending_confirmations token.as_str
        ≡ some (record { sql_fingerprint = fingerprint_sql hash assessed.normalized_sql })
  unfolding issue
  issue_pending g assessed token a h =
      rw (← ap decision_token h) (get-insert_self g.pending_confirmations _ _)

  -- The guard lets a text through, without a change of its state, exactly when it is off or the
  -- text is safe and read-only.
  pub evaluate-allow :
      (g : SafeModeGuard) (sql : Text)
      → ((evaluate hash g sql ≡ (g, allow (assess_sql_safety sql)))
          ↔ ((g.enabled ≡ false) ⊎ (is_safe_read_only (assess_sql_safety sql) ≡ true)))
  unfolding evaluate
  evaluate-allow g sql =
      (λ h. ground (arith, ap (λ (r : SafeModeGuard × GuardDecision). r.1) h), λ h. ground arith)

  -- A token that is handed out is pending, with the fingerprint of its text.
  evaluate_pending :
      (g : SafeModeGuard) (sql : Text) (token : ConfirmationToken) (a : SqlSafetyAssessment)
      → (evaluate hash g sql).1 ≡ require_confirmation token a
      → get (evaluate hash g sql).0.pending_confirmations token.as_str
        ≡ some (record { sql_fingerprint = fingerprint_of hash sql })
  unfolding evaluate fingerprint_of
  evaluate_pending g sql token a h =
      elim (Bool-cases (not g.enabled || is_safe_read_only (assess_sql_safety sql))) [
        | inl passes ↦ absurd (allow_ne (rw passes at h))
        | inr risky ↦ rw risky (issue_pending g (assess_sql_safety sql) token a (rw risky at h))
      ]

  confirm_used :
      (g : SafeModeGuard) (token : ConfirmationToken) (other later : Text)
      → (confirm hash (confirm hash g token other).0 token later).1 ≡ err invalid_token
  unfolding confirm
  confirm_used g token other later =
      rw (get-remove_self g.pending_confirmations token.as_str, compare_fingerprints) refl

  -- A token that `evaluate` hands out confirms the texts with the same fingerprint and no other,
  -- and whatever the first answer was, the token is not accepted again.
  pub confirm-evaluate :
      (g : SafeModeGuard) (sql other later : Text) (token : ConfirmationToken)
      (a : SqlSafetyAssessment)
      → (evaluate hash g sql).1 ≡ require_confirmation token a
      → ((confirm hash (evaluate hash g sql).0 token other).1
          ≡ (if fingerprint_of hash sql == fingerprint_of hash other then ok else err sql_mismatch))
        × ((confirm hash (confirm hash (evaluate hash g sql).0 token other).0 token later).1
            ≡ err invalid_token)
  confirm-evaluate g sql other later token a h =
      let pending = evaluate_pending g sql token a h in
      (
        unfold confirm in rw (pending, compare_fingerprints) (ground arith),
        confirm_used (evaluate hash g sql).0 token other later,
      )

  -- Switching the guard off forgets every token.
  pub confirm-set_enabled :
      (g : SafeModeGuard) (token : ConfirmationToken) (sql : Text)
      → (confirm hash (set_enabled g false) token sql).1 ≡ err invalid_token
  unfolding confirm set_enabled get
  confirm-set_enabled g token sql = refl
