-- ===== src/SafeMode/Guard/Trace.antt =====
-- Sequences of calls on the guard, and where the tokens that it accepts come from.
use mathlib.Core.Bool.{false≢true}
use myr.Prelude.{
  ℕ, not, ◌||◌, ◌≡◌, ◌≢◌, ◌⊎◌, inl, inr, refl, sym, ap, ◌∙◌, Bool, true, false, none, some, List,
  [], ◌∷◌, ◌++◌, arith, saturating_add, Bool-cases, Option-cases, All,
}
use myr.Prelude.Assoc.{get, get-remove, get-insert}
use myr.Prelude.Text.{Text, text_eq, text_eq_iff, text_eq_instance}
use myr.SafeMode.Assess.{SqlSafetyAssessment, assess_sql_safety, is_safe_read_only}
use myr.SafeMode.Guard.{
  ConfirmationToken, require_confirmation, SafeModeError, ok, err, PendingConfirmation,
  SafeModeGuard, new, set_enabled, fingerprint_sql, fingerprint_of, evaluate, confirm, issue,
  compare_fingerprints, token_string,
}

pending_eq :
    {f : ℕ} {p : PendingConfirmation}
    → some (record { sql_fingerprint = f }) ≡ some p
    → f ≡ p.sql_fingerprint
pending_eq h = cc

none_ne : {p : PendingConfirmation} → none ≡ some p → ⊥
none_ne h = cc

module _ (hash : Text → ℕ) where
  -- What is pending after `evaluate` was pending, or is the token that it handed out.
  issue_new :
      (g : SafeModeGuard) (assessed : SqlSafetyAssessment) (token : ConfirmationToken)
      (p : PendingConfirmation)
      → get (issue hash g assessed).0.pending_confirmations token.as_str ≡ some p
      → (get g.pending_confirmations token.as_str ≡ some p)
        ⊎ (((issue hash g assessed).1 ≡ require_confirmation token assessed)
            × (fingerprint_sql hash assessed.normalized_sql ≡ p.sql_fingerprint))
  unfolding issue
  issue_new g assessed token p h =
      let nonce = saturating_add g.nonce 1 in
      let fingerprint = fingerprint_sql hash assessed.normalized_sql in
      let text = token_string nonce fingerprint in
      let h' =
        rw
          (get-insert g.pending_confirmations text token.as_str
            (record { sql_fingerprint = fingerprint }))
          at h in
      elim (Bool-cases (text_eq text token.as_str)) [
        | inl same ↦ inr (
          ap (λ (t : Text). require_confirmation (record { as_str = t }) assessed)
              ((text_eq_iff _ _).0 same),
          pending_eq (rw same at h'),
        )
        | inr other ↦ inl (rw other at h')
      ]

  evaluate_new :
      (g : SafeModeGuard) (sql : Text) (token : ConfirmationToken) (p : PendingConfirmation)
      → get (evaluate hash g sql).0.pending_confirmations token.as_str ≡ some p
      → (get g.pending_confirmations token.as_str ≡ some p)
        ⊎ (((evaluate hash g sql).1 ≡ require_confirmation token (assess_sql_safety sql))
            × (fingerprint_of hash sql ≡ p.sql_fingerprint))
  unfolding evaluate fingerprint_of
  evaluate_new g sql token p h =
      elim (Bool-cases (not g.enabled || is_safe_read_only (assess_sql_safety sql))) [
        | inl passes ↦ inl (rw passes at h)
        | inr risky ↦ rw risky (issue_new g (assess_sql_safety sql) token p (rw risky at h))
      ]

  -- What is pending after `confirm` was pending and is not the token that was used.
  confirm_kept :
      (g : SafeModeGuard) (t : ConfirmationToken) (sql : Text) (token : ConfirmationToken)
      (p : PendingConfirmation)
      → get (confirm hash g t sql).0.pending_confirmations token.as_str ≡ some p
      → (get g.pending_confirmations token.as_str ≡ some p) × (t.as_str ≢ token.as_str)
  unfolding confirm
  confirm_kept g t sql token p h =
      let h' = rw (get-remove g.pending_confirmations t.as_str token.as_str) at h in
      elim (Bool-cases (text_eq t.as_str token.as_str)) [
        | inl same ↦ absurd (none_ne (rw same at h'))
        | inr other ↦
            (rw other at h', λ e. false≢true (sym other ∙ (text_eq_iff t.as_str token.as_str).1 e))
      ]

err_ne : {e : SafeModeError} → err e ≡ ok → ⊥
err_ne h = cc

same_fingerprint :
    (hash : Text → ℕ) (p : PendingConfirmation) (sql : Text)
    → compare_fingerprints hash (some p) sql ≡ ok
    → fingerprint_of hash sql ≡ p.sql_fingerprint
unfolding compare_fingerprints
same_fingerprint hash p sql h = ground arith

pub data Op : Type 0 where
  evaluates : Text → Op
  confirms : ConfirmationToken → Text → Op
  sets_enabled : Bool → Op

-- A call that neither uses the token nor switches the guard off.
abbrev pub Spares : ConfirmationToken → Op → Type 0
Spares token (evaluates sql) = Unit
Spares token (confirms t sql) = t.as_str ≢ token.as_str
Spares token (sets_enabled enabled) = enabled ≡ true

module _ (hash : Text → ℕ) where
  unfoldable pub step : SafeModeGuard → Op → SafeModeGuard
  step g (evaluates sql) = (evaluate hash g sql).0
  step g (confirms token sql) = (confirm hash g token sql).0
  step g (sets_enabled enabled) = set_enabled g enabled

  unfoldable pub run : SafeModeGuard → List Op → SafeModeGuard
  unfolding step
  run g [] = g
  run g (op ∷ ops) = run (step g op) ops

  -- A call of `evaluate` among the calls issued the token for a text with this fingerprint, and
  -- no later call used it or switched the guard off.
  abbrev pub Issued : SafeModeGuard → List Op → ConfirmationToken → ℕ → Type 0
  Issued g ops token fingerprint =
      (before : List Op) × (sql : Text) × (after : List Op) × (ops
        ≡ before ++ evaluates sql ∷ after)
      × ((evaluate hash (run g before) sql).1 ≡ require_confirmation token (assess_sql_safety sql))
      × (fingerprint_of hash sql ≡ fingerprint)
      × All (Spares token) after

  -- The token is pending as before the calls, which spared it.
  abbrev Kept : SafeModeGuard → List Op → ConfirmationToken → PendingConfirmation → Type 0
  Kept g ops token p = (get g.pending_confirmations token.as_str ≡ some p) × All (Spares token) ops

  abbrev Traced : SafeModeGuard → List Op → ConfirmationToken → PendingConfirmation → Type 0
  Traced g ops token p = Kept g ops token p ⊎ Issued g ops token p.sql_fingerprint

  -- One call more in front.
  step-Traced :
      (g : SafeModeGuard) (op : Op) (ops : List Op) (token : ConfirmationToken)
      (p : PendingConfirmation)
      → Kept (step g op) ops token p
      → Traced g (op ∷ ops) token p
  step-Traced g (evaluates sql) ops token p (h, spared) =
      elim (evaluate_new hash g sql token p (unfold step in h)) [
        | inl old ↦ inl (old, (tt, spared))
        | inr (issued, same) ↦ inr ([], sql, ops, refl, unfold run in issued, same, spared)
      ]
  step-Traced g (confirms t sql) ops token p (h, spared) =
      let (kept, other) = confirm_kept hash g t sql token p (unfold step in h) in
      inl (kept, (other, spared))
  step-Traced g (sets_enabled true) ops token p (h, spared) =
      inl ((unfold step set_enabled in h), (refl, spared))
  step-Traced g (sets_enabled false) ops token p (h, spared) =
      absurd (none_ne {p = p} (unfold step set_enabled get in h))

  run-Traced :
      (g : SafeModeGuard) (ops : List Op) (token : ConfirmationToken) (p : PendingConfirmation)
      → get (run g ops).pending_confirmations token.as_str ≡ some p
      → Traced g ops token p
  unfolding run
  run-Traced g [] token p h = inl (h, tt)
  run-Traced g (op ∷ ops) token p h = elim (run-Traced (step g op) ops token p h) [
    | inl kept ↦ step-Traced g op ops token p kept
    | inr (before, sql, after, e, issued, same, spared) ↦
        inr (op ∷ before, sql, after, ap (◌∷◌ op) e, issued, same, spared)
  ]

  new_traced :
      (enabled : Bool) (ops : List Op) (token : ConfirmationToken) (p : PendingConfirmation)
      → get (run (new enabled) ops).pending_confirmations token.as_str ≡ some p
      → Issued (new enabled) ops token p.sql_fingerprint
  new_traced enabled ops token p found = elim (run-Traced (new enabled) ops token p found) [
    | inl kept ↦ absurd (none_ne {p = p} (unfold new get in kept.0))
    | inr issued ↦ issued
  ]

  -- After any calls on a new guard, a text is confirmed by a token only if an earlier call of
  -- `evaluate` asked for a confirmation with this very token, of a text with the same fingerprint,
  -- and since then the token was not used and the guard was not switched off.
  pub confirm_only-Issued :
      (enabled : Bool) (ops : List Op) (token : ConfirmationToken) (sql : Text)
      → (confirm hash (run (new enabled) ops) token sql).1 ≡ ok
      → Issued (new enabled) ops token (fingerprint_of hash sql)
  unfolding confirm
  confirm_only-Issued enabled ops token sql h =
      elim (Option-cases (get (run (new enabled) ops).pending_confirmations token.as_str)) [
        | inl missing ↦ absurd (err_ne (rw (missing, compare_fingerprints) at h))
        | inr (p, found) ↦
            rw (same_fingerprint hash p sql (rw (found, compare_fingerprints) at h))
              (new_traced enabled ops token p found)
      ]
