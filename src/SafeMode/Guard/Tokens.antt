-- ===== src/SafeMode/Guard/Tokens.antt =====
-- The tokens of different calls differ.
use myr.Prelude.{
  ℕ, ◌≤◌, ◌<◌, ◌≡◌, ◌≢◌, inl, inr, refl, sym, ap, ◌∙◌, List, [], ◌∷◌, ◌++◌, arith, saturating_add,
  max_u64, drop, Bool-cases, All, not, ◌||◌,
}
use myr.Prelude.Text.{Text}
use myr.Prelude.Text.Decimal.{decimal, hex16, IsDigit, decimal-IsDigit, decimal_injective}
use myr.SafeMode.Assess.{SqlSafetyAssessment, assess_sql_safety, is_safe_read_only}
use myr.SafeMode.Guard.{
  ConfirmationToken, require_confirmation, SafeModeGuard, set_enabled, token_string, evaluate,
  confirm, issue, fingerprint_sql,
}
use myr.SafeMode.Guard.Confirm.{decision_token, allow_ne}
use myr.SafeMode.Guard.Trace.{Op, evaluates, confirms, sets_enabled, step, run}

head_ne : (c : ℕ) (x y : Text) → c ≢ b'-' → b'-' ∷ x ≡ c ∷ y → ⊥
head_ne c x y h e = ground arith

-- Two texts of digits before a dash are the same.
digits_cut :
    (a b x y : Text) → All IsDigit a → All IsDigit b → a ++ b'-' ∷ x ≡ b ++ b'-' ∷ y → a ≡ b
digits_cut [] [] x y ha hb e = refl
digits_cut [] (d ∷ b) x y ha (hd, hb) e = absurd (head_ne d x (b ++ b'-' ∷ y) (omega arith) e)
digits_cut (c ∷ a) [] x y (hc, ha) hb e = absurd (head_ne c y (a ++ b'-' ∷ x) (omega arith) (sym e))
digits_cut (c ∷ a) (d ∷ b) x y (hc, ha) (hd, hb) e = cc (digits_cut a b x y ha hb (ap (drop 1) e))

-- The token spells the nonce.
pub token_string_injective : (m n f f' : ℕ) → token_string m f ≡ token_string n f' → m ≡ n
unfolding token_string
token_string_injective m n f f' e = decimal_injective m n (
    digits_cut (decimal m) (decimal n) (hex16 f) (hex16 f') (decimal-IsDigit m) (decimal-IsDigit n)
      (ap (drop 8) e))

module _ (hash : Text → ℕ) where
  step_nonce :
      (g : SafeModeGuard) (op : Op)
      → g.nonce ≤ max_u64
      → (g.nonce ≤ (step hash g op).nonce) × ((step hash g op).nonce ≤ max_u64)
  unfolding step evaluate issue confirm set_enabled
  step_nonce g (evaluates sql) h = ground arith
  step_nonce g (confirms token sql) h = ground arith
  step_nonce g (sets_enabled enabled) h = ground arith

  run_nonce :
      (g : SafeModeGuard) (ops : List Op)
      → g.nonce ≤ max_u64
      → (g.nonce ≤ (run hash g ops).nonce) × ((run hash g ops).nonce ≤ max_u64)
  unfolding run
  run_nonce g [] h = omega arith
  run_nonce g (op ∷ ops) h =
      let s = step_nonce g op h in omega (arith, run_nonce (step hash g op) ops s.1)

  -- A token that is handed out spells the counter, which went up by one.
  evaluate_token :
      (g : SafeModeGuard) (sql : Text) (token : ConfirmationToken) (a : SqlSafetyAssessment)
      → (evaluate hash g sql).1 ≡ require_confirmation token a
      → ((evaluate hash g sql).0.nonce ≡ saturating_add g.nonce 1)
        × (token.as_str
            ≡ token_string
                (saturating_add g.nonce 1)
                (fingerprint_sql hash (assess_sql_safety sql).normalized_sql))
  unfolding evaluate issue
  evaluate_token g sql token a h =
      elim (Bool-cases (not g.enabled || is_safe_read_only (assess_sql_safety sql))) [
        | inl passes ↦ absurd (allow_ne (rw passes at h))
        | inr risky ↦ rw risky (refl, sym (ap decision_token (rw risky at h)))
      ]

  -- Until the counter reaches the largest `u64`, the tokens of two calls of `evaluate` differ,
  -- whatever calls stand between them.
  pub tokens_differ :
      (g : SafeModeGuard) (sql : Text) (ops : List Op) (sql' : Text)
      (token token' : ConfirmationToken) (a a' : SqlSafetyAssessment)
      → (evaluate hash g sql).1 ≡ require_confirmation token a
      → (evaluate hash (run hash (evaluate hash g sql).0 ops) sql').1
        ≡ require_confirmation token' a'
      → (run hash (evaluate hash g sql).0 ops).nonce < max_u64
      → token.as_str ≢ token'.as_str
  tokens_differ g sql ops sql' token token' a a' h h' fits same =
      let (counted, spelled) = evaluate_token g sql token a h in
      let (_, spelled') = evaluate_token (run hash (evaluate hash g sql).0 ops) sql' token' a' h' in
      let e = token_string_injective _ _ _ _ (sym spelled ∙ same ∙ spelled') in
      let up = run_nonce (evaluate hash g sql).0 ops (omega arith) in absurd (omega arith)
