-- ===== src/SafeMode/Guard/Examples.antt =====
-- The theorems on the guard at concrete calls.
use myr.Prelude.{
  ◌≡◌, ◌≢◌, ◌<◌, refl, ap, true, false, [], ◌∷◌, arith, length, if◌then◌else◌, ◌==◌, ==_iff,
  max_u64,
}
use myr.Prelude.Text.{
  Text, codes, text_eq_instance, text_eq, trim, trim_start_by, trim_end_by, end_cons, is_whitespace,
  split_at, to_ascii_uppercase,
}
use myr.Prelude.Assoc.{get-insert_self}
use myr.SafeMode.Scan.{split_statements}
use myr.SafeMode.Assess.{
  first_keyword, keyword_reason, is_safe_read_keyword, is_write_keyword, is_ddl_keyword,
  is_transaction_keyword, is_session_mutation_keyword, statement_reasons, is_safe_read_only,
  assess_sql_safety, assess_statements,
}
use myr.SafeMode.Guard.{
  ConfirmationToken, PendingConfirmation, require_confirmation, ok, err, invalid_token,
  sql_mismatch, SafeModeGuard, new, evaluate, confirm, fingerprint_of, fingerprint_sql,
  token_string, issue, compare_fingerprints,
}
use myr.SafeMode.Guard.Confirm.{confirm-evaluate}
use myr.SafeMode.Guard.Trace.{step, evaluates, Issued, run, confirm_only-Issued}
use myr.SafeMode.Guard.Tokens.{tokens_differ}

-- A text that asks for a confirmation.
abbrev pub risky : Text
risky = codes "drop table t"

abbrev pub guard : SafeModeGuard
guard = record { enabled = true; nonce = 0; pending_confirmations = [] }

abbrev pub token : ConfirmationToken
token = record { as_str = token_string 1 (fingerprint_of length risky) }

risky_asks : is_safe_read_only (assess_sql_safety risky) ≡ false
unfolding assess_sql_safety assess_statements statement_reasons is_safe_read_only split_statements
    trim trim_start_by trim_end_by end_cons is_whitespace first_keyword split_at to_ascii_uppercase
    keyword_reason is_safe_read_keyword is_write_keyword is_ddl_keyword is_transaction_keyword
    is_session_mutation_keyword text_eq
risky_asks = refl

-- The guard asks for a confirmation of the text, with the next token.
issues :
    (g : SafeModeGuard)
    → g.enabled ≡ true
    → evaluate length g risky ≡ issue length g (assess_sql_safety risky)
unfolding evaluate
issues g h = simp (evaluate, h, risky_asks) refl

pub risky-asks :
    (evaluate length guard risky).1 ≡ require_confirmation token (assess_sql_safety risky)
unfolding issue fingerprint_of
risky-asks = rw (issues guard refl) refl

confirm-evaluate_example :
    ((confirm length (evaluate length guard risky).0 token risky).1 ≡ (
      if fingerprint_of length risky == fingerprint_of length risky then ok else err sql_mismatch))
    × ((confirm length (confirm length (evaluate length guard risky).0 token risky).0 token risky).1
        ≡ err invalid_token)
confirm-evaluate_example =
    confirm-evaluate length guard risky risky risky token (assess_sql_safety risky) risky-asks

ran :
    run length (new true) (evaluates risky ∷ []) ≡ (issue length guard (assess_sql_safety risky)).0
unfolding run step new
ran = ap (λ p. p.0) (issues guard refl)

issued_confirmed :
    (confirm length (issue length guard (assess_sql_safety risky)).0 token risky).1 ≡ ok
unfolding confirm issue fingerprint_of compare_fingerprints
issued_confirmed =
    let fingerprint = fingerprint_sql length (assess_sql_safety risky).normalized_sql in
    let pending : PendingConfirmation = record { sql_fingerprint = fingerprint } in
    rw (get-insert_self [] token.as_str pending, (==_iff fingerprint fingerprint).1 refl) refl

-- The token is accepted for its text.
confirmed : (confirm length (run length (new true) (evaluates risky ∷ [])) token risky).1 ≡ ok
confirmed = rw ran issued_confirmed

confirm_only-Issued_example :
    Issued length (new true) (evaluates risky ∷ []) token (fingerprint_of length risky)
confirm_only-Issued_example =
    confirm_only-Issued length true (evaluates risky ∷ []) token risky confirmed

abbrev second : ConfirmationToken
second = record { as_str = token_string 2 (fingerprint_of length risky) }

asks_again :
    (evaluate length (run length (evaluate length guard risky).0 []) risky).1
    ≡ require_confirmation second (assess_sql_safety risky)
unfolding run issue fingerprint_of
asks_again =
    rw (issues guard refl) (rw (issues (issue length guard (assess_sql_safety risky)).0 refl) refl)

once : (run length (evaluate length guard risky).0 []).nonce < max_u64
unfolding run issue
once = rw (issues guard refl) (omega arith)

tokens_differ_example : token.as_str ≢ second.as_str
tokens_differ_example =
    tokens_differ length guard risky [] risky token second (assess_sql_safety risky)
      (assess_sql_safety risky) risky-asks asks_again once
