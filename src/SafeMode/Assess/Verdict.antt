-- ===== src/SafeMode/Assess/Verdict.antt =====
-- What a text must look like to pass as safe and read-only, and which reason a keyword gives.
use mathlib.Core.List.{cons-ne-nil}
use myr.Prelude.{
  ℕ, ◌≡◌, ◌≢◌, ◌↔◌, ◌⊎◌, inl, inr, refl, Bool, true, none, some, List, [], ◌∷◌, ◌++◌, map, arith,
  All, Bool-cases,
}
use myr.Prelude.Text.{
  one_of_elim, Text, trim, drop_empty, to_ascii_uppercase, is_whitespace, split_at,
}
use myr.Prelude.Text.Trim.{IsTrimmed, trim-IsTrimmed}
use myr.SafeMode.Scan.{split_statements}
use myr.SafeMode.Scan.Lexemes.{segments, LacksClose, block_comment, closed, split_statements-spell}
use myr.SafeMode.Scan.Coverage.{split_statements_complete}
use myr.SafeMode.Assess.{
  SqlRiskReason, write_operation, ddl_operation, transaction_control, session_mutation,
  is_safe_read_only, first_keyword, is_safe_read_keyword, is_write_keyword, is_ddl_keyword,
  is_transaction_keyword, is_session_mutation_keyword, write_keywords, ddl_keywords,
  transaction_keywords, session_mutation_keywords, keyword_reason, assess_statements,
  assess_sql_safety,
}

-- A statement is trimmed and not empty.
abbrev pub IsStatement : Text → Type 0
IsStatement t = (t ≢ []) × IsTrimmed t

-- One text more in front of statements.
drop_empty-cons :
    (t : Text) (ts : List Text)
    → IsTrimmed t
    → All IsStatement (drop_empty ts)
    → All IsStatement (drop_empty (t ∷ ts))
drop_empty-cons [] ts h hs = hs
drop_empty-cons (c ∷ t) ts h hs = ((cons-ne-nil c t, h), hs)

drop_empty-AreStatements : (ts : List Text) → All IsStatement (drop_empty (map trim ts))
drop_empty-AreStatements [] = tt
drop_empty-AreStatements (t ∷ ts) =
    drop_empty-cons (trim t) (map trim ts) (trim-IsTrimmed t) (drop_empty-AreStatements ts)

-- Every statement that `split_statements` returns is trimmed and not empty.
pub split_statements-AreStatements : (sql : Text) → All IsStatement (split_statements sql)
split_statements-AreStatements sql =
    let (ls, e, w, eq, same) = split_statements_complete sql in
    rw same (drop_empty-AreStatements (segments ls e []))

split_at_first :
    (p : ℕ → Bool) (c : ℕ) (s cur : Text)
    → (w : Text) × (ws : List Text) × (split_at p s (c ∷ cur) ≡ (c ∷ w) ∷ ws)
unfolding split_at
split_at_first p c [] cur = (cur, [], refl)
split_at_first p c (d ∷ s) cur = elim (Bool-cases (p d)) [
  | inl sep ↦ (cur, split_at p s [], rw (sep, split_at) refl)
  | inr word ↦ rw (word, split_at) (split_at_first p c s (cur ++ d ∷ []))
]

-- A statement has a first word.
pub first_keyword-some : (t : Text) → IsStatement t → (k : Text) × (first_keyword t ≡ some k)
unfolding first_keyword
first_keyword-some [] (ne, _) = absurd (ne refl)
first_keyword-some (c ∷ t) (_, (starts, _)) =
    let (w, ws, e) = split_at_first is_whitespace c t [] in
    (to_ascii_uppercase (c ∷ w), rw (starts, split_at) (rw e refl))

abbrev Gives : (Text → SqlRiskReason) → Text → Type 0
Gives reason k = keyword_reason k ≡ some (reason k)

keyword_reason_safe : (k : Text) → is_safe_read_keyword k ≡ true → keyword_reason k ≡ none
unfolding keyword_reason
keyword_reason_safe k h = rw h refl

-- From the reason back to the list.
module _ (k : Text) where
  of_write : keyword_reason k ≡ some (write_operation k) → is_write_keyword k ≡ true
  unfolding keyword_reason
  of_write h = ground arith

  of_ddl : keyword_reason k ≡ some (ddl_operation k) → is_ddl_keyword k ≡ true
  unfolding keyword_reason
  of_ddl h = ground arith

  of_transaction : keyword_reason k ≡ some (transaction_control k) → is_transaction_keyword k ≡ true
  unfolding keyword_reason
  of_transaction h = ground arith

  of_session : keyword_reason k ≡ some (session_mutation k) → is_session_mutation_keyword k ≡ true
  unfolding keyword_reason
  of_session h = ground arith

keyword_reason-none : (k : Text) → keyword_reason k ≡ none → is_safe_read_keyword k ≡ true
unfolding keyword_reason
keyword_reason-none k h = ground arith

-- A first word has a reason of its kind exactly when it stands in the list of that kind, and none
-- exactly when it is a reading keyword: no list hides what another one holds, so the order in which
-- they are tried does not matter.
pub keyword_reason_lem :
    (k : Text)
    → ((is_safe_read_keyword k ≡ true) ↔ (keyword_reason k ≡ none))
      × ((is_write_keyword k ≡ true) ↔ (keyword_reason k ≡ some (write_operation k)))
      × ((is_ddl_keyword k ≡ true) ↔ (keyword_reason k ≡ some (ddl_operation k)))
      × ((is_transaction_keyword k ≡ true) ↔ (keyword_reason k ≡ some (transaction_control k)))
      × ((is_session_mutation_keyword k ≡ true) ↔ (keyword_reason k ≡ some (session_mutation k)))
unfolding keyword_reason is_safe_read_keyword is_write_keyword is_ddl_keyword is_transaction_keyword
    is_session_mutation_keyword
keyword_reason_lem k = (
  (keyword_reason_safe k, keyword_reason-none k),
  (
    λ h.
        one_of_elim (Gives write_operation) write_keywords k h
          (refl, (refl, (refl, (refl, (refl, (refl, (refl, tt))))))),
    of_write k,
  ),
  (
    λ h.
        one_of_elim (Gives ddl_operation) ddl_keywords k h
          (refl, (refl, (refl, (refl, (refl, (refl, (refl, (refl, tt)))))))),
    of_ddl k,
  ),
  (
    λ h.
        one_of_elim (Gives transaction_control) transaction_keywords k h
          (refl, (refl, (refl, (refl, (refl, (refl, tt)))))),
    of_transaction k,
  ),
  (
    λ h.
        one_of_elim (Gives session_mutation) session_mutation_keywords k h
          (refl, (refl, (refl, tt))),
    of_session k,
  ),
)

abbrev IsSafe : List Text → Type 0
IsSafe ts =
    (ts ≡ [])
    ⊎ ((s : Text) × (k : Text) × (ts ≡ s ∷ [])
        × (first_keyword s ≡ some k)
        × (is_safe_read_keyword k ≡ true))

IsSafe-statements :
    (ts : List Text)
    → All IsStatement ts
    → is_safe_read_only (assess_statements ts) ≡ true
    → IsSafe ts
unfolding is_safe_read_only assess_statements
IsSafe-statements [] h safe = inl refl
IsSafe-statements (s ∷ []) (hs, _) safe =
    let (k, e) = first_keyword-some s hs in
    inr (s, k, refl, e, keyword_reason-none k (ground arith))
IsSafe-statements (s ∷ s' ∷ ts) h safe = ground arith

IsSafe-safe : (ts : List Text) → IsSafe ts → is_safe_read_only (assess_statements ts) ≡ true
unfolding is_safe_read_only assess_statements
IsSafe-safe ts (inl e) = rw e refl
IsSafe-safe ts (inr (s, k, e, ek, safe)) = rw e (rw ek (rw (keyword_reason_safe k safe) refl))

-- A text passes as safe and read-only exactly when it has no statement at all, or one statement
-- whose first word is one of the seven reading keywords.
pub safe_iff :
    (sql : Text)
    → (is_safe_read_only (assess_sql_safety sql) ≡ true) ↔ (
        (split_statements sql ≡ [])
        ⊎ ((s : Text) × (k : Text) × (split_statements sql ≡ s ∷ [])
            × (first_keyword s ≡ some k)
            × (is_safe_read_keyword k ≡ true)))
unfolding assess_sql_safety
safe_iff sql = (
  IsSafe-statements (split_statements sql) (split_statements-AreStatements sql),
  IsSafe-safe (split_statements sql),
)

-- A text that is one block comment passes as safe whatever the comment holds, also if it begins
-- with an exclamation mark.
pub block_comment_safe :
    (body : Text)
    → LacksClose body
    → is_safe_read_only (assess_sql_safety (b'/' ∷ b'*' ∷ (body ++ b'*' ∷ b'/' ∷ []))) ≡ true
unfolding trim
block_comment_safe body h =
    (safe_iff _).1 (inl (split_statements-spell (block_comment body ∷ []) closed (h, tt)))
