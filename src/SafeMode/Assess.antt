-- ===== src/SafeMode/Assess.antt =====
-- crates/core/src/safe_mode.rs, `assess_sql_safety` with its keyword tests.
pub mod Verdict
use myr.Prelude.{
  ℕ, ◌≡◌, refl, Bool, true, false, ◌||◌, Option, none, some, List, [], ◌∷◌, ◌++◌, ltb, length,
  first, is_empty, and_then, if◌then◌else◌,
}
use myr.Prelude.Text.{Text, codes, one_of, split_whitespace, to_ascii_uppercase, join, text_eq}
use myr.SafeMode.Scan.{split_statements}
use mathlib.Core.Option

pub data SqlRiskReason : Type 0 where
  multi_statement : SqlRiskReason
  write_operation ddl_operation transaction_control : Text → SqlRiskReason
  session_mutation unknown_statement : Text → SqlRiskReason

pub record SqlSafetyAssessment : Type 0 where
  pub statement_count : ℕ
  pub primary_keyword : Option Text
  pub reasons : List SqlRiskReason
  pub normalized_sql : Text

unfoldable pub is_safe_read_only : SqlSafetyAssessment → Bool
is_safe_read_only a = is_empty a.reasons

unfoldable pub first_keyword : Text → Option Text
unfolding split_whitespace to_ascii_uppercase
first_keyword statement = Option.map to_ascii_uppercase (first (split_whitespace statement))

abbrev pub safe_read_keywords : List Text
safe_read_keywords =
    codes "SELECT"
    ∷ codes "SHOW"
    ∷ codes "DESCRIBE"
    ∷ codes "DESC"
    ∷ codes "EXPLAIN"
    ∷ codes "HELP"
    ∷ codes "USE"
    ∷ []

unfoldable pub is_safe_read_keyword : Text → Bool
unfolding text_eq
is_safe_read_keyword keyword = one_of safe_read_keywords keyword

abbrev pub write_keywords : List Text
write_keywords =
    codes "INSERT"
    ∷ codes "UPDATE"
    ∷ codes "DELETE"
    ∷ codes "REPLACE"
    ∷ codes "LOAD"
    ∷ codes "CALL"
    ∷ codes "DO"
    ∷ []

unfoldable pub is_write_keyword : Text → Bool
unfolding text_eq
is_write_keyword keyword = one_of write_keywords keyword

abbrev pub ddl_keywords : List Text
ddl_keywords =
    codes "CREATE"
    ∷ codes "ALTER"
    ∷ codes "DROP"
    ∷ codes "TRUNCATE"
    ∷ codes "RENAME"
    ∷ codes "ANALYZE"
    ∷ codes "OPTIMIZE"
    ∷ codes "REPAIR"
    ∷ []

unfoldable pub is_ddl_keyword : Text → Bool
unfolding text_eq
is_ddl_keyword keyword = one_of ddl_keywords keyword

abbrev pub transaction_keywords : List Text
transaction_keywords =
    codes "START"
    ∷ codes "BEGIN"
    ∷ codes "COMMIT"
    ∷ codes "ROLLBACK"
    ∷ codes "LOCK"
    ∷ codes "UNLOCK"
    ∷ []

unfoldable pub is_transaction_keyword : Text → Bool
unfolding text_eq
is_transaction_keyword keyword = one_of transaction_keywords keyword

abbrev pub session_mutation_keywords : List Text
session_mutation_keywords = codes "SET" ∷ codes "GRANT" ∷ codes "REVOKE" ∷ []

unfoldable pub is_session_mutation_keyword : Text → Bool
unfolding text_eq
is_session_mutation_keyword keyword = one_of session_mutation_keywords keyword

-- The body of the loop for a statement whose keyword is known: `none` where it goes on.
unfoldable pub keyword_reason : Text → Option SqlRiskReason
keyword_reason keyword =
    if is_safe_read_keyword keyword
    then none
    else if is_write_keyword keyword
    then some (write_operation keyword)
    else if is_ddl_keyword keyword
    then some (ddl_operation keyword)
    else if is_transaction_keyword keyword
    then some (transaction_control keyword)
    else if is_session_mutation_keyword keyword
    then some (session_mutation keyword)
    else some (unknown_statement keyword)

abbrev push_reason : Option SqlRiskReason → List SqlRiskReason → List SqlRiskReason
push_reason none reasons = reasons
push_reason (some r) reasons = r ∷ reasons

-- `for statement in &statements`
unfoldable pub statement_reasons : List Text → List SqlRiskReason
statement_reasons [] = []
statement_reasons (statement ∷ rest) =
    push_reason (and_then (first_keyword statement) keyword_reason) (statement_reasons rest)

unfoldable pub assess_statements : List Text → SqlSafetyAssessment
unfolding statement_reasons
assess_statements statements = record {
  statement_count = length statements;
  primary_keyword = and_then (first statements) first_keyword;
  reasons =
      (if ltb 1 (length statements) then multi_statement ∷ [] else [])
      ++ statement_reasons statements;
  normalized_sql = join (codes "; ") statements;
}

unfoldable pub assess_sql_safety : Text → SqlSafetyAssessment
unfolding assess_statements
assess_sql_safety sql = assess_statements (split_statements sql)
