-- ===== src/Actions/Suggestions.antt =====
-- crates/core/src/actions_engine/suggestions.rs: the LIMIT and EXPLAIN suggestions.
use myr.Prelude.{
  ℕ, ◌≡◌, refl, Bool, not, ◌&&◌, ◌||◌, Option, none, some, ◌++◌, ◌==◌, any, first, is_empty,
  is_some_and, if◌then◌else◌,
}
use myr.Prelude.Text.{
  Text, codes, trim, trim_end_by, split_whitespace, split_by, eq_ignore_ascii_case,
  is_ascii_alphanumeric,
}
use myr.Prelude.Text.Decimal.{decimal}

-- Whether the first word is `keyword`, in any case.
unfoldable pub starts_with_word : Text → Text → Bool
starts_with_word keyword query =
    is_some_and (first (split_whitespace query)) (λ word. eq_ignore_ascii_case word keyword)

unfoldable pub starts_with_select : Text → Bool
starts_with_select = starts_with_word (codes "SELECT")

unfoldable pub starts_with_explain : Text → Bool
starts_with_explain = starts_with_word (codes "EXPLAIN")

unfoldable pub contains_limit_keyword : Text → Bool
contains_limit_keyword query =
    any (λ token. eq_ignore_ascii_case token (codes "LIMIT"))
      (split_by (λ ch. not (is_ascii_alphanumeric ch) && not (ch == b'_')) query)

unfoldable pub without_trailing_semicolon : Text → Text
without_trailing_semicolon trimmed = trim (trim_end_by (λ c. c == b';') trimmed)

unfoldable pub suggest_preview_limit : Text → ℕ → Option Text
suggest_preview_limit query_text limit =
    let trimmed = trim query_text in
    let query = without_trailing_semicolon trimmed in
    if is_empty trimmed
    then none
    else if is_empty query
    then none
    else if not (starts_with_select query)
    then none
    else if contains_limit_keyword query
    then none
    else some (query ++ codes " LIMIT " ++ decimal limit)

unfoldable pub suggest_explain_query : Text → Option Text
suggest_explain_query query_text =
    let trimmed = trim query_text in
    let query = without_trailing_semicolon trimmed in
    if is_empty trimmed
    then none
    else if is_empty query || starts_with_explain query
    then none
    else some (codes "EXPLAIN " ++ query)

limit_runs :
    suggest_preview_limit (codes " select * from t ; ") 200
    ≡ some (codes "select * from t LIMIT 200")
unfolding suggest_preview_limit without_trailing_semicolon starts_with_select starts_with_word
    contains_limit_keyword trim trim_end_by split_whitespace split_by eq_ignore_ascii_case
    is_ascii_alphanumeric decimal
limit_runs = refl

limit_kept : suggest_preview_limit (codes "SELECT a FROM t limit 3") 200 ≡ none
unfolding suggest_preview_limit without_trailing_semicolon starts_with_select starts_with_word
    contains_limit_keyword trim trim_end_by split_whitespace split_by eq_ignore_ascii_case
    is_ascii_alphanumeric
limit_kept = refl
