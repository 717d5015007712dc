-- ===== src/SqlGenerator/Safety.antt =====
-- The statements that the program generates, as the scanner of the safe mode splits them.
use myr.Prelude.{ℕ, refl, Option, none, some, ◌++◌, arith, Bool-cases, inl, inr, is_empty}
use myr.Prelude.Text.{Text, codes, trim, is_whitespace}
use myr.SafeMode.Scan.Inert.{Inert, Inert-decimal, Inert-quoted, is_bland}
use myr.SqlGenerator.{
  SqlTarget, with_column, estimate, quote_identifier, qualified_table_sql, preview_select_sql,
  PaginationDirection, next, previous, Generated, ok, err, keyset_first_page_sql, keyset_page_sql,
  offset_page_sql, describe_table_sql, show_create_table_sql, show_index_sql,
  select_column_preview_sql, count_estimate_sql, filtered_sorted_preview_sql,
}
use myr.SqlGenerator.Literal.{quote_sql_literal-Inert}
use myr.SqlGenerator.Opening.{
  quote_identifier-Inert, quote_sql_string-Inert, ◌⊕◌, qualified_table-Inert, lit, qualified_first,
  select_safe, describe_safe, show_safe, IsReadSql,
}

module _ (target : SqlTarget) where
  described : IsReadSql (describe_table_sql target)
  unfolding describe_table_sql qualified_table_sql is_bland is_whitespace
  described =
      let (r, e) = qualified_first target.database target.table in
      let inert : Inert (codes "DESCRIBE " ++ qualified_table_sql target) =
        lit (codes "DESCRIBE ") refl ⊕ qualified_table-Inert target in
      rw e (describe_safe b'`' refl r (rw e at inert))

  table : Inert (qualified_table_sql target)
  table = qualified_table-Inert target

  -- The preview, the page, the description, the creation and the indexes of a table: each of
  -- these texts has exactly one statement, which begins with a reading keyword, whatever the names
  -- are.
  pub table_statements_safe :
      (limit offset : ℕ)
      → IsReadSql (preview_select_sql target limit)
        × IsReadSql (offset_page_sql target limit offset)
        × IsReadSql (describe_table_sql target)
        × IsReadSql (show_create_table_sql target)
        × IsReadSql (show_index_sql target)
  unfolding preview_select_sql offset_page_sql describe_table_sql show_create_table_sql
      show_index_sql is_bland is_whitespace
  table_statements_safe limit offset = (
    select_safe b'*' refl _ (
        lit (codes "SELECT * FROM ") refl
        ⊕ table
        ⊕ lit (codes " LIMIT ") refl
        ⊕ Inert-decimal limit),
    select_safe b'*' refl _ (
        lit (codes "SELECT * FROM ") refl
        ⊕ table
        ⊕ lit (codes " LIMIT ") refl
        ⊕ Inert-decimal limit
        ⊕ lit (codes " OFFSET ") refl
        ⊕ Inert-decimal offset),
    described,
    show_safe b'C' refl _ (lit (codes "SHOW CREATE TABLE ") refl ⊕ table),
    show_safe b'I' refl _ (lit (codes "SHOW INDEX FROM ") refl ⊕ table),
  )

-- A generated text, where there is one, is one reading statement.
abbrev pub IsSafeGenerated : Generated Text → Type 0
IsSafeGenerated (err e) = Unit
IsSafeGenerated (ok sql) = IsReadSql sql

with_column_safe : (column sql : Text) → IsReadSql sql → IsSafeGenerated (with_column column sql)
with_column_safe column sql h = elim (Bool-cases (is_empty (trim column))) [
  | inl e ↦ rw e tt
  | inr e ↦ rw e h
]

module _ (target : SqlTarget) (key : Text) where
  key-Inert : Inert (quote_identifier key)
  key-Inert = quote_identifier-Inert key

  page_safe :
      (boundary : Text) (direction : PaginationDirection) (limit : ℕ)
      → IsSafeGenerated (keyset_page_sql target key boundary direction limit)
  unfolding keyset_page_sql is_bland is_whitespace
  page_safe boundary next limit = with_column_safe key _ (
      select_safe b'*' refl _ (
        lit (codes "SELECT * FROM ") refl
        ⊕ table target
        ⊕ lit (codes " WHERE ") refl
        ⊕ key-Inert
        ⊕ lit (codes " > ") refl
        ⊕ quote_sql_literal-Inert boundary
        ⊕ lit (codes " ORDER BY ") refl
        ⊕ key-Inert
        ⊕ lit (codes " ASC LIMIT ") refl
        ⊕ Inert-decimal limit))
  page_safe boundary previous limit = with_column_safe key _ (
      select_safe b'*' refl _ (
        lit (codes "SELECT * FROM (SELECT * FROM ") refl
        ⊕ table target
        ⊕ lit (codes " WHERE ") refl
        ⊕ key-Inert
        ⊕ lit (codes " < ") refl
        ⊕ quote_sql_literal-Inert boundary
        ⊕ lit (codes " ORDER BY ") refl
        ⊕ key-Inert
        ⊕ lit (codes " DESC LIMIT ") refl
        ⊕ Inert-decimal limit
        ⊕ lit (codes ") AS page_window ORDER BY ") refl
        ⊕ key-Inert
        ⊕ lit (codes " ASC") refl))

  first_page_safe : (limit : ℕ) → IsSafeGenerated (keyset_first_page_sql target key limit)
  unfolding keyset_first_page_sql is_bland is_whitespace
  first_page_safe limit = with_column_safe key _ (
      select_safe b'*' refl _ (
        lit (codes "SELECT * FROM ") refl
        ⊕ table target
        ⊕ lit (codes " ORDER BY ") refl
        ⊕ key-Inert
        ⊕ lit (codes " ASC LIMIT ") refl
        ⊕ Inert-decimal limit))

  column_safe : (limit : ℕ) → IsSafeGenerated (select_column_preview_sql target key limit)
  unfolding select_column_preview_sql quote_identifier is_bland is_whitespace
  column_safe limit = with_column_safe key _ (
      select_safe b'`' refl _ (
        lit (codes "SELECT ") refl
        ⊕ key-Inert
        ⊕ lit (codes " FROM ") refl
        ⊕ table target
        ⊕ lit (codes " LIMIT ") refl
        ⊕ Inert-decimal limit))

  filtered_safe : (limit : ℕ) → IsSafeGenerated (filtered_sorted_preview_sql target key limit)
  unfolding filtered_sorted_preview_sql is_bland is_whitespace
  filtered_safe limit =
      let like : Inert (codes " LIKE '%search%' ORDER BY ") =
        lit (codes " LIKE ") refl
        ⊕ (Inert-quoted b'\'' (codes "%search%") (inl refl) (omega arith)
            ⊕ lit (codes " ORDER BY ") refl) in
      with_column_safe key _ (
        select_safe b'*' refl _ (
          lit (codes "SELECT * FROM ") refl
          ⊕ table target
          ⊕ lit (codes " WHERE ") refl
          ⊕ key-Inert
          ⊕ like
          ⊕ key-Inert
          ⊕ lit (codes " ASC LIMIT ") refl
          ⊕ Inert-decimal limit))

  estimate_safe_at :
      (database : Option Text) (name : Text) → IsSafeGenerated (estimate database name)
  unfolding is_bland is_whitespace
  estimate_safe_at none name = tt
  estimate_safe_at (some database) name = select_safe b'T' refl _ (
      lit (codes "SELECT TABLE_ROWS AS estimated_rows FROM information_schema.TABLES ") refl
      ⊕ lit (codes "WHERE TABLE_SCHEMA = ") refl
      ⊕ quote_sql_string-Inert database
      ⊕ lit (codes " AND TABLE_NAME = ") refl
      ⊕ quote_sql_string-Inert name)

  -- The texts about a column and the estimate of the rows, where they are generated, have each
  -- exactly one statement, which begins with a reading keyword, whatever the names and the value of
  -- the key are.
  pub column_statements_safe :
      (boundary : Text) (direction : PaginationDirection) (limit : ℕ)
      → IsSafeGenerated (keyset_first_page_sql target key limit)
        × IsSafeGenerated (keyset_page_sql target key boundary direction limit)
        × IsSafeGenerated (select_column_preview_sql target key limit)
        × IsSafeGenerated (filtered_sorted_preview_sql target key limit)
        × IsSafeGenerated (count_estimate_sql target)
  unfolding count_estimate_sql
  column_statements_safe boundary direction limit = (
    first_page_safe limit,
    page_safe boundary direction limit,
    column_safe limit,
    filtered_safe limit,
    estimate_safe_at target.database target.table,
  )
