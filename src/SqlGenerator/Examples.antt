-- ===== src/SqlGenerator/Examples.antt =====
-- The theorems on the generated SQL at concrete names and values.
use myr.Prelude.{◌≡◌, ◌≢◌, none, some, [], ◌∷◌, ◌++◌, arith}
use myr.Prelude.Text.{Text, codes, replace}
use myr.SqlGenerator.{
  SqlTarget, previous, quote_identifier, quote_sql_string, preview_select_sql, offset_page_sql,
  describe_table_sql, show_create_table_sql, show_index_sql, keyset_first_page_sql, keyset_page_sql,
  select_column_preview_sql, filtered_sorted_preview_sql, count_estimate_sql,
}
use myr.SqlGenerator.Quoting.{
  read_quoted, read_escaped, read-quote_identifier, read-quote_sql_string, quote_sql_string_escapes,
}
use myr.SqlGenerator.Opening.{IsReadSql}
use myr.SqlGenerator.Safety.{IsSafeGenerated, table_statements_safe, column_statements_safe}

none≢some : {A : Type 0} {a : A} → none ≢ some a
none≢some h = cc

read-quote_identifier_example :
    (body : Text) × (quote_identifier (codes "a`b") ++ [] ≡ b'`' ∷ body)
    × (read_quoted b'`' body ≡ some (codes "a`b", []))
read-quote_identifier_example = read-quote_identifier (codes "a`b") [] none≢some

read-quote_sql_string_example :
    (body : Text) × (quote_sql_string (codes "it's") ++ [] ≡ b'\'' ∷ body)
    × (read_quoted b'\'' body ≡ some (codes "it's", []))
read-quote_sql_string_example = read-quote_sql_string (codes "it's") [] none≢some

quote_sql_string_escapes_example :
    (body : Text) × (quote_sql_string (b'\\' ∷ b'\'' ∷ codes " or 1") ≡ b'\'' ∷ body)
    × (read_escaped b'\'' body
        ≡ some (b'\'' ∷ [], b' ' ∷ (replace b'\'' (codes "''") (codes "or 1") ++ b'\'' ∷ [])))
quote_sql_string_escapes_example = quote_sql_string_escapes b' ' (codes "or 1") (omega arith)

abbrev users : SqlTarget
users = record { database = some (codes "app"); table = codes "us`er;s" }

table_statements_safe_example :
    IsReadSql (preview_select_sql users 200)
    × IsReadSql (offset_page_sql users 200 400)
    × IsReadSql (describe_table_sql users)
    × IsReadSql (show_create_table_sql users)
    × IsReadSql (show_index_sql users)
table_statements_safe_example = table_statements_safe users 200 400

column_statements_safe_example :
    IsSafeGenerated (keyset_first_page_sql users (codes "id") 50)
    × IsSafeGenerated (keyset_page_sql users (codes "id") (codes "'; --") previous 50)
    × IsSafeGenerated (select_column_preview_sql users (codes "id") 50)
    × IsSafeGenerated (filtered_sorted_preview_sql users (codes "id") 50)
    × IsSafeGenerated (count_estimate_sql users)
column_statements_safe_example =
    column_statements_safe users (codes "id") (codes "'; --") previous 50
