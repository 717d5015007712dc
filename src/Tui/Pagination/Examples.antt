-- ===== src/Tui/Pagination/Examples.antt =====
-- The theorems on the pages with a table of five rows.
use myr.Prelude.{ℕ, ◌≡◌, refl, true, none, some, List, [], ◌∷◌, length, take, drop, ap, arith}
use myr.Prelude.Text.{Text, codes, trim, replace}
use myr.Prelude.Text.Decimal.{decimal, read, read-decimal}
use myr.SqlGenerator.{
  Generated, SqlTarget, new_target, offset_page_sql, quote_identifier, qualified_table_sql,
}
use myr.ResultsBuffer.{ResultsRingBuffer, new}
use myr.QueryRunner.{QueryRow}
use myr.Tui.Pagination.{
  PaginationState, keyset, next, previous, err, missing_next_boundary, missing_previous_boundary,
  pagination_sql, state_after, pagination_capabilities,
}
use myr.Tui.Pagination.Statements.{IsSafePage, pagination_sql_safe}
use myr.Tui.Pagination.Keyset.{emptied, pagination_sql-empty_page}
use myr.Tui.Pagination.Offsets.{all_pages, at_page, all_pages_lem}

abbrev users : SqlTarget
users = record { database = none; table = codes "users" }

users_valid : new_target none (codes "users") ≡ Generated.ok users
unfolding new_target trim
users_valid = refl

abbrev by_key : PaginationState
by_key = record {
  database = none;
  table = codes "users";
  page_size = 200;
  page_index = 1;
  last_page_row_count = 200;
  plan = keyset (codes "id") (some (codes "201")) (some (codes "400"));
}

pagination_sql_safe_example : IsSafePage (pagination_sql by_key next)
pagination_sql_safe_example = pagination_sql_safe by_key next

abbrev buffer : ResultsRingBuffer QueryRow
buffer = record { capacity = 2000; rows = []; total_rows_seen = 0 }

pagination_sql-empty_page_example :
    ((pagination_capabilities
        (some (state_after by_key next (emptied buffer) (codes "id" ∷ [])))
        true).2
      ≡ true)
    × (pagination_sql (state_after by_key next (emptied buffer) (codes "id" ∷ [])) previous
        ≡ err missing_previous_boundary)
    × (pagination_sql (state_after by_key next (emptied buffer) (codes "id" ∷ [])) next
        ≡ err missing_next_boundary)
pagination_sql-empty_page_example =
    pagination_sql-empty_page by_key users (codes "id") (some (codes "201")) (some (codes "400"))
      buffer (codes "id" ∷ []) true users_valid refl (omega arith)

abbrev row_of : Text → QueryRow
row_of value = record { values = value ∷ [] }

abbrev rows : List QueryRow
rows =
    row_of (codes "a")
    ∷ row_of (codes "b")
    ∷ row_of (codes "c")
    ∷ row_of (codes "d")
    ∷ row_of (codes "e")
    ∷ []

-- A server that reads the offset behind the beginning of the statement.
abbrev server : Text → List QueryRow
server sql =
    take 2 (drop (read 0 (drop (length (codes "SELECT * FROM `users` LIMIT 2 OFFSET ")) sql)) rows)

server_answers : (skip : ℕ) → server (offset_page_sql users 2 skip) ≡ take 2 (drop skip rows)
unfolding offset_page_sql qualified_table_sql quote_identifier replace decimal
server_answers skip = ap (λ n. take 2 (drop n rows)) (read-decimal skip)

buffer_made : new 2000 ≡ some buffer
unfolding new
buffer_made = refl

all_pages_lem_example :
    all_pages server (codes "name" ∷ []) buffer 5 (at_page none (codes "users") 2 0 0) ≡ rows
all_pages_lem_example =
    all_pages_lem none (codes "users") users 2 2000 5 server (codes "name" ∷ []) buffer rows
      users_valid server_answers buffer_made (omega arith) (omega arith) (omega arith) (omega arith)
