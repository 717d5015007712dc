-- ===== src/Tui/Pagination/Statements.antt =====
-- The statements of the pages.
use myr.Prelude.{Option, none, some, []}
use myr.Prelude.Text.{Text}
use myr.SqlGenerator.{
  PaginationDirection, Generated, SqlTarget, new_target, keyset_first_page_sql, keyset_page_sql,
}
use myr.SqlGenerator.Opening.{IsReadSql}
use myr.SqlGenerator.Safety.{IsSafeGenerated, table_statements_safe, column_statements_safe}
use myr.Tui.Pagination.{
  PageTransition, reset, next, previous, PaginationPlan, keyset, offset, PaginationState, PageSql,
  ok, err, generated, keyset_sql, plan_sql, target_sql, pagination_sql,
}

-- The text of a page, where there is one, is one reading statement.
abbrev pub IsSafePage : PageSql → Type 0
IsSafePage (ok sql) = IsReadSql sql
IsSafePage (err e) = Unit

generated_safe : (g : Generated Text) → IsSafeGenerated g → IsSafePage (generated g)
generated_safe (Generated.ok sql) h = h
generated_safe (Generated.err e) h = tt

module _ (target : SqlTarget) (s : PaginationState) where
  keyset_safe :
      (key : Text) (first last : Option Text) (transition : PageTransition)
      → IsSafePage (keyset_sql target s key first last transition)
  unfolding keyset_sql
  keyset_safe key first last reset =
      generated_safe (keyset_first_page_sql target key s.page_size)
        (column_statements_safe target key [] PaginationDirection.next s.page_size).0
  keyset_safe key first none next = tt
  keyset_safe key first (some boundary) next =
      generated_safe (keyset_page_sql target key boundary PaginationDirection.next s.page_size)
        (column_statements_safe target key boundary PaginationDirection.next s.page_size).1
  keyset_safe key none last previous = tt
  keyset_safe key (some boundary) last previous =
      generated_safe (keyset_page_sql target key boundary PaginationDirection.previous s.page_size)
        (column_statements_safe target key boundary PaginationDirection.previous s.page_size).1

  plan_safe :
      (plan : PaginationPlan) (transition : PageTransition)
      → IsSafePage (plan_sql target s plan transition)
  unfolding plan_sql
  plan_safe (keyset key first last) transition = keyset_safe key first last transition
  plan_safe offset transition = (table_statements_safe target s.page_size _).1

target_safe :
    (target : Generated SqlTarget) (s : PaginationState) (transition : PageTransition)
    → IsSafePage (target_sql target s transition)
unfolding target_sql
target_safe (Generated.ok target) s transition = plan_safe target s s.plan transition
target_safe (Generated.err e) s transition = tt

-- Whatever the state of the pages is, names and key values included, the text of a page, where there
-- is one, has exactly one statement, which begins with a reading keyword.
pub pagination_sql_safe :
    (s : PaginationState) (transition : PageTransition) → IsSafePage (pagination_sql s transition)
unfolding pagination_sql
pagination_sql_safe s transition = target_safe (new_target s.database s.table) s transition
