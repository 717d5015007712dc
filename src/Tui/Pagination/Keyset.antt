-- ===== src/Tui/Pagination/Keyset.antt =====
-- Paging by the values of a key column.
use myr.Prelude.{ℕ, ◌<◌, ◌≡◌, refl, Bool, true, Option, none, some, List, [], arith}
use myr.Prelude.Text.{Text, eq_ignore_ascii_case}
use myr.SqlGenerator.{Generated, SqlTarget, new_target}
use myr.ResultsBuffer.{ResultsRingBuffer, len, get}
use myr.QueryRunner.{QueryRow}
use myr.Tui.Pagination.{
  next, previous, keyset, PaginationState, err, missing_next_boundary, missing_previous_boundary,
  keyset_sql, plan_sql, target_sql, pagination_sql, position, last_row, bounds_at,
  extract_key_bounds, index_after, plan_after, state_after, pagination_capabilities,
}

abbrev pub emptied : ResultsRingBuffer QueryRow → ResultsRingBuffer QueryRow
emptied b = record b { rows = [] }

bounds_at-emptied :
    (key_index : Option ℕ) (b : ResultsRingBuffer QueryRow)
    → bounds_at key_index (emptied b) ≡ (none, none)
unfolding bounds_at last_row get len
bounds_at-emptied none b = refl
bounds_at-emptied (some i) b = refl

bounds-emptied :
    (b : ResultsRingBuffer QueryRow) (columns : List Text) (key : Text)
    → extract_key_bounds (emptied b) columns key ≡ (none, none)
unfolding extract_key_bounds
bounds-emptied b columns key =
    bounds_at-emptied (position (λ column. eq_ignore_ascii_case column key) columns) b

-- From a keyset page that is not the first one, for a table whose names are not blank: after a next
-- page without rows a previous page is still offered, and asking for it fails, since the boundary
-- is gone. So does asking for the next one.
pub pagination_sql-empty_page :
    (s : PaginationState) (target : SqlTarget) (key : Text) (first last : Option Text)
    (b : ResultsRingBuffer QueryRow) (columns : List Text) (has_results : Bool)
    → new_target s.database s.table ≡ Generated.ok target
    → s.plan ≡ keyset key first last
    → 0 < s.page_index
    → ((pagination_capabilities (some (state_after s next (emptied b) columns)) has_results).2
        ≡ true)
      × (pagination_sql (state_after s next (emptied b) columns) previous
          ≡ err missing_previous_boundary)
      × (pagination_sql (state_after s next (emptied b) columns) next ≡ err missing_next_boundary)
unfolding pagination_capabilities pagination_sql target_sql plan_sql keyset_sql state_after
    plan_after index_after len
pagination_sql-empty_page s target key first last b columns has_results valid plan later = (
  ground arith,
  rw (valid, plan, bounds-emptied b columns key) refl,
  rw (valid, plan, bounds-emptied b columns key) refl,
)
