-- ===== src/Tui/Pagination.antt =====
-- crates/tui/src/state/pagination.rs, app_logic/query_actions/pagination.rs and lib_helpers.rs
-- (`candidate_key_column`, `extract_key_bounds`): the pages of a table preview.
pub mod Statements
pub mod Offsets
pub mod Keyset
mod Examples
use myr.Prelude.{
  ℕ, zero, suc, ◌+◌, ◌-◌, Bool, true, false, ◌&&◌, Option, none, some, List, [], ◌∷◌, find,
  get_elem?, ltb, leb, is_some, if◌then◌else◌, and_then, or_else, saturating_add, saturating_sub,
  saturating_mul,
}
use myr.Prelude.Text.{Text, codes, eq_ignore_ascii_case, to_ascii_lowercase, ends_with}
use myr.SqlGenerator.{
  SqlGenerationError, PaginationDirection, Generated, SqlTarget, new_target, keyset_first_page_sql,
  keyset_page_sql, offset_page_sql,
}
use myr.ResultsBuffer.{ResultsRingBuffer, len, get}
use myr.QueryRunner.{QueryRow}
use myr.Actions.Catalog.{SchemaSelection}

pub data PageTransition : Type 0 where
  reset next previous : PageTransition

pub data PaginationPlan : Type 0 where
  keyset : Text → Option Text → Option Text → PaginationPlan
  offset : PaginationPlan

pub record PaginationState : Type 0 where
  pub database : Option Text
  pub table : Text
  pub page_size : ℕ
  pub page_index : ℕ
  pub last_page_row_count : ℕ
  pub plan : PaginationPlan

pub data PageError : Type 0 where
  generation : SqlGenerationError → PageError
  missing_next_boundary missing_previous_boundary : PageError

pub data PageSql : Type 0 where
  ok : Text → PageSql
  err : PageError → PageSql

abbrev pub generated : Generated Text → PageSql
generated (Generated.ok sql) = ok sql
generated (Generated.err e) = err (generation e)

-- `PREVIEW_PAGE_SIZE`
abbrev pub preview_page_size : ℕ
preview_page_size = 200

unfoldable pub candidate_key_column : List Text → Option Text
candidate_key_column columns =
    or_else (find (λ column. eq_ignore_ascii_case column (codes "id")) columns)
      (find (λ column. ends_with (to_ascii_lowercase column) (codes "_id")) columns)

unfoldable pub keyset_sql :
    SqlTarget → PaginationState → Text → Option Text → Option Text → PageTransition → PageSql
keyset_sql target s key_column first_key last_key reset =
    generated (keyset_first_page_sql target key_column s.page_size)
keyset_sql target s key_column first_key none next = err missing_next_boundary
keyset_sql target s key_column first_key (some boundary) next =
    generated (keyset_page_sql target key_column boundary PaginationDirection.next s.page_size)
keyset_sql target s key_column none last_key previous = err missing_previous_boundary
keyset_sql target s key_column (some boundary) last_key previous =
    generated (keyset_page_sql target key_column boundary PaginationDirection.previous s.page_size)

unfoldable pub next_index : ℕ → PageTransition → ℕ
next_index page_index reset = 0
next_index page_index next = saturating_add page_index 1
next_index page_index previous = saturating_sub page_index 1

unfoldable pub plan_sql : SqlTarget → PaginationState → PaginationPlan → PageTransition → PageSql
plan_sql target s (keyset key_column first_key last_key) transition =
    keyset_sql target s key_column first_key last_key transition
plan_sql target s offset transition = ok (
    offset_page_sql target s.page_size
      (saturating_mul (next_index s.page_index transition) s.page_size))

unfoldable pub target_sql : Generated SqlTarget → PaginationState → PageTransition → PageSql
target_sql (Generated.ok target) s transition = plan_sql target s s.plan transition
target_sql (Generated.err e) s transition = err (generation e)

unfoldable pub pagination_sql : PaginationState → PageTransition → PageSql
pagination_sql s transition = target_sql (new_target s.database s.table) s transition

unfoldable pub plan_for : Option Text → PaginationPlan
plan_for (some key_column) = keyset key_column none none
plan_for none = offset

unfoldable pub build_preview_pagination_state : SchemaSelection → List Text → Option PaginationState
build_preview_pagination_state selection schema_columns = and_then selection.table (λ table.
    some (record {
      database = selection.database;
      table = table;
      page_size = preview_page_size;
      page_index = 0;
      last_page_row_count = 0;
      plan = plan_for (candidate_key_column schema_columns);
    }))

unfoldable pub position : (Text → Bool) → List Text → Option ℕ
position p [] = none
position p (t ∷ ts) = if p t then some 0 else and_then (position p ts) (λ i. some (suc i))

abbrev pub value_at : ℕ → QueryRow → Option Text
value_at key_index row = get_elem? row.values key_index

unfoldable pub last_row : ResultsRingBuffer QueryRow → Option QueryRow
last_row results = if ltb 0 (len results) then get results (len results - 1) else none

-- The values of the first and the last row in a column, if there is one.
unfoldable pub bounds_at : Option ℕ → ResultsRingBuffer QueryRow → Option Text × Option Text
bounds_at none results = (none, none)
bounds_at (some key_index) results = (
  and_then (get results 0) (value_at key_index),
  and_then (last_row results) (value_at key_index),
)

unfoldable pub extract_key_bounds :
    ResultsRingBuffer QueryRow → List Text → Text → Option Text × Option Text
extract_key_bounds results columns key_column =
    bounds_at (position (λ column. eq_ignore_ascii_case column key_column) columns) results

-- What `finalize_pagination_after_query` makes of the page index and of the plan.
unfoldable pub index_after : PageTransition → ℕ → ℕ → ℕ
index_after reset row_count page_index = 0
index_after next row_count page_index =
    if ltb 0 row_count then saturating_add page_index 1 else page_index
index_after previous row_count page_index =
    if ltb 0 row_count then saturating_sub page_index 1 else page_index

unfoldable pub plan_after : PaginationPlan → ResultsRingBuffer QueryRow → List Text → PaginationPlan
plan_after offset results columns = offset
plan_after (keyset key_column first_key last_key) results columns =
    let bounds = extract_key_bounds results columns key_column in
    keyset key_column bounds.0 bounds.1

unfoldable pub state_after :
    PaginationState → PageTransition → ResultsRingBuffer QueryRow → List Text → PaginationState
state_after s transition results columns = record s {
  last_page_row_count = len results;
  page_index = index_after transition (len results) s.page_index;
  plan = plan_after s.plan results columns;
}

unfoldable pub finalize_pagination_after_query :
    Option PaginationState
    → Option PageTransition
    → ResultsRingBuffer QueryRow
    → List Text
    → Option PaginationState × Option PageTransition
finalize_pagination_after_query s none results columns = (s, none)
finalize_pagination_after_query none (some transition) results columns = (none, none)
finalize_pagination_after_query (some s) (some transition) results columns =
    (some (state_after s transition results columns), none)

-- Whether pages are there, and whether there may be a next and a previous one.
unfoldable pub pagination_capabilities : Option PaginationState → Bool → Bool × Bool × Bool
pagination_capabilities none has_results = (false, false, false)
pagination_capabilities (some s) has_results =
    (true, has_results && leb s.page_size s.last_page_row_count, ltb 0 s.page_index)
