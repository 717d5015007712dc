-- ===== src/Actions/Engine.antt =====
-- crates/core/src/actions_engine/engine.rs: ranking with recent use, and the invocation of an
-- action.
pub mod Order
pub mod Rank
pub mod Invoke
pub mod Generated
use Prim.Native.Nat.{min}
use myr.Prelude.{
  ℕ, ◌-◌, ◌^◌, ◌+◌, Bool, true, false, not, ◌&&◌, ◌||◌, Option, none, some, List, [], map, ltb,
  ◌==◌, filter, take, is_empty, saturating_add, saturating_sub, if◌then◌else◌,
}
use myr.Prelude.Assoc.{Assoc, get, insert}
use myr.Prelude.Sort.{sort_by}
use myr.Prelude.Text.{Text, trim, text_lt}
use myr.SqlGenerator.{
  SqlTarget, preview_select_sql, describe_table_sql, show_index_sql, show_create_table_sql,
  count_estimate_sql, filtered_sorted_preview_sql,
}
use myr.Actions.Catalog.{
  ActionId, query_editor, ActionContext, ActionDefinition, actions, action_eq, preview_table,
  jump_to_related_table, run_health_diagnostics, previous_page, next_page, describe_table,
  show_indexes, show_create_table, count_estimate, run_current_query, apply_limit200, explain_query,
  build_filter_sort_query, insert_select_snippet, insert_join_snippet, cancel_running_query,
  export_csv, export_json, export_csv_gzip, export_json_gzip, export_json_lines,
  export_json_lines_gzip, save_bookmark, open_bookmark, copy_cell, copy_row, search_results,
  focus_query_editor,
}
use myr.Actions.Invocation.{
  RankedAction, csv, json, csv_gzip, json_gzip, json_lines, json_lines_gzip, cell, row,
  ActionInvocation, run_sql, paginate_previous, paginate_next, replace_query_editor_text,
  insert_query_editor_text, cancel_query, export_results, copy_to_clipboard, open_view,
  search_buffered_results, ActionEngineError, action_disabled, missing_query_text,
  no_limit_suggestion, no_explain_suggestion, Outcome, ok, err, ok_or, ◌>>=◌,
}
use myr.Actions.Suggestions.{suggest_preview_limit, suggest_explain_query}
use myr.Actions.Snippets.{
  preview_limit, select_snippet, join_snippet, context_selected_target, context_selected_column,
  from_generated,
}
use myr.Actions.Enablement.{action_enabled}
use myr.Actions.Ranking.{action_base_score}

abbrev pub max_recency_boost : ℕ
max_recency_boost = 25

pub record ActionsEngine : Type 0 where
  pub recency_tick : ℕ
  pub recency : Assoc ActionId ℕ

abbrev pub new : ActionsEngine
new = record { recency_tick = 0; recency = [] }

-- `i32::try_from(age).unwrap_or(i32::MAX)`, and the difference, which is 0 where `max(0)` makes it.
abbrev pub boost : ℕ → Option ℕ → ℕ
boost tick none = 0
boost tick (some last_used_tick) =
    max_recency_boost - min (saturating_sub tick last_used_tick) (2 ^ 31 - 1)

unfoldable pub recency_boost : ActionsEngine → ActionId → ℕ
recency_boost e action_id = boost e.recency_tick (get e.recency action_id)

unfoldable pub record_use : ActionsEngine → ActionId → ActionsEngine
record_use e action_id =
    let tick = saturating_add e.recency_tick 1 in
    record { recency_tick = tick; recency = insert e.recency action_id tick }

unfoldable pub ranked : ActionsEngine → ActionContext → ActionDefinition → RankedAction
ranked e c action = record {
  id = action.id;
  title = action.title;
  score = action_base_score action.id c + recency_boost e action.id;
}

-- `right.score.cmp(&left.score).then_with(|| left.title.cmp(right.title))` is `Less`.
unfoldable pub ranks_before : RankedAction → RankedAction → Bool
ranks_before left right =
    ltb right.score left.score || (right.score == left.score && text_lt left.title right.title)

unfoldable pub rank_all : ActionsEngine → ActionContext → List RankedAction
rank_all e c = map (ranked e c) (filter (λ a. action_enabled a.id c) actions)

unfoldable pub rank_top_n : ActionsEngine → ActionContext → ℕ → List RankedAction
unfolding rank_all
rank_top_n e c limit = take limit (sort_by ranks_before (rank_all e c))

abbrev pub selected_target : ActionContext → Outcome SqlTarget
selected_target c = context_selected_target c.selection.database c.selection.table

-- The trimmed text, if it is not empty.
abbrev pub non_blank : Option Text → Option Text
non_blank none = none
non_blank (some query) = if not (is_empty (trim query)) then some (trim query) else none

-- The `match` of `invoke`.
unfoldable pub invocation : ActionId → ActionContext → Outcome ActionInvocation
invocation preview_table c = do
  target ← selected_target c
  ok (run_sql (preview_select_sql target preview_limit))
invocation jump_to_related_table c = ok ActionInvocation.jump_to_related_table
invocation run_health_diagnostics c = ok ActionInvocation.run_health_diagnostics
invocation previous_page c = ok paginate_previous
invocation next_page c = ok paginate_next
invocation describe_table c = do
  target ← selected_target c
  ok (run_sql (describe_table_sql target))
invocation show_indexes c = do target ← selected_target c; ok (run_sql (show_index_sql target))
invocation show_create_table c = do
  target ← selected_target c
  ok (run_sql (show_create_table_sql target))
invocation count_estimate c = do
  target ← selected_target c
  sql ← from_generated (count_estimate_sql target)
  ok (run_sql sql)
invocation run_current_query c = do
  query ← ok_or (non_blank c.query_text) missing_query_text
  ok (run_sql query)
invocation apply_limit200 c = do
  query ← ok_or c.query_text missing_query_text
  suggested ← ok_or (suggest_preview_limit query preview_limit) no_limit_suggestion
  ok (replace_query_editor_text suggested)
invocation explain_query c = do
  query ← ok_or c.query_text missing_query_text
  explain ← ok_or (suggest_explain_query query) no_explain_suggestion
  ok (run_sql explain)
invocation build_filter_sort_query c = do
  target ← selected_target c
  column ← context_selected_column c.selection.column
  sql ← from_generated (filtered_sorted_preview_sql target column preview_limit)
  ok (replace_query_editor_text sql)
invocation insert_select_snippet c = ok (insert_query_editor_text (select_snippet c.selection))
invocation insert_join_snippet c = ok (insert_query_editor_text (join_snippet c.selection))
invocation cancel_running_query c = ok cancel_query
invocation export_csv c = ok (export_results csv)
invocation export_json c = ok (export_results json)
invocation export_csv_gzip c = ok (export_results csv_gzip)
invocation export_json_gzip c = ok (export_results json_gzip)
invocation export_json_lines c = ok (export_results json_lines)
invocation export_json_lines_gzip c = ok (export_results json_lines_gzip)
invocation save_bookmark c = ok ActionInvocation.save_bookmark
invocation open_bookmark c = ok ActionInvocation.open_bookmark
invocation copy_cell c = ok (copy_to_clipboard cell)
invocation copy_row c = ok (copy_to_clipboard row)
invocation search_results c = ok search_buffered_results
invocation focus_query_editor c = ok (open_view query_editor)

-- An error leaves the recent use as it was.
abbrev pub recorded :
    ActionsEngine → ActionId → Outcome ActionInvocation → ActionsEngine × Outcome ActionInvocation
recorded e action_id (ok invoked) = (record_use e action_id, ok invoked)
recorded e action_id (err error) = (e, err error)

unfoldable pub invoke :
    ActionsEngine → ActionId → ActionContext → ActionsEngine × Outcome ActionInvocation
unfolding invocation
invoke e action_id c =
    if not (action_enabled action_id c)
    then (e, err (action_disabled action_id))
    else recorded e action_id (invocation action_id c)
