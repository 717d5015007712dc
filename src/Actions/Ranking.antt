-- ===== src/Actions/Ranking.antt =====
-- crates/core/src/actions_engine/ranking.rs: the score of an action before its recent use counts.
use myr.Prelude.{ℕ, not, ◌&&◌, ◌||◌, is_some, if◌then◌else◌}
use myr.Actions.Catalog.{
  ActionId, schema_explorer, results, query_editor, ActionContext, view_eq, preview_table,
  jump_to_related_table, run_health_diagnostics, previous_page, next_page, describe_table,
  show_indexes, show_create_table, count_estimate, run_current_query, apply_limit200, explain_query,
  build_filter_sort_query, insert_select_snippet, insert_join_snippet, cancel_running_query,
  export_csv, export_json, export_csv_gzip, export_json_gzip, export_json_lines,
  export_json_lines_gzip, save_bookmark, open_bookmark, copy_cell, copy_row, search_results,
  focus_query_editor,
}
use myr.Actions.Enablement.{has_query, has_limit, has_explain, has_target}

unfoldable pub action_base_score : ActionId → ActionContext → ℕ
action_base_score preview_table c =
    if view_eq c.view schema_explorer && is_some c.selection.table then 900 else 0
action_base_score jump_to_related_table c =
    if view_eq c.view schema_explorer && is_some c.selection.table && c.has_related_tables
    then 870
    else 0
action_base_score run_health_diagnostics c = if not c.query_running then 565 else 0
action_base_score previous_page c =
    if c.pagination_enabled && c.can_page_previous && view_eq c.view results then 840 else 0
action_base_score next_page c =
    if c.pagination_enabled && c.can_page_next && view_eq c.view results then 860 else 0
action_base_score describe_table c =
    if view_eq c.view schema_explorer && is_some c.selection.table then 820 else 0
action_base_score show_indexes c =
    if view_eq c.view schema_explorer && is_some c.selection.table then 790 else 0
action_base_score show_create_table c =
    if view_eq c.view schema_explorer && is_some c.selection.table then 760 else 0
action_base_score count_estimate c = if has_target c then 700 else 0
action_base_score run_current_query c = if has_query c then 850 else 0
action_base_score apply_limit200 c = if has_limit c then 950 else 0
action_base_score explain_query c = if has_explain c then 910 else 0
action_base_score build_filter_sort_query c =
    if has_target c && is_some c.selection.column then 880 else 0
action_base_score insert_select_snippet c = if view_eq c.view query_editor then 820 else 0
action_base_score insert_join_snippet c = if view_eq c.view query_editor then 780 else 0
action_base_score cancel_running_query c = if c.query_running then 1000 else 0
action_base_score export_csv c = if c.has_results then 640 else 0
action_base_score export_json c = if c.has_results then 638 else 0
action_base_score export_csv_gzip c = if c.has_results then 636 else 0
action_base_score export_json_gzip c = if c.has_results then 634 else 0
action_base_score export_json_lines c = if c.has_results then 632 else 0
action_base_score export_json_lines_gzip c = if c.has_results then 630 else 0
action_base_score save_bookmark c = if is_some c.selection.table || has_query c then 620 else 0
action_base_score open_bookmark c = if c.has_saved_bookmarks then 610 else 0
action_base_score copy_cell c = if c.has_results then 600 else 0
action_base_score copy_row c = if c.has_results then 600 else 0
action_base_score search_results c = if c.has_results then 580 else 0
action_base_score focus_query_editor c = if not (view_eq c.view query_editor) then 500 else 0
