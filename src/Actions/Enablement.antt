-- ===== src/Actions/Enablement.antt =====
-- crates/core/src/actions_engine/enablement.rs: when an action may be invoked.
use myr.Prelude.{List, filter, Bool, not, ◌&&◌, ◌||◌, is_empty, is_some, is_some_and}
use myr.Prelude.Text.{trim}
use myr.Actions.Catalog.{
  ActionDefinition, actions, ActionId, schema_explorer, query_editor, ActionContext, view_eq,
  preview_table, jump_to_related_table, run_health_diagnostics, previous_page, next_page,
  describe_table, show_indexes, show_create_table, count_estimate, run_current_query,
  apply_limit200, explain_query, build_filter_sort_query, insert_select_snippet,
  insert_join_snippet, cancel_running_query, export_csv, export_json, export_csv_gzip,
  export_json_gzip, export_json_lines, export_json_lines_gzip, save_bookmark, open_bookmark,
  copy_cell, copy_row, search_results, focus_query_editor,
}
use myr.Actions.Suggestions.{suggest_preview_limit, suggest_explain_query}
use myr.Actions.Snippets.{preview_limit}

-- A query text that is not blank.
abbrev pub has_query : ActionContext → Bool
has_query c = is_some_and c.query_text (λ query. not (is_empty (trim query)))

abbrev pub has_limit : ActionContext → Bool
has_limit c =
    is_some_and c.query_text (λ query. is_some (suggest_preview_limit query preview_limit))

abbrev pub has_explain : ActionContext → Bool
has_explain c = is_some_and c.query_text (λ query. is_some (suggest_explain_query query))

abbrev pub has_target : ActionContext → Bool
has_target c = is_some c.selection.table && is_some c.selection.database

abbrev pub table_enabled : ActionContext → Bool
table_enabled c = view_eq c.view schema_explorer && has_target c && not c.query_running

unfoldable pub action_enabled : ActionId → ActionContext → Bool
action_enabled preview_table c = table_enabled c
action_enabled jump_to_related_table c = c.has_related_tables && has_target c && not c.query_running
action_enabled run_health_diagnostics c = not c.query_running
action_enabled previous_page c = c.pagination_enabled && c.can_page_previous && not c.query_running
action_enabled next_page c = c.pagination_enabled && c.can_page_next && not c.query_running
action_enabled describe_table c = table_enabled c
action_enabled show_indexes c = table_enabled c
action_enabled show_create_table c = table_enabled c
action_enabled count_estimate c = has_target c && not c.query_running
action_enabled run_current_query c = not c.query_running && has_query c
action_enabled apply_limit200 c = not c.query_running && has_limit c
action_enabled explain_query c = not c.query_running && has_explain c
action_enabled build_filter_sort_query c =
    not c.query_running && has_target c && is_some c.selection.column
action_enabled insert_select_snippet c = not c.query_running && view_eq c.view query_editor
action_enabled insert_join_snippet c = not c.query_running && view_eq c.view query_editor
action_enabled cancel_running_query c = c.query_running
action_enabled export_csv c = c.has_results
action_enabled export_json c = c.has_results
action_enabled export_csv_gzip c = c.has_results
action_enabled export_json_gzip c = c.has_results
action_enabled export_json_lines c = c.has_results
action_enabled export_json_lines_gzip c = c.has_results
action_enabled save_bookmark c = not c.query_running && (is_some c.selection.table || has_query c)
action_enabled open_bookmark c = not c.query_running && c.has_saved_bookmarks
action_enabled copy_cell c = c.has_results && is_some c.selection.column
action_enabled copy_row c = c.has_results
action_enabled search_results c = c.has_results
action_enabled focus_query_editor c = not (view_eq c.view query_editor)

-- `ActionRegistry::enabled_actions`
unfoldable pub enabled_actions : ActionContext → List ActionDefinition
enabled_actions c = filter (λ a. action_enabled a.id c) actions
