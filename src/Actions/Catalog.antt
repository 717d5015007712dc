-- ===== src/Actions/Catalog.antt =====
-- crates/core/src/actions_engine/catalog.rs: the actions, the views, the context that the screen
-- hands to the engine, and the registry.
use myr.Prelude.{
  ℕ, ◌≡◌, ◌↔◌, refl, sym, ap, ◌∙◌, Bool, true, false, Option, none, some, List, [], ◌∷◌, ◌==◌, find,
  Eq, ==_iff, if◌then◌else◌,
}
use myr.Prelude.Text.{Text, codes}

pub data ActionId : Type 0 where
  preview_table jump_to_related_table run_health_diagnostics previous_page : ActionId
  next_page describe_table show_indexes show_create_table : ActionId
  count_estimate run_current_query apply_limit200 explain_query : ActionId
  build_filter_sort_query insert_select_snippet insert_join_snippet cancel_running_query : ActionId
  export_csv export_json export_csv_gzip export_json_gzip : ActionId
  export_json_lines export_json_lines_gzip save_bookmark open_bookmark : ActionId
  copy_cell copy_row search_results focus_query_editor : ActionId

pub data AppView : Type 0 where
  connection_wizard schema_explorer results query_editor command_palette : AppView

pub record SchemaSelection : Type 0 where
  pub database : Option Text
  pub table : Option Text
  pub column : Option Text

pub record ActionContext : Type 0 where
  pub view : AppView
  pub selection : SchemaSelection
  pub query_text : Option Text
  pub query_running : Bool
  pub has_results : Bool
  pub has_related_tables : Bool
  pub has_saved_bookmarks : Bool
  pub pagination_enabled : Bool
  pub can_page_next : Bool
  pub can_page_previous : Bool

-- `ActionContext::default`
abbrev pub default_context : ActionContext
default_context = record {
  view = connection_wizard;
  selection = record { database = none; table = none; column = none };
  query_text = none;
  query_running = false;
  has_results = false;
  has_related_tables = false;
  has_saved_bookmarks = false;
  pagination_enabled = false;
  can_page_next = false;
  can_page_previous = false;
}

abbrev pub with_view : ActionContext → AppView → ActionContext
with_view c view = record c { view = view }

abbrev pub with_query : ActionContext → Text → ActionContext
with_query c query = record c { query_text = some query }

-- The place of a variant in its declaration, by which the derived `Eq` compares.
abbrev pub action_index : ActionId → ℕ
action_index preview_table = 0
action_index jump_to_related_table = 1
action_index run_health_diagnostics = 2
action_index previous_page = 3
action_index next_page = 4
action_index describe_table = 5
action_index show_indexes = 6
action_index show_create_table = 7
action_index count_estimate = 8
action_index run_current_query = 9
action_index apply_limit200 = 10
action_index explain_query = 11
action_index build_filter_sort_query = 12
action_index insert_select_snippet = 13
action_index insert_join_snippet = 14
action_index cancel_running_query = 15
action_index export_csv = 16
action_index export_json = 17
action_index export_csv_gzip = 18
action_index export_json_gzip = 19
action_index export_json_lines = 20
action_index export_json_lines_gzip = 21
action_index save_bookmark = 22
action_index open_bookmark = 23
action_index copy_cell = 24
action_index copy_row = 25
action_index search_results = 26
action_index focus_query_editor = 27

of_index : ℕ → ActionId
of_index n =
    if n == 0
    then preview_table
    else if n == 1
    then jump_to_related_table
    else if n == 2
    then run_health_diagnostics
    else if n == 3
    then previous_page
    else if n == 4
    then next_page
    else if n == 5
    then describe_table
    else if n == 6
    then show_indexes
    else if n == 7
    then show_create_table
    else if n == 8
    then count_estimate
    else if n == 9
    then run_current_query
    else if n == 10
    then apply_limit200
    else if n == 11
    then explain_query
    else if n == 12
    then build_filter_sort_query
    else if n == 13
    then insert_select_snippet
    else if n == 14
    then insert_join_snippet
    else if n == 15
    then cancel_running_query
    else if n == 16
    then export_csv
    else if n == 17
    then export_json
    else if n == 18
    then export_csv_gzip
    else if n == 19
    then export_json_gzip
    else if n == 20
    then export_json_lines
    else if n == 21
    then export_json_lines_gzip
    else if n == 22
    then save_bookmark
    else if n == 23
    then open_bookmark
    else if n == 24
    then copy_cell
    else if n == 25
    then copy_row
    else if n == 26
    then search_results
    else focus_query_editor

of_index-action_index : (a : ActionId) → of_index (action_index a) ≡ a
unfolding of_index
of_index-action_index preview_table = refl
of_index-action_index jump_to_related_table = refl
of_index-action_index run_health_diagnostics = refl
of_index-action_index previous_page = refl
of_index-action_index next_page = refl
of_index-action_index describe_table = refl
of_index-action_index show_indexes = refl
of_index-action_index show_create_table = refl
of_index-action_index count_estimate = refl
of_index-action_index run_current_query = refl
of_index-action_index apply_limit200 = refl
of_index-action_index explain_query = refl
of_index-action_index build_filter_sort_query = refl
of_index-action_index insert_select_snippet = refl
of_index-action_index insert_join_snippet = refl
of_index-action_index cancel_running_query = refl
of_index-action_index export_csv = refl
of_index-action_index export_json = refl
of_index-action_index export_csv_gzip = refl
of_index-action_index export_json_gzip = refl
of_index-action_index export_json_lines = refl
of_index-action_index export_json_lines_gzip = refl
of_index-action_index save_bookmark = refl
of_index-action_index open_bookmark = refl
of_index-action_index copy_cell = refl
of_index-action_index copy_row = refl
of_index-action_index search_results = refl
of_index-action_index focus_query_editor = refl

pub action_eq_iff : (a b : ActionId) → ((action_index a == action_index b) ≡ true) ↔ (a ≡ b)
action_eq_iff a b = (
  λ h. sym (of_index-action_index a) ∙ ap of_index ((==_iff _ _).0 h) ∙ of_index-action_index b,
  λ e. (==_iff _ _).1 (ap action_index e),
)

instance abbrev pub action_eq : Eq ActionId
action_eq = record { beq = λ a b. action_index a == action_index b; beq_iff = action_eq_iff }

abbrev pub view_index : AppView → ℕ
view_index connection_wizard = 0
view_index schema_explorer = 1
view_index results = 2
view_index query_editor = 3
view_index command_palette = 4

-- `==` on `AppView`
abbrev pub view_eq : AppView → AppView → Bool
view_eq a b = view_index a == view_index b

pub record ActionDefinition : Type 0 where
  pub id : ActionId
  pub title : Text
  pub description : Text

abbrev define : ActionId → Text → Text → ActionDefinition
define id title description = record { id = id; title = title; description = description }

-- `ACTIONS`, the registry's table
unfoldable pub actions : List ActionDefinition
actions =
    define preview_table (codes "Preview table") (codes "Run SELECT * with a safe preview LIMIT")
    ∷ define jump_to_related_table (codes "Jump to related table")
        (codes "Follow a foreign-key relationship to another table")
    ∷ define run_health_diagnostics (codes "Run health diagnostics")
        (codes "Run connection, schema, and query smoke checks")
    ∷ define previous_page (codes "Previous page")
        (codes "Load previous result page (keyset/offset)")
    ∷ define next_page (codes "Next page") (codes "Load next result page (keyset/offset)")
    ∷ define describe_table (codes "Describe table") (codes "Inspect table columns and metadata")
    ∷ define show_indexes (codes "Show indexes") (codes "Inspect table indexes")
    ∷ define show_create_table (codes "Show create table") (codes "Inspect CREATE TABLE DDL")
    ∷ define count_estimate (codes "Estimate row count")
        (codes "Read row estimate from information_schema")
    ∷ define run_current_query (codes "Run query") (codes "Execute the current editor query")
    ∷ define apply_limit200 (codes "Apply LIMIT 200")
        (codes "Suggest a preview limit for broad SELECTs")
    ∷ define explain_query (codes "Explain query")
        (codes "Run EXPLAIN preflight for the current query")
    ∷ define build_filter_sort_query (codes "Build filter/sort query")
        (codes "Generate server-side WHERE/ORDER BY query from selected schema target")
    ∷ define insert_select_snippet (codes "Insert SELECT snippet")
        (codes "Insert a SELECT skeleton snippet into the editor")
    ∷ define insert_join_snippet (codes "Insert JOIN snippet")
        (codes "Insert a JOIN skeleton snippet into the editor")
    ∷ define cancel_running_query (codes "Cancel query") (codes "Cancel active query execution")
    ∷ define export_csv (codes "Export CSV") (codes "Export current results to CSV")
    ∷ define export_json (codes "Export JSON") (codes "Export current results to JSON")
    ∷ define export_csv_gzip (codes "Export CSV (gzip)")
        (codes "Export current results to compressed CSV")
    ∷ define export_json_gzip (codes "Export JSON (gzip)")
        (codes "Export current results to compressed JSON")
    ∷ define export_json_lines (codes "Export JSONL")
        (codes "Export current results as newline-delimited JSON")
    ∷ define export_json_lines_gzip (codes "Export JSONL (gzip)")
        (codes "Export current results as compressed newline-delimited JSON")
    ∷ define save_bookmark (codes "Save bookmark")
        (codes "Save current schema target and query as a bookmark")
    ∷ define open_bookmark (codes "Open bookmark") (codes "Open the next saved bookmark")
    ∷ define copy_cell (codes "Copy cell") (codes "Copy selected cell value")
    ∷ define copy_row (codes "Copy row") (codes "Copy selected row values")
    ∷ define search_results (codes "Search results") (codes "Search within buffered results")
    ∷ define focus_query_editor (codes "Go to query editor") (codes "Switch to query editor view")
    ∷ []

-- `ActionRegistry::find`
unfoldable pub find_action : ActionId → Option ActionDefinition
find_action action_id = find (λ a. action_index a.id == action_index action_id) actions
