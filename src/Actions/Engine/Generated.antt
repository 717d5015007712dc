-- ===== src/Actions/Engine/Generated.antt =====
-- crates/core/src/actions_engine/engine.rs: the statements that an action answers with,
-- and what a running query disables.
use myr.Prelude.{[], ◌≡◌, refl, Bool, true, false, Option, none, some, arith, Bool-cases, inl, inr}
use myr.Prelude.Text.{Text}
use myr.SqlGenerator.{SqlTarget, count_estimate_sql, filtered_sorted_preview_sql, Generated, next}
use myr.SqlGenerator.Opening.{IsReadSql}
use myr.SqlGenerator.Safety.{IsSafeGenerated, table_statements_safe, column_statements_safe}
use myr.Actions.Catalog.{
  ActionId, ActionContext, preview_table, jump_to_related_table, run_health_diagnostics,
  previous_page, next_page, describe_table, show_indexes, show_create_table, count_estimate,
  run_current_query, apply_limit200, explain_query, build_filter_sort_query, insert_select_snippet,
  insert_join_snippet, cancel_running_query, export_csv, export_json, export_csv_gzip,
  export_json_gzip, export_json_lines, export_json_lines_gzip, save_bookmark, open_bookmark,
  copy_cell, copy_row, search_results, focus_query_editor,
}
use myr.Actions.Invocation.{
  ActionInvocation, ActionEngineError, action_disabled, replace_query_editor_text, run_sql, Outcome,
  ok, err, ok_or, ◌>>=◌,
}
use myr.Actions.Snippets.{preview_limit, context_selected_column, from_generated}
use myr.Actions.Enablement.{action_enabled}
use myr.Actions.Engine.{ActionsEngine, invocation, invoke, recorded, selected_target}

-- Whether the statement to run, where the invocation is one, has the property.
abbrev pub Sends : (Text → Type 0) → ActionInvocation → Type 0
Sends P (run_sql sql) = P sql
Sends P _ = Unit

abbrev pub Answers : (Text → Type 0) → Outcome ActionInvocation → Type 0
Answers P (err e) = Unit
Answers P (ok i) = Sends P i

-- The text that the user wrote in the editor reaches the server by these two actions only.
abbrev pub sends_query : ActionId → Bool
sends_query run_current_query = true
sends_query explain_query = true
sends_query _ = false

with_target :
    (P : Text → Type 0) (r : Outcome SqlTarget) (f : SqlTarget → Outcome ActionInvocation)
    → ((t : SqlTarget) → Answers P (f t))
    → Answers P (r >>= f)
with_target P (err e) f h = tt
with_target P (ok t) f h = h t

estimated :
    (g : Generated Text)
    → IsSafeGenerated g
    → Answers IsReadSql (from_generated g >>= (λ sql. ok (run_sql sql)))
estimated (Generated.err e) h = tt
estimated (Generated.ok sql) h = h

edits :
    (q : Option Text) (f : Text → Option Text) (e k : ActionEngineError)
    → Answers IsReadSql
        (ok_or q e >>= (λ query. ok_or (f query) k >>= (λ s. ok (replace_query_editor_text s))))
edits none f e k = tt
edits (some q) f e k = edit (f q)
  where
    edit :
        (o : Option Text)
        → Answers IsReadSql (ok_or o k >>= (λ s. ok (replace_query_editor_text s)))
    edit none = tt
    edit (some s) = tt

filled :
    (g : Generated Text)
    → Answers IsReadSql (from_generated g >>= (λ sql. ok (replace_query_editor_text sql)))
filled (Generated.err e) = tt
filled (Generated.ok sql) = tt

filtered :
    (t : SqlTarget) (column : Option Text)
    → Answers IsReadSql (
        context_selected_column column >>= (λ name.
          from_generated (filtered_sorted_preview_sql t name preview_limit)
          >>= (λ sql. ok (replace_query_editor_text sql))))
unfolding context_selected_column
filtered t none = tt
filtered t (some name) = filled (filtered_sorted_preview_sql t name preview_limit)

invocation_safe :
    (a : ActionId) (c : ActionContext) → sends_query a ≡ false → Answers IsReadSql (invocation a c)
unfolding invocation
invocation_safe preview_table c h =
    with_target IsReadSql (selected_target c) _ (λ t. (table_statements_safe t preview_limit 0).0)
invocation_safe jump_to_related_table c h = tt
invocation_safe run_health_diagnostics c h = tt
invocation_safe previous_page c h = tt
invocation_safe next_page c h = tt
invocation_safe describe_table c h =
    with_target IsReadSql (selected_target c) _ (λ t. (table_statements_safe t 0 0).2)
invocation_safe show_indexes c h =
    with_target IsReadSql (selected_target c) _ (λ t. (table_statements_safe t 0 0).4)
invocation_safe show_create_table c h =
    with_target IsReadSql (selected_target c) _ (λ t. (table_statements_safe t 0 0).3)
invocation_safe count_estimate c h =
    with_target IsReadSql (selected_target c) _
      (λ t. estimated (count_estimate_sql t) (column_statements_safe t [] [] next 0).4)
invocation_safe run_current_query c h = absurd (ground arith)
invocation_safe apply_limit200 c h = edits c.query_text _ _ _
invocation_safe explain_query c h = absurd (ground arith)
invocation_safe build_filter_sort_query c h =
    with_target IsReadSql (selected_target c) _ (λ t. filtered t c.selection.column)
invocation_safe insert_select_snippet c h = tt
invocation_safe insert_join_snippet c h = tt
invocation_safe cancel_running_query c h = tt
invocation_safe export_csv c h = tt
invocation_safe export_json c h = tt
invocation_safe export_csv_gzip c h = tt
invocation_safe export_json_gzip c h = tt
invocation_safe export_json_lines c h = tt
invocation_safe export_json_lines_gzip c h = tt
invocation_safe save_bookmark c h = tt
invocation_safe open_bookmark c h = tt
invocation_safe copy_cell c h = tt
invocation_safe copy_row c h = tt
invocation_safe search_results c h = tt
invocation_safe focus_query_editor c h = tt

recorded-Answers :
    (P : Text → Type 0) (e : ActionsEngine) (a : ActionId) (r : Outcome ActionInvocation)
    → Answers P r
    → Answers P (recorded e a r).1
recorded-Answers P e a (err error) h = tt
recorded-Answers P e a (ok i) h = h

-- Every action but the two that send the editor's text answers, where it answers with a statement to
-- run, one that begins with a reading keyword, whatever names are selected.
pub invoke_safe :
    (e : ActionsEngine) (a : ActionId) (c : ActionContext)
    → sends_query a ≡ false
    → Answers IsReadSql (invoke e a c).1
unfolding invoke
invoke_safe e a c h = elim (Bool-cases (action_enabled a c)) [
  | inl t ↦ rw t (recorded-Answers IsReadSql e a (invocation a c) (invocation_safe a c h))
  | inr f ↦ rw f tt
]

-- The actions that stay possible while a query runs: cancelling it, taking out, copying or searching
-- the rows that there are, and going to the editor.
abbrev pub works_while_running : ActionId → Bool
works_while_running cancel_running_query = true
works_while_running export_csv = true
works_while_running export_json = true
works_while_running export_csv_gzip = true
works_while_running export_json_gzip = true
works_while_running export_json_lines = true
works_while_running export_json_lines_gzip = true
works_while_running copy_cell = true
works_while_running copy_row = true
works_while_running search_results = true
works_while_running focus_query_editor = true
works_while_running _ = false

running_disabled :
    (a : ActionId) (c : ActionContext)
    → c.query_running ≡ true
    → works_while_running a ≡ false
    → action_enabled a c ≡ false
unfolding action_enabled
running_disabled preview_table c h k = ground arith
running_disabled jump_to_related_table c h k = ground arith
running_disabled run_health_diagnostics c h k = ground arith
running_disabled previous_page c h k = ground arith
running_disabled next_page c h k = ground arith
running_disabled describe_table c h k = ground arith
running_disabled show_indexes c h k = ground arith
running_disabled show_create_table c h k = ground arith
running_disabled count_estimate c h k = ground arith
running_disabled run_current_query c h k = ground arith
running_disabled apply_limit200 c h k = ground arith
running_disabled explain_query c h k = ground arith
running_disabled build_filter_sort_query c h k = ground arith
running_disabled insert_select_snippet c h k = ground arith
running_disabled insert_join_snippet c h k = ground arith
running_disabled cancel_running_query c h k = absurd (ground arith)
running_disabled export_csv c h k = absurd (ground arith)
running_disabled export_json c h k = absurd (ground arith)
running_disabled export_csv_gzip c h k = absurd (ground arith)
running_disabled export_json_gzip c h k = absurd (ground arith)
running_disabled export_json_lines c h k = absurd (ground arith)
running_disabled export_json_lines_gzip c h k = absurd (ground arith)
running_disabled save_bookmark c h k = ground arith
running_disabled open_bookmark c h k = ground arith
running_disabled copy_cell c h k = absurd (ground arith)
running_disabled copy_row c h k = absurd (ground arith)
running_disabled search_results c h k = absurd (ground arith)
running_disabled focus_query_editor c h k = absurd (ground arith)

-- While a query runs, every action is refused and leaves the engine as it was, but for cancelling,
-- the six exports, the two copies, the search of the results and going to the query editor.
pub invoke_running :
    (e : ActionsEngine) (a : ActionId) (c : ActionContext)
    → c.query_running ≡ true
    → works_while_running a ≡ false
    → invoke e a c ≡ (e, err (action_disabled a))
unfolding invoke
invoke_running e a c h k = rw (running_disabled a c h k) refl
