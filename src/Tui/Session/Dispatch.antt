-- ===== src/Tui/Session/Dispatch.antt =====
-- app_logic/query_actions/action_dispatch.rs (`apply_invocation`), pagination.rs and
-- query_execution.rs (`run_health_diagnostics`): the statement that an invocation has sent to the
-- server.
use myr.Prelude.{
  ℕ, refl, false, ◌≡◌, Option, none, some, List, ◌==◌, is_some, if_either, if◌then◌else◌,
  Bool-cases, inl, inr,
}
use myr.Prelude.Text.{Text, codes, is_whitespace}
use myr.SafeMode.Scan.Inert.{is_bland}
use myr.SqlGenerator.Opening.{IsReadSql, select_safe, lit}
use myr.Actions.Catalog.{ActionId, ActionContext, preview_table, action_eq}
use myr.Actions.Invocation.{
  ActionInvocation, Outcome, ok, err, run_health_diagnostics, paginate_previous, paginate_next,
}
use myr.Actions.Engine.{ActionsEngine, invoke}
use myr.Actions.Engine.Generated.{Answers, sends_query, invoke_safe}
use myr.Tui.Pagination.{
  PageTransition, reset, next, previous, PaginationState, PageSql, pagination_sql,
  build_preview_pagination_state,
}
use myr.Tui.Pagination.Statements.{IsSafePage, pagination_sql_safe}
use myr.Tui.Session.{TuiApp, execute_sql_with_guard}
use myr.Tui.Session.Input.{
  columns_or, clear_pagination_state, run_sql, show_page, preview_first, preview_page,
  start_preview_paged_query, turn_page, turn_active_page, run_pagination_transition,
}

unfoldable pub sent_page : PageSql → Option Text
sent_page (PageSql.ok sql) = some sql
sent_page (PageSql.err e) = none

-- `run_pagination_transition`
unfoldable pub sent_turn : Option PaginationState → PageTransition → Option Text
sent_turn none transition = none
sent_turn (some s) previous =
    if s.page_index == 0 then none else sent_page (pagination_sql s previous)
sent_turn (some s) next = sent_page (pagination_sql s next)
sent_turn (some s) reset = sent_page (pagination_sql s reset)

-- `start_preview_paged_query`
unfoldable pub sent_preview : Option PaginationState → Text → Option Text
sent_preview none fallback_sql = some fallback_sql
sent_preview (some s) fallback_sql = sent_page (pagination_sql s reset)

abbrev pub health_check_sql : Text
health_check_sql = codes "SELECT 1 AS health_check"

-- The other invocations hand no statement to a query worker.
unfoldable pub sent : TuiApp → List Text → ActionId → ActionInvocation → Option Text
sent a schema_columns action_id (ActionInvocation.run_sql sql) =
    if action_eq.beq action_id preview_table
    then sent_preview (build_preview_pagination_state a.selection schema_columns) sql
    else some sql
sent a schema_columns action_id paginate_previous = sent_turn a.pagination_state previous
sent a schema_columns action_id paginate_next = sent_turn a.pagination_state next
sent a schema_columns action_id run_health_diagnostics =
    if is_some a.data_backend then some health_check_sql else none
sent a schema_columns action_id _ = none

abbrev pub IsReadOption : Option Text → Type 0
IsReadOption none = Unit
IsReadOption (some sql) = IsReadSql sql

-- What an answer of the engine has sent, where it is not an error.
abbrev pub IsReadAnswer : TuiApp → List Text → ActionId → Outcome ActionInvocation → Type 0
IsReadAnswer a schema_columns action_id (err e) = Unit
IsReadAnswer a schema_columns action_id (ok i) = IsReadOption (sent a schema_columns action_id i)

page-IsRead : (sql : PageSql) → IsSafePage sql → IsReadOption (sent_page sql)
unfolding sent_page
page-IsRead (PageSql.ok sql) h = h
page-IsRead (PageSql.err e) h = tt

turn-IsRead :
    (s : Option PaginationState) (transition : PageTransition)
    → IsReadOption (sent_turn s transition)
unfolding sent_turn
turn-IsRead none transition = tt
turn-IsRead (some s) previous =
    if_either IsReadOption (s.page_index == 0) tt
      (page-IsRead (pagination_sql s previous) (pagination_sql_safe s previous))
turn-IsRead (some s) next = page-IsRead (pagination_sql s next) (pagination_sql_safe s next)
turn-IsRead (some s) reset = page-IsRead (pagination_sql s reset) (pagination_sql_safe s reset)

preview-IsRead :
    (s : Option PaginationState) (sql : Text) → IsReadSql sql → IsReadOption (sent_preview s sql)
unfolding sent_preview
preview-IsRead none sql h = h
preview-IsRead (some s) sql h = page-IsRead (pagination_sql s reset) (pagination_sql_safe s reset)

health_check_sql-IsRead : IsReadSql health_check_sql
unfolding is_bland is_whitespace
health_check_sql-IsRead =
    select_safe b'1' refl (codes " AS health_check") (lit health_check_sql refl)

answer-IsRead :
    (a : TuiApp) (schema_columns : List Text) (action_id : ActionId)
    (answer : Outcome ActionInvocation)
    → Answers IsReadSql answer
    → IsReadAnswer a schema_columns action_id answer
unfolding sent
answer-IsRead a schema_columns action_id (err e) h = tt
answer-IsRead a schema_columns action_id (ok (ActionInvocation.run_sql sql)) h =
    if_either IsReadOption (action_eq.beq action_id preview_table)
      (preview-IsRead (build_preview_pagination_state a.selection schema_columns) sql h) h
answer-IsRead a schema_columns action_id (ok run_health_diagnostics) h =
    if_either IsReadOption (is_some a.data_backend) health_check_sql-IsRead tt
answer-IsRead a schema_columns action_id (ok paginate_previous) h =
    turn-IsRead a.pagination_state previous
answer-IsRead a schema_columns action_id (ok paginate_next) h = turn-IsRead a.pagination_state next
answer-IsRead a schema_columns action_id (ok _) h = tt

-- For every action but running and explaining the query of the editor: what its invocation has sent
-- to the server, as a statement to run, as a page or as the check of the diagnostics, is nothing or
-- a text with exactly one statement, which begins with a reading keyword, whatever the application
-- has selected and whatever pages it shows.
pub invoke-IsReadAnswer :
    (e : ActionsEngine) (action_id : ActionId) (c : ActionContext) (a : TuiApp)
    (schema_columns : List Text)
    → sends_query action_id ≡ false
    → IsReadAnswer a schema_columns action_id (invoke e action_id c).1
invoke-IsReadAnswer e action_id c a schema_columns h =
    answer-IsRead a schema_columns action_id (invoke e action_id c).1 (invoke_safe e action_id c h)

-- Before a page is asked for.
abbrev paged : TuiApp → PageTransition → List Text → TuiApp
paged a transition schema_columns = record a {
  result_columns = columns_or schema_columns a.result_columns;
  pending_page_transition = some transition;
}

abbrev previewed : Option PaginationState → TuiApp → List Text → TuiApp
previewed none a schema_columns = clear_pagination_state a
previewed (some s) a schema_columns =
    paged (record a { pagination_state = some s }) reset schema_columns

module _ (hash : Text → ℕ) where
  -- The statement, where there is one, goes through the guard from the second state.
  abbrev handed : Option Text → TuiApp → TuiApp → TuiApp
  handed none a b = a
  handed (some sql) a b = execute_sql_with_guard hash b sql

  show_page-sent :
      (a : TuiApp) (transition : PageTransition) (schema_columns : List Text) (sql : PageSql)
      → show_page hash a transition schema_columns sql
        ≡ handed (sent_page sql) a (paged a transition schema_columns)
  unfolding show_page sent_page
  show_page-sent a transition schema_columns (PageSql.ok sql) = refl
  show_page-sent a transition schema_columns (PageSql.err e) = refl

  turn-sent :
      (s : Option PaginationState) (a : TuiApp) (transition : PageTransition)
      (schema_columns : List Text)
      → turn_active_page hash s a transition schema_columns
        ≡ handed (sent_turn s transition) a (paged a transition schema_columns)
  unfolding turn_active_page turn_page sent_turn
  turn-sent none a transition schema_columns = refl
  turn-sent (some s) a next schema_columns = show_page-sent a next schema_columns _
  turn-sent (some s) a reset schema_columns = show_page-sent a reset schema_columns _
  turn-sent (some s) a previous schema_columns = elim (Bool-cases (s.page_index == 0)) [
    | inl first ↦ rw first refl
    | inr later ↦ rw later (show_page-sent a previous schema_columns (pagination_sql s previous))
  ]

  preview-sent :
      (s : Option PaginationState) (a : TuiApp) (sql : Text) (schema_columns : List Text)
      → preview_page hash a sql schema_columns s
        ≡ handed (sent_preview s sql) (clear_pagination_state a) (previewed s a schema_columns)
  unfolding preview_page run_sql sent_preview preview_first show_page sent_page
  preview-sent none a sql schema_columns = refl
  preview-sent (some s) a sql schema_columns = first (pagination_sql s reset)
    where
      first :
          (page : PageSql)
          → preview_first hash a schema_columns s page
            ≡ handed
                (sent_page page)
                (clear_pagination_state a)
                (previewed (some s) a schema_columns)
      first (PageSql.ok sql) = refl
      first (PageSql.err e) = refl

  -- What is sent for a page is what the handlers of the pages give to the guard, and where nothing
  -- is sent they start nothing: turning a page leaves all as it was, and a preview forgets the
  -- pages.
  handlers-sent :
      (a : TuiApp) (transition : PageTransition) (sql : Text) (schema_columns : List Text)
      → (run_pagination_transition hash a transition schema_columns
          ≡ handed (sent_turn a.pagination_state transition) a (paged a transition schema_columns))
        × (start_preview_paged_query hash a sql schema_columns
            ≡ let s = build_preview_pagination_state a.selection schema_columns in
              handed (sent_preview s sql) (clear_pagination_state a) (previewed s a schema_columns))
  unfolding run_pagination_transition start_preview_paged_query
  handlers-sent a transition sql schema_columns = (
    turn-sent a.pagination_state a transition schema_columns,
    preview-sent _ a sql schema_columns,
  )
