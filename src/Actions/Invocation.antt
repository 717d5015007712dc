-- ===== src/Actions/Invocation.antt =====
-- crates/core/src/actions_engine/invocation.rs: what an action asks the screen to do, and why it
-- may be refused.
use myr.Prelude.{ℕ, Option, none, some}
use myr.Prelude.Text.{Text}
use myr.SqlGenerator.{SqlGenerationError}
use myr.Actions.Catalog.{ActionId, AppView}

pub record RankedAction : Type 0 where
  pub id : ActionId
  pub title : Text
  pub score : ℕ

pub data ExportFormat : Type 0 where
  csv json csv_gzip json_gzip json_lines json_lines_gzip : ExportFormat

pub data CopyTarget : Type 0 where
  cell row : CopyTarget

pub data ActionInvocation : Type 0 where
  run_sql : Text → ActionInvocation
  run_health_diagnostics paginate_previous paginate_next : ActionInvocation
  replace_query_editor_text insert_query_editor_text : Text → ActionInvocation
  cancel_query : ActionInvocation
  export_results : ExportFormat → ActionInvocation
  copy_to_clipboard : CopyTarget → ActionInvocation
  save_bookmark open_bookmark jump_to_related_table : ActionInvocation
  open_view : AppView → ActionInvocation
  search_buffered_results : ActionInvocation

pub data ActionEngineError : Type 0 where
  action_disabled : ActionId → ActionEngineError
  missing_table_selection missing_column_selection missing_database_selection : ActionEngineError
  missing_query_text no_limit_suggestion no_explain_suggestion : ActionEngineError
  sql_generation : SqlGenerationError → ActionEngineError

pub data Outcome (A : Type 0) : Type 0 where
  ok : A → Outcome A
  err : ActionEngineError → Outcome A

-- `?`
infixl 5 ◌>>=◌
abbrev pub ◌>>=◌ : {A B : Type 0} → Outcome A → (A → Outcome B) → Outcome B
ok a >>= f = f a
err e >>= f = err e

-- `ok_or`
abbrev pub ok_or : {A : Type 0} → Option A → ActionEngineError → Outcome A
ok_or none e = err e
ok_or (some a) e = ok a
