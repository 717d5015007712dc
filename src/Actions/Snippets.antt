-- ===== src/Actions/Snippets.antt =====
-- crates/core/src/actions_engine/snippets.rs and context.rs: the texts that are inserted into the
-- editor, and the selection as a target.
use myr.Prelude.{ℕ, Option, none, some, ◌∷◌, ◌++◌}
use myr.Prelude.Text.{Text, codes}
use myr.Prelude.Text.Decimal.{decimal}
use myr.SqlGenerator.{SqlTarget, Generated, ok, err, new_target, quote_identifier}
use myr.Actions.Catalog.{SchemaSelection}
use myr.Actions.Invocation.{
  missing_table_selection, missing_column_selection, missing_database_selection, sql_generation,
  Outcome,
}

abbrev pub preview_limit : ℕ
preview_limit = 200

unfoldable pub qualified_selection_reference : Option Text → Option Text → Text
qualified_selection_reference (some database) (some table) =
    quote_identifier database ++ b'.' ∷ quote_identifier table
qualified_selection_reference none (some table) = quote_identifier table
qualified_selection_reference _ none = codes "`table_name`"

unfoldable pub selected_or_default_column : Option Text → Text
selected_or_default_column none = codes "`id`"
selected_or_default_column (some column) = quote_identifier column

unfoldable pub select_snippet : SchemaSelection → Text
select_snippet selection =
    let table_ref = qualified_selection_reference selection.database selection.table in
    let column = selected_or_default_column selection.column in
    codes "SELECT *\nFROM "
    ++ table_ref
    ++ codes "\nWHERE "
    ++ column
    ++ codes " = 'value'\nORDER BY "
    ++ column
    ++ codes " DESC\nLIMIT "
    ++ decimal preview_limit
    ++ codes ";"

unfoldable pub join_snippet : SchemaSelection → Text
join_snippet selection =
    let left_table = qualified_selection_reference selection.database selection.table in
    codes "SELECT t1.*, t2.*\nFROM "
    ++ left_table
    ++ codes " AS t1\nJOIN `app`.`table_two` AS t2 ON t1.`id` = t2.`table_one_id`\nLIMIT "
    ++ decimal preview_limit
    ++ codes ";"

-- `map_err(ActionEngineError::from)`
abbrev pub from_generated : {A : Type 0} → Generated A → Outcome A
from_generated (ok a) = Outcome.ok a
from_generated (err e) = Outcome.err (sql_generation e)

unfoldable pub context_selected_target : Option Text → Option Text → Outcome SqlTarget
context_selected_target database none = Outcome.err missing_table_selection
context_selected_target none (some table) = Outcome.err missing_database_selection
context_selected_target (some database) (some table) =
    from_generated (new_target (some database) table)

unfoldable pub context_selected_column : Option Text → Outcome Text
context_selected_column none = Outcome.err missing_column_selection
context_selected_column (some column) = Outcome.ok column
