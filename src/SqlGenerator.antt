-- ===== src/SqlGenerator.antt =====
-- crates/core/src/sql_generator.rs: the SQL texts that the program builds from names and values.
pub mod Numeric
pub mod Quoting
pub mod Literal
pub mod Opening
pub mod Safety
mod Examples
use myr.Prelude.{
  ℕ, ◌≡◌, refl, Bool, true, false, ◌||◌, Option, none, some, List, [], ◌∷◌, ◌++◌, is_empty,
  if◌then◌else◌,
}
use myr.Prelude.Text.{Text, codes, trim, replace}
use myr.Prelude.Text.Decimal.{decimal}
use Numeric.{parses_i128, parses_u128, parses_f64}

pub data SqlGenerationError : Type 0 where
  empty_database_name empty_table_name empty_column_name : SqlGenerationError
  missing_database_for_estimate : SqlGenerationError

pub data PaginationDirection : Type 0 where
  next previous : PaginationDirection

pub data Generated (A : Type 0) : Type 0 where
  ok : A → Generated A
  err : SqlGenerationError → Generated A

pub record SqlTarget : Type 0 where
  pub database : Option Text
  pub table : Text

-- `SqlTarget::new`
unfoldable pub new_target : Option Text → Text → Generated SqlTarget
new_target none table =
    if is_empty (trim table)
    then err empty_table_name
    else ok (record { database = none; table = table })
new_target (some database) table =
    if is_empty (trim table)
    then err empty_table_name
    else if is_empty (trim database)
    then err empty_database_name
    else ok (record { database = some database; table = table })

unfoldable pub quote_identifier : Text → Text
unfolding replace
quote_identifier identifier = b'`' ∷ (replace b'`' (codes "``") identifier ++ b'`' ∷ [])

unfoldable pub quote_sql_string : Text → Text
unfolding replace
quote_sql_string value = b'\'' ∷ (replace b'\'' (codes "''") value ++ b'\'' ∷ [])

unfoldable pub quote_sql_literal : Text → Text
quote_sql_literal value =
    let trimmed = trim value in
    if parses_i128 trimmed || parses_u128 trimmed || parses_f64 trimmed
    then trimmed
    else quote_sql_string trimmed

abbrev pub qualified : Option Text → Text → Text
qualified (some database) table = quote_identifier database ++ b'.' ∷ quote_identifier table
qualified none table = quote_identifier table

unfoldable pub qualified_table_sql : SqlTarget → Text
qualified_table_sql target = qualified target.database target.table

unfoldable pub preview_select_sql : SqlTarget → ℕ → Text
preview_select_sql target limit =
    codes "SELECT * FROM " ++ qualified_table_sql target ++ codes " LIMIT " ++ decimal limit

-- A statement about a column, unless the name of the column is blank.
abbrev pub with_column : Text → Text → Generated Text
with_column column sql = if is_empty (trim column) then err empty_column_name else ok sql

unfoldable pub keyset_first_page_sql : SqlTarget → Text → ℕ → Generated Text
keyset_first_page_sql target key_column limit =
    let key = quote_identifier key_column in
    with_column key_column (
      codes "SELECT * FROM "
      ++ qualified_table_sql target
      ++ codes " ORDER BY "
      ++ key
      ++ codes " ASC LIMIT "
      ++ decimal limit)

unfoldable pub keyset_page_sql : SqlTarget → Text → Text → PaginationDirection → ℕ → Generated Text
keyset_page_sql target key_column boundary_value next limit =
    let key = quote_identifier key_column in
    with_column key_column (
      codes "SELECT * FROM "
      ++ qualified_table_sql target
      ++ codes " WHERE "
      ++ key
      ++ codes " > "
      ++ quote_sql_literal boundary_value
      ++ codes " ORDER BY "
      ++ key
      ++ codes " ASC LIMIT "
      ++ decimal limit)
keyset_page_sql target key_column boundary_value previous limit =
    let key = quote_identifier key_column in
    with_column key_column (
      codes "SELECT * FROM (SELECT * FROM "
      ++ qualified_table_sql target
      ++ codes " WHERE "
      ++ key
      ++ codes " < "
      ++ quote_sql_literal boundary_value
      ++ codes " ORDER BY "
      ++ key
      ++ codes " DESC LIMIT "
      ++ decimal limit
      ++ codes ") AS page_window ORDER BY "
      ++ key
      ++ codes " ASC")

unfoldable pub offset_page_sql : SqlTarget → ℕ → ℕ → Text
offset_page_sql target limit offset =
    codes "SELECT * FROM "
    ++ qualified_table_sql target
    ++ codes " LIMIT "
    ++ decimal limit
    ++ codes " OFFSET "
    ++ decimal offset

unfoldable pub describe_table_sql : SqlTarget → Text
describe_table_sql target = codes "DESCRIBE " ++ qualified_table_sql target

unfoldable pub show_create_table_sql : SqlTarget → Text
show_create_table_sql target = codes "SHOW CREATE TABLE " ++ qualified_table_sql target

unfoldable pub show_index_sql : SqlTarget → Text
show_index_sql target = codes "SHOW INDEX FROM " ++ qualified_table_sql target

unfoldable pub select_column_preview_sql : SqlTarget → Text → ℕ → Generated Text
select_column_preview_sql target column limit = with_column column (
    codes "SELECT "
    ++ quote_identifier column
    ++ codes " FROM "
    ++ qualified_table_sql target
    ++ codes " LIMIT "
    ++ decimal limit)

abbrev pub estimate : Option Text → Text → Generated Text
estimate none table = err missing_database_for_estimate
estimate (some database) table = ok (
    codes "SELECT TABLE_ROWS AS estimated_rows FROM information_schema.TABLES "
    ++ codes "WHERE TABLE_SCHEMA = "
    ++ quote_sql_string database
    ++ codes " AND TABLE_NAME = "
    ++ quote_sql_string table)

unfoldable pub count_estimate_sql : SqlTarget → Generated Text
count_estimate_sql target = estimate target.database target.table

unfoldable pub filtered_sorted_preview_sql : SqlTarget → Text → ℕ → Generated Text
filtered_sorted_preview_sql target column limit =
    let quoted_column = quote_identifier column in
    with_column column (
      codes "SELECT * FROM "
      ++ qualified_table_sql target
      ++ codes " WHERE "
      ++ quoted_column
      ++ codes " LIKE '%search%' ORDER BY "
      ++ quoted_column
      ++ codes " ASC LIMIT "
      ++ decimal limit)
