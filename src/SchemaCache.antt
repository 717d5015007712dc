-- ===== src/SchemaCache.antt =====
-- crates/core/src/schema_cache: the catalog of the server, kept for a while, and the foreign keys
-- of a table in both directions.
pub mod Relationships
pub mod Staleness
mod Examples
use myr.Prelude.{
  ℕ, Bool, Option, none, some, List, [], map, find, leb, saturating_sub, and_then, if◌then◌else◌,
}
use myr.Prelude.Text.{Text, text_eq}

pub record ColumnSchema : Type 0 where
  pub name : Text
  pub data_type : Text
  pub nullable : Bool
  pub default_value : Option Text

pub record ForeignKeySchema : Type 0 where
  pub constraint_name : Text
  pub column_name : Text
  pub referenced_database : Text
  pub referenced_table : Text
  pub referenced_column : Text

pub record TableSchema : Type 0 where
  pub name : Text
  pub columns : List ColumnSchema
  pub foreign_keys : List ForeignKeySchema

pub record DatabaseSchema : Type 0 where
  pub name : Text
  pub tables : List TableSchema

pub record SchemaCatalog : Type 0 where
  pub databases : List DatabaseSchema

-- `SchemaCatalog::database`
unfoldable pub database : SchemaCatalog → Text → Option DatabaseSchema
database schema name = find (λ d. text_eq d.name name) schema.databases

unfoldable pub table : DatabaseSchema → Text → Option TableSchema
table d name = find (λ t. text_eq t.name name) d.tables

pub record SchemaBackendError : Type 0 where
  pub message : Text

pub data SchemaCacheError : Type 0 where
  backend : SchemaBackendError → SchemaCacheError

-- A result, of the backend or of the cache.
pub data Fetched (E A : Type 0) : Type 0 where
  ok : A → Fetched E A
  err : E → Fetched E A

-- `map`, where the error is kept.
abbrev pub fetched_map : {E A B : Type 0} → (A → B) → Fetched E A → Fetched E B
fetched_map f (ok a) = ok (f a)
fetched_map f (err e) = err e

pub record CachedSchema : Type 0 where
  pub fetched_at : ℕ
  pub schema : SchemaCatalog

-- The service without its backend. Times are the ticks of the clock.
pub record SchemaCacheService : Type 0 where
  pub ttl : ℕ
  pub cache : Option CachedSchema

unfoldable pub new : ℕ → SchemaCacheService
new ttl = record { ttl = ttl; cache = none }

unfoldable pub invalidate : SchemaCacheService → SchemaCacheService
invalidate s = record s { cache = none }

-- `list_databases`, of the catalog.
unfoldable pub database_names : SchemaCatalog → List Text
database_names schema = map (λ d. d.name) schema.databases

abbrev table_names_of : Option DatabaseSchema → List Text
table_names_of none = []
table_names_of (some d) = map (λ t. t.name) d.tables

unfoldable pub table_names : Text → SchemaCatalog → List Text
table_names database_name schema = table_names_of (database schema database_name)

abbrev columns_of : Option TableSchema → List ColumnSchema
columns_of none = []
columns_of (some t) = t.columns

unfoldable pub columns : Text → Text → SchemaCatalog → List ColumnSchema
columns database_name table_name schema =
    columns_of (and_then (database schema database_name) (λ d. table d table_name))

-- What the backend answers when it is asked at a time.
module _ (fetch_schema : ℕ → Fetched SchemaBackendError SchemaCatalog) where
  unfoldable pub refresh_at :
      SchemaCacheService → ℕ → SchemaCacheService × Fetched SchemaCacheError SchemaCatalog
  refresh_at s now = elim (fetch_schema now) [
    | ok schema ↦
        (record s { cache = some (record { fetched_at = now; schema = schema }) }, ok schema)
    | err e ↦ (s, err (backend e))
  ]

  -- `duration_since` is zero for a later time.
  unfoldable pub schema_at :
      SchemaCacheService → ℕ → SchemaCacheService × Fetched SchemaCacheError SchemaCatalog
  schema_at s now = elim s.cache [
    | none ↦ refresh_at s now
    | some cache ↦
        if leb (saturating_sub now cache.fetched_at) s.ttl
        then (s, ok cache.schema)
        else refresh_at s now
  ]

  unfoldable pub list_databases :
      SchemaCacheService → ℕ → SchemaCacheService × Fetched SchemaCacheError (List Text)
  list_databases s now =
      let (after, schema) = schema_at s now in (after, fetched_map database_names schema)

  unfoldable pub list_tables :
      SchemaCacheService → ℕ → Text → SchemaCacheService × Fetched SchemaCacheError (List Text)
  list_tables s now database_name =
      let (after, schema) = schema_at s now in
      (after, fetched_map (table_names database_name) schema)

  unfoldable pub list_columns :
      SchemaCacheService
      → ℕ
      → Text
      → Text
      → SchemaCacheService × Fetched SchemaCacheError (List ColumnSchema)
  list_columns s now database_name table_name =
      let (after, schema) = schema_at s now in
      (after, fetched_map (columns database_name table_name) schema)
