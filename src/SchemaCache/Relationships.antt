-- ===== src/SchemaCache/Relationships.antt =====
-- crates/core/src/schema_cache/relationships.rs: the foreign keys of a table in both directions.
pub mod Directions
use myr.Prelude.{
  ℕ, ◌≡◌, Bool, true, false, ◌&&◌, ◌||◌, Option, none, some, List, [], ◌∷◌, ◌++◌, map, filter,
  if◌then◌else◌,
}
use myr.Prelude.Sort.{sort_by}
use myr.Prelude.Text.{Text, text_eq, text_lt}
use myr.SchemaCache.{
  ForeignKeySchema, TableSchema, DatabaseSchema, SchemaCatalog, database, table, SchemaCacheError,
  SchemaBackendError, Fetched, fetched_map, SchemaCacheService, schema_at,
}

-- In the order of the derived `Ord`.
pub data RelationshipDirection : Type 0 where
  outbound inbound : RelationshipDirection

pub record TableRelationship : Type 0 where
  pub direction : RelationshipDirection
  pub constraint_name : Text
  pub source_column : Text
  pub related_database : Text
  pub related_table : Text
  pub related_column : Text

abbrev pub direction_lt : RelationshipDirection → RelationshipDirection → Bool
direction_lt outbound inbound = true
direction_lt _ _ = false

-- `cmp` and then another comparison.
abbrev then_with : Text → Text → Bool → Bool
then_with left right less = text_lt left right || (text_eq left right && less)

unfoldable pub relationship_lt : TableRelationship → TableRelationship → Bool
relationship_lt left right = then_with left.related_database right.related_database (
    then_with left.related_table right.related_table (
      then_with left.related_column right.related_column (
        then_with left.constraint_name right.constraint_name
          (direction_lt left.direction right.direction))))

abbrev pub outbound_of : ForeignKeySchema → TableRelationship
outbound_of key = record {
  direction = outbound;
  constraint_name = key.constraint_name;
  source_column = key.column_name;
  related_database = key.referenced_database;
  related_table = key.referenced_table;
  related_column = key.referenced_column;
}

abbrev pub inbound_of : Text → TableSchema → ForeignKeySchema → TableRelationship
inbound_of database_name candidate key = record {
  direction = inbound;
  constraint_name = key.constraint_name;
  source_column = key.referenced_column;
  related_database = database_name;
  related_table = candidate.name;
  related_column = key.column_name;
}

abbrev pub references : Text → Text → ForeignKeySchema → Bool
references database_name table_name key =
    text_eq key.referenced_table table_name && text_eq key.referenced_database database_name

-- The first loop.
abbrev pub outbounds : Option TableSchema → List TableRelationship
outbounds none = []
outbounds (some t) = map outbound_of t.foreign_keys

-- The second loop.
unfoldable pub inbounds : Text → Text → List TableSchema → List TableRelationship
inbounds database_name table_name [] = []
inbounds database_name table_name (candidate ∷ tables) =
    map (inbound_of database_name candidate)
      (filter (references database_name table_name) candidate.foreign_keys)
    ++ inbounds database_name table_name tables

unfoldable pub relationships_in : Text → Text → Option DatabaseSchema → List TableRelationship
relationships_in database_name table_name none = []
relationships_in database_name table_name (some d) =
    sort_by relationship_lt
      (outbounds (table d table_name) ++ inbounds database_name table_name d.tables)

-- Relationships that compare equal keep their order here; the source leaves it open.
unfoldable pub collect_table_relationships : SchemaCatalog → Text → Text → List TableRelationship
collect_table_relationships schema database_name table_name =
    relationships_in database_name table_name (database schema database_name)

unfoldable pub list_related_tables :
    (ℕ → Fetched SchemaBackendError SchemaCatalog)
    → SchemaCacheService
    → ℕ
    → Text
    → Text
    → SchemaCacheService × Fetched SchemaCacheError (List TableRelationship)
list_related_tables fetch_schema s now database_name table_name =
    let (after, schema) = schema_at fetch_schema s now in
    (after, fetched_map (λ c. collect_table_relationships c database_name table_name) schema)
