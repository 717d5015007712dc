-- ===== src/SchemaCache/Examples.antt =====
-- The theorems on the schema cache with a backend that has one catalog.
use mathlib.Core.List.{Mem, Memᴰ}
use myr.Prelude.{ℕ, ◌≡◌, refl, some, [], ◌∷◌, All, arith}
use myr.Prelude.Text.{codes, text_eq}
use myr.SchemaCache.{
  ForeignKeySchema, TableSchema, DatabaseSchema, SchemaCatalog, SchemaBackendError, Fetched, ok,
  new, database, table, refresh_at, schema_at,
}
use myr.SchemaCache.Staleness.{
  reads, invalidates, run, IsFresh, schema_at-IsFresh, schema_at-refresh_at,
}
use myr.SchemaCache.Relationships.{collect_table_relationships}
use myr.SchemaCache.Relationships.Directions.{leaving, arriving, IsRelation, foreign_key_both}

abbrev key : ForeignKeySchema
key = record {
  constraint_name = codes "fk";
  column_name = codes "user_id";
  referenced_database = codes "app";
  referenced_table = codes "users";
  referenced_column = codes "id";
}

abbrev users : TableSchema
users = record { name = codes "users"; columns = []; foreign_keys = [] }

abbrev sessions : TableSchema
sessions = record { name = codes "sessions"; columns = []; foreign_keys = key ∷ [] }

abbrev app : DatabaseSchema
app = record { name = codes "app"; tables = users ∷ sessions ∷ [] }

abbrev catalog : SchemaCatalog
catalog = record { databases = app ∷ [] }

abbrev fetch : ℕ → Fetched SchemaBackendError SchemaCatalog
fetch now = ok catalog

schema_at-IsFresh_example :
    IsFresh fetch 60 40
      (schema_at fetch (run fetch (new 60) (reads 3 ∷ invalidates ∷ reads 5 ∷ [])) 40).1
schema_at-IsFresh_example = schema_at-IsFresh fetch 60 (reads 3 ∷ invalidates ∷ reads 5 ∷ []) 40

schema_at-refresh_at_example :
    schema_at fetch (refresh_at fetch (new 60) 5).0 65
    ≡ ((refresh_at fetch (new 60) 5).0, ok catalog)
unfolding new
schema_at-refresh_at_example = schema_at-refresh_at fetch (new 60) 5 65 catalog refl (omega arith)

app_there : database catalog (codes "app") ≡ some app
unfolding database text_eq
app_there = refl

sessions_there : table app (codes "sessions") ≡ some sessions
unfolding table text_eq
sessions_there = refl

foreign_key_both_example :
    Mem (leaving key) (collect_table_relationships catalog (codes "app") (codes "sessions"))
    × Mem
        (arriving (codes "app") (codes "sessions") key)
        (collect_table_relationships catalog (codes "app") (codes "users"))
    × All
        (IsRelation (codes "app") app sessions)
        (collect_table_relationships catalog (codes "app") (codes "sessions"))
foreign_key_both_example =
    foreign_key_both catalog (codes "app") app sessions key app_there sessions_there
      (Memᴰ.head refl) refl
