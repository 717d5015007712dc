-- ===== src/SchemaCache/Staleness.antt =====
-- How old an answer of the cache can be.
use myr.Prelude.{
  ℕ, ◌≤◌, ◌+◌, ◌⊎◌, ◌∙◌, ◌≡◌, refl, true, Option, none, some, List, [], ◌∷◌, arith, leb,
  saturating_sub, Bool-cases, Option-cases, inl, inr,
}
use myr.Prelude.Text.{Text}
use myr.SchemaCache.{
  SchemaCatalog, SchemaBackendError, SchemaCacheError, Fetched, ok, err, CachedSchema,
  SchemaCacheService, new, invalidate, refresh_at, schema_at, list_databases, list_tables,
  list_columns,
}

Fetched-cases : {E A : Type 0} (r : Fetched E A) → ((a : A) × (r ≡ ok a)) ⊎ ((e : E) × (r ≡ err e))
Fetched-cases (ok a) = inl (a, refl)
Fetched-cases (err e) = inr (e, refl)

-- What is done with the service.
pub data Op : Type 0 where
  invalidates : Op
  refreshes : ℕ → Op
  reads : ℕ → Op
  lists_databases : ℕ → Op
  lists_tables : ℕ → Text → Op
  lists_columns : ℕ → Text → Text → Op

module _ (fetch_schema : ℕ → Fetched SchemaBackendError SchemaCatalog) where
  unfoldable pub step : SchemaCacheService → Op → SchemaCacheService
  step s invalidates = invalidate s
  step s (refreshes now) = (refresh_at fetch_schema s now).0
  step s (reads now) = (schema_at fetch_schema s now).0
  step s (lists_databases now) = (list_databases fetch_schema s now).0
  step s (lists_tables now d) = (list_tables fetch_schema s now d).0
  step s (lists_columns now d t) = (list_columns fetch_schema s now d t).0

  unfoldable pub run : SchemaCacheService → List Op → SchemaCacheService
  run s [] = s
  run s (op ∷ ops) = run (step s op) ops

  -- The cached catalog is what the backend answered at its time.
  abbrev IsFetched : Option CachedSchema → Type 0
  IsFetched none = Unit
  IsFetched (some c) = fetch_schema c.fetched_at ≡ ok c.schema

  abbrev Holds : ℕ → SchemaCacheService → Type 0
  Holds ttl s = (s.ttl ≡ ttl) × IsFetched s.cache

  -- An answer is what the backend said at a time that is no longer ago than the ttl, or an error that
  -- it gives now.
  abbrev pub IsFresh : ℕ → ℕ → Fetched SchemaCacheError SchemaCatalog → Type 0
  IsFresh ttl now (ok schema) = (t : ℕ) × (fetch_schema t ≡ ok schema) × (now ≤ t + ttl)
  IsFresh ttl now (err (SchemaCacheError.backend e)) = fetch_schema now ≡ err e

  -- What a call of the service gives.
  abbrev Gives : ℕ → ℕ → SchemaCacheService × Fetched SchemaCacheError SchemaCatalog → Type 0
  Gives ttl now (s, answer) = Holds ttl s × IsFresh ttl now answer

  refresh_lem :
      (now : ℕ) (s : SchemaCacheService)
      → IsFetched s.cache
      → Gives s.ttl now (refresh_at fetch_schema s now)
  unfolding refresh_at
  refresh_lem now s held = elim (Fetched-cases (fetch_schema now)) [
    | inl (schema, e) ↦ rw (refresh_at, e) ((refl, e), (now, e, omega arith))
    | inr (error, e) ↦ rw (refresh_at, e) ((refl, held), e)
  ]

  old_enough : (now t ttl : ℕ) → leb (saturating_sub now t) ttl ≡ true → now ≤ t + ttl
  old_enough now t ttl h = ground arith

  cached_lem :
      (now : ℕ) (s : SchemaCacheService) (c : CachedSchema)
      → s.cache ≡ some c
      → IsFetched s.cache
      → Gives s.ttl now (schema_at fetch_schema s now)
  unfolding schema_at
  cached_lem now s c e held = elim (Bool-cases (leb (saturating_sub now c.fetched_at) s.ttl)) [
    | inl young ↦
        rw (schema_at, e, young)
          ((refl, held), (c.fetched_at, rw e at held, old_enough now c.fetched_at s.ttl young))
    | inr old ↦ rw (schema_at, e, old) (refresh_lem now s held)
  ]

  schema_lem :
      (now : ℕ) (s : SchemaCacheService)
      → IsFetched s.cache
      → Gives s.ttl now (schema_at fetch_schema s now)
  unfolding schema_at
  schema_lem now s held = elim (Option-cases s.cache) [
    | inl e ↦ rw (schema_at, e) (refresh_lem now s held)
    | inr (c, e) ↦ cached_lem now s c e held
  ]

  step-Holds : (s : SchemaCacheService) (op : Op) → IsFetched s.cache → Holds s.ttl (step s op)
  unfolding step invalidate list_databases list_tables list_columns
  step-Holds s invalidates held = (refl, tt)
  step-Holds s (refreshes now) held = (refresh_lem now s held).0
  step-Holds s (reads now) held = (schema_lem now s held).0
  step-Holds s (lists_databases now) held = (schema_lem now s held).0
  step-Holds s (lists_tables now d) held = (schema_lem now s held).0
  step-Holds s (lists_columns now d t) held = (schema_lem now s held).0

  run-Holds :
      (ttl : ℕ) (s : SchemaCacheService) (ops : List Op) → Holds ttl s → Holds ttl (run s ops)
  unfolding run
  run-Holds ttl s [] holds = holds
  run-Holds ttl s (op ∷ ops) (same, held) =
      let (same', held') = step-Holds s op held in
      run-Holds ttl (step s op) ops (same' ∙ same, held')

  IsFresh-of :
      (ttl now : ℕ) (s : SchemaCacheService)
      → s.ttl ≡ ttl
      → IsFetched s.cache
      → IsFresh ttl now (schema_at fetch_schema s now).1
  IsFresh-of ttl now s same held = rw (← same) (schema_lem now s held).1

  -- Whatever was done with a new service, what it answers is a catalog that the backend gave at
  -- a time that lies back by the ttl at most, or the error that the backend gives at this
  -- moment.
  pub schema_at-IsFresh :
      (ttl : ℕ) (ops : List Op) (now : ℕ)
      → IsFresh ttl now (schema_at fetch_schema (run (new ttl) ops) now).1
  unfolding new
  schema_at-IsFresh ttl ops now =
      let (same, held) = run-Holds ttl (new ttl) ops (refl, tt) in
      IsFresh-of ttl now (run (new ttl) ops) same held

  refreshed :
      (s : SchemaCacheService) (t : ℕ) (schema : SchemaCatalog)
      → fetch_schema t ≡ ok schema
      → (refresh_at fetch_schema s t).0
        ≡ record s { cache = some (record { fetched_at = t; schema = schema }) }
  unfolding refresh_at
  refreshed s t schema e = rw (refresh_at, e) refl

  -- After a refresh that got a catalog at some time, the same catalog is answered and the
  -- service is unchanged up to that time plus the ttl, whatever the backend would say then.
  pub schema_at-refresh_at :
      (s : SchemaCacheService) (t now : ℕ) (schema : SchemaCatalog)
      → fetch_schema t ≡ ok schema
      → now ≤ t + s.ttl
      → schema_at fetch_schema (refresh_at fetch_schema s t).0 now
        ≡ ((refresh_at fetch_schema s t).0, ok schema)
  unfolding schema_at
  schema_at-refresh_at s t now schema e near =
      let young : leb (saturating_sub now t) s.ttl ≡ true = ground arith in
      rw (refreshed s t schema e, young) refl
