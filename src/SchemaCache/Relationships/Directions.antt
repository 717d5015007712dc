-- ===== src/SchemaCache/Relationships/Directions.antt =====
-- A foreign key is listed at both of its ends, and nothing else is listed.
use mathlib.Core.List.{Mem, Memᴰ}
use mathlib.Core.List.Memᴰ
use mathlib.Core.List.Perm
use myr.Prelude.{
  ◌≡◌, refl, sym, ap, Bool, true, some, List, [], ◌∷◌, map, filter, find, arith, Bool-cases, inl,
  inr, All, All-append, ◌⊎◌,
}
use myr.Prelude.Sort.{sort_by, sort_by-perm, All-sort_by}
use myr.Prelude.Text.{Text, text_eq, text_eq_iff}
use myr.SchemaCache.{ForeignKeySchema, TableSchema, DatabaseSchema, SchemaCatalog, database, table}
use myr.SchemaCache.Relationships.{
  TableRelationship, outbound, inbound, relationship_lt, outbound_of, inbound_of, references,
  outbounds, inbounds, relationships_in, collect_table_relationships,
}

some_eq {ℓ} : {A : Type ℓ} {a b : A} → some a ≡ some b → a ≡ b
some_eq h = cc

find-Mem {ℓ} : {A : Type ℓ} (p : A → Bool) (x : A) (xs : List A) → find p xs ≡ some x → Memᴰ x xs
find-Mem p x [] h = absurd (ground arith)
find-Mem p x (y ∷ ys) h = elim (Bool-cases (p y)) [
  | inl is ↦ Memᴰ.head (sym (some_eq (rw is at h)))
  | inr other ↦ Memᴰ.tail (find-Mem p x ys (rw other at h))
]

filter-Mem {ℓ} :
    {A : Type ℓ} (p : A → Bool) (x : A) (xs : List A)
    → Memᴰ x xs
    → p x ≡ true
    → Memᴰ x (filter p xs)
filter-Mem p x [] m h = elim m [ ]
filter-Mem p x (y ∷ ys) (Memᴰ.head e) h =
    let hy : p y ≡ true = rw (← e) h in rw (filter, hy) (Memᴰ.head e)
filter-Mem p x (y ∷ ys) (Memᴰ.tail m) h = elim (Bool-cases (p y)) [
  | inl is ↦ rw (filter, is) (Memᴰ.tail (filter-Mem p x ys m h))
  | inr other ↦ rw (filter, other) (filter-Mem p x ys m h)
]

map-Mem {ℓ κ} :
    {A : Type ℓ} {B : Type κ} (f : A → B) (x : A) (xs : List A) → Memᴰ x xs → Memᴰ (f x) (map f xs)
map-Mem f x [] m = elim m [ ]
map-Mem f x (y ∷ ys) (Memᴰ.head e) = Memᴰ.head (ap f e)
map-Mem f x (y ∷ ys) (Memᴰ.tail m) = Memᴰ.tail (map-Mem f x ys m)

referenced :
    (n : Text) (k : ForeignKeySchema)
    → k.referenced_database ≡ n
    → references n k.referenced_table k ≡ true
referenced n k e =
    let a : text_eq k.referenced_table k.referenced_table ≡ true = (text_eq_iff _ _).1 refl in
    let b : text_eq k.referenced_database n ≡ true = (text_eq_iff _ _).1 e in rw (a, b) refl

inbounds-Mem :
    (database_name : Text) (candidate : TableSchema) (key : ForeignKeySchema)
    (tables : List TableSchema)
    → Memᴰ candidate tables
    → Memᴰ key candidate.foreign_keys
    → key.referenced_database ≡ database_name
    → Memᴰ
        (inbound_of database_name candidate key)
        (inbounds database_name key.referenced_table tables)
unfolding inbounds
inbounds-Mem n c k [] m mk e = elim m [ ]
inbounds-Mem n c k (t ∷ ts) (Memᴰ.head same) mk e =
    let mk' : Memᴰ k t.foreign_keys = rw same at mk in
    rw same (
      Memᴰ.append_left (inbounds n k.referenced_table ts) (
        map-Mem (inbound_of n t) k _
          (filter-Mem (references n k.referenced_table) k t.foreign_keys mk' (referenced n k e))))
inbounds-Mem n c k (t ∷ ts) (Memᴰ.tail m) mk e = Memᴰ.append_right _ (inbounds-Mem n c k ts m mk e)

listed :
    (r : TableRelationship) (rs : List TableRelationship)
    → Memᴰ r rs
    → Mem r (sort_by relationship_lt rs)
listed r rs m = (Perm.mem_iff (sort_by-perm relationship_lt rs)).1 ∣ m ∣₁

-- From the table of a key to the referenced one.
abbrev pub leaving : ForeignKeySchema → TableRelationship
leaving key = record {
  direction = outbound;
  constraint_name = key.constraint_name;
  source_column = key.column_name;
  related_database = key.referenced_database;
  related_table = key.referenced_table;
  related_column = key.referenced_column;
}

-- From the referenced table to the table of a key.
abbrev pub arriving : Text → Text → ForeignKeySchema → TableRelationship
arriving database_name key_table key = record {
  direction = inbound;
  constraint_name = key.constraint_name;
  source_column = key.referenced_column;
  related_database = database_name;
  related_table = key_table;
  related_column = key.column_name;
}

-- One of the two ways in which a relationship of a table comes from a foreign key.
abbrev pub IsRelation : Text → DatabaseSchema → TableSchema → TableRelationship → Type 0
IsRelation database_name d t r =
    ((k : ForeignKeySchema) × Memᴰ k t.foreign_keys × (r ≡ leaving k))
    ⊎ ((c : TableSchema) × (k : ForeignKeySchema) × Memᴰ c d.tables
        × Memᴰ k c.foreign_keys
        × (k.referenced_database ≡ database_name)
        × (k.referenced_table ≡ t.name)
        × (r ≡ arriving database_name c.name k))

outbounds-IsRelation :
    (database_name : Text) (d : DatabaseSchema) (t : TableSchema)
    → All (IsRelation database_name d t) (outbounds (some t))
outbounds-IsRelation database_name d t = among t.foreign_keys (λ k m. m)
  where
    among :
        (keys : List ForeignKeySchema)
        → ((k : ForeignKeySchema) → Memᴰ k keys → Memᴰ k t.foreign_keys)
        → All (IsRelation database_name d t) (map outbound_of keys)
    among [] m = tt
    among (k ∷ keys) m =
        (inl (k, m k (Memᴰ.head refl), refl), among keys (λ j h. m j (Memᴰ.tail h)))

inbounds-IsRelation :
    (database_name : Text) (d : DatabaseSchema) (t : TableSchema) (tables : List TableSchema)
    → ((c : TableSchema) → Memᴰ c tables → Memᴰ c d.tables)
    → All (IsRelation database_name d t) (inbounds database_name t.name tables)
unfolding inbounds
inbounds-IsRelation database_name d t [] m = tt
inbounds-IsRelation database_name d t (c ∷ tables) m =
    All-append (IsRelation database_name d t) _ (inbounds database_name t.name tables)
      (among c.foreign_keys (λ k h. h))
      (inbounds-IsRelation database_name d t tables (λ b h. m b (Memᴰ.tail h)))
  where
    among :
        (keys : List ForeignKeySchema)
        → ((k : ForeignKeySchema) → Memᴰ k keys → Memᴰ k c.foreign_keys)
        → All
            (IsRelation database_name d t)
            (map (inbound_of database_name c) (filter (references database_name t.name) keys))
    among [] h = tt
    among (k ∷ keys) h =
        let later = among keys (λ j there. h j (Memᴰ.tail there)) in
        elim (Bool-cases (references database_name t.name k)) [
          | inr other ↦ rw (filter, other) later
          | inl refers ↦
              let to_table : text_eq k.referenced_table t.name ≡ true = ground arith in
              let to_database : text_eq k.referenced_database database_name ≡ true = ground arith in
              rw (filter, refers)
                (
                  inr (
                    c,
                    k,
                    m c (Memᴰ.head refl),
                    h k (Memᴰ.head refl),
                    (text_eq_iff _ _).0 to_database,
                    (text_eq_iff _ _).0 to_table,
                    refl,
                  ),
                  later,
                )
        ]

module _ (schema : SchemaCatalog) (database_name : Text) (d : DatabaseSchema) (t : TableSchema)
    (key : ForeignKeySchema) (here : database schema database_name ≡ some d)
    (there : table d t.name ≡ some t) (keyed : Memᴰ key t.foreign_keys) where
  its_outbound : Memᴰ (outbound_of key) (outbounds (table d t.name))
  its_outbound = rw there (map-Mem outbound_of key t.foreign_keys keyed)

  its_inbound :
      key.referenced_database ≡ database_name
      → Memᴰ (inbound_of database_name t key) (inbounds database_name key.referenced_table d.tables)
  unfolding table
  its_inbound e = inbounds-Mem database_name t key d.tables (find-Mem _ t d.tables there) keyed e

  -- A foreign key of a table, the first of its name in its database, that refers to the same
  -- database is listed as going out of its table, from its column to the referenced table and
  -- column, and as coming in to the referenced table, from the referenced column to its table and
  -- column. What is listed for the table is nothing but its own foreign keys in the first way and
  -- those of the tables of the database that refer to it in the second.
  pub foreign_key_both :
      key.referenced_database ≡ database_name
      → Mem (leaving key) (collect_table_relationships schema database_name t.name)
        × Mem
            (arriving database_name t.name key)
            (collect_table_relationships schema database_name key.referenced_table)
        × All
            (IsRelation database_name d t)
            (collect_table_relationships schema database_name t.name)
  unfolding collect_table_relationships relationships_in
  foreign_key_both e = (
    rw here (listed (outbound_of key) _ (Memᴰ.append_left _ its_outbound)),
    rw here (listed (inbound_of database_name t key) _ (Memᴰ.append_right _ (its_inbound e))),
    rw here (
        All-sort_by relationship_lt (IsRelation database_name d t) _ (
          All-append (IsRelation database_name d t) (outbounds (table d t.name))
            (inbounds database_name t.name d.tables)
            (rw there (outbounds-IsRelation database_name d t))
            (inbounds-IsRelation database_name d t d.tables (λ c m. m)))),
  )
