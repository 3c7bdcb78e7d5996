-- ===== src/Executor/Consistency.antt =====
-- The stores of a session of crates/rustafari-executor/src/lib.rs in step with one another.
pub mod Flush
pub mod Insert
pub mod Tables
pub mod Plans
use rustafari_db.Common.{
  ℕ, ◌≤◌, ◌≡◌, refl, ◌∙◌, sym, ap, String, true, List, [], Option, some, none, map, arith, ◌++◌,
  ◌<◌, Option-cases, inl, inr, ◌⊎◌,
}
use rustafari_db.Common.HashMap
use rustafari_db.Common.HashMap.{nat_eq}
use rustafari_db.Core.Catalog
use rustafari_db.Core.Catalog.{TableId, TableMeta}
use rustafari_db.Core.Catalog.Invariant as CatalogInvariant
use rustafari_db.Core.Host.{Host}
use rustafari_db.Core.Schema.{column_index}
use rustafari_db.Index.BTree.{BTreeIndex}
use rustafari_db.Storage.Columnar
use rustafari_db.Storage.TableStore.Rows.{IsValid, rows_of}
use rustafari_db.Executor.State.{SessionState, get_index, buffered, or_public, table_meta}
use rustafari_db.Executor.Read.{find_table, qualified}
use rustafari_db.Core.Error.{ok, err, table_not_found}
use rustafari_db.Executor.State.Buffer.{value_in, chunk_values, has_column}
use rustafari_db.Executor.Read.Lookup.{Agrees, ids_with}
use rustafari_db.Executor.Write.Mirror.{Mirrors}

-- The table that a name gives is filed under its own identifier, which is in use.
pub filed_table :
    (c : Catalog.Catalog) (ns name : String) (m : TableMeta)
    → CatalogInvariant.IsValid c
    → Catalog.get_table c ns name ≡ some m
    → (HashMap.get m.id c.tables_by_id ≡ some m) × (m.id < c.next_table_id)
unfolding Catalog.get_table
filed_table c ns name m v e = elim (Option-cases (Catalog.namespace_id c ns)) [
  | inl missing ↦ absurd (ground (arith, e, missing))
  | inr (n, there) ↦
      let filed : HashMap.get m.id c.tables_by_id ≡ some m =
        (v.named n name m (ground (arith, e, there))).0 in
      (filed, (v.filed m.id m filed).1)
]

-- Tables of a valid catalog with one identifier are one table.
pub table_of_id :
    (c : Catalog.Catalog) (ns name ns' name' : String) (m m' : TableMeta)
    → CatalogInvariant.IsValid c
    → Catalog.get_table c ns name ≡ some m
    → Catalog.get_table c ns' name' ≡ some m'
    → m.id ≡ m'.id
    → m ≡ m'
table_of_id c ns name ns' name' m m' v e e' same =
    let f : HashMap.get m.id c.tables_by_id ≡ some m = (filed_table c ns name m v e).0 in
    let g : HashMap.get m'.id c.tables_by_id ≡ some m' = (filed_table c ns' name' m' v e').0 in
    cc (ap (λ i. HashMap.get i c.tables_by_id) same)

-- A table of a valid catalog has one name.
pub name_of_table :
    (c : Catalog.Catalog) (ns name ns' name' : String) (m : TableMeta)
    → CatalogInvariant.IsValid c
    → Catalog.get_table c ns name ≡ some m
    → Catalog.get_table c ns' name' ≡ some m
    → (ns ≡ ns') × (name ≡ name')
unfolding Catalog.get_table
name_of_table c ns name ns' name' m v e e' = elim (Option-cases (Catalog.namespace_id c ns)) [
  | inl missing ↦ absurd (ground (arith, e, missing))
  | inr (n, there) ↦ elim (Option-cases (Catalog.namespace_id c ns')) [
    | inl missing ↦ absurd (ground (arith, e', missing))
    | inr (n', there') ↦
        let (_, n_is, name_is) = v.named n name m (ground (arith, e, there)) in
        let (_, n'_is, name'_is) = v.named n' name' m (ground (arith, e', there')) in
        (
          v.namespaces_differ ns ns' n there (there' ∙ ap some (sym n'_is ∙ n_is)),
          sym name_is ∙ name'_is,
        )
  ]
]

module _ {h : Host} where
  pub find_table-found :
      (namespace : Option String) (table : String) (s : SessionState h) (meta : TableMeta)
      → find_table s namespace table ≡ ok meta
      → Catalog.get_table s.catalog (or_public namespace) table ≡ some meta
  unfolding find_table table_meta
  find_table-found namespace table s meta e = ground (arith, e)

  pub find_table-cases :
      (namespace : Option String) (table : String) (s : SessionState h)
      → (find_table s namespace table ≡ err (table_not_found (qualified namespace table)))
        ⊎ ((meta : TableMeta) × (find_table s namespace table ≡ ok meta))
  unfolding find_table table_meta
  find_table-cases namespace table s =
      elim (Option-cases (Catalog.get_table s.catalog (or_public namespace) table)) [
        | inl missing ↦ inl (ground (arith, missing))
        | inr (meta, there) ↦ inr (meta, ground (arith, there))
      ]

  -- The index on `id` agrees with the rows of the table, and the chunks and the buffer hold, for each
  -- column, the values of the rows.
  pub record InStep (meta : TableMeta) (s : SessionState h) : Type 0 where
    pub indexed :
        (col : ℕ)
        → column_index meta.schema "id" ≡ some col
        → (ix : BTreeIndex) × (get_index s meta.id "id" ≡ some ix)
          × Agrees meta.id col ix s.row_store
    pub mirrored :
        (name : String)
        → has_column name meta.schema.columns ≡ true
        → Mirrors meta.id meta.schema name s

  -- No rows, chunks or buffer under the identifier.
  abbrev pub IsUnused : TableId → SessionState h → Type 0
  IsUnused t s =
      (rows_of s.row_store t ≡ []) × (Columnar.chunks s.columnar_store t ≡ []) × (buffered s t ≡ [])

  pub record IsConsistent (s : SessionState h) : Type 0 where
    pub catalog : CatalogInvariant.IsValid s.catalog
    pub store : IsValid s.row_store
    pub unused : (t : TableId) → s.catalog.next_table_id ≤ t → IsUnused t s
    pub tables :
        (ns name : String) (meta : TableMeta)
        → Catalog.get_table s.catalog ns name ≡ some meta
        → InStep meta s

  -- The parts of a state that belong to a table are the same in another.
  abbrev pub SameFor : TableId → SessionState h → SessionState h → Type 0
  SameFor t s s' =
      (rows_of s'.row_store t ≡ rows_of s.row_store t)
      × (get_index s' t "id" ≡ get_index s t "id")
      × (Columnar.chunks s'.columnar_store t ≡ Columnar.chunks s.columnar_store t)
      × (buffered s' t ≡ buffered s t)

  pub InStep-SameFor :
      (meta : TableMeta) (s s' : SessionState h)
      → SameFor meta.id s s'
      → InStep meta s
      → InStep meta s'
  InStep-SameFor meta s s' (r, i, c, b) v = record {
    indexed = λ col at.
        let (ix, there, agrees) = v.indexed col at in
        (ix, i ∙ there, λ key. agrees key ∙ ap (ids_with col key) (sym r));
    mirrored = λ name has.
        ap (λ cs. chunk_values name cs ++ map (value_in meta.schema name) (buffered s' meta.id)) c
        ∙ ap
            (λ rs.
              chunk_values name (Columnar.chunks s.columnar_store meta.id)
              ++ map (value_in meta.schema name) rs)
            b
        ∙ v.mirrored name has
        ∙ ap (map (λ x. value_in meta.schema name x.1)) (sym r);
  }

  pub IsUnused-SameFor :
      (t : TableId) (s s' : SessionState h) → SameFor t s s' → IsUnused t s → IsUnused t s'
  IsUnused-SameFor t s s' (r, i, c, b) (x, y, z) = (r ∙ x, c ∙ y, b ∙ z)
