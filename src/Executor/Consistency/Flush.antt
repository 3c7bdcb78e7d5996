-- ===== src/Executor/Consistency/Flush.antt =====
-- Flushes and pushes of the columnar buffer of crates/rustafari-executor/src/lib.rs, and the tables
-- that they do not touch.
use native.Mathlib.Decide.{ℕ_discrete}
use rustafari_db.Common.{
  ◌<◌, ◌≤◌, ◌≡◌, ◌≢◌, refl, ◌∙◌, sym, ap, subst, String, true, false, List, [], ◌∷◌, ◌++◌, some,
  map, arith, if◌then◌else◌, ltb, length,
}
use rustafari_db.Common.HashMap
use rustafari_db.Common.HashMap.{get-insert, nat_eq, string_eq, pair_eq}
use rustafari_db.Core.Catalog
use rustafari_db.Core.Catalog.{TableId, TableMeta}
use rustafari_db.Core.Catalog.Invariant as CatalogInvariant
use rustafari_db.Core.Error.{ok}
use rustafari_db.Core.Host.{Host}
use rustafari_db.Core.Row
use rustafari_db.Core.Row.{Row}
use rustafari_db.Core.Schema.{Schema}
use rustafari_db.Storage.Columnar
use rustafari_db.Storage.Columnar.{columnar_chunk_size}
use rustafari_db.Storage.TableStore.Rows.{IsValid, rows_of}
use rustafari_db.Sql.Plan.{PlanNode}
use rustafari_db.Executor.State.{
  SessionState, buffered, set_buffer, store_chunk, flush_columnar_buffer, push_columnar_row,
  get_index, table_meta, or_public, build_columns,
}
use rustafari_db.Executor.State.Buffer.{column_values_after, value_in}
use rustafari_db.Executor.Read.Lookup.{ids_with}
use rustafari_db.Executor.Read.{find_table, scan_meta}
use rustafari_db.Executor.Plan.Reads.{flush-data_of}
use rustafari_db.Executor.Consistency.{
  InStep, IsConsistent, SameFor, InStep-SameFor, IsUnused-SameFor, table_of_id, filed_table,
}

module _ {h : Host} where
  store_chunk-SameFor :
      (t u : TableId) (schema : Schema) (rs : List (Row h)) (s : SessionState h)
      → t ≢ u
      → SameFor u s (store_chunk t schema rs s)
  unfolding store_chunk Columnar.next_chunk_id get_index Columnar.chunks Columnar.insert_chunk
  store_chunk-SameFor t u schema rs s ne =
      let c = Columnar.new_chunk s.columnar_store.next_chunk_id (build_columns schema rs) in
      (
        refl,
        refl,
        ground (
          arith,
          get-insert u t (Columnar.chunks s.columnar_store t ++ c ∷ []) s.columnar_store.chunk_map,
        ),
        refl,
      )

  pub SameFor-trans :
      (u : TableId) (s s' s'' : SessionState h)
      → SameFor u s s'
      → SameFor u s' s''
      → SameFor u s s''
  SameFor-trans u s s' s'' (a, b, c, d) (a', b', c', d') = (a' ∙ a, b' ∙ b, c' ∙ c, d' ∙ d)

  set_buffer-SameFor :
      (t u : TableId) (rs : List (Row h)) (s : SessionState h)
      → t ≢ u
      → SameFor u s (set_buffer t rs s)
  unfolding get_index
  set_buffer-SameFor t u rs s ne =
      (refl, refl, refl, ground (arith, get-insert u t rs s.columnar_buffer))

  taken-SameFor :
      (t u : TableId) (schema : Schema) (rs : List (Row h)) (s : SessionState h)
      → t ≢ u
      → SameFor u s (store_chunk t schema rs (set_buffer t [] s))
  taken-SameFor t u schema rs s ne =
      SameFor-trans u s (set_buffer t [] s) (store_chunk t schema rs (set_buffer t [] s))
        (set_buffer-SameFor t u [] s ne) (store_chunk-SameFor t u schema rs (set_buffer t [] s) ne)

  -- A flush of one table leaves the others alone, and so does a push.
  pub flush-SameFor :
      (t u : TableId) (schema : Schema) (s : SessionState h)
      → t ≢ u
      → SameFor u s (flush_columnar_buffer t schema s)
  unfolding flush_columnar_buffer
  flush-SameFor t u schema s ne =
      elim (buffered s t)
        as (λ rs.
          SameFor u s
            (elim rs [ [] ↦ s | x ∷ xs ↦ store_chunk t schema (x ∷ xs) (set_buffer t [] s) ])) [
              | [] ↦ (refl, refl, refl, refl)
              | x ∷ xs ↦ taken-SameFor t u schema (x ∷ xs) s ne
            ]

  pub push-SameFor :
      (t u : TableId) (row : Row h) (schema : Schema) (s : SessionState h)
      → t ≢ u
      → SameFor u s (push_columnar_row t row schema s)
  unfolding push_columnar_row
  push-SameFor t u row schema s ne =
      let rs = buffered s t ++ row ∷ [] in
      elim (ltb (length rs) columnar_chunk_size)
        as (λ b.
          SameFor u s
            (if b then set_buffer t rs s else store_chunk t schema rs (set_buffer t [] s))) [
              | true ↦ set_buffer-SameFor t u rs s ne
              | false ↦ taken-SameFor t u schema rs s ne
            ]

  -- The rows and the index of a table do not change in a flush.
  flush-InStep :
      (meta : TableMeta) (s : SessionState h)
      → InStep meta s
      → InStep meta (flush_columnar_buffer meta.id meta.schema s)
  unfolding get_index
  flush-InStep meta s v =
      let z = flush_columnar_buffer meta.id meta.schema s in
      let d = flush-data_of meta.id meta.schema s in
      let store : z.row_store ≡ s.row_store = ap (λ x. x.1) d in
      let indexes : z.index_store ≡ s.index_store = ap (λ x. x.2) d in
      record {
        indexed = λ col at.
            let (ix, there, agrees) = v.indexed col at in
            (
              ix,
              ap (λ m. HashMap.get (meta.id, "id") m) indexes ∙ there,
              λ key. agrees key ∙ ap (λ r. ids_with col key (rows_of r meta.id)) (sym store),
            );
        mirrored = λ name has.
            (column_values_after meta.id (Row.new []) meta.schema name s has).1
            ∙ v.mirrored name has
            ∙ ap (λ r. map (λ x. value_in meta.schema name x.1) (rows_of r meta.id)) (sym store);
      }

  -- The table of a scan is one of the catalog.
  scan_meta-found :
      (input : PlanNode h) (s : SessionState h) (meta : TableMeta)
      → scan_meta s input ≡ ok meta
      → (ns : String) × (name : String) × (Catalog.get_table s.catalog ns name ≡ some meta)
  unfolding scan_meta find_table table_meta
  scan_meta-found (PlanNode.scan table ns) s meta e = (or_public ns, table, ground (arith, e))
  scan_meta-found (PlanNode.filter input _) s meta e = scan_meta-found input s meta e
  scan_meta-found (PlanNode.project input _) s meta e = scan_meta-found input s meta e
  scan_meta-found (PlanNode.limit input _ _) s meta e = scan_meta-found input s meta e
  scan_meta-found (PlanNode.aggregate input _) s meta e = scan_meta-found input s meta e
  scan_meta-found (PlanNode.group_by input _ _) s meta e = scan_meta-found input s meta e
  scan_meta-found (PlanNode.order_by input _) s meta e = scan_meta-found input s meta e
  scan_meta-found (PlanNode.insert _ _ _ _) s meta e = absurd (cc)
  scan_meta-found (PlanNode.create_table _ _ _) s meta e = absurd (cc)
  scan_meta-found (PlanNode.drop_table _ _) s meta e = absurd (cc)
  scan_meta-found (PlanNode.describe_table _ _) s meta e = absurd (cc)

  -- A step on one table, which keeps the catalog and leaves the other tables alone.
  pub IsConsistent-step :
      (ns name : String) (meta : TableMeta) (s s' : SessionState h)
      → IsConsistent s
      → Catalog.get_table s.catalog ns name ≡ some meta
      → s'.catalog ≡ s.catalog
      → IsValid s'.row_store
      → ((u : TableId) → meta.id ≢ u → SameFor u s s')
      → InStep meta s'
      → IsConsistent s'
  IsConsistent-step ns name meta s s' v found same store others this =
      let below : meta.id < s.catalog.next_table_id =
        (filed_table s.catalog ns name meta v.catalog found).1 in
      record {
        catalog = subst CatalogInvariant.IsValid (sym same) v.catalog;
        store = store;
        unused = λ t le.
            let le' : s.catalog.next_table_id ≤ t = subst (λ c. c.next_table_id ≤ t) same le in
            IsUnused-SameFor t s s' (others t (λ e. absurd (omega arith))) (v.unused t le');
        tables = λ ns' name' m e.
            let e' : Catalog.get_table s.catalog ns' name' ≡ some m =
              subst (λ c. Catalog.get_table c ns' name' ≡ some m) same e in
            elim (ℕ_discrete meta.id m.id) [
              | yes eq ↦
                  subst (λ x. InStep x s')
                    (table_of_id s.catalog ns name ns' name' meta m v.catalog found e' eq) this
              | no ne ↦ InStep-SameFor m s s' (others m.id ne) (v.tables ns' name' m e')
            ];
      }

  -- Every flush of the table of a plan keeps the session consistent.
  pub flush-IsConsistent :
      (input : PlanNode h) (s : SessionState h) (meta : TableMeta)
      → scan_meta s input ≡ ok meta
      → IsConsistent s
      → IsConsistent (flush_columnar_buffer meta.id meta.schema s)
  flush-IsConsistent input s meta e v =
      let (ns, name, found) = scan_meta-found input s meta e in
      let z = flush_columnar_buffer meta.id meta.schema s in
      let d = flush-data_of meta.id meta.schema s in
      IsConsistent-step ns name meta s z v found (ap (λ x. x.0) d)
        (subst IsValid (sym (ap (λ x. x.1) d)) v.store)
        (λ u ne. flush-SameFor meta.id u meta.schema s ne)
        (flush-InStep meta s (v.tables ns name meta found))
