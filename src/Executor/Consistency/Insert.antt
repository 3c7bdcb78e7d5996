-- ===== src/Executor/Consistency/Insert.antt =====
-- An INSERT of crates/rustafari-executor/src/lib.rs keeps the stores of a session in step.
use rustafari_db.Common.{
  ℕ, ◌+◌, ◌<◌, ◌≡◌, ◌≢◌, refl, ◌∙◌, sym, ap, subst, String, List, [], ◌∷◌, Option, none, some, map,
  arith, length, u64_mod, next_u64,
}
use rustafari_db.Common.HashMap
use rustafari_db.Common.HashMap.{get-insert, nat_eq, string_eq, pair_eq}
use rustafari_db.Core.Catalog
use rustafari_db.Core.Catalog.{TableId, TableMeta}
use rustafari_db.Core.Error.{Result, ok}
use rustafari_db.Core.Host.{Host}
use rustafari_db.Core.Row
use rustafari_db.Core.Row.{Row}
use rustafari_db.Core.Schema.{column_index}
use rustafari_db.Core.Value.{Value}
use rustafari_db.Storage.Columnar
use rustafari_db.Storage.TableStore
use rustafari_db.Storage.TableStore.{RowId}
use rustafari_db.Storage.TableStore.Rows.{IsValid, rows_of, insert-IsValid, entries-insert_ne}
use rustafari_db.Executor.State.{
  SessionState, Exec, continue, get_index, push_columnar_row, store_chunk,
}
use rustafari_db.Executor.Write.{index_row, insert_row, insert_rows}
use rustafari_db.Executor.Write.Insert.{push-row_store}
use rustafari_db.Executor.Write.Mirror.{went_on, index_row_kept, insert_row-Mirrors}
use rustafari_db.Executor.Write.Rows.{insert_row-Indexed, next_after}
use rustafari_db.Executor.Consistency.{IsConsistent, SameFor}
use rustafari_db.Executor.Consistency.Flush.{SameFor-trans, push-SameFor, IsConsistent-step}

module _ {h : Host} where
  -- The state with the row stored, and then with its key in the index.
  abbrev row_stored : TableMeta → List (Value h) → SessionState h → SessionState h
  row_stored meta vals s = record s {
    row_store = (TableStore.insert s.row_store meta.id (Row.new vals)).0;
  }

  abbrev row_indexed :
      TableMeta → List (Value h) → SessionState h → Result (Unit {0}) × SessionState h
  row_indexed meta vals s =
      index_row meta.id (column_index meta.schema "id") vals s.row_store.next_row_id
        (row_stored meta vals s)

  -- A row that is inserted without an error goes on to the buffer.
  inserted :
      (meta : TableMeta) (vals : List (Value h)) (s : SessionState h)
      → (insert_row meta vals s).0 ≡ ok tt
      → (insert_row meta vals s).1
        ≡ push_columnar_row meta.id (Row.new vals) meta.schema (row_indexed meta vals s).1
  unfolding insert_row TableStore.insert
  inserted meta vals s good =
      let f : Unit {0} → Exec h (Unit {0}) =
        λ _ z. (ok tt, push_columnar_row meta.id (Row.new vals) meta.schema z) in
      let step = row_indexed meta vals s in
      ap (λ o. (continue o f step.1).1) (went_on step.0 f step.1 tt good).1

  stored-SameFor :
      (meta : TableMeta) (vals : List (Value h)) (s : SessionState h) (u : TableId)
      → meta.id ≢ u
      → SameFor u s (row_stored meta vals s)
  unfolding TableStore.insert get_index
  stored-SameFor meta vals s u ne = (
    ap (map (λ e. (e.0.1, e.1)))
        (entries-insert_ne meta.id u s.row_store.next_row_id (Row.new vals) s.row_store.rows ne),
    refl,
    refl,
    refl,
  )

  index_row-get_index :
      (t u : TableId) (col : Option ℕ) (vals : List (Value h)) (r : RowId) (s : SessionState h)
      → t ≢ u
      → get_index (index_row t col vals r s).1 u "id" ≡ get_index s u "id"
  unfolding index_row get_index
  index_row-get_index t u none vals r s ne = refl
  index_row-get_index t u (some i) vals r s ne = grind (arith, get-insert)

  index_row-SameFor :
      (t u : TableId) (col : Option ℕ) (vals : List (Value h)) (r : RowId) (s : SessionState h)
      → t ≢ u
      → SameFor u s (index_row t col vals r s).1
  index_row-SameFor t u col vals r s ne =
      let (rows, chunks, buffer) = index_row_kept t col vals r s in
      (
        ap (λ x. rows_of x u) rows,
        index_row-get_index t u col vals r s ne,
        ap (λ x. Columnar.chunks x u) chunks,
        ap (λ x. elim (HashMap.get u x) [ none ↦ [] | some found ↦ found ]) buffer,
      )

  push-catalog :
      (t : TableId) (row : Row h) (meta : TableMeta) (s : SessionState h)
      → (push_columnar_row t row meta.schema s).catalog ≡ s.catalog
  unfolding push_columnar_row store_chunk
  push-catalog t row meta s = ground arith

  index_row-catalog :
      (t : TableId) (col : Option ℕ) (vals : List (Value h)) (r : RowId) (s : SessionState h)
      → (index_row t col vals r s).1.catalog ≡ s.catalog
  unfolding index_row
  index_row-catalog t col vals r s = ground arith

  insert_row-IsConsistent :
      (ns name : String) (meta : TableMeta) (vals : List (Value h)) (s : SessionState h)
      → IsConsistent s
      → Catalog.get_table s.catalog ns name ≡ some meta
      → s.row_store.next_row_id + 1 < u64_mod
      → (insert_row meta vals s).0 ≡ ok tt
      → IsConsistent (insert_row meta vals s).1
        × ((insert_row meta vals s).1.catalog ≡ s.catalog)
        × ((insert_row meta vals s).1.row_store.next_row_id ≡ s.row_store.next_row_id + 1)
  insert_row-IsConsistent ns name meta vals s v found room good =
      let t = meta.id in
      let row : Row h = Row.new vals in
      let z = (insert_row meta vals s).1 in
      let a = row_stored meta vals s in
      let b = (row_indexed meta vals s).1 in
      let e : z ≡ push_columnar_row t row meta.schema b = inserted meta vals s good in
      let cat : z.catalog ≡ s.catalog =
        ap (λ x. x.catalog) e
        ∙ push-catalog t row meta b
        ∙ index_row-catalog t (column_index meta.schema "id") vals s.row_store.next_row_id a in
      let store : z.row_store ≡ (TableStore.insert s.row_store t row).0 =
        ap (λ x. x.row_store) e
        ∙ push-row_store t row meta.schema b
        ∙ (index_row_kept t (column_index meta.schema "id") vals s.row_store.next_row_id a).0 in
      let this = v.tables ns name meta found in
      let others : (u : TableId) → t ≢ u → SameFor u s z = λ u ne. subst (SameFor u s) (sym e) (
        SameFor-trans u s a (push_columnar_row t row meta.schema b)
          (stored-SameFor meta vals s u ne)
          (SameFor-trans u a b (push_columnar_row t row meta.schema b)
            (index_row-SameFor t u (column_index meta.schema "id") vals s.row_store.next_row_id a
              ne)
            (push-SameFor t u row meta.schema b ne))) in
      (
        IsConsistent-step ns name meta s z v found cat
            (subst IsValid (sym store) (insert-IsValid s.row_store t row room v.store)) others
            (record {
              indexed = λ col at.
                  let (ix, there, agrees) = this.indexed col at in
                  let i =
                    insert_row-Indexed meta col vals s at room
                      (record { valid = v.store; ix = ix; index = there; agrees = agrees }) in
                  (i.ix, i.index, i.agrees);
              mirrored = λ c has.
                  (insert_row-Mirrors meta c vals s v.store has good (this.mirrored c has)).0;
            }),
        cat,
        ap (λ x. x.next_row_id) store ∙ next_after s.row_store t row room,
      )

  -- Rows that are inserted without an error keep the session consistent.
  pub insert_rows-IsConsistent :
      (ns name : String) (meta : TableMeta) (values : List (List (Value h))) (n k : ℕ)
      (s : SessionState h)
      → IsConsistent s
      → Catalog.get_table s.catalog ns name ≡ some meta
      → s.row_store.next_row_id + length values < u64_mod
      → (insert_rows meta values n s).0 ≡ ok k
      → IsConsistent (insert_rows meta values n s).1
  unfolding insert_rows
  insert_rows-IsConsistent ns name meta [] n k s v found room good = v
  insert_rows-IsConsistent ns name meta (vals ∷ rest) n k s v found room good =
      let z = (insert_row meta vals s).1 in
      let go : Unit {0} → Exec h ℕ = λ _. insert_rows meta rest (next_u64 n) in
      let done : (insert_row meta vals s).0 ≡ ok tt =
        (went_on (insert_row meta vals s).0 go z k good).1 in
      let e : insert_rows meta (vals ∷ rest) n s ≡ insert_rows meta rest (next_u64 n) z =
        ap (λ o. continue o go z) done in
      let (w, cat, next) = insert_row-IsConsistent ns name meta vals s v found (omega arith) done in
      subst (λ x. IsConsistent x.1) (sym e)
        (insert_rows-IsConsistent ns name meta rest (next_u64 n) k z w
          (subst (λ c. Catalog.get_table c ns name ≡ some meta) (sym cat) found)
          (omega (arith, next)) (sym (ap (λ x. x.0) e) ∙ good))
