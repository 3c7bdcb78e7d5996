-- ===== src/Executor/Write/Mirror.antt =====
-- The columns of a table over its chunks and buffer against its rows, while rows are inserted by
-- crates/rustafari-executor/src/lib.rs.
use rustafari_db.Common.{
  ℕ, subst, ◌+◌, ◌<◌, ◌≡◌, refl, ◌∙◌, sym, ap, String, true, List, [], ◌∷◌, ◌++◌, map, length,
  Option, arith, next_u64, u64_mod,
}
use rustafari_db.Core.Catalog.{TableId, TableMeta}
use rustafari_db.Core.Error.{Result, ok, err, panic}
use rustafari_db.Core.Host.{Host}
use rustafari_db.Core.Row
use rustafari_db.Core.Row.{Row}
use rustafari_db.Core.Schema.{Schema, column_index}
use rustafari_db.Core.Value.{Value}
use rustafari_db.Storage.TableStore
use rustafari_db.Storage.TableStore.{TableStore, RowId}
use rustafari_db.Storage.TableStore.Rows.{IsValid, rows_of, insert-IsValid}
use rustafari_db.Storage.TableStore.Tables.{rows_of-insert}
use rustafari_db.Executor.State.{SessionState, Exec, continue, push_columnar_row}
use rustafari_db.Executor.State.Buffer.{value_in, column_values, has_column, column_values_after}
use rustafari_db.Executor.Write.{index_row, insert_row, insert_rows}
use rustafari_db.Executor.Write.Insert.{push-row_store}
use rustafari_db.Executor.Write.Rows.{next_after}

module _ {h : Host} where
  -- The chunks and the buffer hold the values of the table's rows for the column, in row order.
  abbrev pub Mirrors : TableId → Schema → String → SessionState h → Type 0
  Mirrors t schema name s =
      column_values t schema name s ≡ map (λ r. value_in schema name r.1) (rows_of s.row_store t)

  column_values_of_eq :
      (t : TableId) (schema : Schema) (name : String) (s s' : SessionState h)
      → s'.columnar_store ≡ s.columnar_store
      → s'.columnar_buffer ≡ s.columnar_buffer
      → column_values t schema name s' ≡ column_values t schema name s
  column_values_of_eq t schema name s s' e b = ground (arith, e, b)

  pub index_row_kept :
      (t : TableId) (col : Option ℕ) (vals : List (Value h)) (row_id : RowId) (s : SessionState h)
      → ((index_row t col vals row_id s).1.row_store ≡ s.row_store)
        × ((index_row t col vals row_id s).1.columnar_store ≡ s.columnar_store)
        × ((index_row t col vals row_id s).1.columnar_buffer ≡ s.columnar_buffer)
  unfolding index_row
  index_row_kept t col vals row_id s = (ground arith, ground arith, ground arith)

  map-append_one :
      (f : RowId × Row h → Value h) (xs : List (RowId × Row h)) (x : RowId × Row h)
      → map f (xs ++ x ∷ []) ≡ map f xs ++ f x ∷ []
  map-append_one f [] x = refl
  map-append_one f (y ∷ xs) x = ap (◌∷◌ (f y)) (map-append_one f xs x)

  -- A step that ends well has gone on.
  pub went_on :
      {A B : Type 0} (o : Result A) (f : A → Exec h B) (z : SessionState h) (b : B)
      → (continue o f z).0 ≡ ok b
      → (a : A) × (o ≡ ok a)
  went_on (ok a) f z b e = (a, refl)
  went_on (err x) f z b e = cc
  went_on panic f z b e = cc

  abbrev push : TableId → Row h → Schema → Unit {0} → Exec h (Unit {0})
  push t row schema _ s' = (ok tt, push_columnar_row t row schema s')

  -- A row that is inserted without an error reaches the columns as it reaches the rows.
  pub insert_row-Mirrors :
      (meta : TableMeta) (name : String) (vals : List (Value h)) (s : SessionState h)
      → IsValid s.row_store
      → has_column name meta.schema.columns ≡ true
      → (insert_row meta vals s).0 ≡ ok tt
      → Mirrors meta.id meta.schema name s
      → Mirrors meta.id meta.schema name (insert_row meta vals s).1
        × ((insert_row meta vals s).1.row_store
            ≡ (TableStore.insert s.row_store meta.id (Row.new vals)).0)
  unfolding insert_row
  insert_row-Mirrors meta name vals s v has good m =
      let row : Row h = Row.new vals in
      let t = meta.id in
      let f : RowId × Row h → Value h = λ r. value_in meta.schema name r.1 in
      let s1 : SessionState h = record s { row_store = (TableStore.insert s.row_store t row).0 } in
      let step = index_row t (column_index meta.schema "id") vals s.row_store.next_row_id s1 in
      let (rows_same, chunks_same, buffer_same) =
        index_row_kept t (column_index meta.schema "id") vals s.row_store.next_row_id s1 in
      let e : (insert_row meta vals s).1 ≡ push_columnar_row t row meta.schema step.1 =
        ap (λ o. (continue o (push t row meta.schema) step.1).1)
          (went_on step.0 (push t row meta.schema) step.1 tt good).1 in
      let store : (insert_row meta vals s).1.row_store ≡ (TableStore.insert s.row_store t row).0 =
        ap (λ z. z.row_store) e ∙ push-row_store t row meta.schema step.1 ∙ rows_same in
      (
        ap (column_values t meta.schema name) e
            ∙ (column_values_after t row meta.schema name step.1 has).0
            ∙ ap (λ vs. vs ++ value_in meta.schema name row ∷ [])
                (column_values_of_eq t meta.schema name s step.1 chunks_same buffer_same ∙ m)
            ∙ sym (map-append_one f (rows_of s.row_store t) (s.row_store.next_row_id, row))
            ∙ ap (map f) (sym (rows_of-insert s.row_store t row v))
            ∙ ap (λ z. map f (rows_of z t)) (sym store),
        store,
      )

  -- An INSERT that ends well leaves every column of its table, over the chunks and the buffer, with
  -- the values of the table's rows in row order, if it was so before. The row store is valid, its
  -- identifiers do not run out, and the column is one of the schema's.
  pub insert_rows-Mirrors :
      (meta : TableMeta) (name : String) (values : List (List (Value h))) (n k : ℕ)
      (s : SessionState h)
      → IsValid s.row_store
      → s.row_store.next_row_id + length values < u64_mod
      → has_column name meta.schema.columns ≡ true
      → (insert_rows meta values n s).0 ≡ ok k
      → Mirrors meta.id meta.schema name s
      → Mirrors meta.id meta.schema name (insert_rows meta values n s).1
  unfolding insert_rows
  insert_rows-Mirrors meta name [] n k s v room has good m = m
  insert_rows-Mirrors meta name (vals ∷ rest) n k s v room has good m =
      let s1 = (insert_row meta vals s).1 in
      let go : Unit {0} → Exec h ℕ = λ _. insert_rows meta rest (next_u64 n) in
      let done : (insert_row meta vals s).0 ≡ ok tt =
        (went_on (insert_row meta vals s).0 go s1 k good).1 in
      let e : insert_rows meta (vals ∷ rest) n s ≡ insert_rows meta rest (next_u64 n) s1 =
        ap (λ o. continue o go s1) done in
      let (m1, store) = insert_row-Mirrors meta name vals s v has done m in
      let v1 : IsValid s1.row_store =
        rw store (insert-IsValid s.row_store meta.id (Row.new vals) (omega arith) v) in
      let next : s1.row_store.next_row_id ≡ s.row_store.next_row_id + 1 =
        ap (λ z. z.next_row_id) store
        ∙ next_after s.row_store meta.id (Row.new vals) (omega arith) in
      subst (λ z. Mirrors meta.id meta.schema name z.1) (sym e)
        (insert_rows-Mirrors meta name rest (next_u64 n) k s1 v1 (omega (arith, next)) has
          (sym (ap (λ z. z.0) e) ∙ good) m1)
