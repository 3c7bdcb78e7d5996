-- ===== src/Executor/Write/Insert.antt =====
-- What an INSERT of crates/rustafari-executor/src/lib.rs does to the rows and the index of its table.
use rustafari_db.Common.{
  ℕ, ◌≡◌, refl, String, true, false, List, [], ◌∷◌, ◌++◌, Option, none, some, arith, if◌then◌else◌,
  get_elem?, Option-cases, inl, inr, ◌⊎◌,
}
use rustafari_db.Common.HashMap.{get_same, nat_eq, string_eq, pair_eq}
use rustafari_db.Core.Catalog.{TableId, TableMeta}
use rustafari_db.Core.Error.{RustafariError, Result, ok, err}
use rustafari_db.Core.Host.{Host}
use rustafari_db.Core.Row
use rustafari_db.Core.Row.{Row}
use rustafari_db.Core.Schema.{Schema, column_index}
use rustafari_db.Core.Value.{
  Value, null, bool, int64, float64, string, bytes, timestamp, date, document, array, vector,
}
use rustafari_db.Index.BTree
use rustafari_db.Index.BTree.{BTreeIndex, IndexKey, cmp_bytes, from_value}
use rustafari_db.Index.BTree.Rows.{ids_after}
use rustafari_db.Storage.TableStore
use rustafari_db.Storage.TableStore.{TableStore, RowId}
use rustafari_db.Executor.State.{SessionState, get_index, push_columnar_row, store_chunk}
use rustafari_db.Executor.Read.Lookup.{has_key, ids_with}
use rustafari_db.Executor.Write.{index_row, insert_row}

abbrev pub error_of : Result IndexKey → Option RustafariError
error_of (err e) = some e
error_of _ = none

abbrev pub insert_key : BTreeIndex → RowId → Result IndexKey → BTreeIndex
insert_key ix row_id (ok key) = BTree.insert ix key row_id
insert_key ix row_id _ = ix

module _ {h : Host} where
  from_value-cases :
      (v : Value h)
      → ((key : IndexKey) × (from_value v ≡ ok key))
        ⊎ ((e : RustafariError) × (from_value v ≡ err e))
  unfolding from_value
  from_value-cases null = inr (_, refl)
  from_value-cases (bool true) = inl (_, refl)
  from_value-cases (bool false) = inl (_, refl)
  from_value-cases (int64 _) = inl (_, refl)
  from_value-cases (float64 _) = inl (_, refl)
  from_value-cases (string _) = inl (_, refl)
  from_value-cases (bytes _) = inr (_, refl)
  from_value-cases (timestamp _) = inl (_, refl)
  from_value-cases (date _) = inl (_, refl)
  from_value-cases (document _) = inr (_, refl)
  from_value-cases (array _) = inr (_, refl)
  from_value-cases (vector _) = inr (_, refl)

  -- The error of a row whose value in the indexed column cannot be a key.
  abbrev pub bad_key : ℕ → List (Value h) → Option RustafariError
  bad_key col vals = elim (get_elem? vals col) [ none ↦ none | some v ↦ error_of (from_value v) ]

  -- The index with a row added, where the row has a key.
  abbrev pub index_with : BTreeIndex → RowId → Option (Value h) → BTreeIndex
  index_with ix row_id none = ix
  index_with ix row_id (some v) = insert_key ix row_id (from_value v)

  pub push-row_store :
      (t : TableId) (row : Row h) (schema : Schema) (s : SessionState h)
      → (push_columnar_row t row schema s).row_store ≡ s.row_store
  unfolding push_columnar_row store_chunk
  push-row_store t row schema s = ground arith

  push-get_index :
      (t : TableId) (row : Row h) (schema : Schema) (s : SessionState h) (u : TableId) (c : String)
      → get_index (push_columnar_row t row schema s) u c ≡ get_index s u c
  unfolding push_columnar_row store_chunk get_index
  push-get_index t row schema s u c = ground arith

  index_row_lem :
      (t : TableId) (col : ℕ) (vals : List (Value h)) (row_id : RowId) (s : SessionState h)
      (ix : BTreeIndex)
      → get_index s t "id" ≡ some ix
      → ((index_row t (some col) vals row_id s).0
          ≡ elim (bad_key col vals) [ none ↦ ok tt | some e ↦ err e ])
        × ((index_row t (some col) vals row_id s).1.row_store ≡ s.row_store)
        × (get_index (index_row t (some col) vals row_id s).1 t "id"
            ≡ some (index_with ix row_id (get_elem? vals col)))
  unfolding index_row get_index
  index_row_lem t col vals row_id s ix e = elim (Option-cases (get_elem? vals col)) [
    | inl absent ↦ (ground (arith, e, absent), ground (arith, e, absent), ground (arith, e, absent))
    | inr (v, there) ↦ elim (from_value-cases v) [
      | inl (key, has) ↦ (
        ground (arith, e, there, has),
        ground (arith, e, there, has),
        ground
            (arith, e, there, has, get_same (t, "id") (BTree.insert ix key row_id) s.index_store),
      )
      | inr (x, bad) ↦ (
        ground (arith, e, there, bad),
        ground (arith, e, there, bad),
        ground (arith, e, there, bad),
      )
    ]
  ]

  pub insert_row_lem :
      (meta : TableMeta) (col : ℕ) (vals : List (Value h)) (s : SessionState h) (ix : BTreeIndex)
      → column_index meta.schema "id" ≡ some col
      → get_index s meta.id "id" ≡ some ix
      → ((insert_row meta vals s).0 ≡ elim (bad_key col vals) [ none ↦ ok tt | some e ↦ err e ])
        × ((insert_row meta vals s).1.row_store
            ≡ (TableStore.insert s.row_store meta.id (Row.new vals)).0)
        × (get_index (insert_row meta vals s).1 meta.id "id"
            ≡ some (index_with ix s.row_store.next_row_id (get_elem? vals col)))
  unfolding insert_row TableStore.insert
  insert_row_lem meta col vals s ix at indexed =
      let row_id = s.row_store.next_row_id in
      let s1 : SessionState h = record s {
        row_store = (TableStore.insert s.row_store meta.id (Row.new vals)).0;
      } in
      let after = (index_row meta.id (some col) vals row_id s1).1 in
      ground (
        arith,
        at,
        index_row_lem meta.id col vals row_id s1 ix indexed,
        push-row_store meta.id (Row.new vals) meta.schema after,
        push-get_index meta.id (Row.new vals) meta.schema after meta.id "id",
      )

  pub has_key-index_with :
      (ix : BTreeIndex) (col : ℕ) (key : IndexKey) (vals : List (Value h)) (row_id : RowId)
      → BTree.get (index_with ix row_id (get_elem? vals col)) key ≡ (
          if has_key col key (Row.new vals)
          then BTree.get ix key ++ row_id ∷ []
          else BTree.get ix key)
  unfolding Row.new
  has_key-index_with ix col key vals row_id = elim (Option-cases (get_elem? vals col)) [
    | inl absent ↦ ground (arith, absent)
    | inr (v, there) ↦ elim (from_value-cases v) [
      | inl (k, has) ↦ ground (arith, there, has, (ids_after ix k key row_id).0)
      | inr (x, bad) ↦ ground (arith, there, bad)
    ]
  ]

  pub ids_with-append_one :
      (col : ℕ) (key : IndexKey) (rs : List (RowId × Row h)) (r : RowId × Row h)
      → ids_with col key (rs ++ r ∷ [])
        ≡ (if has_key col key r.1 then ids_with col key rs ++ r.0 ∷ [] else ids_with col key rs)
  ids_with-append_one col key [] r = ground arith
  ids_with-append_one col key (x ∷ rs) r = ground (arith, ids_with-append_one col key rs r)
