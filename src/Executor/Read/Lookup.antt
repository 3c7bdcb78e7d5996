-- ===== src/Executor/Read/Lookup.antt =====
-- The index path of a filter in crates/rustafari-executor/src/lib.rs against the scan path.
use rustafari_db.Common.{
  ℕ, ◌≡◌, refl, ◌∙◌, sym, ap, String, Bool, false, List, [], ◌∷◌, map, Option, none, some, arith,
  filter, All, get_elem?, inl, inr, ◌⊎◌,
}
use rustafari_db.Common.Int.{ℤ, pos, negsuc, IsI64, eq_ℤ}
use rustafari_db.Common.BTreeMap
use rustafari_db.Common.BTreeMap.{BTreeMap, IsSorted, Above, is_eq}
use rustafari_db.Core.Catalog.{TableId, TableMeta}
use rustafari_db.Core.Error.{ok, err, panic}
use rustafari_db.Core.Host.{Host}
use rustafari_db.Core.Row
use rustafari_db.Core.Row.{Row}
use rustafari_db.Core.Schema.{Schema, column_index}
use rustafari_db.Core.Value.{Value, int64, null, value_eq}
use rustafari_db.Index.BTree
use rustafari_db.Index.BTree.{
  BTreeIndex, IndexKey, cmp_bytes, cmp_bytes_refl, eq_of_cmp_bytes, from_value,
}
use rustafari_db.Index.BTree.Key.{int_key, key_order, cmp_bytes-int_key}
use rustafari_db.Storage.TableStore
use rustafari_db.Storage.TableStore.{TableStore, RowId, RowKey, key_ord, cmp_key}
use rustafari_db.Storage.TableStore.Rows.{IsValid, entries, rows_of}
use rustafari_db.Sql.Plan.{PlanNode, FilterExpr, cmp, eq_op}
use rustafari_db.Executor.Predicate.{
  IdLookup, point, test_value, field_of, eval_predicate, predicate_to_id_lookup,
}
use rustafari_db.Executor.State.{SessionState, Exec, get_index}
use rustafari_db.Executor.Read.{
  ExecutionResult, rows, find_table, scan_meta, execute_scan, lookup_ids, fetch_rows, index_lookup,
  execute_filter,
}

is_eq-key_order : (a b : ℤ) → is_eq (key_order a b) ≡ eq_ℤ b a
is_eq-key_order (pos a) (pos b) = ground arith
is_eq-key_order (pos a) (negsuc b) = refl
is_eq-key_order (negsuc a) (pos b) = refl
is_eq-key_order (negsuc a) (negsuc b) = ground arith

is_eq-int_key : (a b : ℤ) → IsI64 a → IsI64 b → is_eq (cmp_bytes (int_key a) (int_key b)) ≡ eq_ℤ b a
is_eq-int_key a b ha hb = ap is_eq (cmp_bytes-int_key a b ha hb) ∙ is_eq-key_order a b

module _ {h : Host} where
  -- The value in a column has the key.
  abbrev pub value_has_key : IndexKey → Option (Value h) → Bool
  value_has_key key none = false
  value_has_key key (some v) = elim (from_value v) [
    | ok k ↦ is_eq (cmp_bytes key k)
    | err _ ↦ false
    | panic ↦ false
  ]

  abbrev pub has_key : ℕ → IndexKey → Row h → Bool
  has_key col key row = value_has_key key (get_elem? row.values col)

  -- The identifiers of the rows whose value in the column has the key, in row order.
  abbrev pub ids_with : ℕ → IndexKey → List (RowId × Row h) → List RowId
  ids_with col key rs = map (λ r. r.0) (filter (λ r. has_key col key r.1) rs)

  -- The index holds at every key the rows of the table that have the key in the column.
  abbrev pub Agrees : TableId → ℕ → BTreeIndex → TableStore h → Type 0
  Agrees t col ix store = (key : IndexKey) → BTree.get ix key ≡ ids_with col key (rows_of store t)

  get_past : (k : RowKey) (m : BTreeMap RowKey (Row h)) → Above k m → BTreeMap.get k m ≡ none
  unfolding BTreeMap.get
  get_past k [] a = refl
  get_past k (e ∷ m) a = ground (arith, get_past k m)

  -- Rows that stand in a map.
  abbrev Stored : TableId → BTreeMap RowKey (Row h) → List (RowId × Row h) → Type 0
  Stored t m rs = All (λ r. BTreeMap.get (t, r.0) m ≡ some r.1) rs

  Stored-under_cons :
      (t : TableId) (e : RowKey × Row h) (m n : BTreeMap RowKey (Row h))
      → Above e.0 n
      → Stored t m (map (λ x. (x.0.1, x.1)) (entries t n))
      → Stored t (e ∷ m) (map (λ x. (x.0.1, x.1)) (entries t n))
  unfolding BTreeMap.get
  Stored-under_cons t e m [] a st = tt
  Stored-under_cons t e m (x ∷ n) a st = ground (arith, Stored-under_cons t e m n)

  rows_of-Stored :
      (t : TableId) (m : BTreeMap RowKey (Row h))
      → IsSorted m
      → Stored t m (map (λ x. (x.0.1, x.1)) (entries t m))
  unfolding BTreeMap.get
  rows_of-Stored t [] s = tt
  rows_of-Stored t (e ∷ m) s = ground (arith, rows_of-Stored t m s.1, Stored-under_cons t e m m s.0)

  Stored-of_filter :
      (t : TableId) (m : BTreeMap RowKey (Row h)) (p : RowId × Row h → Bool)
      (rs : List (RowId × Row h))
      → Stored t m rs
      → Stored t m (filter p rs)
  Stored-of_filter t m p [] st = tt
  Stored-of_filter t m p (r ∷ rs) st = ground (arith, Stored-of_filter t m p rs)

  fetch_rows_of_Stored :
      (s : TableStore h) (t : TableId) (rs : List (RowId × Row h))
      → Stored t s.rows rs
      → fetch_rows s t (map (λ r. r.0) rs) ≡ map (λ r. r.1) rs
  unfolding fetch_rows TableStore.get
  fetch_rows_of_Stored s t [] st = refl
  fetch_rows_of_Stored s t (r ∷ rs) st =
      rw (st.0, fetch_rows) (ap (◌∷◌ r.1) (fetch_rows_of_Stored s t rs st.1))

  -- The column of every row holds an `i64`, a NULL, or nothing.
  abbrev pub HasInts : ℕ → List (RowId × Row h) → Type 0
  HasInts col = All λ r.
      (get_elem? r.1.values col ≡ none)
      ⊎ ((get_elem? r.1.values col ≡ some null)
          ⊎ ((a : ℤ) × (get_elem? r.1.values col ≡ some (int64 a)) × IsI64 a))

  abbrev pub id_is : ℤ → FilterExpr h
  id_is v = cmp "id" eq_op (int64 v)

  field_of_id :
      (schema : Schema) (row : Row h) (col : ℕ)
      → column_index schema "id" ≡ some col
      → field_of row schema "id" ≡ get_elem? row.values col
  unfolding field_of Row.get
  field_of_id schema row col e = rw (e, field_of) refl

  has_key-eval_predicate :
      (col : ℕ) (v : ℤ) (schema : Schema) (r : RowId × Row h)
      → column_index schema "id" ≡ some col
      → IsI64 v
      → (get_elem? r.1.values col ≡ none)
        ⊎ ((get_elem? r.1.values col ≡ some null)
            ⊎ ((a : ℤ) × (get_elem? r.1.values col ≡ some (int64 a)) × IsI64 a))
      → has_key col (int_key v) r.1 ≡ eval_predicate r.1 (id_is v) schema
  unfolding eval_predicate test_value from_value value_eq
  has_key-eval_predicate col v schema r e hv cases =
      let holds : Option (Value h) → Bool =
        λ o. elim o [ none ↦ false | some x ↦ test_value eq_op x (int64 v) ] in
      let at : field_of r.1 schema "id" ≡ get_elem? r.1.values col = field_of_id schema r.1 col e in
      elim cases [
        | inl absent ↦ ap (value_has_key (int_key v)) absent ∙ sym (ap holds (at ∙ absent))
        | inr (inl isnull) ↦ ap (value_has_key (int_key v)) isnull ∙ sym (ap holds (at ∙ isnull))
        | inr (inr (a, there, ha)) ↦
            ap (value_has_key (int_key v)) there
            ∙ is_eq-int_key v a hv ha
            ∙ sym (ap holds (at ∙ there))
      ]

  rows_with_key :
      (col : ℕ) (v : ℤ) (schema : Schema) (rs : List (RowId × Row h))
      → column_index schema "id" ≡ some col
      → IsI64 v
      → HasInts col rs
      → map (λ r. r.1) (filter (λ r. has_key col (int_key v) r.1) rs)
        ≡ filter (λ row. eval_predicate row (id_is v) schema) (map (λ r. r.1) rs)
  rows_with_key col v schema [] e hv ints = refl
  rows_with_key col v schema (r ∷ rs) e hv ints = ground (
    arith,
    has_key-eval_predicate col v schema r e hv ints.0,
    rows_with_key col v schema rs e hv ints.1,
  )

  index_lookup_of_id :
      (table : String) (namespace : Option String) (v : ℤ) (s : SessionState h) (t : TableId)
      (ix : BTreeIndex)
      → get_index s t "id" ≡ some ix
      → index_lookup s t (PlanNode.scan table namespace) (id_is v) ≡ some (ix, point (int64 v))
  unfolding index_lookup predicate_to_id_lookup
  index_lookup_of_id table namespace v s t ix indexed = rw (indexed, index_lookup) refl

  filter_by_index :
      (input : PlanNode h) (p : FilterExpr h) (run : Exec h (ExecutionResult h))
      (s : SessionState h) (meta : TableMeta) (ix : BTreeIndex) (look : IdLookup h)
      (ids : List RowId)
      → scan_meta s input ≡ ok meta
      → index_lookup s meta.id input p ≡ some (ix, look)
      → lookup_ids ix look ≡ ok ids
      → execute_filter input p run s ≡ (ok (rows (fetch_rows s.row_store meta.id ids)), s)
  unfolding execute_filter
  filter_by_index input p run s meta ix look ids e1 e2 e3 = ground (arith, e1, e2, e3)

  -- A filter `id = v` on a table whose column `id` is indexed takes the index, and yields the rows
  -- that the predicate accepts among all rows of the table, in row order, with the state unchanged:
  -- what a scan would yield. The index agrees with the rows, the row store is valid, the table is
  -- not the last `u64`, `v` is an `i64`, and the column holds integers, NULLs or nothing.
  pub point_lookup :
      (table : String) (namespace : Option String) (v : ℤ) (s : SessionState h) (meta : TableMeta)
      (col : ℕ) (ix : BTreeIndex)
      → find_table s namespace table ≡ ok meta
      → column_index meta.schema "id" ≡ some col
      → get_index s meta.id "id" ≡ some ix
      → Agrees meta.id col ix s.row_store
      → IsValid s.row_store
      → HasInts col (rows_of s.row_store meta.id)
      → IsI64 v
      → execute_filter (PlanNode.scan table namespace) (id_is v) (execute_scan table namespace) s
        ≡ (
          ok (
              rows (
                filter
                  (λ row. eval_predicate row (id_is v) meta.schema)
                  (map (λ r. r.1) (rows_of s.row_store meta.id)))),
          s,
        )
  unfolding scan_meta lookup_ids from_value
  point_lookup table namespace v s meta col ix found at indexed agrees valid ints hv =
      let rs = rows_of s.row_store meta.id in
      let hits = filter (λ r. has_key col (int_key v) r.1) rs in
      filter_by_index (PlanNode.scan table namespace) (id_is v) (execute_scan table namespace) s
        meta ix (point (int64 v)) (map (λ r. r.0) hits) found
        (index_lookup_of_id table namespace v s meta.id ix indexed) (ap ok (agrees (int_key v)))
      ∙ ap (λ r. (ok (rows r), s))
          (fetch_rows_of_Stored s.row_store meta.id hits (
              Stored-of_filter meta.id s.row_store.rows _ rs
                (rows_of-Stored meta.id s.row_store.rows valid.sorted))
            ∙ rows_with_key col v meta.schema rs at hv ints)
