-- ===== src/Executor/Write.antt =====
-- The arms of `execute_plan` in crates/rustafari-executor/src/lib.rs that write or describe.
pub mod Insert
pub mod Rows
pub mod Tables
pub mod Mirror
use Prim.Native.String.{◌++◌ as ◌+++◌}
use rustafari_db.Common.{
  ℕ, zero, suc, ◌/◌, ◌%◌, String, Bool, true, false, not, List, [], ◌∷◌, Option, none, some, map,
  next_u64, get_elem?, filter, ltb, ◌==◌, if◌then◌else◌,
}
use rustafari_db.Common.Decimal.{show_ℕ}
use rustafari_db.Common.HashMap
use rustafari_db.Common.HashMap.{HashMap, nat_eq, string_eq, pair_eq}
use rustafari_db.Core.Catalog
use rustafari_db.Core.Catalog.{TableId, TableMeta}
use rustafari_db.Core.Error.{Result, ok, err, panic}
use rustafari_db.Core.Host.{Host}
use rustafari_db.Core.Row
use rustafari_db.Core.Row.{Row}
use rustafari_db.Core.Schema
use rustafari_db.Core.Schema.{Schema, Column, ColumnType, new_column, column_index}
use rustafari_db.Core.Value.{Value, string}
use rustafari_db.Index.BTree
use rustafari_db.Index.BTree.{BTreeIndex, from_value}
use rustafari_db.Storage.Columnar
use rustafari_db.Storage.TableStore
use rustafari_db.Storage.TableStore.{RowId, TableStore}
use rustafari_db.Executor.Read.{ExecutionResult, rows, rows_affected, find_table}
use rustafari_db.Executor.State.{
  SessionState, Exec, pure, lift, continue, ◌>>=◌, ◌>>◌, push_columnar_row, get_index, or_public,
}

unfoldable pub column_type_name : ColumnType → String
unfolding show_ℕ
column_type_name ColumnType.big_int = "bigint"
column_type_name ColumnType.double = "double"
column_type_name (ColumnType.varchar none) = "varchar"
column_type_name (ColumnType.varchar (some n)) = "varchar(" +++ (show_ℕ n +++ ")")
column_type_name ColumnType.text = "text"
column_type_name ColumnType.boolean = "boolean"
column_type_name ColumnType.timestamp = "timestamp"
column_type_name ColumnType.date = "date"
column_type_name ColumnType.blob = "blob"
column_type_name ColumnType.document = "document"
column_type_name (ColumnType.array inner) = "array(" +++ (column_type_name inner +++ ")")
column_type_name (ColumnType.vector dim) = "vector(" +++ (show_ℕ dim +++ ")")

abbrev pub yes_no : Bool → String
yes_no true = "YES"
yes_no false = "NO"

module _ {h : Host} where
  -- The row goes into the index on `id`, if the table has the column and an index, and the row has
  -- the value; a value that cannot be a key is an error.
  unfoldable pub index_row : TableId → Option ℕ → List (Value h) → RowId → Exec h (Unit {0})
  unfolding get_index from_value BTree.insert
  index_row table_id none row_vals row_id s = (ok tt, s)
  index_row table_id (some id_idx) row_vals row_id s = elim (get_index s table_id "id") [
    | none ↦ (ok tt, s)
    | some index ↦ elim (get_elem? row_vals id_idx) [
      | none ↦ (ok tt, s)
      | some id_val ↦ elim (from_value id_val) [
        | ok key ↦ (
          ok tt,
          record s {
            index_store =
                HashMap.insert (table_id, "id") (BTree.insert index key row_id) s.index_store;
          },
        )
        | err e ↦ (err e, s)
        | panic ↦ (panic, s)
      ]
    ]
  ]

  -- One row of an INSERT: into the row store, the index and the columnar buffer, in this order.
  unfoldable pub insert_row : TableMeta → List (Value h) → Exec h (Unit {0})
  unfolding TableStore.insert index_row push_columnar_row column_index Row.new
  insert_row meta row_vals s =
      let row = Row.new row_vals in
      let (store, row_id) = TableStore.insert s.row_store meta.id row in
      (do
        index_row meta.id (column_index meta.schema "id") row_vals row_id
        λ s'. (ok tt, push_columnar_row meta.id row meta.schema s'))
        (record s { row_store = store })

  unfoldable pub insert_rows : TableMeta → List (List (Value h)) → ℕ → Exec h ℕ
  unfolding insert_row
  insert_rows meta [] count = pure count
  insert_rows meta (row_vals ∷ rest) count = do
    insert_row meta row_vals
    insert_rows meta rest (next_u64 count)

  unfoldable pub execute_insert :
      String → Option String → List (List (Value h)) → Exec h (ExecutionResult h)
  unfolding find_table insert_rows
  execute_insert table namespace values s =
      (do
        meta ← lift (find_table s namespace table)
        count ← insert_rows meta values 0
        pure (rows_affected count))
        s

  unfoldable pub execute_create_table :
      String → Option String → List (String × ColumnType) → Exec h (ExecutionResult h)
  unfolding Catalog.create_table Schema.new new_column column_index
  execute_create_table table namespace columns s =
      let schema = Schema.new (map (λ c. new_column c.0 c.1 true) columns) in
      let (catalog, meta) =
        Catalog.create_table s.catalog (or_public namespace) table schema none in
      let indexes : HashMap (TableId × String) BTreeIndex = elim (column_index meta.schema "id") [
        | none ↦ s.index_store
        | some _ ↦ HashMap.insert (meta.id, "id") BTree.new s.index_store
      ] in
      (ok (rows_affected 0), record s { catalog = catalog; index_store = indexes })

  unfoldable pub execute_drop_table : String → Option String → Exec h (ExecutionResult h)
  unfolding find_table TableStore.drop_table Columnar.drop_table Catalog.drop_table
  execute_drop_table table namespace s =
      (do
        meta ← lift (find_table s namespace table)
        store ← lift (TableStore.drop_table s.row_store meta.id)
        λ s'. (
          ok (rows_affected 0),
          record s' {
            catalog = (Catalog.drop_table s.catalog (or_public namespace) table).0;
            row_store = store;
            columnar_store = Columnar.drop_table s.columnar_store meta.id;
            index_store = filter (λ e. not (e.0.0 == meta.id)) s.index_store;
          },
        ))
        s

  abbrev pub describe_column : Column → Row h
  describe_column col = Row.new (
      string col.name ∷ string (column_type_name col.data_type) ∷ string (yes_no col.nullable) ∷ [])

  unfoldable pub execute_describe_table : String → Option String → Exec h (ExecutionResult h)
  unfolding find_table column_type_name Row.new
  execute_describe_table table namespace s =
      (do
        meta ← lift (find_table s namespace table)
        pure (rows (map describe_column meta.schema.columns)))
        s
