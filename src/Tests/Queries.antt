-- ===== src/Tests/Queries.antt =====
-- The theorems on plans and aggregates at the session with two rows in `people`.
use mathlib.Core.List.{Perm}
use rustafari_db.Common.{◌≡◌, refl, String, false, List, [], ◌∷◌, map, none, arith, take, drop}
use rustafari_db.Common.HashMap
use rustafari_db.Common.HashMap.{HashMap, nat_eq, string_eq}
use rustafari_db.Common.BTreeMap
use rustafari_db.Common.TextOrder.{text_ord}
use rustafari_db.Common.Sort.{Ranked}
use rustafari_db.Common.Int.{pos}
use rustafari_db.Core.Catalog
use rustafari_db.Core.Catalog.{Catalog, TableId, TableMeta}
use rustafari_db.Core.Error.{ok}
use rustafari_db.Core.Row
use rustafari_db.Core.Row.{Row}
use rustafari_db.Core.Schema
use rustafari_db.Core.Schema.{Schema, ColumnType, column_index}
use rustafari_db.Core.Value.{Value, int64, string}
use rustafari_db.Index.BTree
use rustafari_db.Index.BTree.{BTreeIndex, from_value}
use rustafari_db.Storage.TableStore
use rustafari_db.Storage.TableStore.{RowId, TableStore}
use rustafari_db.Storage.TableStore.Rows.{scan-rows_of}
use rustafari_db.Storage.Columnar
use rustafari_db.Storage.Columnar.{ColumnarChunk}
use rustafari_db.Sql.Plan.{PlanNode, AggExpr, cmp, gt_op}
use rustafari_db.Executor.State.{
  get_index, push_columnar_row, flush_columnar_buffer, store_chunk, build_columns,
}
use rustafari_db.Executor.State.Buffer.{value_in, chunk_values}
use rustafari_db.Executor.Read.{rows, scan_meta, execute_scan}
use rustafari_db.Executor.Write.{insert_row, index_row, insert_rows, execute_create_table}
use rustafari_db.Executor.Group.{find_order, execute_order_by}
use rustafari_db.Core.Error.{◌>>=◌ as and_then}
use rustafari_db.Executor.Group.Projected.{order_by-project}
use rustafari_db.Executor.Group.Order.{InOrder, order_by-Ranked}
use rustafari_db.Executor.Plan.{execute_node}
use rustafari_db.Executor.Plan.Answers.{limit-take-drop, aggregate_past_filter}
use rustafari_db.Tests.Fixtures.{host, people, filled, id_column}
use rustafari_db.Tests.Session.{people-filled, people_id, filled_rows}

-- The text of a value, for the keys of groups.
abbrev pub show_value : Value host → String
show_value (string s) = s
show_value _ = "?"

abbrev pub scan_people : PlanNode host
scan_people = PlanNode.scan "people" none

abbrev pub ada : Row host
ada = Row.new (int64 (pos 7) ∷ string "ada" ∷ [])

abbrev pub bob : Row host
bob = Row.new (int64 (pos 9) ∷ string "bob" ∷ [])

abbrev chunk : ColumnarChunk host
chunk = Columnar.new_chunk 0 (build_columns people.schema (ada ∷ bob ∷ []))

flushed_chunks :
    Columnar.chunks (flush_columnar_buffer people.id people.schema filled).columnar_store people.id
    ≡ chunk ∷ []
unfolding execute_create_table Catalog.create_table Catalog.add_table Catalog.ensure_namespace
    Schema.new Schema.collect_index Schema.new_column column_index HashMap.get HashMap.insert
    insert_rows insert_row index_row push_columnar_row TableStore.insert BTreeMap.insert
    BTreeMap.get get_index from_value BTree.be_bytes BTree.insert BTree.get flush_columnar_buffer
    store_chunk build_columns Columnar.chunks Columnar.insert_chunk Columnar.next_chunk_id
    Columnar.new_chunk Row.get Row.new
flushed_chunks = refl

aggregate_past_filter_example :
    execute_node show_value
      (PlanNode.aggregate
        (PlanNode.filter scan_people (cmp "id" gt_op (int64 (pos 8))))
        (AggExpr.sum "id" ∷ []))
      filled
    ≡ execute_node show_value (PlanNode.aggregate scan_people (AggExpr.sum "id" ∷ [])) filled
unfolding scan_meta
aggregate_past_filter_example =
    aggregate_past_filter show_value scan_people (cmp "id" gt_op (int64 (pos 8)))
      (AggExpr.sum "id" ∷ []) filled people chunk [] people-filled flushed_chunks

chunk_ids : chunk_values "id" (chunk ∷ []) ≡ map (value_in people.schema "id") (ada ∷ bob ∷ [])
unfolding Catalog.create_table Catalog.add_table Catalog.ensure_namespace Schema.new
    Schema.collect_index Schema.new_column column_index HashMap.get HashMap.insert build_columns
    Columnar.new_chunk Columnar.column Columnar.find_column Row.get Row.new
chunk_ids = refl

pub row_ids :
    map (value_in people.schema "id") (ada ∷ bob ∷ []) ≡ int64 (pos 7) ∷ int64 (pos 9) ∷ []
unfolding Catalog.create_table Catalog.add_table Catalog.ensure_namespace Schema.new
    Schema.collect_index Schema.new_column column_index HashMap.get HashMap.insert Row.get Row.new
row_ids = refl

scanned : execute_node show_value scan_people filled ≡ (ok (rows (ada ∷ bob ∷ [])), filled)
unfolding execute_node execute_scan
scanned = ground (
  arith,
  people-filled,
  scan-rows_of filled.row_store people.id (rw people_id (omega arith)),
  filled_rows,
)

limit-take-drop_example :
    execute_node show_value (PlanNode.limit scan_people 1 1) filled
    ≡ (ok (rows (take 1 (drop 1 (ada ∷ bob ∷ [])))), filled)
limit-take-drop_example =
    limit-take-drop show_value scan_people 1 1 (ada ∷ bob ∷ []) filled filled scanned

order_by-Ranked_example :
    (out : List (Row host)) × (execute_order_by scan_people
        (("id", false) ∷ [])
        (execute_node show_value scan_people)
        filled
      ≡ (ok (rows out), filled))
    × Perm out (ada ∷ bob ∷ [])
    × Ranked (InOrder ((0, false) ∷ [])) out
unfolding scan_meta Row.get Row.new
order_by-Ranked_example =
    order_by-Ranked scan_people (("id", false) ∷ []) (execute_node show_value scan_people)
      (ada ∷ bob ∷ []) filled filled people ((0, false) ∷ []) scanned people-filled
      (id_column, refl, tt) (((pos 7, refl), tt), (((pos 9, refl), tt), tt))

by_name : find_order people.schema (("name", false) ∷ []) ≡ ok ((1, false) ∷ [])
unfolding find_order Catalog.create_table Catalog.add_table Catalog.ensure_namespace Schema.new
    Schema.collect_index Schema.new_column column_index HashMap.get HashMap.insert
by_name = refl

-- SELECT id FROM people ORDER BY name DESC
order_by-project_example :
    execute_node show_value
      (PlanNode.order_by (PlanNode.project scan_people ("id" ∷ [])) (("name", false) ∷ []))
      filled
    ≡ execute_node show_value (PlanNode.project scan_people ("id" ∷ [])) filled
unfolding scan_meta
order_by-project_example =
    order_by-project show_value scan_people ("id" ∷ []) (("name", false) ∷ []) (ada ∷ bob ∷ [])
      filled filled people ((1, false) ∷ []) scanned people-filled by_name (omega arith, tt)
