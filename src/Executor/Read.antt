-- ===== src/Executor/Read.antt =====
-- The arms of `execute_plan` in crates/rustafari-executor/src/lib.rs that read: scan, filter, project
-- and limit. Where an arm runs its input, the run is an argument, which `execute_plan` gives as its
-- own call.
pub mod Lookup
use Prim.Native.Nat.{compare as compare_ℕ}
use Prim.Native.String.{◌++◌ as ◌+++◌}
use text.Mathlib.Text.{◌==◌ as str_eq}
use rustafari_db.Common.{
  ℕ, zero, suc, ◌+◌, ◌-◌, ◌/◌, ◌%◌, String, Bool, true, false, not, List, [], ◌∷◌, ◌++◌, Option,
  none, some, map, length, take, drop, filter, min, next_u64, Ordering, lt, eq, gt, ltb, ◌==◌,
  if◌then◌else◌,
}
use rustafari_db.Common.BTreeMap
use rustafari_db.Common.BTreeMap.{BTreeMap}
use rustafari_db.Common.TextOrder.{text_ord}
use rustafari_db.Common.HashMap
use rustafari_db.Common.HashMap.{HashMap, nat_eq, string_eq, pair_eq}
use rustafari_db.Common.Sort.{sort_by}
use rustafari_db.Core.Catalog
use rustafari_db.Core.Catalog.{Catalog, TableId, TableMeta}
use rustafari_db.Core.Error.{
  RustafariError, Result, ok, err, panic, ok_or, collect, execution, table_not_found,
  ◌>>=◌ as and_then,
}
use rustafari_db.Core.Host.{Host}
use rustafari_db.Core.Row
use rustafari_db.Core.Row.{Row}
use rustafari_db.Core.Schema
use rustafari_db.Core.Schema.{Schema, Column, ColumnType, new_column, column_index}
use rustafari_db.Core.Value.{Value, string}
use rustafari_db.Index.BTree
use rustafari_db.Index.BTree.{BTreeIndex, IndexKey, from_value}
use rustafari_db.Storage.Columnar
use rustafari_db.Storage.Columnar.{ColumnarChunk}
use rustafari_db.Storage.TableStore
use rustafari_db.Storage.TableStore.{RowId, TableStore}
use rustafari_db.Sql.Plan.{PlanNode, FilterExpr, AggExpr}
use rustafari_db.Executor.Aggregate.{aggregate_over_row_slice, aggregate_over_chunks}
use rustafari_db.Executor.Predicate.{
  IdLookup, point, range_inclusive, compare_vals, eval_predicate, predicate_to_id_lookup,
}
use rustafari_db.Executor.State.{
  SessionState, Exec, pure, lift, continue, ◌>>=◌, ◌>>◌, flush_columnar_buffer, push_columnar_row,
  get_index, or_public, table_meta,
}

pub data ExecutionResult (h : Host) : Type 0 where
  rows : List (Row h) → ExecutionResult h
  rows_affected : ℕ → ExecutionResult h

-- `format!("{}.{}", ns, table)`
abbrev pub qualified : Option String → String → String
qualified namespace table = or_public namespace +++ ("." +++ table)

module _ {h : Host} where
  -- `state.table_meta(..)?.ok_or_else(..)`
  unfoldable pub find_table : SessionState h → Option String → String → Result TableMeta
  unfolding table_meta
  find_table s namespace table =
      ok_or (table_not_found (qualified namespace table)) (table_meta s namespace table)

  -- `let rows = match sub { ExecutionResult::Rows(r) => r, _ => return Err(..) }`
  abbrev pub expect_rows : String → ExecutionResult h → Result (List (Row h))
  expect_rows message (rows r) = ok r
  expect_rows message (rows_affected n) = err (execution message)

  unfoldable pub scan_meta : SessionState h → PlanNode h → Result TableMeta
  unfolding find_table
  scan_meta s (PlanNode.scan table namespace) = find_table s namespace table
  scan_meta s (PlanNode.filter input _) = scan_meta s input
  scan_meta s (PlanNode.project input _) = scan_meta s input
  scan_meta s (PlanNode.limit input _ _) = scan_meta s input
  scan_meta s (PlanNode.aggregate input _) = scan_meta s input
  scan_meta s (PlanNode.group_by input _ _) = scan_meta s input
  scan_meta s (PlanNode.order_by input _) = scan_meta s input
  scan_meta s _ = err (execution "expected scan under filter/project/aggregate/groupby/orderby")

  abbrev pub meta_of : PlanNode h → Exec h TableMeta
  meta_of input s = lift (scan_meta s input) s

  unfoldable pub execute_scan : String → Option String → Exec h (ExecutionResult h)
  unfolding find_table
  execute_scan table namespace s =
      (do
        meta ← lift (find_table s namespace table)
        found ← lift (TableStore.scan s.row_store meta.id)
        pure (rows (map (λ e. e.1) found)))
        s

  -- The row identifiers that an index lookup yields.
  unfoldable pub lookup_ids : BTreeIndex → IdLookup h → Result (List RowId)
  unfolding from_value BTree.get BTree.range
  lookup_ids index (point v) = and_then (from_value v) λ key. ok (BTree.get index key)
  lookup_ids index (range_inclusive v1 v2) =
      and_then (from_value v1)
        λ start. and_then (from_value v2) λ end. BTree.range index start (some end)

  -- The rows of the identifiers that the row store still holds.
  unfoldable pub fetch_rows : TableStore h → TableId → List RowId → List (Row h)
  unfolding TableStore.get
  fetch_rows store table_id [] = []
  fetch_rows store table_id (r ∷ rs) =
      let rest = fetch_rows store table_id rs in
      elim (TableStore.get store table_id r) [ none ↦ rest | some row ↦ row ∷ rest ]

  -- The input is a scan.
  abbrev pub is_scan : PlanNode h → Bool
  is_scan (PlanNode.scan _ _) = true
  is_scan _ = false

  -- The lookup that a filter over a scan can take: on the column `id`, where it has an index.
  unfoldable pub index_lookup :
      SessionState h → TableId → PlanNode h → FilterExpr h → Option (BTreeIndex × IdLookup h)
  unfolding predicate_to_id_lookup get_index
  index_lookup s table_id input predicate =
      if is_scan input
      then elim (predicate_to_id_lookup predicate "id") [
        | none ↦ none
        | some lookup ↦ elim (get_index s table_id "id") [
          | none ↦ none
          | some index ↦ some (index, lookup)
        ]
      ]
      else none

  -- `run` executes the input.
  unfoldable pub execute_filter :
      PlanNode h → FilterExpr h → Exec h (ExecutionResult h) → Exec h (ExecutionResult h)
  unfolding scan_meta index_lookup lookup_ids fetch_rows eval_predicate
  execute_filter input predicate run s =
      (do
        meta ← lift (scan_meta s input)
        elim (index_lookup s meta.id input predicate) [
          | some (index, lookup) ↦ do
            ids ← lift (lookup_ids index lookup)
            pure (rows (fetch_rows s.row_store meta.id ids))
          | none ↦ do
            sub ← run
            found ← lift (expect_rows "filter expects rows" sub)
            pure (rows (filter (λ row. eval_predicate row predicate meta.schema) found))
        ])
        s

  -- The columns that are found, of one row; a name that the schema or the row lacks is left out.
  unfoldable pub project_values : Schema → Row h → List String → List (Value h)
  unfolding column_index Row.get
  project_values schema row [] = []
  project_values schema row (c ∷ cs) =
      let rest = project_values schema row cs in
      elim (column_index schema c) [
        | none ↦ rest
        | some i ↦ elim (Row.get row i) [ none ↦ rest | some v ↦ v ∷ rest ]
      ]

  unfoldable pub execute_project :
      PlanNode h → List String → Exec h (ExecutionResult h) → Exec h (ExecutionResult h)
  unfolding scan_meta project_values Row.new
  execute_project input columns run = do
    sub ← run
    found ← lift (expect_rows "project expects rows" sub)
    meta ← meta_of input
    pure (rows (map (λ row. Row.new (project_values meta.schema row columns)) found))

  unfoldable pub execute_limit : ℕ → ℕ → Exec h (ExecutionResult h) → Exec h (ExecutionResult h)
  execute_limit limit offset run = do
    sub ← run
    found ← lift (expect_rows "limit expects rows" sub)
    let skip = min offset (length found)
    let count = min limit (length found - skip)
    pure (rows (take count (drop skip found)))
