-- ===== src/Executor/Group.antt =====
-- The arms of `execute_plan` in crates/rustafari-executor/src/lib.rs that group, sort and aggregate.
-- A sort by columns that do not compare alike everywhere is no total order; the source's sort is then
-- free in its result, and the insertion sort stands for it.
pub mod Partition
pub mod Order
pub mod Projected
pub mod Answers
use Prim.Native.String.{◌++◌ as ◌+++◌}
use rustafari_db.Common.{
  ℕ, String, Bool, true, false, List, [], ◌∷◌, ◌++◌, Option, none, some, map, Ordering, lt, eq, gt,
  if◌then◌else◌,
}
use rustafari_db.Common.BTreeMap
use rustafari_db.Common.BTreeMap.{BTreeMap}
use rustafari_db.Common.TextOrder.{text_ord}
use rustafari_db.Common.Sort.{sort_by}
use rustafari_db.Core.Catalog.{TableMeta}
use rustafari_db.Core.Error.{Result, ok, err, panic, ok_or, collect, execution, ◌>>=◌ as and_then}
use rustafari_db.Core.Host.{Host}
use rustafari_db.Core.Row
use rustafari_db.Core.Row.{Row}
use rustafari_db.Core.Schema.{Schema, column_index}
use rustafari_db.Core.Value.{Value}
use rustafari_db.Storage.Columnar
use rustafari_db.Storage.Columnar.{ColumnarChunk}
use rustafari_db.Sql.Plan.{PlanNode, AggExpr}
use rustafari_db.Executor.Aggregate.{aggregate_over_row_slice, aggregate_over_chunks}
use rustafari_db.Executor.Predicate.{compare_vals}
use rustafari_db.Executor.Read.{
  ExecutionResult, rows, rows_affected, expect_rows, scan_meta, meta_of,
}
use rustafari_db.Executor.State.{
  SessionState, Exec, pure, lift, continue, ◌>>=◌, ◌>>◌, flush_columnar_buffer,
}

-- The columns that a clause names, by index.
unfoldable pub find_columns : String → Schema → List String → Result (List ℕ)
unfolding column_index
find_columns message schema = collect λ c. ok_or (execution (message +++ c)) (column_index schema c)

-- `iter().map(..).collect::<Vec<_>>().join("\x00")`
abbrev pub join_nul : List String → String
join_nul [] = ""
join_nul (s ∷ []) = s
join_nul (s ∷ t ∷ r) = s +++ ("\0" +++ join_nul (t ∷ r))

-- The groups by key: the key's values and the rows.
abbrev pub Groups : Host → Type 0
Groups h = BTreeMap String (List (Value h) × List (Row h))

unfoldable pub find_order : Schema → List (String × Bool) → Result (List (ℕ × Bool))
unfolding column_index
find_order schema = collect λ c.
    and_then (ok_or (execution ("ORDER BY column not found: " +++ c.0)) (column_index schema c.0))
      λ i. ok (i, c.1)

abbrev pub reverse_order : Ordering → Ordering
reverse_order lt = gt
reverse_order eq = eq
reverse_order gt = lt

abbrev pub is_nil {ℓ} : {A : Type ℓ} → List A → Bool
is_nil [] = true
is_nil (_ ∷ _) = false

module _ {h : Host} where
  -- `group_indices.iter().filter_map(|&i| row.get(i).cloned())`
  unfoldable pub key_values : Row h → List ℕ → List (Value h)
  unfolding Row.get
  key_values row [] = []
  key_values row (i ∷ is) =
      let rest = key_values row is in elim (Row.get row i) [ none ↦ rest | some v ↦ v ∷ rest ]

  -- The key of a group is the text that `{:?}` prints, which `debug` gives.
  abbrev pub group_key : (Value h → String) → List (Value h) → String
  group_key debug vs = join_nul (map debug vs)

  -- `entry(key).or_insert_with(..).1.push(row)`
  unfoldable pub add_to_group : String → List (Value h) → Row h → Groups h → Groups h
  add_to_group key key_vals row m = elim (BTreeMap.get key m) [
    | none ↦ BTreeMap.insert key (key_vals, row ∷ []) m
    | some (vals, found) ↦ BTreeMap.insert key (vals, found ++ row ∷ []) m
  ]

  unfoldable pub build_groups : (Value h → String) → List ℕ → List (Row h) → Groups h → Groups h
  unfolding key_values add_to_group
  build_groups debug indices [] m = m
  build_groups debug indices (row ∷ rest) m =
      let vals = key_values row indices in
      build_groups debug indices rest (add_to_group (group_key debug vals) vals row m)

  -- One row for each group: its key values and its aggregates.
  unfoldable pub group_rows : Schema → List AggExpr → Groups h → Result (List (Row h))
  unfolding aggregate_over_row_slice Row.new
  group_rows schema aggs = collect λ g.
      and_then (collect (aggregate_over_row_slice g.1.1 schema) aggs)
        λ vals. ok (Row.new (g.1.0 ++ vals))

  -- `debug` prints a value as `{:?}`; `run` executes the input.
  unfoldable pub execute_group_by :
      (Value h → String)
      → PlanNode h
      → List String
      → List AggExpr
      → Exec h (ExecutionResult h)
      → Exec h (ExecutionResult h)
  unfolding find_columns build_groups group_rows
  execute_group_by debug input columns aggs run = do
    sub ← run
    found ← lift (expect_rows "GROUP BY input must yield rows" sub)
    meta ← meta_of input
    indices ← lift (find_columns "GROUP BY column not found: " meta.schema columns)
    out ← lift (group_rows meta.schema aggs (build_groups debug indices found []))
    pure (rows out)

  -- The first column whose values differ decides.
  unfoldable pub compare_rows : List (ℕ × Bool) → Row h → Row h → Ordering
  unfolding compare_vals Row.get
  compare_rows [] a b = eq
  compare_rows ((idx, asc) ∷ rest) a b =
      let later = compare_rows rest a b in
      elim (compare_vals (Row.get a idx) (Row.get b idx)) [
        | eq ↦ later
        | lt ↦ if asc then lt else reverse_order lt
        | gt ↦ if asc then gt else reverse_order gt
      ]

  unfoldable pub execute_order_by :
      PlanNode h → List (String × Bool) → Exec h (ExecutionResult h) → Exec h (ExecutionResult h)
  unfolding find_order compare_rows sort_by
  execute_order_by input columns run = do
    sub ← run
    found ← lift (expect_rows "ORDER BY input must yield rows" sub)
    meta ← meta_of input
    order ← lift (find_order meta.schema columns)
    pure (rows (sort_by (compare_rows order) found))

  -- An aggregate over rows executes the input for itself.
  unfoldable pub aggregate_over_rows :
      Schema → AggExpr → Exec h (ExecutionResult h) → Exec h (Value h)
  unfolding aggregate_over_row_slice
  aggregate_over_rows schema agg run = do
    sub ← run
    found ← lift (expect_rows "aggregate input must yield rows" sub)
    lift (aggregate_over_row_slice found schema agg)

  -- The aggregates in turn: over the chunks if there are any, else over the input's rows.
  unfoldable pub aggregate_all :
      Schema
      → List (ColumnarChunk h)
      → Exec h (ExecutionResult h)
      → List AggExpr
      → Exec h (List (Value h))
  unfolding aggregate_over_rows aggregate_over_chunks
  aggregate_all schema chunks run [] = pure []
  aggregate_all schema chunks run (agg ∷ aggs) = do
    v ←
        if is_nil chunks
        then aggregate_over_rows schema agg run
        else lift (aggregate_over_chunks chunks agg)
    vs ← aggregate_all schema chunks run aggs
    pure (v ∷ vs)

  unfoldable pub execute_aggregate :
      PlanNode h → List AggExpr → Exec h (ExecutionResult h) → Exec h (ExecutionResult h)
  unfolding scan_meta flush_columnar_buffer Columnar.chunks aggregate_all Row.new
  execute_aggregate input aggs run s =
      (do
        meta ← lift (scan_meta s input)
        λ s'.
            let flushed = flush_columnar_buffer meta.id meta.schema s' in
            (do
              vals ←
                  aggregate_all meta.schema (Columnar.chunks flushed.columnar_store meta.id) run
                    aggs
              pure (rows (Row.new vals ∷ [])))
              flushed)
        s
