-- ===== src/Executor/Plan/Selects.antt =====
-- Aggregates over a whole table in crates/rustafari-executor/src/lib.rs, from the plan to the answer.
use rustafari_db.Common.{
  ℕ, ◌-◌, ◌<◌, ◌^◌, ◌≡◌, refl, ◌∙◌, sym, ap, subst, String, true, List, [], ◌∷◌, ◌++◌, map, Option,
  some, arith, u64_mod, append-nil,
}
use rustafari_db.Core.Catalog
use rustafari_db.Core.Catalog.{TableId, TableMeta}
use rustafari_db.Core.Error.{Result, ok, ok_or, table_not_found, ◌>>=◌ as and_then}
use rustafari_db.Core.Host.{Host}
use rustafari_db.Core.Row
use rustafari_db.Core.Row.{Row}
use rustafari_db.Core.Schema.{Schema, column_index}
use rustafari_db.Core.Value.{Value}
use rustafari_db.Storage.Columnar
use rustafari_db.Storage.Columnar.{ColumnarChunk}
use rustafari_db.Storage.Columnar.Sums.{ints}
use rustafari_db.Storage.TableStore.{RowId}
use rustafari_db.Storage.TableStore.Rows.{rows_of, scan-rows_of}
use rustafari_db.Sql.Plan.{PlanNode, AggExpr}
use rustafari_db.Executor.State.{
  SessionState, Exec, continue, pure, flush_columnar_buffer, table_meta, or_public,
}
use rustafari_db.Executor.State.Buffer.{value_in, chunk_values, has_column, column_values_after}
use rustafari_db.Executor.Aggregate.{aggregate_over_row_slice, aggregate_over_chunks}
use rustafari_db.Executor.Aggregate.Magnitude.{total_mag}
use rustafari_db.Executor.Aggregate.Paths.{NoFloats, sum_paths, count_paths}
use rustafari_db.Executor.Read.{
  ExecutionResult, rows, find_table, scan_meta, execute_scan, qualified,
}
use rustafari_db.Executor.Group.{aggregate_all, aggregate_over_rows, execute_aggregate}
use rustafari_db.Executor.Write.Mirror.{Mirrors}
use rustafari_db.Executor.Plan.{execute_node}
use rustafari_db.Executor.Plan.Reads.{flush-data_of}

module _ {h : Host} where
  -- The rows of a table.
  abbrev pub table_rows : SessionState h → TableId → List (Row h)
  table_rows s t = map (λ r. r.1) (rows_of s.row_store t)

  pub scan_of_table :
      (table : String) (namespace : Option String) (s : SessionState h) (meta : TableMeta)
      → find_table s namespace table ≡ ok meta
      → meta.id < u64_mod - 1
      → execute_scan table namespace s ≡ (ok (rows (table_rows s meta.id)), s)
  unfolding execute_scan
  scan_of_table table namespace s meta found below =
      ground (arith, found, scan-rows_of s.row_store meta.id below)

  -- The answer of one aggregate, as rows.
  abbrev pub answer : Result (Value h) → Result (ExecutionResult h)
  answer r = and_then r λ v. ok (rows (Row.new (v ∷ []) ∷ []))

  map_fused :
      (f : Row h → Value h) (rs : List (RowId × Row h))
      → map (λ r. f r.1) rs ≡ map f (map (λ r. r.1) rs)
  map_fused f [] = refl
  map_fused f (r ∷ rs) = ap (◌∷◌ (f r.1)) (map_fused f rs)

  flushed_values :
      (meta : TableMeta) (name : String) (s : SessionState h)
      → has_column name meta.schema.columns ≡ true
      → Mirrors meta.id meta.schema name s
      → chunk_values name
          (Columnar.chunks (flush_columnar_buffer meta.id meta.schema s).columnar_store meta.id)
        ≡ map (value_in meta.schema name) (table_rows s meta.id)
  flushed_values meta name s has m =
      let t = meta.id in
      let f = value_in meta.schema name in
      let z = flush_columnar_buffer t meta.schema s in
      let (_, kept, empty) = column_values_after t (Row.new []) meta.schema name s has in
      let cv : List (Value h) = chunk_values name (Columnar.chunks z.columnar_store t) in
      sym (append-nil cv)
      ∙ sym (ap (λ rs. cv ++ map f rs) empty)
      ∙ kept
      ∙ m
      ∙ map_fused f (rows_of s.row_store t)

  one_answer :
      (schema : Schema) (cs : List (ColumnarChunk h)) (run : Exec h (ExecutionResult h))
      (agg : AggExpr) (found : List (Row h)) (s : SessionState h)
      → run s ≡ (ok (rows found), s)
      → aggregate_over_chunks cs agg ≡ aggregate_over_row_slice found schema agg
      → (continue
          (aggregate_all schema cs run (agg ∷ []) s).0
          (λ vals. pure (rows (Row.new vals ∷ [])))
          (aggregate_all schema cs run (agg ∷ []) s).1).0
        ≡ answer (aggregate_over_row_slice found schema agg)
  unfolding aggregate_all aggregate_over_rows
  one_answer schema [] run agg found s e same = ground (arith, e)
  one_answer schema (c ∷ cs) run agg found s e same = ground (arith, same)

  find_of_catalog :
      (table : String) (namespace : Option String) (s z : SessionState h)
      → z.catalog ≡ s.catalog
      → find_table z namespace table ≡ find_table s namespace table
  unfolding find_table table_meta
  find_of_catalog table namespace s z e =
      ap
        (λ c.
          ok_or (table_not_found (qualified namespace table))
            (Catalog.get_table c (or_public namespace) table))
        e

module _ {h : Host} (debug : Value h → String) where
  -- An aggregate over a whole table, where the chunks answer it as the rows do.
  answer_over_table :
      (table : String) (namespace : Option String) (agg : AggExpr) (s : SessionState h)
      (meta : TableMeta)
      → find_table s namespace table ≡ ok meta
      → meta.id < u64_mod - 1
      → aggregate_over_chunks
          (Columnar.chunks (flush_columnar_buffer meta.id meta.schema s).columnar_store meta.id)
          agg
        ≡ aggregate_over_row_slice (table_rows s meta.id) meta.schema agg
      → (execute_node debug (PlanNode.aggregate (PlanNode.scan table namespace) (agg ∷ [])) s).0
        ≡ answer (aggregate_over_row_slice (table_rows s meta.id) meta.schema agg)
  unfolding execute_node execute_aggregate scan_meta
  answer_over_table table namespace agg s meta found below same =
      let z = flush_columnar_buffer meta.id meta.schema s in
      let d = flush-data_of meta.id meta.schema s in
      let there : find_table z namespace table ≡ ok meta =
        find_of_catalog table namespace s z (ap (λ x. x.0) d) ∙ found in
      let store : z.row_store ≡ s.row_store = ap (λ x. x.1) d in
      let run : execute_scan table namespace z ≡ (ok (rows (table_rows s meta.id)), z) =
        scan_of_table table namespace z meta there below
        ∙ ap (λ x. (ok (rows (map (λ r. r.1) (rows_of x meta.id))), z)) store in
      let after : TableMeta → Exec h (ExecutionResult h) = λ m y.
        let w = flush_columnar_buffer m.id m.schema y in
        let all =
          aggregate_all m.schema (Columnar.chunks w.columnar_store m.id)
            (execute_scan table namespace) (agg ∷ []) w in
        continue all.0 (λ vals. pure (rows (Row.new vals ∷ []))) all.1 in
      ap (λ r. (continue r after s).0) found
      ∙ one_answer meta.schema (Columnar.chunks z.columnar_store meta.id)
          (execute_scan table namespace) agg (table_rows s meta.id) z run same

  -- `SELECT SUM(c) FROM t` answers with the sum over the rows of the table, although it reads the
  -- chunks: the columns mirror the rows, the table is there and is not the last `u64`, its schema has
  -- the column, no value of the column is a float, and the magnitudes of its integers add up to less
  -- than 2 ^ 63.
  pub select_sum :
      (table : String) (namespace : Option String) (name : String) (s : SessionState h)
      (meta : TableMeta) (idx : ℕ)
      → find_table s namespace table ≡ ok meta
      → meta.id < u64_mod - 1
      → has_column name meta.schema.columns ≡ true
      → column_index meta.schema name ≡ some idx
      → Mirrors meta.id meta.schema name s
      → NoFloats (map (value_in meta.schema name) (table_rows s meta.id))
      → total_mag (ints (map (value_in meta.schema name) (table_rows s meta.id))) < 2 ^ 63
      → (execute_node debug
          (PlanNode.aggregate (PlanNode.scan table namespace) (AggExpr.sum name ∷ []))
          s).0
        ≡ answer (aggregate_over_row_slice (table_rows s meta.id) meta.schema (AggExpr.sum name))
  select_sum table namespace name s meta idx found below has at m n l =
      let same = flushed_values meta name s has m in
      answer_over_table table namespace (AggExpr.sum name) s meta found below (
        sum_paths meta.schema name idx (table_rows s meta.id)
          (Columnar.chunks (flush_columnar_buffer meta.id meta.schema s).columnar_store meta.id) at
          same (subst NoFloats (sym same) n)
          (subst (λ vs. total_mag (ints vs) < 2 ^ 63) (sym same) l))

  -- `SELECT COUNT(c) FROM t` answers with the count over the rows of the table, although it reads the
  -- chunks: the columns mirror the rows, the table is there and is not the last `u64`, and its schema
  -- has the column.
  pub select_count :
      (table : String) (namespace : Option String) (name : String) (s : SessionState h)
      (meta : TableMeta) (idx : ℕ)
      → find_table s namespace table ≡ ok meta
      → meta.id < u64_mod - 1
      → has_column name meta.schema.columns ≡ true
      → column_index meta.schema name ≡ some idx
      → Mirrors meta.id meta.schema name s
      → (execute_node debug
          (PlanNode.aggregate (PlanNode.scan table namespace) (AggExpr.count name ∷ []))
          s).0
        ≡ answer (aggregate_over_row_slice (table_rows s meta.id) meta.schema (AggExpr.count name))
  select_count table namespace name s meta idx found below has at m =
      answer_over_table table namespace (AggExpr.count name) s meta found below (
        count_paths meta.schema name idx (table_rows s meta.id)
          (Columnar.chunks (flush_columnar_buffer meta.id meta.schema s).columnar_store meta.id) at
          (flushed_values meta name s has m))
