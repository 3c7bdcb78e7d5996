-- ===== src/Executor/Plan/Answers.antt =====
-- What the queries of crates/rustafari-executor/src/lib.rs answer, whole plans at a time.
use rustafari_db.Common.{
  ℕ, String, List, [], ◌∷◌, take, drop, min, length, refl, ◌≡◌, ◌-◌, ap, arith, take-min, drop-min,
  length-drop,
}
use rustafari_db.Core.Catalog.{TableMeta}
use rustafari_db.Core.Error.{ok, err, panic}
use rustafari_db.Core.Host.{Host}
use rustafari_db.Core.Row
use rustafari_db.Core.Row.{Row}
use rustafari_db.Core.Schema.{Schema}
use rustafari_db.Core.Value.{Value}
use rustafari_db.Storage.Columnar
use rustafari_db.Storage.Columnar.{ColumnarChunk}
use rustafari_db.Sql.Plan.{PlanNode, FilterExpr, AggExpr}
use rustafari_db.Executor.State.{SessionState, Exec, continue, ◌>>=◌, pure, flush_columnar_buffer}
use rustafari_db.Executor.Read.{ExecutionResult, rows, scan_meta, execute_limit}
use rustafari_db.Executor.Group.{aggregate_all, execute_aggregate}
use rustafari_db.Executor.Aggregate.{aggregate_over_chunks}
use rustafari_db.Executor.Plan.{execute_node}

cut_window :
    {A : Type 0} (l o : ℕ) (xs : List A)
    → take (min l (length xs - min o (length xs))) (drop (min o (length xs)) xs)
      ≡ take l (drop o xs)
cut_window l o xs =
    let left : length xs - min o (length xs) ≡ length (drop o xs) =
      omega (arith, length-drop o xs) in
    rw left (rw (drop-min o xs) (take-min l (drop o xs)))

module _ {h : Host} (debug : Value h → String) where
  -- LIMIT with OFFSET over an input that yields rows yields the rows that `take` and `drop` give: the
  -- two cuts at the number of rows do not show. The state is what the input left.
  pub limit-take-drop :
      (input : PlanNode h) (limit offset : ℕ) (found : List (Row h)) (s s' : SessionState h)
      → execute_node debug input s ≡ (ok (rows found), s')
      → execute_node debug (PlanNode.limit input limit offset) s
        ≡ (ok (rows (take limit (drop offset found))), s')
  unfolding execute_node execute_limit
  limit-take-drop input limit offset found s s' e =
      rw e (ap (λ r. (ok (rows r), s')) (cut_window limit offset found))

  aggregate_all_of_chunks :
      (schema : Schema) (c : ColumnarChunk h) (cs : List (ColumnarChunk h))
      (run run' : Exec h (ExecutionResult h)) (aggs : List AggExpr) (s : SessionState h)
      → aggregate_all schema (c ∷ cs) run aggs s ≡ aggregate_all schema (c ∷ cs) run' aggs s
  unfolding aggregate_all
  aggregate_all_of_chunks schema c cs run run' [] s = refl
  aggregate_all_of_chunks schema c cs run run' (agg ∷ aggs) s =
      elim (aggregate_over_chunks (c ∷ cs) agg)
        as (λ r.
          continue r (λ v. aggregate_all schema (c ∷ cs) run aggs >>= λ vs. pure (v ∷ vs)) s
          ≡ continue r (λ v. aggregate_all schema (c ∷ cs) run' aggs >>= λ vs. pure (v ∷ vs)) s) [
            | ok v ↦
                ap (λ x. continue x.0 (λ vs. pure (v ∷ vs)) x.1)
                  (aggregate_all_of_chunks schema c cs run run' aggs s)
            | err e ↦ refl
            | panic ↦ refl
          ]

  -- Once the flush of the buffer leaves a table a columnar chunk, an aggregate over a WHERE gives the
  -- answer that it gives without the WHERE, whatever the predicate.
  pub aggregate_past_filter :
      (input : PlanNode h) (p : FilterExpr h) (aggs : List AggExpr) (s : SessionState h)
      (meta : TableMeta) (c : ColumnarChunk h) (cs : List (ColumnarChunk h))
      → scan_meta s input ≡ ok meta
      → Columnar.chunks (flush_columnar_buffer meta.id meta.schema s).columnar_store meta.id
        ≡ c ∷ cs
      → execute_node debug (PlanNode.aggregate (PlanNode.filter input p) aggs) s
        ≡ execute_node debug (PlanNode.aggregate input aggs) s
  unfolding execute_node execute_aggregate scan_meta
  aggregate_past_filter input p aggs s meta c cs e k = rw e (
      rw k (
        ap (λ x. continue x.0 (λ vals. pure (rows (Row.new vals ∷ []))) x.1)
          (aggregate_all_of_chunks meta.schema c cs (execute_node debug (PlanNode.filter input p))
            (execute_node debug input) aggs (flush_columnar_buffer meta.id meta.schema s))))
