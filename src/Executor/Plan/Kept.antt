-- ===== src/Executor/Plan/Kept.antt =====
-- What a query of crates/rustafari-executor/src/lib.rs keeps: all that a flush of a table's columnar
-- buffer keeps.
use rustafari_db.Common.{ℕ, String, Bool, List, [], ◌∷◌, arith, ◌≡◌, refl, if◌then◌else◌}
use rustafari_db.Core.Catalog.{TableMeta}
use rustafari_db.Core.Error.{Result, ok, err, panic}
use rustafari_db.Core.Host.{Host}
use rustafari_db.Core.Row
use rustafari_db.Core.Row.{Row}
use rustafari_db.Core.Schema.{Schema}
use rustafari_db.Core.Value.{Value}
use rustafari_db.Storage.Columnar
use rustafari_db.Storage.Columnar.{ColumnarChunk}
use rustafari_db.Sql.Plan.{PlanNode, FilterExpr, AggExpr}
use rustafari_db.Executor.State.{
  SessionState, Exec, continue, ◌>>=◌, pure, lift, flush_columnar_buffer,
}
use rustafari_db.Executor.Read.{
  ExecutionResult, rows, scan_meta, execute_scan, execute_filter, execute_project, execute_limit,
}
use rustafari_db.Executor.Group.{
  aggregate_all, aggregate_over_rows, execute_aggregate, execute_group_by, execute_order_by, is_nil,
}
use rustafari_db.Executor.Aggregate.{aggregate_over_chunks}
use rustafari_db.Executor.Plan.{execute_node}

-- The plan has no statement that writes.
abbrev pub IsQuery : {h : Host} → PlanNode h → Type 0
IsQuery (PlanNode.scan _ _) = Unit
IsQuery (PlanNode.filter input _) = IsQuery input
IsQuery (PlanNode.project input _) = IsQuery input
IsQuery (PlanNode.aggregate input _) = IsQuery input
IsQuery (PlanNode.group_by input _ _) = IsQuery input
IsQuery (PlanNode.order_by input _) = IsQuery input
IsQuery (PlanNode.limit input _ _) = IsQuery input
IsQuery _ = ⊥

-- A condition on sessions that every flush of a table keeps.
module _ {h : Host} (K : SessionState h → Type 0)
    (flushed : (input : PlanNode h) (s : SessionState h) (meta : TableMeta)
      → scan_meta s input ≡ ok meta
      → K s
      → K (flush_columnar_buffer meta.id meta.schema s)) where
  -- The step keeps the condition from every state, in every outcome.
  abbrev Keeps {ℓ} : {A : Type ℓ} → Exec h A → Type 0
  Keeps m = (s : SessionState h) → K s → K (m s).1

  Keeps-continue {ℓ κ} :
      {A : Type ℓ} {B : Type κ} (r : Result A) (f : A → Exec h B) (s : SessionState h)
      → K s
      → ((a : A) → r ≡ ok a → K (f a s).1)
      → K (continue r f s).1
  Keeps-continue (ok a) f s c ks = ks a refl
  Keeps-continue (err x) f s c ks = c
  Keeps-continue panic f s c ks = c

  module _ (run : Exec h (ExecutionResult h)) (k : Keeps run) where
    execute_filter-Keeps :
        (input : PlanNode h) (p : FilterExpr h) → Keeps (execute_filter input p run)
    unfolding execute_filter
    execute_filter-Keeps input p s c = ground (arith, k s c)

    execute_project-Keeps :
        (input : PlanNode h) (cs : List String) → Keeps (execute_project input cs run)
    unfolding execute_project
    execute_project-Keeps input p s c = ground (arith, k s c)

    execute_limit-Keeps : (l o : ℕ) → Keeps (execute_limit l o run)
    unfolding execute_limit
    execute_limit-Keeps l o s c = ground (arith, k s c)

    execute_order_by-Keeps :
        (input : PlanNode h) (cs : List (String × Bool)) → Keeps (execute_order_by input cs run)
    unfolding execute_order_by
    execute_order_by-Keeps input cs s c = ground (arith, k s c)

    execute_group_by-Keeps :
        (debug : Value h → String) (input : PlanNode h) (cs : List String) (aggs : List AggExpr)
        → Keeps (execute_group_by debug input cs aggs run)
    unfolding execute_group_by
    execute_group_by-Keeps debug input cs aggs s c = ground (arith, k s c)

    -- One aggregate.
    abbrev one : Schema → List (ColumnarChunk h) → AggExpr → Exec h (Value h)
    one schema cs agg =
        if is_nil cs
        then aggregate_over_rows schema agg run
        else lift (aggregate_over_chunks cs agg)

    one-Keeps :
        (schema : Schema) (cs : List (ColumnarChunk h)) (agg : AggExpr) → Keeps (one schema cs agg)
    unfolding aggregate_over_rows
    one-Keeps schema [] agg s c = ground (arith, k s c)
    one-Keeps schema (chunk ∷ cs) agg s c = c

    aggregate_all-Keeps :
        (schema : Schema) (cs : List (ColumnarChunk h)) (aggs : List AggExpr)
        → Keeps (aggregate_all schema cs run aggs)
    unfolding aggregate_all
    aggregate_all-Keeps schema cs [] s c = c
    aggregate_all-Keeps schema cs (agg ∷ aggs) s c =
        let rest : Exec h (List (Value h)) = aggregate_all schema cs run aggs in
        let z = (one schema cs agg s).1 in
        let kept : K z = one-Keeps schema cs agg s c in
        let more : K (rest z).1 = aggregate_all-Keeps schema cs aggs z kept in
        Keeps-continue (one schema cs agg s).0 (λ v. rest >>= λ vs. pure (v ∷ vs)) z kept
          λ v _. Keeps-continue (rest z).0 (λ vs. pure (v ∷ vs)) (rest z).1 more λ vs _. more

    execute_aggregate-Keeps :
        (input : PlanNode h) (aggs : List AggExpr) → Keeps (execute_aggregate input aggs run)
    unfolding execute_aggregate
    execute_aggregate-Keeps input aggs s c = Keeps-continue (scan_meta s input) _ s c λ meta found.
        let y = flush_columnar_buffer meta.id meta.schema s in
        let all = aggregate_all meta.schema (Columnar.chunks y.columnar_store meta.id) run aggs in
        let kept : K (all y).1 =
          aggregate_all-Keeps meta.schema _ aggs y (flushed input s meta found c) in
        Keeps-continue (all y).0 (λ vals. pure (rows (Row.new vals ∷ []))) (all y).1 kept
          λ vals _. kept

  -- A query keeps the condition.
  pub query-Keeps :
      (debug : Value h → String) (p : PlanNode h) (s : SessionState h)
      → IsQuery p
      → K s
      → K (execute_node debug p s).1
  unfolding execute_node execute_scan
  query-Keeps debug (PlanNode.scan t ns) s q c = ground (arith, c)
  query-Keeps debug (PlanNode.filter input p) s q c =
      execute_filter-Keeps (execute_node debug input) (λ z. query-Keeps debug input z q) input p s c
  query-Keeps debug (PlanNode.project input cs) s q c =
      execute_project-Keeps (execute_node debug input) (λ z. query-Keeps debug input z q) input cs s
        c
  query-Keeps debug (PlanNode.aggregate input aggs) s q c =
      execute_aggregate-Keeps (execute_node debug input) (λ z. query-Keeps debug input z q) input
        aggs s c
  query-Keeps debug (PlanNode.group_by input cs aggs) s q c =
      execute_group_by-Keeps (execute_node debug input) (λ z. query-Keeps debug input z q) debug
        input cs aggs s c
  query-Keeps debug (PlanNode.order_by input cs) s q c =
      execute_order_by-Keeps (execute_node debug input) (λ z. query-Keeps debug input z q) input cs
        s c
  query-Keeps debug (PlanNode.limit input l o) s q c =
      execute_limit-Keeps (execute_node debug input) (λ z. query-Keeps debug input z q) l o s c
  query-Keeps debug (PlanNode.insert _ _ _ _) s q c = absurd q
  query-Keeps debug (PlanNode.create_table _ _ _) s q c = absurd q
  query-Keeps debug (PlanNode.drop_table _ _) s q c = absurd q
  query-Keeps debug (PlanNode.describe_table _ _) s q c = absurd q
