-- ===== src/Executor/Consistency/Plans.antt =====
-- Every plan of `execute_plan` in crates/rustafari-executor/src/lib.rs keeps the stores of a session in
-- step.
use rustafari_db.Common.{
  ℕ, ◌+◌, ◌<◌, ◌≡◌, refl, ◌∙◌, sym, ap, subst, String, List, length, arith, inl, inr, u64_mod,
  Option,
}
use rustafari_db.Common.HashMap
use rustafari_db.Common.HashMap.{get-empty}
use rustafari_db.Core.Catalog
use rustafari_db.Core.Catalog.{TableMeta}
use rustafari_db.Core.Catalog.Invariant as CatalogInvariant
use rustafari_db.Core.Error.{Result, ok, err, panic}
use rustafari_db.Core.Host.{Host}
use rustafari_db.Core.Value.{Value}
use rustafari_db.Storage.Columnar
use rustafari_db.Storage.TableStore.Rows.{new-IsValid}
use rustafari_db.Sql.Plan.{PlanNode}
use rustafari_db.Executor.State
use rustafari_db.Executor.State.{SessionState, Exec, continue, or_public, pure}
use rustafari_db.Executor.Read.{ExecutionResult, rows_affected}
use rustafari_db.Executor.Write.{insert_rows, execute_insert, execute_describe_table}
use rustafari_db.Executor.Plan.{execute_node}
use rustafari_db.Executor.Plan.Kept.{IsQuery, query-Keeps}
use rustafari_db.Executor.Consistency.{IsConsistent, find_table-found, find_table-cases}
use rustafari_db.Executor.Consistency.Flush.{flush-IsConsistent}
use rustafari_db.Executor.Consistency.Insert.{insert_rows-IsConsistent}
use rustafari_db.Executor.Consistency.Tables.{
  execute_create_table-IsConsistent, execute_drop_table-IsConsistent,
}

module _ {h : Host} where
  -- One statement: a query, or a plan that writes or describes, at the root.
  abbrev pub IsStatement : PlanNode h → Type 0
  IsStatement (PlanNode.insert _ _ _ _) = Unit
  IsStatement (PlanNode.create_table _ _ _) = Unit
  IsStatement (PlanNode.drop_table _ _) = Unit
  IsStatement (PlanNode.describe_table _ _) = Unit
  IsStatement p = IsQuery p

  abbrev pub inserted_rows : PlanNode h → ℕ
  inserted_rows (PlanNode.insert _ _ _ values) = length values
  inserted_rows _ = 0

  -- No counter of the session wraps in the plan.
  abbrev pub HasRoomFor : PlanNode h → SessionState h → Type 0
  HasRoomFor p s =
      CatalogInvariant.HasRoom s.catalog × (s.row_store.next_row_id + inserted_rows p < u64_mod)

  pub new-IsConsistent : IsConsistent {h = h} State.new
  unfolding Catalog.get_table Catalog.namespace_id Columnar.chunks HashMap.get
  new-IsConsistent = record {
    catalog = CatalogInvariant.new-IsValid;
    store = new-IsValid;
    unused = λ t _. (refl, refl, refl);
    tables = λ ns name meta e. absurd (cc e);
  }

  abbrev affected : ℕ → Exec h (ExecutionResult h)
  affected n = pure (rows_affected n)

  counted :
      (o : Result ℕ) (z : SessionState h) (r : ExecutionResult h)
      → (continue o affected z).0 ≡ ok r
      → (k : ℕ) × (o ≡ ok k) × ((continue o affected z).1 ≡ z)
  counted (ok k) z r e = (k, refl, refl)
  counted (err x) z r e = absurd (cc e)
  counted panic z r e = absurd (cc e)

  -- An INSERT that ends without an error.
  execute_insert-IsConsistent :
      (table : String) (namespace : Option String) (values : List (List (Value h)))
      (s : SessionState h) (r : ExecutionResult h)
      → s.row_store.next_row_id + length values < u64_mod
      → (execute_insert table namespace values s).0 ≡ ok r
      → IsConsistent s
      → IsConsistent (execute_insert table namespace values s).1
  unfolding execute_insert
  execute_insert-IsConsistent table namespace values s r room good v =
      elim (find_table-cases namespace table s) [
        | inl missing ↦ ground (arith, missing, v)
        | inr (meta, found) ↦
            let after : TableMeta → Exec h (ExecutionResult h) =
              λ m z. let step = insert_rows m values 0 z in continue step.0 affected step.1 in
            let step = insert_rows meta values 0 s in
            let e : execute_insert table namespace values s ≡ after meta s =
              ap (λ o. continue o after s) found in
            let (k, done, same) = counted step.0 step.1 r (sym (ap (λ x. x.0) e) ∙ good) in
            subst IsConsistent (sym (ap (λ x. x.1) e ∙ same)) (
              insert_rows-IsConsistent (or_public namespace) table meta values 0 k s v
                (find_table-found namespace table s meta found) room done)
      ]

module _ {h : Host} (debug : Value h → String) where
  -- An INSERT has to end without an error; every other plan may end in any way.
  abbrev pub Completes : PlanNode h → SessionState h → Type 0
  Completes (PlanNode.insert table namespace columns values) s =
      (r : ExecutionResult h) × ((execute_node debug
          (PlanNode.insert table namespace columns values) s).0
        ≡ ok r)
  Completes _ s = Unit

  pub execute_node-IsConsistent :
      (p : PlanNode h) (s : SessionState h)
      → IsStatement p
      → HasRoomFor p s
      → Completes p s
      → IsConsistent s
      → IsConsistent (execute_node debug p s).1
  unfolding execute_node execute_describe_table
  execute_node-IsConsistent (PlanNode.insert table namespace _ values) s q room (r, good) v =
      execute_insert-IsConsistent table namespace values s r room.1 good v
  execute_node-IsConsistent (PlanNode.create_table table namespace columns) s q room c v =
      execute_create_table-IsConsistent table namespace columns s room.0 v
  execute_node-IsConsistent (PlanNode.drop_table table namespace) s q room c v =
      execute_drop_table-IsConsistent table namespace s (omega (arith, room.0.tables_left)) v
  execute_node-IsConsistent (PlanNode.describe_table table namespace) s q room c v =
      ground (arith, v)
  execute_node-IsConsistent p s q room c v =
      query-Keeps IsConsistent flush-IsConsistent debug p s q v
