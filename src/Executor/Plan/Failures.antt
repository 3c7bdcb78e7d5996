-- ===== src/Executor/Plan/Failures.antt =====
-- What a plan of crates/rustafari-executor/src/lib.rs that ends in an error leaves as it was.
use rustafari_db.Common.{ℕ, ◌≡◌, refl, ◌∙◌, ap, String, List, [], ◌∷◌, Option, arith, next_u64}
use rustafari_db.Core.Catalog.{TableMeta}
use rustafari_db.Core.Error.{Result, RustafariError, ok, err, panic}
use rustafari_db.Core.Host.{Host}
use rustafari_db.Core.Value.{Value}
use rustafari_db.Storage.TableStore
use rustafari_db.Sql.Plan.{PlanNode}
use rustafari_db.Executor.State.{SessionState, Exec, continue, push_columnar_row, store_chunk, pure}
use rustafari_db.Executor.Read.{ExecutionResult, find_table, rows_affected}
use rustafari_db.Executor.Write.{
  index_row, insert_row, insert_rows, execute_insert, execute_create_table, execute_drop_table,
  execute_describe_table,
}
use rustafari_db.Executor.Plan.{execute_node}
use rustafari_db.Executor.Plan.Kept.{IsQuery}
use rustafari_db.Executor.Consistency.Plans.{IsStatement}
use rustafari_db.Executor.Plan.Reads.{data_of, query-data_of}

-- A statement that is no INSERT.
abbrev pub IsNoInsert : {h : Host} → PlanNode h → Type 0
IsNoInsert (PlanNode.insert _ _ _ _) = ⊥
IsNoInsert (PlanNode.create_table _ _ _) = Unit
IsNoInsert (PlanNode.drop_table _ _) = Unit
IsNoInsert (PlanNode.describe_table _ _) = Unit
IsNoInsert p = IsQuery p

module _ {h : Host} where
  insert_row-catalog :
      (meta : TableMeta) (vals : List (Value h)) (s : SessionState h)
      → (insert_row meta vals s).1.catalog ≡ s.catalog
  unfolding insert_row index_row push_columnar_row store_chunk
  insert_row-catalog meta vals s = ground arith

  insert_rows-catalog :
      (meta : TableMeta) (values : List (List (Value h))) (n : ℕ) (s : SessionState h)
      → (insert_rows meta values n s).1.catalog ≡ s.catalog
  unfolding insert_rows
  insert_rows-catalog meta [] n s = refl
  insert_rows-catalog meta (vals ∷ rest) n s =
      let z = (insert_row meta vals s).1 in
      elim (insert_row meta vals s).0
        as (λ o. (continue o (λ _. insert_rows meta rest (next_u64 n)) z).1.catalog ≡ s.catalog) [
          | ok _ ↦ insert_rows-catalog meta rest (next_u64 n) z ∙ insert_row-catalog meta vals s
          | err e ↦ insert_row-catalog meta vals s
          | panic ↦ insert_row-catalog meta vals s
        ]

  abbrev affected : ℕ → Exec h (ExecutionResult h)
  affected n = pure (rows_affected n)

  affected_state :
      (o : Result ℕ) (z : SessionState h) → (continue o affected z).1.catalog ≡ z.catalog
  affected_state (ok n) z = refl
  affected_state (err e) z = refl
  affected_state panic z = refl

  execute_insert-catalog :
      (table : String) (namespace : Option String) (values : List (List (Value h)))
      (s : SessionState h)
      → (execute_insert table namespace values s).1.catalog ≡ s.catalog
  unfolding execute_insert
  execute_insert-catalog table namespace values s =
      let after : TableMeta → Exec h (ExecutionResult h) =
        λ m z. let step = insert_rows m values 0 z in continue step.0 affected step.1 in
      elim (find_table s namespace table) as (λ o. (continue o after s).1.catalog ≡ s.catalog) [
        | ok meta ↦
            let step = insert_rows meta values 0 s in
            affected_state step.0 step.1 ∙ insert_rows-catalog meta values 0 s
        | err e ↦ refl
        | panic ↦ refl
      ]

  execute_drop_table-failed :
      (table : String) (namespace : Option String) (s : SessionState h) (e : RustafariError)
      → (execute_drop_table table namespace s).0 ≡ err e
      → (execute_drop_table table namespace s).1 ≡ s
  unfolding execute_drop_table TableStore.drop_table
  execute_drop_table-failed table namespace s e bad = ground (arith, bad)

module _ {h : Host} (debug : Value h → String) where
  -- A statement that ends in an error leaves the catalog, the rows and the indexes, unless it is an
  -- INSERT.
  pub failed-data_of :
      (p : PlanNode h) (s : SessionState h) (e : RustafariError)
      → IsNoInsert p
      → (execute_node debug p s).0 ≡ err e
      → data_of (execute_node debug p s).1 ≡ data_of s
  unfolding execute_node execute_create_table execute_describe_table
  failed-data_of (PlanNode.insert _ _ _ _) s e q bad = absurd q
  failed-data_of (PlanNode.create_table table namespace columns) s e q bad = absurd (cc bad)
  failed-data_of (PlanNode.drop_table table namespace) s e q bad =
      ap data_of (execute_drop_table-failed table namespace s e bad)
  failed-data_of (PlanNode.describe_table table namespace) s e q bad = ground arith
  failed-data_of p s e q bad = query-data_of debug p s q

  -- No statement that ends in an error changes the catalog.
  pub failed-catalog :
      (p : PlanNode h) (s : SessionState h) (e : RustafariError)
      → IsStatement p
      → (execute_node debug p s).0 ≡ err e
      → (execute_node debug p s).1.catalog ≡ s.catalog
  unfolding execute_node execute_create_table execute_describe_table
  failed-catalog (PlanNode.insert table namespace _ values) s e q bad =
      execute_insert-catalog table namespace values s
  failed-catalog (PlanNode.create_table table namespace columns) s e q bad = absurd (cc bad)
  failed-catalog (PlanNode.drop_table table namespace) s e q bad =
      ap (λ z. z.catalog) (execute_drop_table-failed table namespace s e bad)
  failed-catalog (PlanNode.describe_table table namespace) s e q bad = ground arith
  failed-catalog p s e q bad = ap (λ d. d.0) (query-data_of debug p s q)
