-- ===== src/Executor/SqlExecutor/Failures.antt =====
-- What a text that `SqlExecutor::execute` of crates/rustafari-executor/src/sql_executor.rs ends in an
-- error leaves as it was.
use rustafari_db.Common.{◌≡◌, refl, String, List, ◌⊎◌, inl, inr}
use rustafari_db.Core.Error.{Result, RustafariError, ok, err, panic}
use rustafari_db.Core.Host.{Host}
use rustafari_db.Core.Value.{Value}
use rustafari_db.Sql.Ast.{Statement}
use rustafari_db.Sql.Plan.{PlanNode, LogicalPlan}
use rustafari_db.Sql.Statements.{sql_to_plan}
use rustafari_db.Sql.Statements.Outcomes.{Parses}
use rustafari_db.Executor.State.{SessionState}
use rustafari_db.Executor.Plan.{execute_plan}
use rustafari_db.Executor.Plan.Failures.{IsNoInsert, failed-data_of, failed-catalog}
use rustafari_db.Executor.Plan.Reads.{data_of}
use rustafari_db.Executor.Consistency.Plans.{IsStatement}
use rustafari_db.Executor.SqlExecutor.{execute}
use rustafari_db.Executor.SqlExecutor.Queries.{run_plan}
use rustafari_db.Executor.SqlExecutor.History.{sql_to_plan-IsStatement}

abbrev pub IsInsert : {h : Host} → PlanNode h → Type 0
IsInsert (PlanNode.insert _ _ _ _) = Unit
IsInsert _ = ⊥

-- The text gives a plan, an INSERT.
abbrev pub GivesInsert : {h : Host} → Result (LogicalPlan h) → Type 0
GivesInsert (ok p) = IsInsert p.root
GivesInsert _ = ⊥

statement_kinds : {h : Host} (p : PlanNode h) → IsStatement p → IsNoInsert p ⊎ IsInsert p
statement_kinds (PlanNode.insert _ _ _ _) q = inr tt
statement_kinds (PlanNode.create_table _ _ _) q = inl tt
statement_kinds (PlanNode.drop_table _ _) q = inl tt
statement_kinds (PlanNode.describe_table _ _) q = inl tt
statement_kinds p q = inl q

module _ {h : Host} (debug : Value h → String) (up : String → String) where
  run_plan-failed :
      (r : Result (LogicalPlan h)) (s : SessionState h) (e : RustafariError)
      → Parses (λ p. IsStatement p.root) r
      → (run_plan debug up r s).0 ≡ err e
      → ((run_plan debug up r s).1.catalog ≡ s.catalog)
        × ((data_of (run_plan debug up r s).1 ≡ data_of s) ⊎ GivesInsert r)
  unfolding run_plan execute_plan
  run_plan-failed (ok p) s e q bad = (
    failed-catalog debug p.root s e q bad,
    elim (statement_kinds p.root q) [
      | inl n ↦ inl (failed-data_of debug p.root s e n bad)
      | inr i ↦ inr i
    ],
  )
  run_plan-failed (err x) s e q bad = (refl, inl refl)
  run_plan-failed panic s e q bad = absurd q

  -- A text that ends in an error, of parsing or of execution, leaves the catalog as it was, and
  -- the rows and the indexes too unless its plan is an INSERT.
  pub execute-failed :
      (parser : String → List Statement ⊎ String) (sql : String) (s : SessionState h)
      (e : RustafariError)
      → (execute debug up parser sql s).0 ≡ err e
      → ((execute debug up parser sql s).1.catalog ≡ s.catalog)
        × ((data_of (execute debug up parser sql s).1 ≡ data_of s)
            ⊎ GivesInsert (sql_to_plan {h = h} up parser sql))
  unfolding execute run_plan
  execute-failed parser sql s e bad =
      run_plan-failed (sql_to_plan up parser sql) s e (sql_to_plan-IsStatement h up parser sql) bad
