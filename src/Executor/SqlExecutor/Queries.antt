-- ===== src/Executor/SqlExecutor/Queries.antt =====
-- Queries run by `SqlExecutor::execute` of crates/rustafari-executor/src/sql_executor.rs, from the
-- syntax tree to the answer.
use rustafari_db.Common.{◌≡◌, refl, ◌∙◌, ap, String, List, ◌∷◌, ◌⊎◌, inl}
use rustafari_db.Core.Error.{Result, ok, err, panic}
use rustafari_db.Core.Host.{Host}
use rustafari_db.Core.Value.{Value}
use rustafari_db.Sql.Ast.{Query, Statement}
use rustafari_db.Sql.Plan.{LogicalPlan}
use rustafari_db.Sql.Statements.{sql_to_plan, ast_to_plan, first_to_plan, parse_sql}
use rustafari_db.Sql.Statements.Outcomes.{Parses}
use rustafari_db.Sql.Statements.Shapes.{ast_to_plan-PlanFor}
use rustafari_db.Executor.State.{SessionState, Exec, continue}
use rustafari_db.Executor.Read.{ExecutionResult}
use rustafari_db.Executor.Plan.{execute_plan}
use rustafari_db.Executor.Plan.Kept.{IsQuery}
use rustafari_db.Executor.Plan.Reads.{data_of, query-data_of}
use rustafari_db.Executor.SqlExecutor.{execute}

module _ {h : Host} (debug : Value h → String) (up : String → String) where
  -- What `execute` does with the outcome of the translation.
  unfoldable pub run_plan : Result (LogicalPlan h) → Exec h (ExecutionResult h)
  run_plan r = continue r (execute_plan debug)

  pub run_plan-data_of :
      (r : Result (LogicalPlan h)) (s : SessionState h)
      → Parses (λ p. IsQuery p.root) r
      → data_of (run_plan r s).1 ≡ data_of s
  unfolding run_plan execute_plan
  run_plan-data_of (ok p) s q = query-data_of debug p.root s q
  run_plan-data_of (err e) s q = refl
  run_plan-data_of panic s q = refl

  pub execute-run_plan :
      (parser : String → List Statement ⊎ String) (sql : String) (s : SessionState h)
      → execute debug up parser sql s ≡ run_plan (sql_to_plan up parser sql) s
  unfolding execute run_plan
  execute-run_plan parser sql s = refl

  pub execute-first :
      (parser : String → List Statement ⊎ String) (sql : String) (stmt : Statement)
      (more : List Statement) (s : SessionState h)
      → parser sql ≡ inl (stmt ∷ more)
      → execute debug up parser sql s ≡ run_plan (ast_to_plan up stmt) s
  unfolding execute run_plan sql_to_plan first_to_plan parse_sql
  execute-first parser sql stmt more s e = rw (e, parse_sql) refl

  -- A text whose first statement is a query leaves the catalog, the rows and the indexes as they are,
  -- whether the translation fails or the query ends in rows, an error or a panic.
  pub execute-data_of :
      (parser : String → List Statement ⊎ String) (sql : String) (s : SessionState h) (q : Query)
      (more : List Statement)
      → parser sql ≡ inl (Statement.query q ∷ more)
      → data_of (execute debug up parser sql s).1 ≡ data_of s
  execute-data_of parser sql s q more e =
      ap (λ x. data_of x.1) (execute-first parser sql (Statement.query q) more s e)
      ∙ run_plan-data_of (ast_to_plan up (Statement.query q)) s
          (ast_to_plan-PlanFor h up (Statement.query q))
