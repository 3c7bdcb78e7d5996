-- ===== src/Executor/SqlExecutor/History.antt =====
-- Sessions of SQL texts run by `SqlExecutor::execute` of crates/rustafari-executor/src/sql_executor.rs,
-- from a new session on.
pub mod Answers
use rustafari_db.Common.{
  ℕ, ◌-◌, ◌+◌, ◌<◌, ◌^◌, ◌≡◌, refl, ◌∙◌, ap, sym, subst, String, true, List, [], ◌∷◌, map, Option,
  some, ◌⊎◌, inl, inr, arith, u64_mod,
}
use rustafari_db.Core.Catalog.{TableMeta}
use rustafari_db.Core.Error.{Result, ok, err, panic, parse, ◌>>=◌ as and_then}
use rustafari_db.Core.Host.{Host}
use rustafari_db.Core.Schema.{column_index}
use rustafari_db.Core.Value.{Value}
use rustafari_db.Sql.Ast.{Statement, ObjectType, table_object, other_object}
use rustafari_db.Sql.Plan.{PlanNode, LogicalPlan, AggExpr}
use rustafari_db.Sql.Statements.{sql_to_plan, ast_to_plan, first_to_plan, parse_sql}
use rustafari_db.Sql.Statements.Outcomes.{Parses}
use rustafari_db.Sql.Statements.Shapes.{PlanFor, ast_to_plan-PlanFor}
use rustafari_db.Executor.State
use rustafari_db.Executor.State.{SessionState, or_public}
use rustafari_db.Executor.Plan.{execute_node, execute_plan}
use rustafari_db.Executor.Plan.Kept.{IsQuery}
use rustafari_db.Executor.Consistency.{IsConsistent}
use rustafari_db.Executor.Consistency.Plans.{
  IsStatement, HasRoomFor, Completes, new-IsConsistent, execute_node-IsConsistent,
}
use rustafari_db.Executor.SqlExecutor.{execute}
use rustafari_db.Executor.SqlExecutor.Queries.{run_plan}

module _ {h : Host} where
  IsStatement-IsQuery : (p : PlanNode h) → IsQuery p → IsStatement p
  IsStatement-IsQuery (PlanNode.scan _ _) q = q
  IsStatement-IsQuery (PlanNode.filter _ _) q = q
  IsStatement-IsQuery (PlanNode.project _ _) q = q
  IsStatement-IsQuery (PlanNode.limit _ _ _) q = q
  IsStatement-IsQuery (PlanNode.aggregate _ _) q = q
  IsStatement-IsQuery (PlanNode.group_by _ _ _) q = q
  IsStatement-IsQuery (PlanNode.order_by _ _) q = q
  IsStatement-IsQuery (PlanNode.insert _ _ _ _) q = tt
  IsStatement-IsQuery (PlanNode.create_table _ _ _) q = tt
  IsStatement-IsQuery (PlanNode.drop_table _ _) q = tt
  IsStatement-IsQuery (PlanNode.describe_table _ _) q = tt

  -- The parts of a plan that a statement can give.
  IsStatement-PlanFor : (stmt : Statement) (p : PlanNode h) → PlanFor h stmt p → IsStatement p
  IsStatement-PlanFor (Statement.query q) p f = IsStatement-IsQuery p f
  IsStatement-PlanFor _ (PlanNode.insert _ _ _ _) f = tt
  IsStatement-PlanFor _ (PlanNode.create_table _ _ _) f = tt
  IsStatement-PlanFor _ (PlanNode.drop_table _ _) f = tt
  IsStatement-PlanFor _ (PlanNode.describe_table _ _) f = tt
  IsStatement-PlanFor (Statement.drop table_object (name ∷ _)) _ f = absurd f
  IsStatement-PlanFor _ _ f = absurd f

  Parses-IsStatement :
      (stmt : Statement) (r : Result (LogicalPlan h))
      → Parses (λ p. PlanFor h stmt p.root) r
      → Parses (λ p. IsStatement p.root) r
  Parses-IsStatement stmt (ok p) f = IsStatement-PlanFor stmt p.root f
  Parses-IsStatement stmt (err e) f = f
  Parses-IsStatement stmt panic f = f

module _ (h : Host) where
  first_to_plan-IsStatement :
      (up : String → String) (stmts : List Statement)
      → Parses (λ p. IsStatement {h = h} p.root) (first_to_plan up stmts)
  unfolding first_to_plan
  first_to_plan-IsStatement up [] = tt
  first_to_plan-IsStatement up (stmt ∷ _) =
      Parses-IsStatement stmt (ast_to_plan up stmt) (ast_to_plan-PlanFor h up stmt)

  -- Every plan of a text is one statement.
  pub sql_to_plan-IsStatement :
      (up : String → String) (parser : String → List Statement ⊎ String) (sql : String)
      → Parses (λ p. IsStatement {h = h} p.root) (sql_to_plan up parser sql)
  unfolding sql_to_plan parse_sql
  sql_to_plan-IsStatement up parser sql =
      elim (parser sql)
        as (λ r.
          Parses (λ p. IsStatement {h = h} p.root)
            (and_then (elim r [ inl stmts ↦ ok stmts | inr e ↦ err (parse e) ])
              (first_to_plan up))) [ inl stmts ↦ first_to_plan-IsStatement up stmts | inr e ↦ tt ]

module _ {h : Host} (debug : Value h → String) (up : String → String)
    (parser : String → List Statement ⊎ String) where
  -- The plan of a text, if it has one, has room in the session's counters, and ends without an error
  -- if it is an INSERT.
  abbrev pub Fits : Result (LogicalPlan h) → SessionState h → Type 0
  Fits (ok p) s = HasRoomFor p.root s × Completes debug p.root s
  Fits _ s = Unit

  run_plan-IsConsistent :
      (r : Result (LogicalPlan h)) (s : SessionState h)
      → Parses (λ p. IsStatement p.root) r
      → Fits r s
      → IsConsistent s
      → IsConsistent (run_plan debug up r s).1
  unfolding run_plan execute_plan
  run_plan-IsConsistent (ok p) s q (room, good) v =
      execute_node-IsConsistent debug p.root s q room good v
  run_plan-IsConsistent (err e) s q f v = v
  run_plan-IsConsistent panic s q f v = v

  -- The sessions that texts lead to from a new one.
  pub data Reach : SessionState h → Type 0 where
    start : Reach State.new
    ran :
        {s : SessionState h} (sql : String)
        → Reach s
        → Fits (sql_to_plan up parser sql) s
        → Reach (execute debug up parser sql s).1

  -- In every session that SQL texts lead to from a new one, the catalog and the row store are valid,
  -- identifiers not yet given out have no rows, chunks or buffered rows, and of every table that the
  -- catalog finds by a name the index on `id`, if the table has the column, holds at each key the rows
  -- with that key, and the chunks and the buffer hold for each column the values of the rows in row
  -- order. The texts may be of any kind, also ones that do not parse or that end in an error, but an
  -- INSERT has to end without one; no counter of the session wraps.
  pub Reach-IsConsistent : {s : SessionState h} → Reach s → IsConsistent s
  unfolding execute run_plan
  Reach-IsConsistent start = new-IsConsistent
  Reach-IsConsistent (ran sql r f) =
      run_plan-IsConsistent (sql_to_plan up parser sql) _ (sql_to_plan-IsStatement h up parser sql)
        f (Reach-IsConsistent r)
