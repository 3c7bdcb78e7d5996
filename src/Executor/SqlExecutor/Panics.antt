-- ===== src/Executor/SqlExecutor/Panics.antt =====
-- The statements that write or describe never panic in `SqlExecutor::execute` of
-- crates/rustafari-executor/src/sql_executor.rs.
use rustafari_db.Common.{
  ℕ, ◌<◌, ◌≡◌, sym, subst, String, List, [], ◌∷◌, map, Option, none, some, arith, next_u64, ◌⊎◌,
  inl, inr, u64_mod, Option-cases, get_elem?,
}
use rustafari_db.Core.Catalog.{TableId, TableMeta}
use rustafari_db.Core.Error.{Result, ok, err, panic}
use rustafari_db.Core.Host.{Host}
use rustafari_db.Core.Row
use rustafari_db.Core.Row.{Row}
use rustafari_db.Core.Schema.{column_index}
use rustafari_db.Core.Value.{Value}
use rustafari_db.Index.BTree.{from_value}
use rustafari_db.Storage.TableStore
use rustafari_db.Storage.TableStore.{RowId}
use rustafari_db.Storage.TableStore.Tables.{drop_table-rows_of}
use rustafari_db.Sql.Ast.{Statement, table_object}
use rustafari_db.Sql.Plan.{PlanNode, LogicalPlan}
use rustafari_db.Sql.Statements.{ast_to_plan}
use rustafari_db.Sql.Statements.Outcomes.{Parses}
use rustafari_db.Sql.Statements.Shapes.{PlanFor, ast_to_plan-PlanFor}
use rustafari_db.Executor.State.{SessionState, Exec, continue, pure, or_public, push_columnar_row}
use rustafari_db.Executor.Read.{ExecutionResult, rows, rows_affected, find_table}
use rustafari_db.Executor.Write.{
  describe_column, index_row, insert_row, insert_rows, execute_insert, execute_create_table,
  execute_drop_table, execute_describe_table,
}
use rustafari_db.Executor.Plan.{execute_node, execute_plan}
use rustafari_db.Executor.Consistency.{
  IsConsistent, filed_table, find_table-found, find_table-cases,
}
use rustafari_db.Executor.SqlExecutor.{execute}
use rustafari_db.Executor.SqlExecutor.Queries.{run_plan, execute-first}
use rustafari_db.Executor.SqlExecutor.History.{Reach, Reach-IsConsistent}

-- The result is a value or an error.
abbrev pub Ends {ℓ} : {A : Type ℓ} → Result A → Type 0
Ends panic = ⊥
Ends _ = Unit

-- A statement that is no query.
abbrev pub IsNoQuery : Statement → Type 0
IsNoQuery (Statement.query q) = ⊥
IsNoQuery _ = Unit

module _ {h : Host} where
  from_value-Ends : (v : Value h) → Ends (from_value v)
  unfolding from_value
  from_value-Ends v = ground arith

  Ends-continue {ℓ κ} :
      {A : Type ℓ} {B : Type κ} (r : Result A) (f : A → Exec h B) (s : SessionState h)
      → Ends r
      → ((a : A) → Ends (f a s).0)
      → Ends (continue r f s).0
  Ends-continue (ok a) f s e k = k a
  Ends-continue (err x) f s e k = tt
  Ends-continue panic f s e k = absurd e

  index_row-Ends :
      (t : TableId) (col : Option ℕ) (vals : List (Value h)) (r : RowId) (s : SessionState h)
      → Ends (index_row t col vals r s).0
  unfolding index_row
  index_row-Ends t none vals r s = tt
  index_row-Ends t (some i) vals r s = elim (Option-cases (get_elem? vals i)) [
    | inl missing ↦ ground (arith, missing)
    | inr (v, there) ↦ ground (arith, there, from_value-Ends v)
  ]

  insert_row-Ends :
      (meta : TableMeta) (vals : List (Value h)) (s : SessionState h)
      → Ends (insert_row meta vals s).0
  unfolding insert_row TableStore.insert
  insert_row-Ends meta vals s =
      let row : Row h = Row.new vals in
      let a : SessionState h = record s {
        row_store = (TableStore.insert s.row_store meta.id row).0;
      } in
      let col = column_index meta.schema "id" in
      let step = index_row meta.id col vals s.row_store.next_row_id a in
      let push : Unit {0} → Exec h (Unit {0}) =
        λ _ z. (ok tt, push_columnar_row meta.id row meta.schema z) in
      Ends-continue step.0 push step.1 (index_row-Ends meta.id col vals s.row_store.next_row_id a)
        λ _. tt

  insert_rows-Ends :
      (meta : TableMeta) (values : List (List (Value h))) (n : ℕ) (s : SessionState h)
      → Ends (insert_rows meta values n s).0
  unfolding insert_rows
  insert_rows-Ends meta [] n s = tt
  insert_rows-Ends meta (vals ∷ rest) n s =
      let z = (insert_row meta vals s).1 in
      let go : Unit {0} → Exec h ℕ = λ _. insert_rows meta rest (next_u64 n) in
      Ends-continue (insert_row meta vals s).0 go z (insert_row-Ends meta vals s)
        λ _. insert_rows-Ends meta rest (next_u64 n) z

  find_table-Ends :
      (s : SessionState h) (namespace : Option String) (table : String)
      → Ends (find_table s namespace table)
  find_table-Ends s namespace table = elim (find_table-cases namespace table s) [
    | inl missing ↦ subst Ends (sym missing) tt
    | inr (meta, found) ↦ subst Ends (sym found) tt
  ]

  execute_insert-Ends :
      (table : String) (namespace : Option String) (values : List (List (Value h)))
      (s : SessionState h)
      → Ends (execute_insert table namespace values s).0
  unfolding execute_insert
  execute_insert-Ends table namespace values s =
      let affected : ℕ → Exec h (ExecutionResult h) = λ n. pure (rows_affected n) in
      let after : TableMeta → Exec h (ExecutionResult h) =
        λ m z. let step = insert_rows m values 0 z in continue step.0 affected step.1 in
      Ends-continue (find_table s namespace table) after s (find_table-Ends s namespace table) λ m.
        let step = insert_rows m values 0 s in
        Ends-continue step.0 affected step.1 (insert_rows-Ends m values 0 s) λ _. tt

  execute_drop_table-Ends :
      (table : String) (namespace : Option String) (s : SessionState h)
      → IsConsistent s
      → s.catalog.next_table_id < u64_mod
      → Ends (execute_drop_table table namespace s).0
  unfolding execute_drop_table
  execute_drop_table-Ends table namespace s v room = elim (find_table-cases namespace table s) [
    | inl missing ↦ ground (arith, missing)
    | inr (meta, found) ↦
        let there = find_table-found namespace table s meta found in
        let below = (filed_table s.catalog (or_public namespace) table meta v.catalog there).1 in
        let (store, drops, _) =
          drop_table-rows_of s.row_store meta.id (omega (arith, below, room)) in
        ground (arith, found, drops)
  ]

module _ {h : Host} (debug : Value h → String) where
  -- The plan is no query.
  abbrev IsWrite : PlanNode h → Type 0
  IsWrite (PlanNode.insert _ _ _ _) = Unit
  IsWrite (PlanNode.create_table _ _ _) = Unit
  IsWrite (PlanNode.drop_table _ _) = Unit
  IsWrite (PlanNode.describe_table _ _) = Unit
  IsWrite _ = ⊥

  IsWrite-PlanFor :
      (stmt : Statement) (p : PlanNode h) → IsNoQuery stmt → PlanFor h stmt p → IsWrite p
  IsWrite-PlanFor (Statement.query q) p n f = absurd n
  IsWrite-PlanFor _ (PlanNode.insert _ _ _ _) n f = tt
  IsWrite-PlanFor _ (PlanNode.create_table _ _ _) n f = tt
  IsWrite-PlanFor _ (PlanNode.drop_table _ _) n f = tt
  IsWrite-PlanFor _ (PlanNode.describe_table _ _) n f = tt
  IsWrite-PlanFor (Statement.drop table_object (name ∷ _)) _ n f = absurd f
  IsWrite-PlanFor _ _ n f = absurd f

  execute_node-Ends :
      (p : PlanNode h) (s : SessionState h)
      → IsWrite p
      → IsConsistent s
      → s.catalog.next_table_id < u64_mod
      → Ends (execute_node debug p s).0
  unfolding execute_node execute_create_table execute_describe_table
  execute_node-Ends (PlanNode.insert table namespace _ values) s w v room =
      execute_insert-Ends table namespace values s
  execute_node-Ends (PlanNode.create_table table namespace columns) s w v room = tt
  execute_node-Ends (PlanNode.drop_table table namespace) s w v room =
      execute_drop_table-Ends table namespace s v room
  execute_node-Ends (PlanNode.describe_table table namespace) s w v room =
      Ends-continue (find_table s namespace table)
        (λ m. pure (rows (map describe_column m.schema.columns))) s
        (find_table-Ends s namespace table) λ _. tt
  execute_node-Ends _ s w v room = absurd w

  module _ (up : String → String) where
    run_plan-Ends :
        (stmt : Statement) (r : Result (LogicalPlan h)) (s : SessionState h)
        → IsNoQuery stmt
        → Parses (λ p. PlanFor h stmt p.root) r
        → IsConsistent s
        → s.catalog.next_table_id < u64_mod
        → Ends (run_plan debug up r s).0
    unfolding run_plan execute_plan
    run_plan-Ends stmt (ok p) s n f v room =
        execute_node-Ends p.root s (IsWrite-PlanFor stmt p.root n f) v room
    run_plan-Ends stmt (err e) s n f v room = tt
    run_plan-Ends stmt panic s n f v room = absurd f

    -- In a session that SQL texts lead to from a new one, a text whose first statement is no query ends
    -- in a result or an error and never in a panic, whatever the statement: INSERT, CREATE TABLE, DROP
    -- TABLE and DESCRIBE end, and so do the statements that are refused. Table identifiers have not run
    -- out.
    pub execute-Ends :
        (parser : String → List Statement ⊎ String) (sql : String) (stmt : Statement)
        (more : List Statement) (s : SessionState h)
        → Reach debug up parser s
        → parser sql ≡ inl (stmt ∷ more)
        → IsNoQuery stmt
        → s.catalog.next_table_id < u64_mod
        → Ends (execute debug up parser sql s).0
    execute-Ends parser sql stmt more s reach parsed n room =
        subst (λ x. Ends x.0) (sym (execute-first debug up parser sql stmt more s parsed))
          (run_plan-Ends stmt (ast_to_plan up stmt) s n (ast_to_plan-PlanFor h up stmt)
            (Reach-IsConsistent debug up parser reach) room)
