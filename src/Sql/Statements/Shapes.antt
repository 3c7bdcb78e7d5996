-- ===== src/Sql/Statements/Shapes.antt =====
-- What `ast_to_plan` of crates/rustafari-sql/src/plan.rs can return for each kind of statement.
use rustafari_db.Common.{
  String, Bool, List, [], ◌∷◌, Option, none, some, map, length, ◌≡◌, refl, arith,
}
use rustafari_db.Core.Error.{Result, ok, err, parse, ◌>>=◌, collect}
use rustafari_db.Core.Host.{Host}
use rustafari_db.Core.Value.{Value}
use rustafari_db.Sql.Aggregates.{projection_as_aggs}
use rustafari_db.Sql.Ast.{
  ObjectName, Expr, SelectItem, TableFactor, table_factor, other_factor, GroupByExpr, expressions,
  Select, SetExpr, Query, OrderByExpr, ObjectType, table_object, other_object, Statement,
}
use rustafari_db.Sql.Plan.{PlanNode, LogicalPlan}
use rustafari_db.Sql.Queries.{
  from_table, table_parts, add_where, group_by_cols, add_projection, add_columns, add_order_by,
  add_order_columns, add_limit, select_to_node, query_to_plan, filter_map, item_column,
}
use rustafari_db.Sql.Statements.{
  values_from_ast, source_values, insert_to_plan, create_table_to_plan, drop_to_plan,
  describe_to_plan, column_def, ast_to_plan,
}
use rustafari_db.Sql.Where.{expr_to_value}
use rustafari_db.Sql.Statements.Outcomes.{
  Parses, Any, Parses-bind, Parses-collect, expr_to_value-Parses, expr_to_filter-Parses,
  with_group-Parses,
}
use rustafari_db.Executor.Plan.Kept.{IsQuery}

group_by_cols-Parses : (g : GroupByExpr) → Parses Any (group_by_cols g)
unfolding group_by_cols
group_by_cols-Parses (expressions es) = tt
group_by_cols-Parses GroupByExpr.all = tt

module _ (h : Host) where
  add_columns-IsQuery :
      (cs : List String) (root : PlanNode h) → IsQuery root → IsQuery (add_columns cs root)
  add_columns-IsQuery [] root q = q
  add_columns-IsQuery (c ∷ cs) root q = q

  order-IsQuery :
      (cs : List (String × Bool)) (root : PlanNode h)
      → IsQuery root
      → IsQuery (add_order_columns cs root)
  order-IsQuery [] root q = q
  order-IsQuery (c ∷ cs) root q = q

  order_by-IsQuery :
      (os : List OrderByExpr) (root : PlanNode h) → IsQuery root → IsQuery (add_order_by os root)
  unfolding add_order_by
  order_by-IsQuery os root q = order-IsQuery _ root q

  limit-IsQuery :
      (l o : Option Expr) (root : PlanNode h) → IsQuery root → IsQuery (add_limit l o root)
  unfolding add_limit
  limit-IsQuery l o root q = ground arith

  from_table-Parses : (fs : List TableFactor) → Parses (IsQuery {h = h}) (from_table {h = h} fs)
  unfolding from_table
  from_table-Parses [] = tt
  from_table-Parses (table_factor name ∷ fs) = tt
  from_table-Parses (other_factor ∷ fs) = tt

  add_where-Parses :
      (w : Option Expr) (root : PlanNode h) → IsQuery root → Parses IsQuery (add_where w root)
  unfolding add_where
  add_where-Parses none root q = q
  add_where-Parses (some e) root q =
      Parses-bind Any IsQuery _ _ (expr_to_filter-Parses h e) λ _ _. q

  module _ (up : String → String) where
    add_projection-Parses :
        (ps : List SelectItem) (g : List String) (root : PlanNode h)
        → IsQuery root
        → Parses IsQuery (add_projection up ps g root)
    unfolding add_projection
    add_projection-Parses ps (c ∷ cs) root q =
        Parses-bind Any IsQuery _ _ (with_group-Parses up ps (c ∷ cs)) λ _ _. q
    add_projection-Parses ps [] root q =
        elim (projection_as_aggs up ps)
          as (λ o. Parses IsQuery (elim o [
            | some aggs ↦ ok (PlanNode.aggregate root aggs)
            | none ↦ ok (add_columns (filter_map item_column ps) root)
          ])) [ some aggs ↦ q | none ↦ add_columns-IsQuery (filter_map item_column ps) root q ]

    select_to_node-Parses :
        (sel : Select) → Parses (IsQuery {h = h}) (select_to_node {h = h} up sel)
    unfolding select_to_node
    select_to_node-Parses sel =
        let project : PlanNode h → List String → Result (PlanNode h) =
          λ root cols. add_projection up sel.projection cols root in
        let group : PlanNode h → Result (PlanNode h) =
          λ root. group_by_cols sel.group_by >>= project root in
        Parses-bind (IsQuery {h = h}) (IsQuery {h = h}) (from_table sel.from)
          (λ scan. add_where sel.selection scan >>= group) (from_table-Parses sel.from)
          λ scan q.
            Parses-bind (IsQuery {h = h}) (IsQuery {h = h}) (add_where sel.selection scan) group
              (add_where-Parses sel.selection scan q)
              λ root r.
                Parses-bind Any (IsQuery {h = h}) (group_by_cols sel.group_by) (project root)
                  (group_by_cols-Parses sel.group_by)
                  λ cols _. add_projection-Parses sel.projection cols root r

    query_to_plan-Parses :
        (q : Query) → Parses (λ p. IsQuery {h = h} p.root) (query_to_plan {h = h} up q)
    unfolding query_to_plan
    query_to_plan-Parses q =
        elim q.body
          as (λ b.
            Parses (λ p. IsQuery {h = h} p.root)
              (elim b [
                | SetExpr.select sel ↦ select_to_node up sel >>= λ root.
                    ok (record { root = add_limit q.limit q.offset (add_order_by q.order_by root) })
                | SetExpr.values _ ↦ err (parse "only SELECT supported in query")
                | SetExpr.other_set ↦ err (parse "only SELECT supported in query")
              ])) [
                | SetExpr.select sel ↦
                    Parses-bind (IsQuery {h = h}) (λ (p : LogicalPlan h). IsQuery p.root)
                      (select_to_node up sel)
                      (λ root. ok (record {
                        root = add_limit q.limit q.offset (add_order_by q.order_by root);
                      }))
                      (select_to_node-Parses sel)
                      λ root r.
                        limit-IsQuery q.limit q.offset (add_order_by q.order_by root)
                          (order_by-IsQuery q.order_by root r)
                | SetExpr.values _ ↦ tt
                | SetExpr.other_set ↦ tt
              ]

  -- The rows have as many values as the rows of expressions, in their order.
  abbrev pub SameShape : List (List Expr) → List (List (Value h)) → Type 0
  SameShape [] [] = Unit
  SameShape (es ∷ ess) (vs ∷ vss) = (length vs ≡ length es) × SameShape ess vss
  SameShape _ _ = ⊥

  values_from_ast-Parses :
      (ess : List (List Expr)) → Parses (SameShape ess) (values_from_ast {h = h} ess)
  unfolding values_from_ast
  values_from_ast-Parses [] = tt
  values_from_ast-Parses (es ∷ ess) =
      let more : List (Value h) → Result (List (List (Value h))) =
        λ vs. values_from_ast ess >>= λ vss. ok (vs ∷ vss) in
      Parses-bind (λ vs. length vs ≡ length es) (SameShape (es ∷ ess)) (collect expr_to_value es)
        more (Parses-collect expr_to_value es (expr_to_value-Parses h))
        λ vs e.
          Parses-bind (SameShape ess) (SameShape (es ∷ ess)) (values_from_ast ess)
            (λ vss. ok (vs ∷ vss)) (values_from_ast-Parses ess) λ vss f. (e, f)

  abbrev pub InsertsFrom : SetExpr → List (List (Value h)) → Type 0
  InsertsFrom (SetExpr.values ess) vss = SameShape ess vss
  InsertsFrom _ vss = ⊥

  abbrev pub Inserts : Option Query → List (List (Value h)) → Type 0
  Inserts none vss = ⊥
  Inserts (some q) vss = InsertsFrom q.body vss

  -- The node for a statement: its kind, the table under the name's parts, and for an INSERT and a
  -- CREATE TABLE the rows and the columns.
  abbrev pub PlanFor : Statement → PlanNode h → Type 0
  PlanFor (Statement.query q) p = IsQuery p
  PlanFor (Statement.insert name columns source) (PlanNode.insert table ns cs vss) =
      (table_parts name.idents ≡ (ns, table))
      × (cs ≡ map (λ c. c.printed) columns)
      × Inserts source vss
  PlanFor (Statement.create_table name columns) (PlanNode.create_table table ns cs) =
      (table_parts name.idents ≡ (ns, table)) × (cs ≡ map column_def columns)
  PlanFor (Statement.drop table_object (name ∷ _)) (PlanNode.drop_table table ns) =
      table_parts name.idents ≡ (ns, table)
  PlanFor (Statement.explain_table name) (PlanNode.describe_table table ns) =
      table_parts name.idents ≡ (ns, table)
  PlanFor _ _ = ⊥

  source_values-Parses :
      (source : Option Query) → Parses (Inserts source) (source_values {h = h} source)
  unfolding source_values
  source_values-Parses none = tt
  source_values-Parses (some q) =
      elim q.body
        as (λ b. Parses (InsertsFrom b) (elim b [
          | SetExpr.values rows ↦ values_from_ast rows
          | SetExpr.select _ ↦ err (parse "INSERT only supports VALUES")
          | SetExpr.other_set ↦ err (parse "INSERT only supports VALUES")
        ])) [
          | SetExpr.values rows ↦ values_from_ast-Parses rows
          | SetExpr.select _ ↦ tt
          | SetExpr.other_set ↦ tt
        ]

  drop_to_plan-Parses :
      (o : ObjectType) (names : List ObjectName)
      → Parses (λ p. PlanFor (Statement.drop o names) p.root) (drop_to_plan {h = h} o names)
  unfolding drop_to_plan
  drop_to_plan-Parses other_object names = tt
  drop_to_plan-Parses table_object [] = tt
  drop_to_plan-Parses table_object (name ∷ _) = refl

  -- The translation of any statement ends in the plan for it or in an error of parsing, and never
  -- panics: a query gives a plan that writes nothing, an INSERT its table, its columns and one row for
  -- each row of expressions with as many values, CREATE TABLE its table and columns, DROP TABLE and
  -- DESCRIBE their table; no other statement gives a plan.
  pub ast_to_plan-PlanFor :
      (up : String → String) (stmt : Statement)
      → Parses (λ p. PlanFor stmt p.root) (ast_to_plan {h = h} up stmt)
  unfolding ast_to_plan insert_to_plan create_table_to_plan describe_to_plan
  ast_to_plan-PlanFor up (Statement.query q) = query_to_plan-Parses up q
  ast_to_plan-PlanFor up (Statement.insert name columns source) =
      let (ns, table) = table_parts name.idents in
      Parses-bind (Inserts source) (λ p. PlanFor (Statement.insert name columns source) p.root)
        (source_values source)
        (λ vss. ok (record { root = PlanNode.insert table ns (map (λ c. c.printed) columns) vss }))
        (source_values-Parses source) λ vss i. (refl, refl, i)
  ast_to_plan-PlanFor up (Statement.create_table name columns) = (refl, refl)
  ast_to_plan-PlanFor up (Statement.drop o names) = drop_to_plan-Parses o names
  ast_to_plan-PlanFor up (Statement.explain_table name) = refl
  ast_to_plan-PlanFor up Statement.other_statement = tt
