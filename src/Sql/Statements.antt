-- ===== src/Sql/Statements.antt =====
-- Statements in crates/rustafari-sql/src/plan.rs and lib.rs: `ast_to_plan`, and `sql_to_plan` with the
-- parser of the sqlparser crate as a parameter.
pub mod Outcomes
pub mod Shapes
use rustafari_db.Common.{String, List, [], ◌∷◌, Option, none, some, map, ◌⊎◌, inl, inr}
use rustafari_db.Core.Error.{Result, ok, err, parse, collect, ◌>>=◌}
use rustafari_db.Core.Host.{Host}
use rustafari_db.Core.Schema.{ColumnType}
use rustafari_db.Core.Value.{Value}
use rustafari_db.Sql.Ast.{
  Ident, ObjectName, Expr, SetExpr, Query, DataType, ColumnDef, ObjectType, table_object,
  other_object, Statement,
}
use rustafari_db.Sql.Plan.{PlanNode, LogicalPlan}
use rustafari_db.Sql.Queries.{table_parts, query_to_plan}
use rustafari_db.Sql.Where.{expr_to_value}

abbrev pub column_type : DataType → ColumnType
column_type DataType.big_int = ColumnType.big_int
column_type DataType.double_precision = ColumnType.double
column_type DataType.boolean_type = ColumnType.boolean
column_type DataType.varchar = ColumnType.varchar none
column_type DataType.text = ColumnType.text
column_type DataType.timestamp = ColumnType.timestamp
column_type DataType.date = ColumnType.date
column_type DataType.blob = ColumnType.blob
column_type DataType.other_type = ColumnType.text

-- A column is named by what is printed of its identifier.
abbrev pub column_def : ColumnDef → String × ColumnType
column_def c = (c.name.printed, column_type c.data_type)

-- `parser` is that of sqlparser: statements, or the text of an error.
unfoldable pub parse_sql : (String → List Statement ⊎ String) → String → Result (List Statement)
parse_sql parser sql = elim (parser sql) [ inl stmts ↦ ok stmts | inr e ↦ err (parse e) ]

module _ {h : Host} where
  unfoldable pub values_from_ast : List (List Expr) → Result (List (List (Value h)))
  unfolding expr_to_value
  values_from_ast rows = collect (λ row. collect expr_to_value row) rows

  -- The rows of an INSERT.
  unfoldable pub source_values : Option Query → Result (List (List (Value h)))
  unfolding values_from_ast
  source_values none = err (parse "INSERT must have source")
  source_values (some q) = elim q.body [
    | SetExpr.values rows ↦ values_from_ast rows
    | SetExpr.select _ ↦ err (parse "INSERT only supports VALUES")
    | SetExpr.other_set ↦ err (parse "INSERT only supports VALUES")
  ]

  unfoldable pub insert_to_plan : ObjectName → List Ident → Option Query → Result (LogicalPlan h)
  unfolding table_parts source_values
  insert_to_plan name columns source =
      let (ns, table) = table_parts name.idents in
      source_values source >>= λ rows.
      ok (record { root = PlanNode.insert table ns (map (λ c. c.printed) columns) rows })

  unfoldable pub create_table_to_plan : ObjectName → List ColumnDef → LogicalPlan h
  unfolding table_parts
  create_table_to_plan name columns =
      let (ns, table) = table_parts name.idents in
      record { root = PlanNode.create_table table ns (map column_def columns) }

  unfoldable pub drop_to_plan : ObjectType → List ObjectName → Result (LogicalPlan h)
  unfolding table_parts
  drop_to_plan other_object names = err (parse "unsupported statement")
  drop_to_plan table_object [] = err (parse "DROP TABLE requires a table name")
  drop_to_plan table_object (name ∷ _) =
      let (ns, table) = table_parts name.idents in
      ok (record { root = PlanNode.drop_table table ns })

  unfoldable pub describe_to_plan : ObjectName → LogicalPlan h
  unfolding table_parts
  describe_to_plan name =
      let (ns, table) = table_parts name.idents in
      record { root = PlanNode.describe_table table ns }

  module _ (to_uppercase : String → String) where
    unfoldable pub ast_to_plan : Statement → Result (LogicalPlan h)
    unfolding query_to_plan insert_to_plan create_table_to_plan drop_to_plan describe_to_plan
    ast_to_plan (Statement.query q) = query_to_plan to_uppercase q
    ast_to_plan (Statement.insert name columns source) = insert_to_plan name columns source
    ast_to_plan (Statement.create_table name columns) = ok (create_table_to_plan name columns)
    ast_to_plan (Statement.drop object_type names) = drop_to_plan object_type names
    ast_to_plan (Statement.explain_table name) = ok (describe_to_plan name)
    ast_to_plan Statement.other_statement = err (parse "unsupported statement")

    -- The first of the statements; the others are left out.
    unfoldable pub first_to_plan : List Statement → Result (LogicalPlan h)
    unfolding ast_to_plan
    first_to_plan [] = err (parse "empty statement")
    first_to_plan (stmt ∷ _) = ast_to_plan stmt

    unfoldable pub sql_to_plan :
        (String → List Statement ⊎ String) → String → Result (LogicalPlan h)
    unfolding parse_sql first_to_plan
    sql_to_plan parser sql = parse_sql parser sql >>= first_to_plan
