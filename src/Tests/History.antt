-- ===== src/Tests/History.antt =====
-- Sessions of SQL texts: CREATE TABLE and INSERT lead from a new session to the one with two rows in
-- `people`.
use text.Mathlib.Text.{◌==◌ as str_eq}
use rustafari_db.Common.{
  ◌<◌, ◌≡◌, refl, ◌∙◌, ap, subst, String, List, [], ◌∷◌, filter, none, some, arith, ◌⊎◌, inl,
  u64_mod, if◌then◌else◌,
}
use rustafari_db.Common.HashMap
use rustafari_db.Common.Int.{pos}
use rustafari_db.Core.Catalog
use rustafari_db.Core.Catalog.Invariant as CatalogInvariant
use rustafari_db.Core.Error.{ok}
use rustafari_db.Core.Value.{int64}
use rustafari_db.Sql.Ast.{
  Expr, identifier, value, binary, number, single_quoted, BinaryOperator, SetExpr, DataType,
  Statement,
}
use rustafari_db.Sql.Plan.{PlanNode, AggExpr}
use rustafari_db.Sql.Queries.{table_parts}
use rustafari_db.Sql.Where.{expr_to_value, literal_value}
use rustafari_db.Sql.Statements.{
  sql_to_plan, parse_sql, first_to_plan, ast_to_plan, create_table_to_plan, insert_to_plan,
  source_values, values_from_ast,
}
use rustafari_db.Executor.State
use rustafari_db.Executor.State.{SessionState, continue, pure}
use rustafari_db.Executor.Aggregate.{aggregate_over_row_slice}
use rustafari_db.Executor.Read.{rows, rows_affected}
use rustafari_db.Executor.Write.{execute_insert, execute_create_table}
use rustafari_db.Executor.Plan.{execute_node, execute_plan}
use rustafari_db.Executor.Plan.Selects.{table_rows, answer}
use rustafari_db.Executor.Consistency.{IsConsistent}
use rustafari_db.Executor.SqlExecutor.{execute}
use rustafari_db.Executor.SqlExecutor.Queries.{run_plan, execute-run_plan}
use rustafari_db.Executor.SqlExecutor.Panics.{Ends, execute-Ends}
use rustafari_db.Executor.SqlExecutor.Filters.{select_all, keep, skip}
use rustafari_db.Executor.SqlExecutor.History.{Reach, start, ran, Reach-IsConsistent}
use rustafari_db.Executor.SqlExecutor.History.Answers.{
  select_call, has_int, execute-select_by_id, execute-select_sum,
}
use rustafari_db.Tests.Fixtures.{
  host, columns, people, created, two_rows, filled, id_column, people-created,
}
use rustafari_db.Tests.Session.{
  people-filled, filled_rows, has_id, has_ints, next_in_created, catalog_kept,
}
use rustafari_db.Tests.Selects.{inserted_two}
use rustafari_db.Tests.Sql.{plain, people_name}
use rustafari_db.Tests.Queries.{show_value, row_ids}

abbrev creation : Statement
creation = Statement.create_table people_name (
    record { name = plain "id"; data_type = DataType.big_int }
    ∷ record { name = plain "name"; data_type = DataType.text }
    ∷ [])

abbrev insertion : Statement
insertion = Statement.insert people_name [] (
    some (record {
      body = SetExpr.values (
          (value (number "7") ∷ value (single_quoted "ada") ∷ [])
          ∷ (value (number "9") ∷ value (single_quoted "bob") ∷ [])
          ∷ []);
      order_by = [];
      limit = none;
      offset = none;
    }))

-- SELECT * FROM people WHERE id = 9 LIMIT 5, and SELECT sum(id) FROM people
abbrev id_is_nine : Expr
id_is_nine = binary (identifier (plain "id")) BinaryOperator.eq_op (value (number "9"))

abbrev by_id : Statement
by_id = Statement.query (select_all people_name id_is_nine (some (value (number "5"))) none)

abbrev sum_of_ids : Statement
sum_of_ids = Statement.query (select_call (plain "sum") (plain "id") people_name)

abbrev pub texts : String → List Statement ⊎ String
texts sql =
    if str_eq sql "CREATE TABLE people (id BIGINT, name TEXT)"
    then inl (creation ∷ [])
    else if str_eq sql "INSERT INTO people VALUES (7, 'ada'), (9, 'bob')"
    then inl (insertion ∷ [])
    else if str_eq sql "SELECT sum(id) FROM people"
    then inl (sum_of_ids ∷ [])
    else inl (by_id ∷ [])

abbrev pub capitals : String → String
capitals s = if str_eq s "sum" then "SUM" else s

pub created_plan :
    sql_to_plan {h = host} capitals texts "CREATE TABLE people (id BIGINT, name TEXT)"
    ≡ ok (record { root = PlanNode.create_table "people" none columns })
unfolding sql_to_plan parse_sql first_to_plan ast_to_plan create_table_to_plan table_parts
created_plan = refl

inserted_plan :
    sql_to_plan {h = host} capitals texts "INSERT INTO people VALUES (7, 'ada'), (9, 'bob')"
    ≡ ok (record { root = PlanNode.insert "people" none [] two_rows })
unfolding sql_to_plan parse_sql first_to_plan ast_to_plan insert_to_plan table_parts source_values
    values_from_ast expr_to_value literal_value
inserted_plan = refl

abbrev first_session : SessionState host
first_session =
    (execute show_value capitals texts "CREATE TABLE people (id BIGINT, name TEXT)" State.new).1

first_is : first_session ≡ created
unfolding run_plan execute_plan execute_node
first_is =
    ap (λ x. x.1)
      (execute-run_plan show_value capitals texts "CREATE TABLE people (id BIGINT, name TEXT)"
          State.new
        ∙ ap (λ r. run_plan show_value capitals r State.new) created_plan)

insert_in_created :
    execute_node show_value (PlanNode.insert "people" none [] two_rows) created
    ≡ (ok (rows_affected 2), filled)
unfolding execute_node execute_insert
insert_in_created =
    rw people-created (ap (λ o. continue o (λ n. pure (rows_affected n)) filled) inserted_two)

second_is :
    execute show_value capitals texts "INSERT INTO people VALUES (7, 'ada'), (9, 'bob')" created
    ≡ (ok (rows_affected 2), filled)
unfolding run_plan execute_plan
second_is =
    execute-run_plan show_value capitals texts "INSERT INTO people VALUES (7, 'ada'), (9, 'bob')"
      created
    ∙ ap (λ r. run_plan show_value capitals r created) inserted_plan
    ∙ insert_in_created

pub created_room : CatalogInvariant.HasRoom created.catalog
unfolding execute_create_table Catalog.create_table Catalog.add_table Catalog.ensure_namespace
    HashMap.get
created_room = record { namespaces_left = omega arith; tables_left = omega arith }

filled_tables : filled.catalog.next_table_id < u64_mod
filled_tables = rw catalog_kept (omega (arith, created_room.tables_left))

created-Reach : Reach show_value capitals texts created
created-Reach = subst (Reach show_value capitals texts) first_is (
    ran "CREATE TABLE people (id BIGINT, name TEXT)" start (
      rw created_plan
        (((record { namespaces_left = omega arith; tables_left = omega arith }, omega arith), tt))))

filled-Reach : Reach show_value capitals texts filled
filled-Reach = subst (Reach show_value capitals texts) (ap (λ x. x.1) second_is) (
    ran "INSERT INTO people VALUES (7, 'ada'), (9, 'bob')" created-Reach (
      rw inserted_plan (
        (
          (created_room, rw next_in_created (omega arith)),
          (rows_affected 2, ap (λ x. x.0) insert_in_created),
        ))))

Reach-IsConsistent_example : IsConsistent filled
Reach-IsConsistent_example = Reach-IsConsistent show_value capitals texts filled-Reach

nine : literal_value {h = host} (number "9") ≡ ok (int64 (pos 9))
unfolding literal_value
nine = refl

execute-select_by_id_example :
    execute show_value capitals texts "SELECT * FROM people WHERE id = 9 LIMIT 5" filled ≡ (
      ok (
          rows (
            keep
              (some (value (number "5")))
              (skip none (filter (has_int 0 (pos 9)) (table_rows filled people.id))))),
      filled,
    )
unfolding table_parts
execute-select_by_id_example =
    execute-select_by_id show_value capitals texts filled filled-Reach
      "SELECT * FROM people WHERE id = 9 LIMIT 5" people_name id_is_nine (some (value (number "5")))
      none [] (pos 9) people 0 refl (refl, nine) people-filled id_column has_ints
      (omega arith, omega arith) (rw filled_rows (omega arith))

execute-select_sum_example :
    (execute show_value capitals texts "SELECT sum(id) FROM people" filled).0
    ≡ answer
        (aggregate_over_row_slice (table_rows filled people.id) people.schema (AggExpr.sum "id"))
unfolding table_parts
execute-select_sum_example =
    execute-select_sum show_value capitals texts filled filled-Reach "SELECT sum(id) FROM people"
      (plain "sum") (plain "id") people_name [] people 0 refl refl filled_tables people-filled
      has_id id_column (rw filled_rows (rw row_ids tt)) (rw filled_rows (rw row_ids (omega arith)))

execute-Ends_example :
    Ends
      (execute show_value capitals texts "INSERT INTO people VALUES (7, 'ada'), (9, 'bob')"
        filled).0
execute-Ends_example =
    execute-Ends show_value capitals texts "INSERT INTO people VALUES (7, 'ada'), (9, 'bob')"
      insertion [] filled filled-Reach refl tt filled_tables
