-- ===== src/Tests/Sql.antt =====
-- The theorems on SQL statements, at the session with two rows in `people`.
use rustafari_db.Common.{
  ◌≡◌, refl, sym, subst, String, not, List, [], ◌∷◌, none, some, filter, arith, ◌⊎◌, inl,
}
use rustafari_db.Common.Int.{pos}
use rustafari_db.Core.Error.{ok}
use rustafari_db.Core.Row
use rustafari_db.Core.Row.{Row}
use rustafari_db.Core.Value.{int64, string}
use rustafari_db.Sql.Ast.{
  Ident, ObjectName, Expr, identifier, value, binary, number, BinaryOperator, Query, Statement,
}
use rustafari_db.Sql.Plan.{FilterExpr, cmp, gt_op, lt_op, eq_op, both}
use rustafari_db.Sql.Queries.{table_parts}
use rustafari_db.Sql.Where.{literal_value, expr_to_value, order_comparison, expr_to_filter}
use rustafari_db.Sql.Number.{parse_i64}
use rustafari_db.Sql.Where.Reading.{cell, Fits}
use rustafari_db.Sql.Where.Meaning.{holds, IsTyped, eval_predicate-holds}
use rustafari_db.Sql.Where.Reversed.{ordered, literal_first_reversed}
use rustafari_db.Sql.Where.RoundTrip.{filter_to_expr, expr_to_filter-filter_to_expr}
use rustafari_db.Sql.Statements.{ast_to_plan}
use rustafari_db.Sql.Statements.Outcomes.{Parses}
use rustafari_db.Sql.Statements.Shapes.{PlanFor, ast_to_plan-PlanFor}
use rustafari_db.Executor.Predicate.{eval_predicate, field_of, predicate_to_id_lookup}
use rustafari_db.Executor.Read.{rows, index_lookup}
use rustafari_db.Executor.Plan.Reads.{data_of}
use rustafari_db.Executor.Plan.Selects.{table_rows}
use rustafari_db.Executor.SqlExecutor.{execute}
use rustafari_db.Executor.SqlExecutor.Queries.{execute-data_of}
use rustafari_db.Executor.SqlExecutor.Filters.{select_all, keep, skip, execute-select_all}
use rustafari_db.Tests.Fixtures.{host, people, filled, id_column}
use rustafari_db.Tests.Session.{people-filled, people_id, filled_rows}
use rustafari_db.Tests.Queries.{show_value, ada, bob}

abbrev pub plain : String → Ident
plain s = record { value = s; printed = s }

-- id > 8, and 8 > id
abbrev pub over_eight : Expr
over_eight = binary (identifier (plain "id")) BinaryOperator.gt_op (value (number "8"))

abbrev pub people_name : ObjectName
people_name = record { idents = plain "people" ∷ [] }

-- SELECT * FROM people WHERE id > 8 LIMIT 1
abbrev query_over_eight : Query
query_over_eight = select_all people_name over_eight (some (value (number "1"))) none

abbrev parser : String → List Statement ⊎ String
parser sql = inl (Statement.query query_over_eight ∷ [])

abbrev pub upper : String → String
upper s = s

eight : literal_value {h = host} (number "8") ≡ ok (int64 (pos 8))
unfolding literal_value
eight = refl

over_eight_filter : expr_to_filter {h = host} over_eight ≡ ok (cmp "id" gt_op (int64 (pos 8)))
unfolding expr_to_filter order_comparison expr_to_value literal_value
over_eight_filter = refl

ada_id : cell ada people.schema "id" ≡ some (int64 (pos 7))
unfolding Row.new
ada_id = rw (id_column, cell) refl

bob_id : cell bob people.schema "id" ≡ some (int64 (pos 9))
unfolding Row.new
bob_id = rw (id_column, cell) refl

bob_field : field_of bob people.schema "id" ≡ some (int64 (pos 9))
unfolding field_of Row.get
bob_field = bob_id

ada-IsTyped : IsTyped ada people.schema over_eight
unfolding parse_i64
ada-IsTyped = subst (λ o. Fits gt_op o (some (int64 (pos 8)))) (sym ada_id) tt

bob-IsTyped : IsTyped bob people.schema over_eight
unfolding parse_i64
bob-IsTyped = subst (λ o. Fits gt_op o (some (int64 (pos 8)))) (sym bob_id) tt

execute-select_all_example :
    execute show_value upper parser "SELECT * FROM people WHERE id > 8 LIMIT 1" filled ≡ (
      ok (
          rows (
            keep (some (value (number "1"))) (
              skip none (
                filter
                  (λ row. holds row people.schema over_eight)
                  (table_rows filled people.id))))),
      filled,
    )
unfolding table_parts index_lookup predicate_to_id_lookup
execute-select_all_example =
    execute-select_all show_value upper parser "SELECT * FROM people WHERE id > 8 LIMIT 1"
      people_name over_eight (some (value (number "1"))) none [] (cmp "id" gt_op (int64 (pos 8)))
      filled people refl over_eight_filter tt (rw filled_rows (ada-IsTyped, (bob-IsTyped, tt)))
      people-filled (rw people_id (omega arith)) refl (rw filled_rows (omega arith))

execute-data_of_example :
    data_of (execute show_value upper parser "SELECT * FROM people WHERE id > 8 LIMIT 1" filled).1
    ≡ data_of filled
execute-data_of_example =
    execute-data_of show_value upper parser "SELECT * FROM people WHERE id > 8 LIMIT 1" filled
      query_over_eight [] refl

eval_predicate-holds_example :
    eval_predicate ada (cmp "id" gt_op (int64 (pos 8))) people.schema
    ≡ holds ada people.schema over_eight
eval_predicate-holds_example =
    eval_predicate-holds ada people.schema over_eight (cmp "id" gt_op (int64 (pos 8))) tt
      ada-IsTyped over_eight_filter

-- 8 < id, which holds of `bob` and not of `ada`
abbrev eight_below : Expr
eight_below = binary (value (number "8")) BinaryOperator.lt_op (identifier (plain "id"))

eight_below_filter : expr_to_filter {h = host} eight_below ≡ ok (cmp "id" lt_op (int64 (pos 8)))
unfolding expr_to_filter order_comparison expr_to_value literal_value
eight_below_filter = refl

literal_first_reversed_example :
    (expr_to_filter {h = host}
        (binary (identifier (plain "id")) BinaryOperator.lt_op (value (number "8")))
      ≡ ok (cmp "id" lt_op (int64 (pos 8))))
    × (eval_predicate bob (cmp "id" lt_op (int64 (pos 8))) people.schema
        ≡ not (ordered BinaryOperator.lt_op (pos 8) (pos 9)))
literal_first_reversed_example =
    literal_first_reversed bob people.schema BinaryOperator.lt_op (number "8") (plain "id") (pos 9)
      (pos 8) (cmp "id" lt_op (int64 (pos 8))) tt eight bob_field (ground arith) eight_below_filter

abbrev between : FilterExpr host
between = both (cmp "id" gt_op (int64 (pos 5))) (cmp "name" eq_op (string "ada"))

expr_to_filter-filter_to_expr_example : expr_to_filter (filter_to_expr between) ≡ ok between
expr_to_filter-filter_to_expr_example = expr_to_filter-filter_to_expr between (omega arith, tt)

ast_to_plan-PlanFor_example :
    Parses
      (λ p. PlanFor host (Statement.query query_over_eight) p.root)
      (ast_to_plan upper (Statement.query query_over_eight))
ast_to_plan-PlanFor_example = ast_to_plan-PlanFor host upper (Statement.query query_over_eight)
