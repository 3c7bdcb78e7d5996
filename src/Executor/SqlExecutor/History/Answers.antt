-- ===== src/Executor/SqlExecutor/History/Answers.antt =====
-- What `SqlExecutor::execute` of crates/rustafari-executor/src/sql_executor.rs answers to a query, in a
-- session that SQL texts led to from a new one.
use mathlib.Core.Path.{fun_ext}
use rustafari_db.Common.{
  ℕ, ◌<◌, ◌^◌, ◌≡◌, refl, ◌∙◌, ap, String, Bool, true, List, [], ◌∷◌, map, filter, length,
  length-filter, Option, none, some, ◌⊎◌, inl, arith, u64_mod, get_elem?, false,
}
use rustafari_db.Common.Int.{ℤ, IsI64}
use rustafari_db.Core.Catalog.{TableMeta}
use rustafari_db.Core.Error.{ok}
use rustafari_db.Core.Host.{Host}
use rustafari_db.Core.Row
use rustafari_db.Core.Row.{Row}
use rustafari_db.Core.Schema.{Schema, column_index}
use rustafari_db.Core.Value.{Value, int64, value_eq}
use rustafari_db.Storage.Columnar.Sums.{ints}
use rustafari_db.Storage.TableStore.Rows.{rows_of}
use rustafari_db.Sql.Aggregates.{
  projection_as_aggs, items_as_aggs, item_as_agg, expr_to_agg, column_argument, col_from_arg,
}
use rustafari_db.Sql.Ast.{
  Ident, ObjectName, Expr, identifier, value, binary, nested, BinaryOperator, function, SelectItem,
  no_arg, arg, call, unnamed_expr, unnamed, table_factor, expressions, SetExpr, Query, Statement,
}
use rustafari_db.Sql.Plan.{PlanNode, AggExpr}
use rustafari_db.Sql.Queries.{
  table_parts, add_limit, add_order_by, add_projection, add_where, from_table, group_by_cols,
  select_to_node, query_to_plan,
}
use rustafari_db.Sql.Statements.{ast_to_plan}
use rustafari_db.Sql.Where.{literal_value, equality, expr_to_value, expr_to_filter}
use rustafari_db.Sql.Where.Reading.{same_ℤ}
use rustafari_db.Executor.State.{SessionState, or_public}
use rustafari_db.Executor.State.Buffer.{has_column, value_in}
use rustafari_db.Executor.Aggregate.{aggregate_over_row_slice}
use rustafari_db.Executor.Aggregate.Magnitude.{total_mag}
use rustafari_db.Executor.Aggregate.Paths.{NoFloats}
use rustafari_db.Executor.Predicate.{test_value, field_of, eval_predicate}
use rustafari_db.Executor.Read.{rows, find_table}
use rustafari_db.Executor.Read.Lookup.{id_is, point_lookup, HasInts}
use rustafari_db.Executor.Plan.{execute_node, execute_plan}
use rustafari_db.Executor.Plan.Selects.{table_rows, answer, select_sum}
use rustafari_db.Executor.Consistency.{filed_table, find_table-found}
use rustafari_db.Executor.SqlExecutor.{execute}
use rustafari_db.Executor.SqlExecutor.Queries.{run_plan, execute-first}
use rustafari_db.Executor.SqlExecutor.Filters.{select_all, keep, skip, select_all_plan, window}
use rustafari_db.Executor.SqlExecutor.History.{Reach, Reach-IsConsistent}

-- The item `f(c)`.
abbrev call_of : Ident → Ident → SelectItem
call_of f c =
    unnamed
      (function (call (record { idents = f ∷ [] }) (arg (unnamed_expr (identifier c)) no_arg)))

-- SELECT f(c) FROM name
abbrev pub select_call : Ident → Ident → ObjectName → Query
select_call f c name = record {
  body = SetExpr.select (record {
    projection = call_of f c ∷ [];
    from = table_factor name ∷ [];
    selection = none;
    group_by = expressions [];
  });
  order_by = [];
  limit = none;
  offset = none;
}

sum_call :
    (up : String → String) (f c : Ident)
    → up f.value ≡ "SUM"
    → expr_to_agg up (call (record { idents = f ∷ [] }) (arg (unnamed_expr (identifier c)) no_arg))
      ≡ ok (AggExpr.sum c.value)
unfolding expr_to_agg column_argument col_from_arg
sum_call up f c e = rw (e, expr_to_agg) refl

sum_projection :
    (up : String → String) (f c : Ident)
    → up f.value ≡ "SUM"
    → projection_as_aggs up (call_of f c ∷ []) ≡ some (AggExpr.sum c.value ∷ [])
unfolding projection_as_aggs items_as_aggs item_as_agg
sum_projection up f c e = ground (arith, sum_call up f c e)

-- The clause says `id = v`, or `v = id`, in parentheses or not.
abbrev pub SaysId : Host → ℤ → Expr → Type 0
SaysId h v (binary (identifier id) BinaryOperator.eq_op (value l)) =
    (id.value ≡ "id") × (literal_value {h = h} l ≡ ok (int64 v))
SaysId h v (binary (value l) BinaryOperator.eq_op (identifier id)) =
    (id.value ≡ "id") × (literal_value {h = h} l ≡ ok (int64 v))
SaysId h v (nested e) = SaysId h v e
SaysId h v _ = ⊥

module _ {h : Host} where
  -- The row has the integer in the column.
  abbrev pub has_int : ℕ → ℤ → Row h → Bool
  has_int col v row = elim (get_elem? row.values col) [ some (int64 a) ↦ same_ℤ a v | _ ↦ false ]

  expr_to_filter-SaysId :
      (v : ℤ) (e : Expr) → SaysId h v e → expr_to_filter {h = h} e ≡ ok (id_is v)
  unfolding expr_to_filter equality expr_to_value
  expr_to_filter-SaysId v (binary (identifier id) BinaryOperator.eq_op (value l)) t =
      ground (arith, t.0, t.1)
  expr_to_filter-SaysId v (binary (value l) BinaryOperator.eq_op (identifier id)) t =
      ground (arith, t.0, t.1)
  expr_to_filter-SaysId v (nested e) t = expr_to_filter-SaysId v e t
  expr_to_filter-SaysId v _ t = absurd t

  eval_predicate-has_int :
      (schema : Schema) (col : ℕ) (v : ℤ) (row : Row h)
      → column_index schema "id" ≡ some col
      → eval_predicate row (id_is v) schema ≡ has_int col v row
  unfolding eval_predicate test_value field_of value_eq Row.get
  eval_predicate-has_int schema col v row at = ground (arith, at)

module _ {h : Host} (debug : Value h → String) (up : String → String) where
  select_sum_plan :
      (f c : Ident) (name : ObjectName)
      → up f.value ≡ "SUM"
      → ast_to_plan {h = h} up (Statement.query (select_call f c name))
        ≡ ok (record {
          root =
              PlanNode.aggregate
                (PlanNode.scan (table_parts name.idents).1 (table_parts name.idents).0)
                (AggExpr.sum c.value ∷ []);
        })
  unfolding ast_to_plan query_to_plan select_to_node from_table add_where group_by_cols
      add_projection add_order_by add_limit
  select_sum_plan f c name e = rw (sum_projection up f c e, add_projection) refl

  module _ (parser : String → List Statement ⊎ String) (s : SessionState h)
      (reach : Reach debug up parser s) where
    -- In a session that SQL texts lead to from a new one, `SELECT * FROM t WHERE e` with a clause `e`
    -- that says `id = v`, with LIMIT and OFFSET or without, answers from the index on `id` what a scan
    -- of all rows would give: the rows of the table that have the integer `v` in the column, in row
    -- order, less those that OFFSET skips and those past LIMIT, where one that is no `u64` counts as 0;
    -- the state is unchanged. The text parses to the query, the table is there and has the column, which
    -- holds integers, NULLs or nothing, `v` is an `i64`, and the table has fewer than 2 ^ 64 rows.
    pub execute-select_by_id :
        (sql : String) (name : ObjectName) (e : Expr) (l o : Option Expr) (more : List Statement)
        (v : ℤ) (meta : TableMeta) (col : ℕ)
        → parser sql ≡ inl (Statement.query (select_all name e l o) ∷ more)
        → SaysId h v e
        → find_table s (table_parts name.idents).0 (table_parts name.idents).1 ≡ ok meta
        → column_index meta.schema "id" ≡ some col
        → HasInts col (rows_of s.row_store meta.id)
        → IsI64 v
        → length (table_rows s meta.id) < 2 ^ 64
        → execute debug up parser sql s
          ≡ (ok (rows (keep l (skip o (filter (has_int col v) (table_rows s meta.id))))), s)
    unfolding run_plan execute_plan execute_node
    execute-select_by_id sql name e l o more v meta col parsed says found at ints hv fits =
        let t = expr_to_filter-SaysId v e says in
        let table = (table_parts name.idents).1 in
        let ns = (table_parts name.idents).0 in
        let all = Reach-IsConsistent debug up parser reach in
        let there = find_table-found ns table s meta found in
        let (ix, indexed, agrees) = (all.tables (or_public ns) table meta there).indexed col at in
        let same : filter (λ row. eval_predicate row (id_is v) meta.schema) (table_rows s meta.id)
            ≡ filter (has_int col v) (table_rows s meta.id) =
          ap (λ (q : Row h → Bool). filter q (table_rows s meta.id))
            (fun_ext λ row. eval_predicate-has_int meta.schema col v row at) in
        execute-first debug up parser sql (Statement.query (select_all name e l o)) more s parsed
        ∙ ap (λ r. run_plan debug up r s) (select_all_plan debug up name e l o (id_is v) t)
        ∙ window debug l o (PlanNode.filter (PlanNode.scan table ns) (id_is v))
            (filter (has_int col v) (table_rows s meta.id)) s s
            (omega (arith, length-filter (has_int col v) (table_rows s meta.id), fits))
            (point_lookup table ns v s meta col ix found at indexed agrees all.store ints hv
              ∙ ap (λ xs. (ok (rows xs), s)) same)

    -- In a session that SQL texts lead to from a new one, `SELECT SUM(c) FROM t` answers from the
    -- chunks the sum over the rows of the table. The text parses to the query, the name of the function
    -- is SUM in capitals, the table is there and has the column, table identifiers have not run out, no
    -- value of the column is a float, and the magnitudes of its integers add up to less than 2 ^ 63.
    pub execute-select_sum :
        (sql : String) (f c : Ident) (name : ObjectName) (more : List Statement) (meta : TableMeta)
        (col : ℕ)
        → parser sql ≡ inl (Statement.query (select_call f c name) ∷ more)
        → up f.value ≡ "SUM"
        → s.catalog.next_table_id < u64_mod
        → find_table s (table_parts name.idents).0 (table_parts name.idents).1 ≡ ok meta
        → has_column c.value meta.schema.columns ≡ true
        → column_index meta.schema c.value ≡ some col
        → NoFloats (map (value_in meta.schema c.value) (table_rows s meta.id))
        → total_mag (ints (map (value_in meta.schema c.value) (table_rows s meta.id))) < 2 ^ 63
        → (execute debug up parser sql s).0
          ≡ answer
              (aggregate_over_row_slice (table_rows s meta.id) meta.schema (AggExpr.sum c.value))
    unfolding run_plan execute_plan
    execute-select_sum sql f c name more meta col parsed capital room found has at n l =
        let table = (table_parts name.idents).1 in
        let ns = (table_parts name.idents).0 in
        let all = Reach-IsConsistent debug up parser reach in
        let there = find_table-found ns table s meta found in
        let below = (filed_table s.catalog (or_public ns) table meta all.catalog there).1 in
        ap (λ x. x.0)
          (execute-first debug up parser sql (Statement.query (select_call f c name)) more s parsed
            ∙ ap (λ r. run_plan debug up r s) (select_sum_plan f c name capital))
        ∙ select_sum debug table ns c.value s meta col found (omega (arith, below, room)) has at
            ((all.tables (or_public ns) table meta there).mirrored c.value has) n l
