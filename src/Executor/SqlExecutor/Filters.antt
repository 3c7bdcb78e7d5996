-- ===== src/Executor/SqlExecutor/Filters.antt =====
-- `SELECT * FROM t WHERE e` with LIMIT and OFFSET, run by `SqlExecutor::execute` of
-- crates/rustafari-executor/src/sql_executor.rs.
use rustafari_db.Common.{
  ℕ, zero, suc, ◌-◌, ◌^◌, ◌<◌, ◌≤◌, ◌≡◌, refl, ◌∙◌, sym, ap, String, Bool, ◌&&◌, All, List, [], ◌∷◌,
  Option, none, some, arith, filter, take, drop, length, length-drop, length-filter, ◌⊎◌, inl, inr,
  ◌==◌, u64_mod, if◌then◌else◌, Bool-cases,
}
use rustafari_db.Core.Catalog.{TableMeta}
use rustafari_db.Core.Error.{ok}
use rustafari_db.Core.Host.{Host}
use rustafari_db.Core.Row.{Row}
use rustafari_db.Core.Schema.{Schema}
use rustafari_db.Core.Value.{Value}
use rustafari_db.Sql.Aggregates.{projection_as_aggs, items_as_aggs, item_as_agg}
use rustafari_db.Sql.Ast.{
  ObjectName, Expr, number, other_item, table_factor, expressions, SetExpr, Query, Statement,
}
use rustafari_db.Sql.Number.{parse_u64}
use rustafari_db.Sql.Plan.{PlanNode, FilterExpr}
use rustafari_db.Sql.Queries.{
  table_parts, parse_limit, u64_max, add_limit, add_order_by, add_projection, add_where, from_table,
  group_by_cols, select_to_node, query_to_plan, item_column, or_else,
}
use rustafari_db.Sql.Statements.{ast_to_plan}
use rustafari_db.Sql.Where.{expr_to_filter}
use rustafari_db.Sql.Where.Meaning.{ColumnFirst, IsTyped, holds, eval_predicate-holds}
use rustafari_db.Executor.Predicate.{eval_predicate}
use rustafari_db.Executor.State.{SessionState}
use rustafari_db.Executor.Read.{rows, find_table, scan_meta, execute_filter, index_lookup}
use rustafari_db.Executor.Plan.{execute_node, execute_plan}
use rustafari_db.Executor.Plan.Answers.{limit-take-drop}
use rustafari_db.Executor.Plan.Selects.{table_rows, scan_of_table}
use rustafari_db.Executor.SqlExecutor.{execute}
use rustafari_db.Executor.SqlExecutor.Queries.{run_plan, execute-first}

-- SELECT * FROM name WHERE e LIMIT l OFFSET o
abbrev pub select_all : ObjectName → Expr → Option Expr → Option Expr → Query
select_all name e l o = record {
  body = SetExpr.select (record {
    projection = other_item ∷ [];
    from = table_factor name ∷ [];
    selection = some e;
    group_by = expressions [];
  });
  order_by = [];
  limit = l;
  offset = o;
}

-- The number that a LIMIT or an OFFSET writes; 0 where it writes none that is a `u64`.
abbrev pub written : Expr → ℕ
written (Expr.value (number n)) = elim (parse_u64 n) [ none ↦ 0 | some k ↦ k ]
written _ = 0

parse_limit-written : (e : Expr) → parse_limit e ≡ written e
unfolding parse_limit
parse_limit-written (Expr.value (number n)) = ground arith
parse_limit-written _ = refl

-- The rows that LIMIT and OFFSET leave.
abbrev pub skip {ℓ} : {A : Type ℓ} → Option Expr → List A → List A
skip none xs = xs
skip (some e) xs = drop (written e) xs

abbrev pub keep {ℓ} : {A : Type ℓ} → Option Expr → List A → List A
keep none xs = xs
keep (some e) xs = take (written e) xs

take_of_length-le : {A : Type 0} (n : ℕ) (xs : List A) → length xs ≤ n → take n xs ≡ xs
take_of_length-le zero [] l = refl
take_of_length-le zero (x ∷ xs) l = absurd (omega arith)
take_of_length-le (suc n) [] l = refl
take_of_length-le (suc n) (x ∷ xs) l = ap (◌∷◌ x) (take_of_length-le n xs (omega arith))

module _ {h : Host} (debug : Value h → String) where
  filter_by_scan :
      (table : String) (ns : Option String) (p : FilterExpr h) (s : SessionState h)
      (meta : TableMeta)
      → find_table s ns table ≡ ok meta
      → meta.id < u64_mod - 1
      → index_lookup s meta.id (PlanNode.scan table ns) p ≡ none
      → execute_node debug (PlanNode.filter (PlanNode.scan table ns) p) s
        ≡ (ok (rows (filter (λ row. eval_predicate row p meta.schema) (table_rows s meta.id))), s)
  unfolding execute_node execute_filter scan_meta
  filter_by_scan table ns p s meta found below no_index =
      ground (arith, found, no_index, scan_of_table table ns s meta found below)

  -- The limit node, or none where it would change nothing.
  limit_node :
      (l o : ℕ) (root : PlanNode h) (found : List (Row h)) (s s' : SessionState h)
      → length found ≤ u64_max
      → execute_node debug root s ≡ (ok (rows found), s')
      → execute_node debug (if (l == u64_max) && (o == 0) then root else PlanNode.limit root l o) s
        ≡ (ok (rows (take l (drop o found))), s')
  limit_node l o root found s s' fits run =
      let node : Bool → PlanNode h = λ b. if b then root else PlanNode.limit root l o in
      elim (Bool-cases ((l == u64_max) && (o == 0))) [
        | inl whole ↦
            let el : l ≡ u64_max = ground arith in
            let eo : o ≡ 0 = ground arith in
            ap (λ b. execute_node debug (node b) s) whole
            ∙ run
            ∙ ap (λ xs. (ok (rows xs), s'))
                (sym (take_of_length-le u64_max found fits)
                  ∙ ap (λ n. take n found) (sym el)
                  ∙ ap (λ n. take l (drop n found)) (sym eo))
        | inr part ↦
            ap (λ b. execute_node debug (node b) s) part
            ∙ limit-take-drop debug root l o found s s' run
      ]

  number_of : ℕ → Option Expr → ℕ
  number_of d e = or_else d (elim e [ none ↦ none | some x ↦ some (parse_limit x) ])

  keep-skip :
      (l o : Option Expr) (found : List (Row h))
      → length found ≤ u64_max
      → take (number_of u64_max l) (drop (number_of 0 o) found) ≡ keep l (skip o found)
  unfolding number_of
  keep-skip (some l) (some o) found fits =
      ap (λ n. take n (drop (parse_limit o) found)) (parse_limit-written l)
      ∙ ap (λ n. take (written l) (drop n found)) (parse_limit-written o)
  keep-skip (some l) none found fits = ap (λ n. take n found) (parse_limit-written l)
  keep-skip none none found fits = take_of_length-le u64_max found fits
  keep-skip none (some o) found fits =
      take_of_length-le u64_max (drop (parse_limit o) found)
        (omega (arith, length-drop (parse_limit o) found))
      ∙ ap (λ n. drop n found) (parse_limit-written o)

  pub window :
      (l o : Option Expr) (root : PlanNode h) (found : List (Row h)) (s s' : SessionState h)
      → length found ≤ u64_max
      → execute_node debug root s ≡ (ok (rows found), s')
      → execute_node debug (add_limit l o root) s ≡ (ok (rows (keep l (skip o found))), s')
  unfolding add_limit number_of
  window l o root found s s' fits run =
      limit_node (number_of u64_max l) (number_of 0 o) root found s s' fits run
      ∙ ap (λ xs. (ok (rows xs), s')) (keep-skip l o found fits)

  pub select_all_plan :
      (up : String → String) (name : ObjectName) (e : Expr) (l o : Option Expr) (p : FilterExpr h)
      → expr_to_filter e ≡ ok p
      → ast_to_plan up (Statement.query (select_all name e l o))
        ≡ ok (record {
          root = add_limit l o (
              let (ns, table) = table_parts name.idents in
              PlanNode.filter (PlanNode.scan table ns) p);
        })
  unfolding ast_to_plan query_to_plan select_to_node from_table add_where group_by_cols
      add_projection add_order_by projection_as_aggs items_as_aggs item_as_agg item_column
  select_all_plan up name e l o p t = rw t refl

  filter-holds :
      (schema : Schema) (e : Expr) (p : FilterExpr h) (found : List (Row h))
      → ColumnFirst e
      → expr_to_filter e ≡ ok p
      → All (λ row. IsTyped row schema e) found
      → filter (λ row. eval_predicate row p schema) found ≡ filter (λ row. holds row schema e) found
  filter-holds schema e p [] c f t = refl
  filter-holds schema e p (row ∷ found) c f t =
      ground
        (arith, eval_predicate-holds row schema e p c t.0 f, filter-holds schema e p found c f t.1)

  -- `SELECT * FROM t WHERE e`, with LIMIT and OFFSET or without, run from its text, answers with the
  -- rows of the table that SQL selects by `e`, in row order, less those that OFFSET skips and those past
  -- LIMIT, where one that is no `u64` counts as 0; the state is unchanged. The text parses to the query,
  -- the clause is translated, its order comparisons have their column on the left and no index answers
  -- it. In each comparison the literal is in range and no NULL, and every row of the table has in the
  -- column a value of the literal's type, or, except under `<>`, NULL or nothing; Booleans are compared
  -- by `=` and `<>` only, and floats are no NaN. The table is there and is not the last `u64`, and it
  -- has fewer than 2 ^ 64 rows.
  pub execute-select_all :
      (up : String → String) (parser : String → List Statement ⊎ String) (sql : String)
      (name : ObjectName) (e : Expr) (l o : Option Expr) (more : List Statement) (p : FilterExpr h)
      (s : SessionState h) (meta : TableMeta)
      → parser sql ≡ inl (Statement.query (select_all name e l o) ∷ more)
      → expr_to_filter e ≡ ok p
      → ColumnFirst e
      → All (λ row. IsTyped row meta.schema e) (table_rows s meta.id)
      → find_table s (table_parts name.idents).0 (table_parts name.idents).1 ≡ ok meta
      → meta.id < u64_mod - 1
      → index_lookup s meta.id
          (PlanNode.scan (table_parts name.idents).1 (table_parts name.idents).0)
          p
        ≡ none
      → length (table_rows s meta.id) < 2 ^ 64
      → execute debug up parser sql s ≡ (
        ok (
            rows
              (keep l (skip o (filter (λ row. holds row meta.schema e) (table_rows s meta.id))))),
        s,
      )
  unfolding run_plan execute_plan
  execute-select_all up parser sql name e l o more p s meta parsed t c typed found below no_index
        fits =
      let table = (table_parts name.idents).1 in
      let ns = (table_parts name.idents).0 in
      let same : filter (λ row. eval_predicate row p meta.schema) (table_rows s meta.id)
          ≡ filter (λ row. holds row meta.schema e) (table_rows s meta.id) =
        filter-holds meta.schema e p (table_rows s meta.id) c t typed in
      execute-first debug up parser sql (Statement.query (select_all name e l o)) more s parsed
      ∙ ap (λ r. run_plan debug up r s) (select_all_plan up name e l o p t)
      ∙ window l o (PlanNode.filter (PlanNode.scan table ns) p)
          (filter (λ row. holds row meta.schema e) (table_rows s meta.id)) s s
          (omega
            (arith, length-filter (λ row. holds row meta.schema e) (table_rows s meta.id), fits))
          (filter_by_scan table ns p s meta found below no_index
            ∙ ap (λ xs. (ok (rows xs), s)) same)
