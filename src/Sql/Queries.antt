-- ===== src/Sql/Queries.antt =====
-- Queries in crates/rustafari-sql/src/plan.rs: `query_to_plan`, a clause at a time.
use Prim.Native.String.{◌++◌ as ◌+++◌}
use rustafari_db.Common.{
  ℕ, ◌^◌, ◌-◌, String, Bool, true, false, not, ◌&&◌, List, [], ◌∷◌, Option, none, some, map, filter,
  ◌==◌, if◌then◌else◌,
}
use rustafari_db.Core.Error.{Result, ok, err, parse, ◌>>=◌}
use rustafari_db.Core.Host.{Host}
use rustafari_db.Sql.Aggregates.{projection_as_aggs, projection_as_aggs_with_group}
use rustafari_db.Sql.Ast.{
  Ident, Expr, identifier, number, SelectItem, unnamed, TableFactor, table_factor, other_factor,
  GroupByExpr, expressions, Select, SetExpr, OrderByExpr, Query,
}
use rustafari_db.Sql.Number.{parse_u64}
use rustafari_db.Sql.Plan.{PlanNode, LogicalPlan}
use rustafari_db.Sql.Where.{expr_to_filter}

-- `parts.join(".")` of the values after the first.
abbrev pub join_dots : String → List Ident → String
join_dots first [] = first
join_dots first (i ∷ is) = first +++ ("." +++ join_dots i.value is)

-- The namespace and the table of a name.
unfoldable pub table_parts : List Ident → Option String × String
table_parts [] = (none, "")
table_parts (i ∷ []) = (none, i.value)
table_parts (i ∷ j ∷ is) = (some i.value, join_dots j.value is)

unfoldable pub expr_to_group_by_col : Expr → Option String
expr_to_group_by_col (identifier id) = some id.value
expr_to_group_by_col _ = none

-- `filter_map`
abbrev pub filter_map {ℓ κ} : {A : Type ℓ} {B : Type κ} → (A → Option B) → List A → List B
filter_map f [] = []
filter_map f (x ∷ xs) = let rest = filter_map f xs in elim (f x) [ none ↦ rest | some y ↦ y ∷ rest ]

abbrev pub u64_max : ℕ
u64_max = 2 ^ 64 - 1

abbrev pub or_else {ℓ} : {A : Type ℓ} → A → Option A → A
or_else d none = d
or_else d (some a) = a

unfoldable pub parse_limit : Expr → ℕ
unfolding parse_u64
parse_limit (Expr.value (number n)) = or_else 0 (parse_u64 n)
parse_limit _ = 0

-- The name of a projected item that is a plain column.
unfoldable pub item_column : SelectItem → Option String
item_column (unnamed (identifier id)) = some id.value
item_column _ = none

abbrev pub is_nil {ℓ} : {A : Type ℓ} → List A → Bool
is_nil [] = true
is_nil (_ ∷ _) = false

abbrev pub is_empty_text : String → Bool
is_empty_text String.[] = true
is_empty_text (String.◌∷◌ _ _) = false

-- A column of ORDER BY; an expression that is no column has the empty name.
unfoldable pub order_column : OrderByExpr → String × Bool
unfolding expr_to_group_by_col
order_column o = (or_else "" (expr_to_group_by_col o.expr), or_else true o.asc)

unfoldable pub group_by_cols : GroupByExpr → Result (List String)
unfolding expr_to_group_by_col
group_by_cols (expressions exprs) = ok (filter_map expr_to_group_by_col exprs)
group_by_cols GroupByExpr.all = err (parse "GROUP BY ALL not supported")

module _ {h : Host} where
  -- FROM: the first relation, which is a table.
  unfoldable pub from_table : List TableFactor → Result (PlanNode h)
  unfolding table_parts
  from_table [] = err (parse "SELECT must have FROM")
  from_table (table_factor name ∷ _) =
      let (ns, table) = table_parts name.idents in ok (PlanNode.scan table ns)
  from_table (other_factor ∷ _) = err (parse "only table scan supported")

  unfoldable pub add_where : Option Expr → PlanNode h → Result (PlanNode h)
  unfolding expr_to_filter
  add_where none root = ok root
  add_where (some e) root = expr_to_filter e >>= λ p. ok (PlanNode.filter root p)

  abbrev pub add_columns : List String → PlanNode h → PlanNode h
  add_columns [] root = root
  add_columns (c ∷ cs) root = PlanNode.project root (c ∷ cs)

  unfoldable pub add_projection :
      (String → String) → List SelectItem → List String → PlanNode h → Result (PlanNode h)
  unfolding projection_as_aggs projection_as_aggs_with_group item_column
  add_projection to_uppercase projection (g ∷ gs) root =
      projection_as_aggs_with_group to_uppercase projection (g ∷ gs) >>= λ aggs.
      ok (PlanNode.group_by root (g ∷ gs) aggs)
  add_projection to_uppercase projection [] root =
      elim (projection_as_aggs to_uppercase projection) [
        | some aggs ↦ ok (PlanNode.aggregate root aggs)
        | none ↦ ok (add_columns (filter_map item_column projection) root)
      ]

  abbrev pub add_order_columns : List (String × Bool) → PlanNode h → PlanNode h
  add_order_columns [] root = root
  add_order_columns (c ∷ cs) root = PlanNode.order_by root (c ∷ cs)

  unfoldable pub add_order_by : List OrderByExpr → PlanNode h → PlanNode h
  unfolding order_column
  add_order_by order root =
      add_order_columns (filter (λ c. not (is_empty_text c.0)) (map order_column order)) root

  -- No node where there is no limit, or the greatest `u64`, and no offset, or 0.
  unfoldable pub add_limit : Option Expr → Option Expr → PlanNode h → PlanNode h
  unfolding parse_limit
  add_limit limit offset root =
      let l = or_else u64_max (elim limit [ none ↦ none | some e ↦ some (parse_limit e) ]) in
      let o = or_else 0 (elim offset [ none ↦ none | some e ↦ some (parse_limit e) ]) in
      if (l == u64_max) && (o == 0) then root else PlanNode.limit root l o

  unfoldable pub select_to_node : (String → String) → Select → Result (PlanNode h)
  unfolding from_table add_where group_by_cols add_projection
  select_to_node to_uppercase sel = from_table sel.from >>= λ scan.
      add_where sel.selection scan >>= λ root.
      group_by_cols sel.group_by >>= λ cols. add_projection to_uppercase sel.projection cols root

  unfoldable pub query_to_plan : (String → String) → Query → Result (LogicalPlan h)
  unfolding select_to_node add_order_by add_limit
  query_to_plan to_uppercase query = elim query.body [
    | SetExpr.select sel ↦ select_to_node to_uppercase sel >>= λ root.
        ok (record { root = add_limit query.limit query.offset (add_order_by query.order_by root) })
    | SetExpr.values _ ↦ err (parse "only SELECT supported in query")
    | SetExpr.other_set ↦ err (parse "only SELECT supported in query")
  ]
