-- ===== src/Sql/Where.antt =====
-- Literals and WHERE clauses in crates/rustafari-sql/src/plan.rs: `expr_to_value`, `expr_to_filter`.
pub mod Meaning
pub mod Reading
pub mod Reversed
pub mod RoundTrip
use Prim.Native.Char.{code}
use rustafari_db.Common.{
  ℕ, String, Bool, true, false, List, [], ◌∷◌, Option, none, some, ◌==◌, if◌then◌else◌,
}
use rustafari_db.Common.Int.{ℤ, pos}
use rustafari_db.Core.Error.{Result, ok, err, panic, parse, ◌>>=◌}
use rustafari_db.Core.Host.{Host, F64, f64_zero}
use rustafari_db.Core.Value.{Value, null, bool, int64, float64, string}
use rustafari_db.Sql.Ast.{
  Expr, identifier, value, binary, nested, Literal, number, single_quoted, boolean, null_literal,
  unquoted, BinaryOperator,
}
use rustafari_db.Sql.Number.{parse_i64}
use rustafari_db.Sql.Plan.{
  CmpOp, eq_op, ne_op, gt_op, ge_op, lt_op, le_op, FilterExpr, literal, both, either, cmp,
}

-- `n.contains('.')`
abbrev pub has_dot : String → Bool
has_dot String.[] = false
has_dot (String.◌∷◌ c s) = let rest = has_dot s in if code c == b'.' then true else rest

-- `unwrap_or(0)`, `unwrap_or(0.0)`
abbrev pub or_zero_i64 : Option ℤ → ℤ
or_zero_i64 none = pos 0
or_zero_i64 (some i) = i

abbrev pub or_zero_f64 : Option F64 → F64
or_zero_f64 none = f64_zero
or_zero_f64 (some f) = f

module _ {h : Host} where
  unfoldable pub literal_value : Literal → Result (Value h)
  unfolding parse_i64
  literal_value (number n) =
      if has_dot n
      then ok (float64 (or_zero_f64 (h.f64_parse n)))
      else ok (int64 (or_zero_i64 (parse_i64 n)))
  literal_value (single_quoted s) = ok (string s)
  literal_value (boolean b) = ok (bool b)
  literal_value null_literal = ok null
  literal_value (unquoted s) = elim (parse_i64 s) [
    | some n ↦ ok (int64 n)
    | none ↦ elim (h.f64_parse s) [ some f ↦ ok (float64 f) | none ↦ ok (string s) ]
  ]
  literal_value Literal.other_literal = err (parse "unsupported literal in VALUES")

  unfoldable pub expr_to_value : Expr → Result (Value h)
  unfolding literal_value
  expr_to_value (value v) = literal_value v
  expr_to_value _ = err (parse "only literals supported in VALUES")

  -- `Ok(FilterExpr::Cmp { col, op, value })` of a value that is computed with `?`.
  abbrev pub compare_with : String → CmpOp → Result (Value h) → Result (FilterExpr h)
  compare_with col op r = r >>= λ v. ok (cmp col op v)

  -- The arm of `=`: a column and a literal, in either order.
  unfoldable pub equality : Expr → Expr → Result (FilterExpr h)
  unfolding expr_to_value
  equality (identifier id) (value v) = compare_with id.value eq_op (expr_to_value (value v))
  equality (value v) (identifier id) = compare_with id.value eq_op (expr_to_value (value v))
  equality _ _ = err (parse "comparison: expected column and literal")

  -- The arm of `<>`: a column and a literal.
  unfoldable pub inequality : Expr → Expr → Result (FilterExpr h)
  unfolding expr_to_value
  inequality (identifier id) (value v) = compare_with id.value ne_op (expr_to_value (value v))
  inequality _ _ = err (parse "comparison: expected column and literal")

  -- The arm of `>`, `<`, `>=` and `<=`: the column is taken from the left where the left is one, and
  -- else from the right; the operator is kept.
  unfoldable pub order_comparison : CmpOp → Expr → Expr → Result (FilterExpr h)
  unfolding expr_to_value
  order_comparison op (identifier id) right = compare_with id.value op (expr_to_value right)
  order_comparison op left (identifier id) = compare_with id.value op (expr_to_value left)
  order_comparison op _ _ = err (parse "comparison: expected column")

  unfoldable pub expr_to_filter : Expr → Result (FilterExpr h)
  unfolding equality inequality order_comparison
  expr_to_filter (binary left BinaryOperator.and_op right) =
      expr_to_filter left >>= λ l. expr_to_filter right >>= λ r. ok (both l r)
  expr_to_filter (binary left BinaryOperator.or_op right) =
      expr_to_filter left >>= λ l. expr_to_filter right >>= λ r. ok (either l r)
  expr_to_filter (binary left BinaryOperator.eq_op right) = equality left right
  expr_to_filter (binary left BinaryOperator.not_eq_op right) = inequality left right
  expr_to_filter (binary left BinaryOperator.gt_op right) = order_comparison gt_op left right
  expr_to_filter (binary left BinaryOperator.lt_op right) = order_comparison lt_op left right
  expr_to_filter (binary left BinaryOperator.gt_eq_op right) = order_comparison ge_op left right
  expr_to_filter (binary left BinaryOperator.lt_eq_op right) = order_comparison le_op left right
  expr_to_filter (binary _ BinaryOperator.other_op _) = err (parse "unsupported binary op in WHERE")
  expr_to_filter (value (boolean b)) = ok (literal b)
  expr_to_filter (nested inner) = expr_to_filter inner
  expr_to_filter _ = err (parse "unsupported expression in WHERE")
