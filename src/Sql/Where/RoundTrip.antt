-- ===== src/Sql/Where/RoundTrip.antt =====
-- Predicates written as WHERE clauses, and read back by crates/rustafari-sql/src/plan.rs.
use Prim.Native.Char.{code}
use rustafari_db.Common.{ℕ, ◌+◌, ◌-◌, ◌*◌, ◌^◌, ◌<◌, ◌≡◌, refl, ap, String, false, some, arith}
use rustafari_db.Common.Decimal.{show_ℕ}
use rustafari_db.Common.Int.{pos}
use rustafari_db.Core.Error.{ok}
use rustafari_db.Core.Host.{Host}
use rustafari_db.Core.Value.{Value, null, bool, int64, string}
use rustafari_db.Sql.Ast.{
  Expr, identifier, value, binary, other_expr, Literal, number, single_quoted, boolean,
  null_literal, BinaryOperator,
}
use rustafari_db.Sql.Number.{digits_from}
use rustafari_db.Sql.Number.RoundTrip.{parse_i64-show_ℕ, show_ℕ-IsNumber}
use rustafari_db.Sql.Plan.{
  CmpOp, eq_op, ne_op, gt_op, ge_op, lt_op, le_op, FilterExpr, literal, both, either, negate, cmp,
}
use rustafari_db.Sql.Where.{
  has_dot, literal_value, expr_to_value, equality, inequality, order_comparison, expr_to_filter,
  compare_with,
}

digits_from-has_dot :
    (acc : ℕ) (s : String) (n : ℕ) → digits_from acc s ≡ some n → has_dot s ≡ false
unfolding digits_from
digits_from-has_dot acc String.[] n e = refl
digits_from-has_dot acc (String.◌∷◌ c s) n e =
    ground (arith, e, digits_from-has_dot (acc * 10 + (code c - b'0')) s n)

abbrev pub operator_of : CmpOp → BinaryOperator
operator_of eq_op = BinaryOperator.eq_op
operator_of ne_op = BinaryOperator.not_eq_op
operator_of gt_op = BinaryOperator.gt_op
operator_of ge_op = BinaryOperator.gt_eq_op
operator_of lt_op = BinaryOperator.lt_op
operator_of le_op = BinaryOperator.lt_eq_op

module _ {h : Host} where
  -- The predicates that a clause can express: no negation, and values that have a literal.
  abbrev pub HasLiteral : Value h → Type 0
  HasLiteral null = Unit
  HasLiteral (bool _) = Unit
  HasLiteral (int64 (pos n)) = n < 2 ^ 63
  HasLiteral (string _) = Unit
  HasLiteral _ = ⊥

  abbrev pub IsWritable : FilterExpr h → Type 0
  IsWritable (literal _) = Unit
  IsWritable (both a b) = IsWritable a × IsWritable b
  IsWritable (either a b) = IsWritable a × IsWritable b
  IsWritable (negate _) = ⊥
  IsWritable (cmp _ _ v) = HasLiteral v

  abbrev pub literal_of : Value h → Literal
  literal_of (bool b) = boolean b
  literal_of (int64 (pos n)) = number (show_ℕ n)
  literal_of (string s) = single_quoted s
  literal_of _ = null_literal

  -- The predicate written as an expression.
  unfoldable pub filter_to_expr : FilterExpr h → Expr
  filter_to_expr (literal b) = value (boolean b)
  filter_to_expr (both a b) = binary (filter_to_expr a) BinaryOperator.and_op (filter_to_expr b)
  filter_to_expr (either a b) = binary (filter_to_expr a) BinaryOperator.or_op (filter_to_expr b)
  filter_to_expr (negate a) = other_expr
  filter_to_expr (cmp c op v) =
      binary (identifier (record { value = c; printed = c })) (operator_of op)
        (value (literal_of v))

  literal_value-literal_of : (v : Value h) → HasLiteral v → literal_value (literal_of v) ≡ ok v
  unfolding literal_value
  literal_value-literal_of null l = refl
  literal_value-literal_of (bool b) l = refl
  literal_value-literal_of (int64 (pos n)) l =
      ground (arith, digits_from-has_dot 0 (show_ℕ n) n (show_ℕ-IsNumber n), parse_i64-show_ℕ n l)
  literal_value-literal_of (string s) l = refl
  literal_value-literal_of v l = absurd l

  -- Every predicate that a WHERE clause can express is the translation of the clause that is written
  -- for it: literals, AND, OR and the six comparisons of a column with NULL, a Boolean, a text or an
  -- integer from 0 to 2 ^ 63 - 1.
  pub expr_to_filter-filter_to_expr :
      (p : FilterExpr h) → IsWritable p → expr_to_filter (filter_to_expr p) ≡ ok p
  unfolding expr_to_filter filter_to_expr equality inequality order_comparison expr_to_value
  expr_to_filter-filter_to_expr (literal b) w = refl
  expr_to_filter-filter_to_expr (both a b) w =
      ground (arith, expr_to_filter-filter_to_expr a w.0, expr_to_filter-filter_to_expr b w.1)
  expr_to_filter-filter_to_expr (either a b) w =
      ground (arith, expr_to_filter-filter_to_expr a w.0, expr_to_filter-filter_to_expr b w.1)
  expr_to_filter-filter_to_expr (negate a) w = absurd w
  expr_to_filter-filter_to_expr (cmp c op v) w =
      elim op as (λ o. expr_to_filter (filter_to_expr (cmp c o v)) ≡ ok (cmp c o v)) [
        | eq_op ↦ ap (compare_with c eq_op) (literal_value-literal_of v w)
        | ne_op ↦ ap (compare_with c ne_op) (literal_value-literal_of v w)
        | gt_op ↦ ap (compare_with c gt_op) (literal_value-literal_of v w)
        | ge_op ↦ ap (compare_with c ge_op) (literal_value-literal_of v w)
        | lt_op ↦ ap (compare_with c lt_op) (literal_value-literal_of v w)
        | le_op ↦ ap (compare_with c le_op) (literal_value-literal_of v w)
      ]
