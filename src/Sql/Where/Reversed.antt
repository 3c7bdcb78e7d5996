-- ===== src/Sql/Where/Reversed.antt =====
-- Order comparisons of crates/rustafari-sql/src/plan.rs whose literal stands on the left.
use rustafari_db.Common.{Bool, false, not, none, some, ◌≡◌, ◌≢◌, ◌∙◌, sym, ap, arith}
use rustafari_db.Common.Int.{ℤ}
use rustafari_db.Core.Error.{ok}
use rustafari_db.Core.Host.{Host}
use rustafari_db.Core.Row.{Row}
use rustafari_db.Core.Schema.{Schema}
use rustafari_db.Core.Value.{int64}
use rustafari_db.Sql.Ast.{Ident, identifier, value, binary, Literal, BinaryOperator}
use rustafari_db.Sql.Plan.{CmpOp, eq_op, ne_op, gt_op, ge_op, lt_op, le_op, FilterExpr, cmp}
use rustafari_db.Sql.Where.{literal_value, expr_to_value, order_comparison, expr_to_filter}
use rustafari_db.Executor.Predicate.{compare, test_value, field_of, eval_predicate}
use rustafari_db.Sql.Where.Reading.{below_ℤ}

abbrev pub IsOrder : BinaryOperator → Type 0
IsOrder BinaryOperator.gt_op = Unit
IsOrder BinaryOperator.lt_op = Unit
IsOrder BinaryOperator.gt_eq_op = Unit
IsOrder BinaryOperator.lt_eq_op = Unit
IsOrder _ = ⊥

abbrev IsOrderOp : CmpOp → Type 0
IsOrderOp eq_op = ⊥
IsOrderOp ne_op = ⊥
IsOrderOp _ = Unit

-- What an order comparison says of two integers.
abbrev pub ordered : BinaryOperator → ℤ → ℤ → Bool
ordered BinaryOperator.gt_op a b = below_ℤ b a
ordered BinaryOperator.lt_op a b = below_ℤ a b
ordered BinaryOperator.gt_eq_op a b = not (below_ℤ a b)
ordered BinaryOperator.lt_eq_op a b = not (below_ℤ b a)
ordered _ a b = false

abbrev op_of : CmpOp → BinaryOperator
op_of gt_op = BinaryOperator.gt_op
op_of lt_op = BinaryOperator.lt_op
op_of ge_op = BinaryOperator.gt_eq_op
op_of le_op = BinaryOperator.lt_eq_op
op_of _ = BinaryOperator.other_op

module _ {h : Host} (row : Row h) (schema : Schema) where
  opposite :
      (op : CmpOp) (a b : ℤ)
      → IsOrderOp op
      → a ≢ b
      → test_value {h = h} op (int64 a) (int64 b) ≡ not (ordered (op_of op) b a)
  unfolding test_value compare
  opposite gt_op a b o ne = ground arith
  opposite ge_op a b o ne = ground arith
  opposite lt_op a b o ne = ground arith
  opposite le_op a b o ne = ground arith
  opposite eq_op a b o ne = absurd o
  opposite ne_op a b o ne = absurd o

  reversed :
      (op : CmpOp) (v : Literal) (id : Ident) (a b : ℤ) (p : FilterExpr h)
      → IsOrderOp op
      → literal_value {h = h} v ≡ ok (int64 b)
      → field_of row schema id.value ≡ some (int64 a)
      → a ≢ b
      → order_comparison op (value v) (identifier id) ≡ ok p
      → (order_comparison op (identifier id) (value v) ≡ ok p)
        × (eval_predicate row p schema ≡ not (ordered (op_of op) b a))
  unfolding order_comparison expr_to_value eval_predicate
  reversed op v id a b p o e f ne t =
      let is : cmp id.value op (int64 b) ≡ p = ground (arith, e, t) in
      let same : eval_predicate row (cmp id.value op (int64 b)) schema
          ≡ test_value {h = h} op (int64 a) (int64 b) =
        ap (λ o. elim o [ none ↦ false | some x ↦ test_value op x (int64 b) ]) f in
      (t, ap (λ q. eval_predicate row q schema) (sym is) ∙ same ∙ opposite op a b o ne)

  -- An order comparison with its column on the right, as in `5 < c`, is translated as if the column
  -- stood on the left, as in `c < 5`: wherever the column holds an integer `a` other than the integer
  -- `b` of the literal, the predicate accepts the row just when the comparison, as it is written, does
  -- not hold of `b` and `a`.
  pub literal_first_reversed :
      (op : BinaryOperator) (v : Literal) (id : Ident) (a b : ℤ) (p : FilterExpr h)
      → IsOrder op
      → literal_value {h = h} v ≡ ok (int64 b)
      → field_of row schema id.value ≡ some (int64 a)
      → a ≢ b
      → expr_to_filter (binary (value v) op (identifier id)) ≡ ok p
      → (expr_to_filter (binary (identifier id) op (value v)) ≡ ok p)
        × (eval_predicate row p schema ≡ not (ordered op b a))
  unfolding expr_to_filter
  literal_first_reversed BinaryOperator.gt_op v id a b p o e f ne t =
      reversed gt_op v id a b p tt e f ne t
  literal_first_reversed BinaryOperator.lt_op v id a b p o e f ne t =
      reversed lt_op v id a b p tt e f ne t
  literal_first_reversed BinaryOperator.gt_eq_op v id a b p o e f ne t =
      reversed ge_op v id a b p tt e f ne t
  literal_first_reversed BinaryOperator.lt_eq_op v id a b p o e f ne t =
      reversed le_op v id a b p tt e f ne t
  literal_first_reversed BinaryOperator.and_op v id a b p o e f ne t = absurd o
  literal_first_reversed BinaryOperator.or_op v id a b p o e f ne t = absurd o
  literal_first_reversed BinaryOperator.eq_op v id a b p o e f ne t = absurd o
  literal_first_reversed BinaryOperator.not_eq_op v id a b p o e f ne t = absurd o
  literal_first_reversed BinaryOperator.other_op v id a b p o e f ne t = absurd o
