-- ===== src/Sql/Statements/Outcomes.antt =====
-- The outcomes of the translation of expressions in crates/rustafari-sql/src/plan.rs.
use rustafari_db.Common.{suc, String, List, [], ◌∷◌, length, ◌≡◌, refl, ap, arith}
use rustafari_db.Core.Error.{RustafariError, Result, ok, err, panic, collect, parse, ◌>>=◌}
use rustafari_db.Core.Host.{Host}
use rustafari_db.Sql.Aggregates.{
  col_from_arg, column_argument, count_argument, expr_to_agg, projection_as_aggs_with_group,
}
use rustafari_db.Sql.Ast.{
  Expr, identifier, value, binary, nested, function, Call, call, Args, no_arg, arg, FunctionArg,
  unnamed_expr, SelectItem, unnamed, Literal, BinaryOperator,
}
use rustafari_db.Sql.Plan.{CmpOp, AggExpr}
use rustafari_db.Sql.Where

abbrev pub IsParse : RustafariError → Type 0
IsParse (parse _) = Unit
IsParse _ = ⊥

-- The result meets the condition, or is an error of parsing; it is no panic.
abbrev pub Parses {ℓ} : {A : Type ℓ} → (A → Type 0) → Result A → Type 0
Parses P (ok a) = P a
Parses P (err e) = IsParse e
Parses P panic = ⊥

abbrev pub Any {ℓ} : {A : Type ℓ} → A → Type 0
Any a = Unit

pub Parses-bind {ℓ κ} :
    {A : Type ℓ} {B : Type κ} (P : A → Type 0) (Q : B → Type 0) (m : Result A) (f : A → Result B)
    → Parses P m
    → ((a : A) → P a → Parses Q (f a))
    → Parses Q (m >>= f)
Parses-bind P Q (ok a) f p k = k a p
Parses-bind P Q (err e) f p k = p
Parses-bind P Q panic f p k = absurd p

-- `collect` keeps the length.
pub Parses-collect {ℓ κ} :
    {A : Type ℓ} {B : Type κ} (f : A → Result B) (xs : List A)
    → ((a : A) → Parses Any (f a))
    → Parses (λ ys. length ys ≡ length xs) (collect f xs)
Parses-collect f [] k = refl
Parses-collect f (x ∷ xs) k =
    Parses-bind Any _ (f x) _ (k x)
      λ y _. Parses-bind _ _ (collect f xs) _ (Parses-collect f xs k) λ ys e. ap suc e

module _ (h : Host) where
  literal_value-Parses : (l : Literal) → Parses Any (Where.literal_value {h = h} l)
  unfolding Where.literal_value
  literal_value-Parses (Literal.number n) = ground arith
  literal_value-Parses (Literal.single_quoted s) = tt
  literal_value-Parses (Literal.boolean b) = tt
  literal_value-Parses Literal.null_literal = tt
  literal_value-Parses (Literal.unquoted s) = ground arith
  literal_value-Parses Literal.other_literal = tt

  pub expr_to_value-Parses : (e : Expr) → Parses Any (Where.expr_to_value {h = h} e)
  unfolding Where.expr_to_value
  expr_to_value-Parses (value v) = literal_value-Parses v
  expr_to_value-Parses _ = tt

  compare_with-Parses :
      (c : String) (op : CmpOp) (e : Expr)
      → Parses Any (Where.compare_with {h = h} c op (Where.expr_to_value e))
  compare_with-Parses c op e =
      Parses-bind Any Any (Where.expr_to_value e) _ (expr_to_value-Parses e) λ _ _. tt

  equality-Parses : (l r : Expr) → Parses Any (Where.equality {h = h} l r)
  unfolding Where.equality
  equality-Parses (identifier id) (value v) = compare_with-Parses id.value CmpOp.eq_op (value v)
  equality-Parses (value v) (identifier id) = compare_with-Parses id.value CmpOp.eq_op (value v)
  equality-Parses _ _ = tt

  inequality-Parses : (l r : Expr) → Parses Any (Where.inequality {h = h} l r)
  unfolding Where.inequality
  inequality-Parses (identifier id) (value v) = compare_with-Parses id.value CmpOp.ne_op (value v)
  inequality-Parses _ _ = tt

  order-Parses : (op : CmpOp) (l r : Expr) → Parses Any (Where.order_comparison {h = h} op l r)
  unfolding Where.order_comparison
  order-Parses op (identifier id) r = compare_with-Parses id.value op r
  order-Parses op l (identifier id) = compare_with-Parses id.value op l
  order-Parses op _ _ = tt

  pub expr_to_filter-Parses : (e : Expr) → Parses Any (Where.expr_to_filter {h = h} e)
  unfolding Where.expr_to_filter
  expr_to_filter-Parses (binary l BinaryOperator.and_op r) =
      Parses-bind Any Any _ _ (expr_to_filter-Parses l)
        λ _ _. Parses-bind Any Any _ _ (expr_to_filter-Parses r) λ _ _. tt
  expr_to_filter-Parses (binary l BinaryOperator.or_op r) =
      Parses-bind Any Any _ _ (expr_to_filter-Parses l)
        λ _ _. Parses-bind Any Any _ _ (expr_to_filter-Parses r) λ _ _. tt
  expr_to_filter-Parses (binary l BinaryOperator.eq_op r) = equality-Parses l r
  expr_to_filter-Parses (binary l BinaryOperator.not_eq_op r) = inequality-Parses l r
  expr_to_filter-Parses (binary l BinaryOperator.gt_op r) = order-Parses CmpOp.gt_op l r
  expr_to_filter-Parses (binary l BinaryOperator.lt_op r) = order-Parses CmpOp.lt_op l r
  expr_to_filter-Parses (binary l BinaryOperator.gt_eq_op r) = order-Parses CmpOp.ge_op l r
  expr_to_filter-Parses (binary l BinaryOperator.lt_eq_op r) = order-Parses CmpOp.le_op l r
  expr_to_filter-Parses (binary l BinaryOperator.other_op r) = tt
  expr_to_filter-Parses (value (Literal.boolean b)) = tt
  expr_to_filter-Parses (nested e) = expr_to_filter-Parses e
  expr_to_filter-Parses _ = tt

col_from_arg-Parses : (a : FunctionArg) → Parses Any (col_from_arg a)
unfolding col_from_arg
col_from_arg-Parses (unnamed_expr (identifier id)) = tt
col_from_arg-Parses _ = tt

column_argument-Parses :
    (m : String) (f : String → AggExpr) (args : Args) → Parses Any (column_argument m f args)
unfolding column_argument
column_argument-Parses m f no_arg = tt
column_argument-Parses m f (arg a _) = Parses-bind Any Any _ _ (col_from_arg-Parses a) λ _ _. tt

count_argument-Parses : (args : Args) → Parses Any (count_argument args)
unfolding count_argument
count_argument-Parses (arg FunctionArg.unnamed_wildcard _) = tt
count_argument-Parses (arg (unnamed_expr e) _) =
    Parses-bind Any Any _ _ (col_from_arg-Parses (unnamed_expr e)) λ _ _. tt
count_argument-Parses (arg FunctionArg.other_arg _) = tt
count_argument-Parses no_arg = tt

module _ (up : String → String) where
  expr_to_agg-Parses : (f : Call) → Parses Any (expr_to_agg up f)
  unfolding expr_to_agg
  expr_to_agg-Parses (call f args) = ground (
    arith,
    column_argument-Parses "SUM requires one argument" AggExpr.sum args,
    count_argument-Parses args,
    column_argument-Parses "AVG requires one argument" AggExpr.avg args,
    column_argument-Parses "MIN requires one argument" AggExpr.min args,
    column_argument-Parses "MAX requires one argument" AggExpr.max args,
  )

  pub with_group-Parses :
      (ps : List SelectItem) (g : List String) → Parses Any (projection_as_aggs_with_group up ps g)
  unfolding projection_as_aggs_with_group
  with_group-Parses [] g = tt
  with_group-Parses (unnamed (identifier id) ∷ ps) g = ground (arith, with_group-Parses ps g)
  with_group-Parses (unnamed (function f) ∷ ps) g =
      Parses-bind Any Any _ _ (expr_to_agg-Parses f)
        λ _ _. Parses-bind Any Any _ _ (with_group-Parses ps g) λ _ _. tt
  with_group-Parses (_ ∷ ps) g = tt
