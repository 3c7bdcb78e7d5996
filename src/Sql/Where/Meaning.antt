-- ===== src/Sql/Where/Meaning.antt =====
-- What a WHERE clause of crates/rustafari-sql/src/plan.rs means, against the predicate that it is
-- translated to.
use rustafari_db.Common.{
  String, Bool, true, false, Option, none, some, ◌≡◌, refl, sym, subst, arith, if◌then◌else◌,
}
use rustafari_db.Core.Error.{Result, ok, err, panic, ◌>>=◌}
use rustafari_db.Core.Host.{Host}
use rustafari_db.Core.Row
use rustafari_db.Core.Row.{Row}
use rustafari_db.Core.Schema.{Schema}
use rustafari_db.Core.Value.{Value}
use rustafari_db.Sql.Ast.{Expr, identifier, value, binary, nested, Literal, boolean, BinaryOperator}
use rustafari_db.Sql.Plan.{
  CmpOp, eq_op, ne_op, gt_op, ge_op, lt_op, le_op, FilterExpr, both, either,
}
use rustafari_db.Sql.Where.Reading.{
  cell, sql_value, says, says-swap, Fits, test_value-OneType, literal_value-sql_value,
}
use rustafari_db.Sql.Where.{
  literal_value, expr_to_value, equality, inequality, order_comparison, expr_to_filter,
  compare_with,
}
use rustafari_db.Executor.Predicate.{test_value, field_of, eval_predicate}

module _ {h : Host} (row : Row h) (schema : Schema) where
  -- The value of an operand: a column has that of the row.
  abbrev pub operand : Expr → Option (Value h)
  operand (identifier id) = cell row schema id.value
  operand (value v) = sql_value v
  operand _ = none

  -- The rows that a WHERE clause selects by SQL's reading. A comparison that is unknown counts as false,
  -- which selects the same rows, since a clause has AND and OR and no NOT.
  unfoldable pub holds : Expr → Bool
  holds (binary l BinaryOperator.and_op r) =
      let second = holds r in if holds l then second else false
  holds (binary l BinaryOperator.or_op r) = let second = holds r in if holds l then true else second
  holds (binary l BinaryOperator.eq_op r) = says eq_op (operand l) (operand r)
  holds (binary l BinaryOperator.not_eq_op r) = says ne_op (operand l) (operand r)
  holds (binary l BinaryOperator.gt_op r) = says gt_op (operand l) (operand r)
  holds (binary l BinaryOperator.lt_op r) = says lt_op (operand l) (operand r)
  holds (binary l BinaryOperator.gt_eq_op r) = says ge_op (operand l) (operand r)
  holds (binary l BinaryOperator.lt_eq_op r) = says le_op (operand l) (operand r)
  holds (binary l BinaryOperator.other_op r) = false
  holds (value (boolean b)) = b
  holds (nested e) = holds e
  holds _ = false

-- The column of an order comparison stands on its left.
abbrev pub IsColumn : Expr → Type 0
IsColumn (identifier _) = Unit
IsColumn _ = ⊥

abbrev pub ColumnFirst : Expr → Type 0
ColumnFirst (binary l BinaryOperator.and_op r) = ColumnFirst l × ColumnFirst r
ColumnFirst (binary l BinaryOperator.or_op r) = ColumnFirst l × ColumnFirst r
ColumnFirst (binary l BinaryOperator.gt_op r) = IsColumn l
ColumnFirst (binary l BinaryOperator.lt_op r) = IsColumn l
ColumnFirst (binary l BinaryOperator.gt_eq_op r) = IsColumn l
ColumnFirst (binary l BinaryOperator.lt_eq_op r) = IsColumn l
ColumnFirst (nested e) = ColumnFirst e
ColumnFirst _ = Unit

module _ {h : Host} (row : Row h) (schema : Schema) where
  -- What a comparison compares fits.
  abbrev pub Compared : CmpOp → Expr → Expr → Type 0
  Compared op (identifier id) (value v) = Fits {h = h} op (cell row schema id.value) (sql_value v)
  Compared op (value v) (identifier id) = Fits {h = h} op (cell row schema id.value) (sql_value v)
  Compared op _ _ = Unit

  -- In every comparison of a column and a literal the literal is in range and no NULL, and the row has
  -- in the column a value of its type, or, except under `<>`, NULL or nothing.
  abbrev pub IsTyped : Expr → Type 0
  IsTyped (binary l BinaryOperator.and_op r) = IsTyped l × IsTyped r
  IsTyped (binary l BinaryOperator.or_op r) = IsTyped l × IsTyped r
  IsTyped (binary l BinaryOperator.eq_op r) = Compared eq_op l r
  IsTyped (binary l BinaryOperator.not_eq_op r) = Compared ne_op l r
  IsTyped (binary l BinaryOperator.gt_op r) = Compared gt_op l r
  IsTyped (binary l BinaryOperator.lt_op r) = Compared lt_op l r
  IsTyped (binary l BinaryOperator.gt_eq_op r) = Compared ge_op l r
  IsTyped (binary l BinaryOperator.lt_eq_op r) = Compared le_op l r
  IsTyped (nested e) = IsTyped e
  IsTyped _ = Unit

module _ {h : Host} where
  -- What a filter accepts, where there is one.
  abbrev Accepts : Row h → Schema → Result (FilterExpr h) → Bool → Type 0
  Accepts row schema (ok p) b = eval_predicate row p schema ≡ b
  Accepts row schema (err _) b = Unit
  Accepts row schema panic b = Unit

  -- The test of a field, where there is one, is what SQL says of it.
  test-says :
      (op : CmpOp) (f : Option (Value h)) (x : Value h)
      → Fits op f (some x)
      → elim f [ none ↦ false | some v ↦ test_value op v x ] ≡ says op f (some x)
  test-says op none x t = refl
  test-says op (some v) x t = test_value-OneType op v x t

  no_literal : (op : CmpOp) (f : Option (Value h)) → Fits op f none → (A : Type 0) → A
  no_literal op none t A = absurd t
  no_literal op (some v) t A = absurd t

module _ {h : Host} (row : Row h) (schema : Schema) where
  column_first :
      (op : CmpOp) (c : String) (v : Literal) (o : Option (Value h))
      → sql_value v ≡ o
      → Fits op (cell row schema c) o
      → Accepts row schema (compare_with c op (literal_value v)) (says op (cell row schema c) o)
  unfolding eval_predicate field_of Row.get
  column_first op c v (some x) e t =
      subst (λ r. Accepts row schema (compare_with c op r) (says op (cell row schema c) (some x)))
        (sym (literal_value-sql_value v x e)) (test-says op (cell row schema c) x t)
  column_first op c v none e t = no_literal op (cell row schema c) t _

  equality_meaning :
      (l r : Expr)
      → Compared row schema eq_op l r
      → Accepts row schema (equality l r) (says eq_op (operand row schema l) (operand row schema r))
  unfolding equality expr_to_value
  equality_meaning (identifier id) (value v) t = column_first eq_op id.value v _ refl t
  equality_meaning (value v) (identifier id) t =
      subst (λ b. Accepts row schema (compare_with id.value eq_op (literal_value v)) b)
        (says-swap (cell row schema id.value) (sql_value v))
        (column_first eq_op id.value v _ refl t)
  equality_meaning _ _ t = tt

  inequality_meaning :
      (l r : Expr)
      → Compared row schema ne_op l r
      → Accepts row schema
          (inequality l r)
          (says ne_op (operand row schema l) (operand row schema r))
  unfolding inequality expr_to_value
  inequality_meaning (identifier id) (value v) t = column_first ne_op id.value v _ refl t
  inequality_meaning _ _ t = tt

  order_meaning :
      (op : CmpOp) (l r : Expr)
      → IsColumn l
      → Compared row schema op l r
      → Accepts row schema
          (order_comparison op l r)
          (says op (operand row schema l) (operand row schema r))
  unfolding order_comparison expr_to_value
  order_meaning op (identifier id) (value v) c t = column_first op id.value v _ refl t
  order_meaning op (identifier id) _ c t = tt
  order_meaning op _ _ c t = absurd c

  Accepts-chain :
      (f g : Result (FilterExpr h)) (a b : Bool)
      → Accepts row schema f a
      → Accepts row schema g b
      → Accepts row schema (f >>= λ l. g >>= λ r. ok (both l r)) (if a then b else false)
        × Accepts row schema (f >>= λ l. g >>= λ r. ok (either l r)) (if a then true else b)
  unfolding eval_predicate
  Accepts-chain (ok p) (ok q) a b e d = ground arith
  Accepts-chain (ok p) (err _) a b e d = (tt, tt)
  Accepts-chain (ok p) panic a b e d = (tt, tt)
  Accepts-chain (err _) g a b e d = (tt, tt)
  Accepts-chain panic g a b e d = (tt, tt)

  expr_to_filter-Accepts :
      (e : Expr)
      → ColumnFirst e
      → IsTyped row schema e
      → Accepts row schema (expr_to_filter e) (holds row schema e)
  unfolding expr_to_filter holds
  expr_to_filter-Accepts (binary l BinaryOperator.and_op r) c t =
      (Accepts-chain (expr_to_filter l) (expr_to_filter r) (holds row schema l) (holds row schema r)
        (expr_to_filter-Accepts l c.0 t.0) (expr_to_filter-Accepts r c.1 t.1)).0
  expr_to_filter-Accepts (binary l BinaryOperator.or_op r) c t =
      (Accepts-chain (expr_to_filter l) (expr_to_filter r) (holds row schema l) (holds row schema r)
        (expr_to_filter-Accepts l c.0 t.0) (expr_to_filter-Accepts r c.1 t.1)).1
  expr_to_filter-Accepts (binary l BinaryOperator.eq_op r) c t = equality_meaning l r t
  expr_to_filter-Accepts (binary l BinaryOperator.not_eq_op r) c t = inequality_meaning l r t
  expr_to_filter-Accepts (binary l BinaryOperator.gt_op r) c t = order_meaning gt_op l r c t
  expr_to_filter-Accepts (binary l BinaryOperator.lt_op r) c t = order_meaning lt_op l r c t
  expr_to_filter-Accepts (binary l BinaryOperator.gt_eq_op r) c t = order_meaning ge_op l r c t
  expr_to_filter-Accepts (binary l BinaryOperator.lt_eq_op r) c t = order_meaning le_op l r c t
  expr_to_filter-Accepts (binary l BinaryOperator.other_op r) c t = tt
  expr_to_filter-Accepts (value (boolean b)) c t = unfold eval_predicate in refl
  expr_to_filter-Accepts (nested e) c t = expr_to_filter-Accepts e c t
  expr_to_filter-Accepts _ c t = tt

  -- The predicate that a WHERE clause is translated to accepts a row exactly if SQL selects the row by
  -- the clause: AND, OR, Boolean literals, parentheses and the six comparisons, by the order of the
  -- integers, of the floats that are numbers and of the texts, a comparison with NULL or with a missing
  -- value being unknown. In an order comparison the column stands on the left. In each comparison the
  -- literal is in range and no NULL, and the row has in the column a value of the literal's type, or,
  -- except under `<>`, NULL or nothing; Booleans are compared by `=` and `<>` only, and floats are no
  -- NaN.
  pub eval_predicate-holds :
      (e : Expr) (p : FilterExpr h)
      → ColumnFirst e
      → IsTyped row schema e
      → expr_to_filter e ≡ ok p
      → eval_predicate row p schema ≡ holds row schema e
  eval_predicate-holds e p c t f =
      subst (λ r. Accepts row schema r (holds row schema e)) f (expr_to_filter-Accepts e c t)
