-- ===== src/Executor/Predicate.antt =====
-- The predicates of crates/rustafari-executor/src/lib.rs: comparison, WHERE, and index lookups.
use Prim.Native.String.{compare as compare_text}
use text.Mathlib.Text.{◌==◌ as str_eq}
use rustafari_db.Common.{
  String, Bool, true, false, not, ◌&&◌, Option, none, some, Ordering, lt, eq, gt, if◌then◌else◌,
}
use rustafari_db.Common.Int.{cmp_ℤ}
use rustafari_db.Core.Host.{Host, f64_partial_cmp}
use rustafari_db.Core.Row
use rustafari_db.Core.Row.{Row}
use rustafari_db.Core.Schema.{Schema, column_index}
use rustafari_db.Core.Value.{Value, int64, float64, string, value_eq}
use rustafari_db.Sql.Plan.{
  CmpOp, eq_op, ne_op, gt_op, ge_op, lt_op, le_op, FilterExpr, literal, both, either, negate, cmp,
}

-- `IdLookup`
pub data IdLookup (h : Host) : Type 0 where
  point : Value h → IdLookup h
  range_inclusive : Value h → Value h → IdLookup h

module _ {h : Host} where
  unfoldable pub compare : Value h → Value h → Option Ordering
  unfolding f64_partial_cmp
  compare (int64 x) (int64 y) = some (cmp_ℤ x y)
  compare (float64 x) (float64 y) = f64_partial_cmp x y
  compare (string x) (string y) = some (compare_text x y)
  compare _ _ = none

  -- A missing value comes first; values that do not compare are taken for equal.
  unfoldable pub compare_vals : Option (Value h) → Option (Value h) → Ordering
  unfolding compare
  compare_vals none none = eq
  compare_vals none (some b) = lt
  compare_vals (some a) none = gt
  compare_vals (some a) (some b) = elim (compare a b) [ none ↦ eq | some o ↦ o ]

-- The test of `CmpOp` on `compare`'s answer.
abbrev pub order_test : CmpOp → Option Ordering → Bool
order_test gt_op (some gt) = true
order_test ge_op (some eq) = true
order_test ge_op (some gt) = true
order_test lt_op (some lt) = true
order_test le_op (some lt) = true
order_test le_op (some eq) = true
order_test _ _ = false

module _ {h : Host} where
  unfoldable pub test_value : CmpOp → Value h → Value h → Bool
  unfolding compare value_eq
  test_value eq_op v value = value_eq v value
  test_value ne_op v value = not (value_eq v value)
  test_value gt_op v value = order_test gt_op (compare v value)
  test_value ge_op v value = order_test ge_op (compare v value)
  test_value lt_op v value = order_test lt_op (compare v value)
  test_value le_op v value = order_test le_op (compare v value)

  -- `schema.column_index(col).and_then(|i| row.get(i))`
  unfoldable pub field_of : Row h → Schema → String → Option (Value h)
  unfolding column_index Row.get
  field_of row schema col = elim (column_index schema col) [ none ↦ none | some i ↦ Row.get row i ]

  unfoldable pub eval_predicate : Row h → FilterExpr h → Schema → Bool
  unfolding test_value field_of
  eval_predicate row (literal b) schema = b
  eval_predicate row (cmp col op value) schema = elim (field_of row schema col) [
    | none ↦ false
    | some v ↦ test_value op v value
  ]
  eval_predicate row (both a b) schema =
      let second = eval_predicate row b schema in
      if eval_predicate row a schema then second else false
  eval_predicate row (either a b) schema =
      let second = eval_predicate row b schema in
      if eval_predicate row a schema then true else second
  eval_predicate row (negate a) schema = not (eval_predicate row a schema)

  -- The two shapes of a range on the column: `>=` and `<=`, or `<=` and `>=`.
  unfoldable pub range_pair : String → FilterExpr h → FilterExpr h → Option (Value h × Value h)
  range_pair column (cmp c1 ge_op v1) (cmp c2 le_op v2) =
      if str_eq c1 column && str_eq c2 column then some (v1, v2) else none
  range_pair column (cmp c1 le_op v1) (cmp c2 ge_op v2) =
      if str_eq c1 column && str_eq c2 column then some (v2, v1) else none
  range_pair column _ _ = none

  unfoldable pub predicate_to_id_lookup : FilterExpr h → String → Option (IdLookup h)
  unfolding range_pair
  predicate_to_id_lookup (cmp col eq_op value) column =
      if str_eq col column then some (point value) else none
  predicate_to_id_lookup (both a b) column = elim (range_pair column a b) [
    | none ↦ none
    | some (v1, v2) ↦ some (range_inclusive v1 v2)
  ]
  predicate_to_id_lookup _ column = none
