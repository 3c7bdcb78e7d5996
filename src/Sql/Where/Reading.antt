-- ===== src/Sql/Where/Reading.antt =====
-- How SQL reads the literals and the comparisons of a WHERE clause, by the order of the integers, of the
-- floats that are numbers and of the texts, and where crates/rustafari-sql/src/plan.rs and the tests of
-- crates/rustafari-executor/src/lib.rs read them so.
use Prim.Native.Char.{code}
use Prim.Native.String.{compare as compare_text}
use text.Mathlib.Text.{◌==◌ as str_eq}
use text.Mathlib.TextEquality.{eq_iff}
use rustafari_db.Common.{
  ◌+◌, Bool, true, false, not, Option, none, some, ◌≡◌, refl, arith, ltb, ◌==◌, if◌then◌else◌, ◌||◌,
  String, get_elem?,
}
use rustafari_db.Common.Int.{ℤ, pos_part, neg_part}
use rustafari_db.Common.BTreeMap.{is_lt}
use rustafari_db.Common.TextOrder.{text_ord}
use rustafari_db.Core.Error.{ok}
use rustafari_db.Core.Host.{Host, f64_is_nan, f64_key, f64_eq, f64_partial_cmp}
use rustafari_db.Core.Row.{Row}
use rustafari_db.Core.Schema.{Schema, column_index}
use rustafari_db.Core.Value.{Value, null, bool, int64, float64, string, value_eq}
use rustafari_db.Sql.Ast.{Literal, number, single_quoted, boolean, null_literal}
use rustafari_db.Sql.Number.{parse_i64}
use rustafari_db.Sql.Plan.{CmpOp, eq_op, ne_op, gt_op, ge_op, lt_op, le_op}
use rustafari_db.Sql.Where.{has_dot, literal_value}
use rustafari_db.Executor.Predicate.{test_value, compare}

-- A full stop is among the characters.
abbrev pub has_point : String → Bool
has_point String.[] = false
has_point (String.◌∷◌ c s) = code c == b'.' || has_point s

has_dot-has_point : (s : String) → has_dot s ≡ has_point s
has_dot-has_point String.[] = refl
has_dot-has_point (String.◌∷◌ c s) = ground (arith, has_dot-has_point s)

abbrev pub below_ℤ : ℤ → ℤ → Bool
below_ℤ a b = ltb (pos_part a + neg_part b) (pos_part b + neg_part a)

abbrev pub same_ℤ : ℤ → ℤ → Bool
same_ℤ a b = (pos_part a + neg_part b) == (pos_part b + neg_part a)

module _ {h : Host} where
  -- What a row has in a column of the schema, if anything.
  abbrev pub cell : Row h → Schema → String → Option (Value h)
  cell row schema c = elim (column_index schema c) [ none ↦ none | some i ↦ get_elem? row.values i ]

  -- The value of a literal, where it has one: a number with a point is a float, one without an `i64`.
  abbrev pub sql_value : Literal → Option (Value h)
  sql_value (number n) =
      if has_point n
      then elim (h.f64_parse n) [ none ↦ none | some f ↦ some (float64 f) ]
      else elim (parse_i64 n) [ none ↦ none | some i ↦ some (int64 i) ]
  sql_value (single_quoted s) = some (string s)
  sql_value (boolean b) = some (bool b)
  sql_value null_literal = some null
  sql_value _ = none

  abbrev pub less : Value h → Value h → Bool
  less (int64 a) (int64 b) = below_ℤ a b
  less (float64 a) (float64 b) = below_ℤ (f64_key a) (f64_key b)
  less (string a) (string b) = is_lt (compare_text a b)
  less _ _ = false

  abbrev pub same : Value h → Value h → Bool
  same (int64 a) (int64 b) = same_ℤ a b
  same (float64 a) (float64 b) = same_ℤ (f64_key a) (f64_key b)
  same (string a) (string b) = str_eq a b
  same (bool a) (bool b) = if a then b else not b
  same _ _ = false

  abbrev pub sql_test : CmpOp → Value h → Value h → Bool
  sql_test eq_op a b = same a b
  sql_test ne_op a b = not (same a b)
  sql_test lt_op a b = less a b
  sql_test gt_op a b = less b a
  sql_test le_op a b = not (less b a)
  sql_test ge_op a b = not (less a b)

  abbrev pub is_null : Value h → Bool
  is_null null = true
  is_null _ = false

  -- A comparison is true of two operands: with NULL, or with a value that is missing, it is unknown,
  -- which selects no row.
  abbrev pub says : CmpOp → Option (Value h) → Option (Value h) → Bool
  says op (some a) (some b) =
      if is_null a then false else if is_null b then false else sql_test op a b
  says op _ _ = false

abbrev pub IsEquality : CmpOp → Type 0
IsEquality eq_op = Unit
IsEquality ne_op = Unit
IsEquality _ = ⊥

abbrev pub IsNotNe : CmpOp → Type 0
IsNotNe ne_op = ⊥
IsNotNe _ = Unit

module _ {h : Host} where
  -- A literal other than NULL.
  abbrev pub IsKnown : Value h → Type 0
  IsKnown (bool _) = Unit
  IsKnown (int64 _) = Unit
  IsKnown (float64 _) = Unit
  IsKnown (string _) = Unit
  IsKnown _ = ⊥

  -- The value of a row and a literal have one type and are not NULL; Booleans are compared by `=` and
  -- `<>` only. The value of the row may be NULL unless the comparison is `<>`.
  abbrev pub OneType : CmpOp → Value h → Value h → Type 0
  OneType op (int64 a) (int64 b) = Unit
  OneType op (float64 a) (float64 b) = (f64_is_nan a ≡ false) × (f64_is_nan b ≡ false)
  OneType op (string a) (string b) = Unit
  OneType op (bool a) (bool b) = IsEquality op
  OneType op null b = IsNotNe op × IsKnown b
  OneType op _ _ = ⊥

  -- The literal has a value other than NULL, and the row has nothing or a value that fits it.
  abbrev pub Fits : CmpOp → Option (Value h) → Option (Value h) → Type 0
  Fits op none (some b) = IsKnown b
  Fits op (some a) (some b) = OneType op a b
  Fits op _ none = ⊥

  pub test_value-OneType :
      (op : CmpOp) (a b : Value h) → OneType op a b → test_value op a b ≡ says op (some a) (some b)
  unfolding test_value compare value_eq f64_eq f64_partial_cmp
  test_value-OneType op (int64 a) (int64 b) t = ground arith
  test_value-OneType op (float64 a) (float64 b) t = ground (arith, t.0, t.1)
  test_value-OneType op (string a) (string b) t =
      ground (arith, text_ord.gt_of_lt b a, text_ord.lt_of_gt a b)
  test_value-OneType op (bool a) (bool b) t = ground arith
  test_value-OneType op null b t = ground arith
  test_value-OneType op a b t = ground arith

  same-swap : (a b : Value h) → same a b ≡ same b a
  same-swap (int64 a) b = ground arith
  same-swap (float64 a) b = ground arith
  same-swap (bool a) b = ground arith
  same-swap (string a) (string b) = ground (arith, eq_iff a b, eq_iff b a)
  same-swap a b = ground arith

  pub says-swap : (a b : Option (Value h)) → says eq_op a b ≡ says eq_op b a
  says-swap (some a) (some b) = ground (arith, same-swap a b)
  says-swap none b = ground arith
  says-swap (some a) none = refl

  -- A literal that SQL reads is read so by the translation.
  pub literal_value-sql_value :
      (v : Literal) (x : Value h) → sql_value v ≡ some x → literal_value v ≡ ok x
  unfolding literal_value
  literal_value-sql_value (number n) x e = ground (arith, e, has_dot-has_point n)
  literal_value-sql_value v x e = ground (arith, e)
