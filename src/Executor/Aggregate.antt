-- ===== src/Executor/Aggregate.antt =====
-- The aggregates of crates/rustafari-executor/src/lib.rs, over rows and over columnar chunks.
pub mod Magnitude
pub mod Paths
use rustafari_db.Common.{
  ℕ, suc, ◌+◌, String, Bool, true, false, not, List, [], ◌∷◌, Option, none, some, length, filter,
  ◌==◌, if◌then◌else◌, ◌&&◌,
}
use Prim.Native.String.{◌++◌ as ◌+++◌}
use rustafari_db.Common.Int.{ℤ, pos, i64_max, i64_min, min_ℤ, max_ℤ, saturating_add, as_i64, eq_ℤ}
use rustafari_db.Core.Error.{Result, ok, err, ok_or, execution, ◌>>=◌}
use rustafari_db.Core.Host.{Host, F64, f64_min, f64_max, f64_zero, f64_infinity, f64_neg_infinity}
use rustafari_db.Core.Row
use rustafari_db.Core.Row.{Row}
use rustafari_db.Core.Schema.{Schema, column_index}
use rustafari_db.Core.Value.{Value, null, int64, float64, is_null}
use rustafari_db.Sql.Plan.{AggExpr, sum, count_star, count, avg, min, max}
use rustafari_db.Storage.Columnar.{
  ColumnarChunk, column, sum_i64_slice, sum_f64_slice, count_non_null_slice, min_max_i64_slice,
  min_max_f64_slice,
}

-- The four variables that SUM, MIN and MAX keep: a result and a flag for integers and for floats.
pub record Acc : Type 0 where
  pub i : ℤ
  pub f : F64
  pub has_i : Bool
  pub has_f : Bool

abbrev pub start : ℤ → F64 → Acc
start i f = record { i = i; f = f; has_i = false; has_f = false }

abbrev pub add_int : (ℤ → ℤ → ℤ) → ℤ → Acc → Acc
add_int g x a = record a { i = g a.i x; has_i = true }

abbrev pub add_float : (F64 → F64 → F64) → F64 → Acc → Acc
add_float g x a = record a { f = g a.f x; has_f = true }

abbrev pub column_not_found : String → String
column_not_found name = "column not found: " +++ name

-- The two variables of AVG.
pub record Mean : Type 0 where
  pub total : F64
  pub seen : ℕ

-- `schema.column_index(column).ok_or_else(..)?`
unfoldable pub find_index : Schema → String → Result ℕ
unfolding column_index
find_index schema name = ok_or (execution (column_not_found name)) (column_index schema name)

-- One slice into the variables: its integer result and its float result, where it has them.
abbrev pub add_slice : (ℤ → ℤ → ℤ) → (F64 → F64 → F64) → Option ℤ → Option F64 → Acc → Acc
add_slice g k none none a = a
add_slice g k (some x) none a = add_int g x a
add_slice g k none (some y) a = add_float k y a
add_slice g k (some x) (some y) a = add_float k y (add_int g x a)

abbrev pub first_of_pair {ℓ} : {A : Type ℓ} → Option (A × A) → Option A
first_of_pair none = none
first_of_pair (some p) = some p.0

abbrev pub second_of_pair {ℓ} : {A : Type ℓ} → Option (A × A) → Option A
second_of_pair none = none
second_of_pair (some p) = some p.1

module _ {h : Host} where
  -- The loops over the rows of a group, with `g` for integers and `k` for floats.
  abbrev pub step : (ℤ → ℤ → ℤ) → (F64 → F64 → F64) → Option (Value h) → Acc → Acc
  step g k (some (int64 x)) a = add_int g x a
  step g k (some (float64 x)) a = add_float k x a
  step g k _ a = a

  unfoldable pub fold_rows : (ℤ → ℤ → ℤ) → (F64 → F64 → F64) → ℕ → List (Row h) → Acc → Acc
  unfolding Row.get
  fold_rows g k idx [] a = a
  fold_rows g k idx (r ∷ rs) a = fold_rows g k idx rs (step g k (Row.get r idx) a)

  abbrev pub mean_step : Option (Value h) → Mean → Mean
  mean_step (some (int64 x)) m = record {
    total = h.f64_add m.total (h.f64_of_i64 x);
    seen = suc m.seen;
  }
  mean_step (some (float64 x)) m = record { total = h.f64_add m.total x; seen = suc m.seen }
  mean_step _ m = m

  unfoldable pub mean_rows : ℕ → List (Row h) → Mean → Mean
  unfolding Row.get
  mean_rows idx [] m = m
  mean_rows idx (r ∷ rs) m = mean_rows idx rs (mean_step (Row.get r idx) m)

  abbrev pub is_present : Option (Value h) → Bool
  is_present none = false
  is_present (some v) = not (is_null v)

  unfoldable pub count_rows : ℕ → List (Row h) → ℕ
  unfolding Row.get is_null
  count_rows idx rows = length (filter (λ r. is_present (Row.get r idx)) rows)

  -- The results: the float if a float was seen, else the integer if one was seen, else NULL. The sum
  -- over rows adds the integers to the floats.
  abbrev pub pick : Acc → Value h
  pick a = if a.has_f then float64 a.f else if a.has_i then int64 a.i else null

  abbrev pub pick_sum : Acc → Value h
  pick_sum a =
      if a.has_f
      then float64 (h.f64_add a.f (h.f64_of_i64 a.i))
      else if a.has_i
      then int64 a.i
      else null

  abbrev pub pick_mean : Mean → Value h
  pick_mean m = if m.seen == 0 then null else float64 (h.f64_div m.total (h.f64_of_usize m.seen))

  unfoldable pub aggregate_over_row_slice : List (Row h) → Schema → AggExpr → Result (Value h)
  unfolding find_index fold_rows mean_rows count_rows
  aggregate_over_row_slice rows schema count_star = ok (int64 (as_i64 (length rows)))
  aggregate_over_row_slice rows schema (sum name) = do
    idx ← find_index schema name
    ok (pick_sum (fold_rows saturating_add h.f64_add idx rows (start (pos 0) f64_zero)))
  aggregate_over_row_slice rows schema (count name) = do
    idx ← find_index schema name
    ok (int64 (as_i64 (count_rows idx rows)))
  aggregate_over_row_slice rows schema (avg name) = do
    idx ← find_index schema name
    ok (pick_mean (mean_rows idx rows (record { total = f64_zero; seen = 0 })))
  aggregate_over_row_slice rows schema (min name) = do
    idx ← find_index schema name
    ok (pick (fold_rows min_ℤ f64_min idx rows (start i64_max f64_infinity)))
  aggregate_over_row_slice rows schema (max name) = do
    idx ← find_index schema name
    ok (pick (fold_rows max_ℤ f64_max idx rows (start i64_min f64_neg_infinity)))

  abbrev pub sum_slice : List (Value h) → Acc → Acc
  sum_slice vs = add_slice saturating_add h.f64_add (sum_i64_slice vs) (sum_f64_slice vs)

  abbrev pub min_slice : List (Value h) → Acc → Acc
  min_slice vs =
      add_slice min_ℤ f64_min (first_of_pair (min_max_i64_slice vs))
        (first_of_pair (min_max_f64_slice vs))

  abbrev pub max_slice : List (Value h) → Acc → Acc
  max_slice vs =
      add_slice max_ℤ f64_max (second_of_pair (min_max_i64_slice vs))
        (second_of_pair (min_max_f64_slice vs))

  -- The loops over chunks: a chunk without the column is passed over.
  unfoldable pub fold_chunks :
      (List (Value h) → Acc → Acc) → String → List (ColumnarChunk h) → Acc → Acc
  unfolding column
  fold_chunks f name [] a = a
  fold_chunks f name (c ∷ cs) a =
      fold_chunks f name cs (elim (column c name) [ none ↦ a | some vs ↦ f vs a ])

  unfoldable pub count_chunks : String → List (ColumnarChunk h) → ℕ → ℕ
  unfolding column
  count_chunks name [] n = n
  count_chunks name (c ∷ cs) n =
      count_chunks name cs
        (elim (column c name) [ none ↦ n | some vs ↦ n + count_non_null_slice vs ])

  unfoldable pub row_total : List (ColumnarChunk h) → ℕ
  row_total [] = 0
  row_total (c ∷ cs) = c.row_count + row_total cs

  abbrev pub pick_min : Acc → Value h
  pick_min a =
      if a.has_f then float64 a.f else if a.has_i && not (eq_ℤ a.i i64_max) then int64 a.i else null

  abbrev pub pick_max : Acc → Value h
  pick_max a =
      if a.has_f then float64 a.f else if a.has_i && not (eq_ℤ a.i i64_min) then int64 a.i else null

  -- AVG divides by the number of values that are not NULL.
  abbrev pub pick_avg : Acc → ℕ → Value h
  pick_avg a n =
      if n == 0
      then null
      else float64 (h.f64_div (h.f64_add (h.f64_of_i64 a.i) a.f) (h.f64_of_usize n))

  unfoldable pub aggregate_over_chunks : List (ColumnarChunk h) → AggExpr → Result (Value h)
  unfolding fold_chunks count_chunks row_total sum_i64_slice sum_f64_slice count_non_null_slice
      min_max_i64_slice min_max_f64_slice
  aggregate_over_chunks chunks count_star = ok (int64 (as_i64 (row_total chunks)))
  aggregate_over_chunks chunks (sum name) =
      ok (pick (fold_chunks sum_slice name chunks (start (pos 0) f64_zero)))
  aggregate_over_chunks chunks (count name) = ok (int64 (as_i64 (count_chunks name chunks 0)))
  aggregate_over_chunks chunks (avg name) = ok (
      pick_avg (fold_chunks sum_slice name chunks (start (pos 0) f64_zero))
        (count_chunks name chunks 0))
  aggregate_over_chunks chunks (min name) =
      ok (pick_min (fold_chunks min_slice name chunks (start i64_max f64_infinity)))
  aggregate_over_chunks chunks (max name) =
      ok (pick_max (fold_chunks max_slice name chunks (start i64_min f64_neg_infinity)))
