-- ===== src/Storage/Columnar.antt =====
-- crates/rustafari-storage/src/columnar.rs
pub mod Sums
pub mod Extrema
use text.Mathlib.Text.{◌==◌ as str_eq}
use rustafari_db.Common.{
  ℕ, suc, ◌+◌, String, Bool, true, false, not, List, [], ◌∷◌, ◌++◌, Option, none, some, length,
  filter, next_u64, if◌then◌else◌,
}
use rustafari_db.Common.Int.{ℤ, pos, i64_max, i64_min, min_ℤ, max_ℤ, saturating_add}
use rustafari_db.Common.HashMap
use rustafari_db.Common.HashMap.{HashMap, nat_eq}
use rustafari_db.Core.Catalog.{TableId}
use rustafari_db.Core.Host.{Host, F64, f64_min, f64_max, f64_infinity, f64_neg_infinity, f64_zero}
use rustafari_db.Core.Value.{Value, null, int64, float64, is_null}

abbrev pub columnar_chunk_size : ℕ
columnar_chunk_size = 100_000

pub record ColumnChunk (h : Host) : Type 0 where
  pub column_name : String
  pub values : List (Value h)

pub record ColumnarChunk (h : Host) : Type 0 where
  pub chunk_id : ℕ
  pub columns : List (ColumnChunk h)
  pub row_count : ℕ

pub record ColumnarStore (h : Host) : Type 0 where
  pub next_chunk_id : ℕ
  pub chunk_map : HashMap TableId (List (ColumnarChunk h))

-- `if any { Some(x) } else { None }`
abbrev pub when_any {ℓ} : {A : Type ℓ} → Bool → A → Option A
when_any true x = some x
when_any false x = none

module _ {h : Host} where
  -- The loops of the slice functions, from an accumulator and the flag `any`.
  unfoldable pub sum_i64_loop : ℤ → Bool → List (Value h) → Option ℤ
  sum_i64_loop sum any [] = when_any any sum
  sum_i64_loop sum any (int64 x ∷ vs) = sum_i64_loop (saturating_add sum x) true vs
  sum_i64_loop sum any (_ ∷ vs) = sum_i64_loop sum any vs

  unfoldable pub sum_i64_slice : List (Value h) → Option ℤ
  unfolding sum_i64_loop
  sum_i64_slice = sum_i64_loop (pos 0) false

  unfoldable pub sum_f64_loop : F64 → Bool → List (Value h) → Option F64
  sum_f64_loop sum any [] = when_any any sum
  sum_f64_loop sum any (float64 x ∷ vs) = sum_f64_loop (h.f64_add sum x) true vs
  sum_f64_loop sum any (_ ∷ vs) = sum_f64_loop sum any vs

  unfoldable pub sum_f64_slice : List (Value h) → Option F64
  unfolding sum_f64_loop
  sum_f64_slice = sum_f64_loop f64_zero false

  unfoldable pub count_non_null_slice : List (Value h) → ℕ
  unfolding is_null
  count_non_null_slice values = length (filter (λ v. not (is_null v)) values)

  unfoldable pub min_max_i64_loop : ℤ → ℤ → Bool → List (Value h) → Option (ℤ × ℤ)
  min_max_i64_loop min max any [] = when_any any (min, max)
  min_max_i64_loop min max any (int64 x ∷ vs) = min_max_i64_loop (min_ℤ min x) (max_ℤ max x) true vs
  min_max_i64_loop min max any (_ ∷ vs) = min_max_i64_loop min max any vs

  unfoldable pub min_max_i64_slice : List (Value h) → Option (ℤ × ℤ)
  unfolding min_max_i64_loop
  min_max_i64_slice = min_max_i64_loop i64_max i64_min false

  unfoldable pub min_max_f64_loop : F64 → F64 → Bool → List (Value h) → Option (F64 × F64)
  min_max_f64_loop min max any [] = when_any any (min, max)
  min_max_f64_loop min max any (float64 x ∷ vs) =
      min_max_f64_loop (f64_min min x) (f64_max max x) true vs
  min_max_f64_loop min max any (_ ∷ vs) = min_max_f64_loop min max any vs

  unfoldable pub min_max_f64_slice : List (Value h) → Option (F64 × F64)
  unfolding min_max_f64_loop
  min_max_f64_slice = min_max_f64_loop f64_infinity f64_neg_infinity false

  -- The methods of `ColumnChunk`.
  unfoldable pub sum_i64 : ColumnChunk h → Option ℤ
  unfolding sum_i64_slice
  sum_i64 c = sum_i64_slice c.values

  unfoldable pub sum_f64 : ColumnChunk h → Option F64
  unfolding sum_f64_slice
  sum_f64 c = sum_f64_slice c.values

  unfoldable pub count_non_null : ColumnChunk h → ℕ
  unfolding count_non_null_slice
  count_non_null c = count_non_null_slice c.values

  unfoldable pub min_max_i64 : ColumnChunk h → Option (ℤ × ℤ)
  unfolding min_max_i64_slice
  min_max_i64 c = min_max_i64_slice c.values

  unfoldable pub min_max_f64 : ColumnChunk h → Option (F64 × F64)
  unfolding min_max_f64_slice
  min_max_f64 c = min_max_f64_slice c.values

  abbrev first_length : List (ColumnChunk h) → ℕ
  first_length [] = 0
  first_length (c ∷ _) = length c.values

  -- `ColumnarChunk::new`
  unfoldable pub new_chunk : ℕ → List (ColumnChunk h) → ColumnarChunk h
  new_chunk chunk_id columns = record {
    chunk_id = chunk_id;
    columns = columns;
    row_count = first_length columns;
  }

  unfoldable pub find_column : String → List (ColumnChunk h) → Option (List (Value h))
  find_column name [] = none
  find_column name (c ∷ cs) =
      if str_eq c.column_name name then some c.values else find_column name cs

  unfoldable pub column : ColumnarChunk h → String → Option (List (Value h))
  unfolding find_column
  column c name = find_column name c.columns

  abbrev pub new : ColumnarStore h
  new = record { next_chunk_id = 0; chunk_map = HashMap.empty }

  -- `get(&table_id).cloned().unwrap_or_default()`
  unfoldable pub chunks : ColumnarStore h → TableId → List (ColumnarChunk h)
  chunks s table_id = elim (HashMap.get table_id s.chunk_map) [ none ↦ [] | some cs ↦ cs ]

  unfoldable pub insert_chunk : ColumnarStore h → TableId → ColumnarChunk h → ColumnarStore h
  unfolding chunks
  insert_chunk s table_id chunk = record s {
    chunk_map = HashMap.insert table_id (chunks s table_id ++ chunk ∷ []) s.chunk_map;
  }

  unfoldable pub next_chunk_id : ColumnarStore h → ColumnarStore h × ℕ
  next_chunk_id s = (record s { next_chunk_id = next_u64 s.next_chunk_id }, s.next_chunk_id)

  unfoldable pub drop_table : ColumnarStore h → TableId → ColumnarStore h
  drop_table s table_id = record s { chunk_map = HashMap.remove table_id s.chunk_map }
