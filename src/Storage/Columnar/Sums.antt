-- ===== src/Storage/Columnar/Sums.antt =====
-- Sums and counts over a column slice, against the exact sum of its integers.
use rustafari_db.Common.{
  ℕ, suc, ◌+◌, ◌≡◌, refl, Bool, true, false, List, [], ◌∷◌, ◌++◌, Option, none, some, arith, length,
  if◌then◌else◌, ◌==◌,
}
use rustafari_db.Common.Int.{ℤ, pos, IsI64, ◌+ℤ◌, saturating_add_exact}
use rustafari_db.Common.HashMap.{nat_eq, get-insert, get-remove}
use rustafari_db.Core.Catalog.{TableId}
use rustafari_db.Core.Host.{Host}
use rustafari_db.Core.Value.{Value, null, int64}
use rustafari_db.Storage.Columnar.{
  ColumnarChunk, ColumnarStore, sum_i64_loop, sum_i64_slice, count_non_null_slice, chunks,
  insert_chunk, drop_table,
}

module _ {h : Host} where
  -- The integers of a column, in order.
  abbrev pub ints : List (Value h) → List ℤ
  ints [] = []
  ints (int64 x ∷ vs) = x ∷ ints vs
  ints (_ ∷ vs) = ints vs

abbrev pub sum_from : ℤ → List ℤ → ℤ
sum_from acc [] = acc
sum_from acc (x ∷ xs) = sum_from (acc +ℤ x) xs

-- Every partial sum, from `acc` on, is in the range of an `i64`.
abbrev pub FitsFrom : ℤ → List ℤ → Type 0
FitsFrom acc [] = Unit
FitsFrom acc (x ∷ xs) = IsI64 (acc +ℤ x) × FitsFrom (acc +ℤ x) xs

abbrev pub none_if_empty : List ℤ → ℤ → Option ℤ
none_if_empty [] s = none
none_if_empty (_ ∷ _) s = some s

module _ {h : Host} where
  sum_i64_loop_exact :
      (acc : ℤ) (any : Bool) (vs : List (Value h))
      → FitsFrom acc (ints vs)
      → sum_i64_loop acc any vs ≡ (
          if any
          then some (sum_from acc (ints vs))
          else none_if_empty (ints vs) (sum_from acc (ints vs)))
  unfolding sum_i64_loop
  sum_i64_loop_exact acc true [] f = refl
  sum_i64_loop_exact acc false [] f = refl
  sum_i64_loop_exact acc true (int64 x ∷ vs) f =
      rw (saturating_add_exact acc x f.0) (sum_i64_loop_exact (acc +ℤ x) true vs f.1)
  sum_i64_loop_exact acc false (int64 x ∷ vs) f =
      rw (saturating_add_exact acc x f.0) (sum_i64_loop_exact (acc +ℤ x) true vs f.1)
  sum_i64_loop_exact acc any (null ∷ vs) f = sum_i64_loop_exact acc any vs f
  sum_i64_loop_exact acc any (_ ∷ vs) f = sum_i64_loop_exact acc any vs f

  -- Where every partial sum is an `i64`, the sum of a slice is the exact sum of its integers, all
  -- other values skipped; it is `None` exactly when the slice holds no integer.
  pub sum_i64_slice_exact :
      (vs : List (Value h))
      → FitsFrom (pos 0) (ints vs)
      → sum_i64_slice vs ≡ none_if_empty (ints vs) (sum_from (pos 0) (ints vs))
  unfolding sum_i64_slice
  sum_i64_slice_exact vs f = sum_i64_loop_exact (pos 0) false vs f

  -- The non-null values of a slice and its nulls make up the slice, and what a column holds beside
  -- integers and nulls is all that separates the count from the number of integers.
  abbrev nulls : List (Value h) → ℕ
  nulls [] = 0
  nulls (null ∷ vs) = suc (nulls vs)
  nulls (_ ∷ vs) = nulls vs

  pub count-add-nulls : (vs : List (Value h)) → count_non_null_slice vs + nulls vs ≡ length vs
  unfolding count_non_null_slice
  count-add-nulls [] = omega arith
  count-add-nulls (null ∷ vs) = ground (arith, count-add-nulls vs)
  count-add-nulls (_ ∷ vs) = ground (arith, count-add-nulls vs)

  -- The store of chunks: a new chunk comes last in its table, a drop leaves its table with none,
  -- and neither changes the chunks of another table.
  pub chunks_after :
      (s : ColumnarStore h) (t u : TableId) (c : ColumnarChunk h)
      → (chunks (insert_chunk s t c) u ≡ (if t == u then chunks s u ++ c ∷ [] else chunks s u))
        × (chunks (drop_table s t) u ≡ (if t == u then [] else chunks s u))
  unfolding chunks insert_chunk drop_table
  chunks_after s t u c = (
    ground (arith, get-insert u t (chunks s t ++ c ∷ []) s.chunk_map),
    ground (arith, get-remove u t s.chunk_map),
  )
