-- ===== src/Index/Vector.antt =====
-- crates/rustafari-index/src/vector.rs. A lock is never poisoned here: no operation panics while it
-- holds one.
pub mod Nearest
use Prim.Native.String.{◌++◌ as ◌+++◌}
use rustafari_db.Common.{
  ℕ, String, Bool, true, false, not, List, [], ◌∷◌, ◌++◌, Option, none, some, map, take, length,
  Ordering, lt, eq, gt, ◌==◌, if◌then◌else◌,
}
use rustafari_db.Common.Sort.{sort_by}
use rustafari_db.Core.Error.{Result, ok, err, index}
use rustafari_db.Core.Host.{Host, F32, f32_partial_cmp}
use rustafari_db.Storage.TableStore.{RowId}

pub record VectorIndex : Type 0 where
  pub dimension : ℕ
  pub entries : List (RowId × List F32)

abbrev pub new : ℕ → VectorIndex
new dimension = record { dimension = dimension; entries = [] }

-- `partial_cmp(..).unwrap_or(Equal)` of two distances.
abbrev pub by_distance : RowId × F32 → RowId × F32 → Ordering
by_distance a b = elim (f32_partial_cmp a.1 b.1) [ none ↦ eq | some o ↦ o ]

module _ (h : Host) where
  -- `iter().zip(..).map(|(x, y)| (x - y).powi(2)).sum()`
  unfoldable pub sum_of_squares : List F32 → List F32 → F32 → F32
  sum_of_squares (x ∷ xs) (y ∷ ys) acc =
      sum_of_squares xs ys (h.f32_add acc (h.f32_square (h.f32_sub x y)))
  sum_of_squares _ _ acc = acc

  unfoldable pub l2_distance : List F32 → List F32 → F32
  unfolding sum_of_squares
  l2_distance a b = h.f32_sqrt (sum_of_squares a b 0)

  -- `format` prints the two dimensions.
  unfoldable pub insert : (ℕ → ℕ → String) → VectorIndex → RowId → List F32 → Result VectorIndex
  insert format ix row_id vector =
      if length vector == ix.dimension
      then ok (record ix { entries = ix.entries ++ (row_id, vector) ∷ [] })
      else err (index (format (length vector) ix.dimension))

  unfoldable pub distances : VectorIndex → List F32 → List (RowId × F32)
  unfolding l2_distance
  distances ix query = map (λ e. (e.0, l2_distance query e.1)) ix.entries

  unfoldable pub search :
      (ℕ → ℕ → String) → VectorIndex → List F32 → ℕ → Result (List (RowId × F32))
  unfolding distances sort_by
  search format ix query top_k =
      if length query == ix.dimension
      then ok (take top_k (sort_by by_distance (distances ix query)))
      else err (index (format (length query) ix.dimension))
