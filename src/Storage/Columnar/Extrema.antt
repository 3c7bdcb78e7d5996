-- ===== src/Storage/Columnar/Extrema.antt =====
-- The minimum and maximum of the integers of a column slice.
use rustafari_db.Common.{◌≡◌, ◌⊎◌, Bool, true, List, [], ◌∷◌, some, arith, any, All}
use rustafari_db.Common.Int.{ℤ, IsI64, ◌≤ℤ◌, eq_ℤ, min_ℤ, max_ℤ, i64_max, i64_min}
use rustafari_db.Core.Host.{Host}
use rustafari_db.Core.Value.{Value, null, int64}
use rustafari_db.Storage.Columnar.{min_max_i64_loop, min_max_i64_slice}
use rustafari_db.Storage.Columnar.Sums.{ints}

abbrev pub contains : ℤ → List ℤ → Bool
contains x = any (λ y. eq_ℤ x y)

-- `lo` and `hi` bound the integers from both sides and stand among them.
pub record AreExtrema (xs : List ℤ) (lo hi : ℤ) : Type 0 where
  pub bounds : All (λ x. (lo ≤ℤ x) × (x ≤ℤ hi)) xs
  pub lo_there : contains lo xs ≡ true
  pub hi_there : contains hi xs ≡ true

-- The same for a list whose first integers have been seen: `mn` and `mx` are their extrema.
record Extend (xs : List ℤ) (mn mx lo hi : ℤ) : Type 0 where
  bounds : All (λ x. (lo ≤ℤ x) × (x ≤ℤ hi)) xs
  below : lo ≤ℤ mn
  above : mx ≤ℤ hi
  lo_there : (lo ≡ mn) ⊎ (contains lo xs ≡ true)
  hi_there : (hi ≡ mx) ⊎ (contains hi xs ≡ true)

module _ {h : Host} where
  loop_extends :
      (mn mx lo hi : ℤ) (vs : List (Value h))
      → min_max_i64_loop mn mx true vs ≡ some (lo, hi)
      → Extend (ints vs) mn mx lo hi
  unfolding min_max_i64_loop
  loop_extends mn mx lo hi [] e = ground arith
  loop_extends mn mx lo hi (int64 x ∷ vs) e =
      let r = loop_extends (min_ℤ mn x) (max_ℤ mx x) lo hi vs e in
      record {
        bounds = (ground (arith, r.below, r.above), r.bounds);
        below = ground (arith, r.below);
        above = ground (arith, r.above);
        lo_there = ground (arith, r.lo_there);
        hi_there = ground (arith, r.hi_there);
      }
  loop_extends mn mx lo hi (null ∷ vs) e = loop_extends mn mx lo hi vs e
  loop_extends mn mx lo hi (_ ∷ vs) e = loop_extends mn mx lo hi vs e

  -- What `min_max_i64_slice` returns bounds every integer of the slice and is attained; the
  -- integers are in the range of an `i64`.
  pub min_max_i64_slice-AreExtrema :
      (vs : List (Value h)) (lo hi : ℤ)
      → All IsI64 (ints vs)
      → min_max_i64_slice vs ≡ some (lo, hi)
      → AreExtrema (ints vs) lo hi
  unfolding min_max_i64_slice
  min_max_i64_slice-AreExtrema [] lo hi a e = cc
  min_max_i64_slice-AreExtrema (int64 x ∷ vs) lo hi a e =
      let first : min_ℤ i64_max x ≡ x = ground (arith, a.0) in
      let last : max_ℤ i64_min x ≡ x = ground (arith, a.0) in
      let e' : min_max_i64_loop x x true vs ≡ some (lo, hi) = rw first at (rw last at e) in
      let r = loop_extends x x lo hi vs e' in
      record {
        bounds = ((r.below, r.above), r.bounds);
        lo_there = ground (arith, r.lo_there);
        hi_there = ground (arith, r.hi_there);
      }
  min_max_i64_slice-AreExtrema (null ∷ vs) lo hi a e = min_max_i64_slice-AreExtrema vs lo hi a e
  min_max_i64_slice-AreExtrema (_ ∷ vs) lo hi a e = min_max_i64_slice-AreExtrema vs lo hi a e
