-- ===== src/Index/Vector/Nearest.antt =====
-- The nearest-neighbour search of crates/rustafari-index/src/vector.rs.
use mathlib.Core.List.{Perm}
use rustafari_db.Common.{
  ℕ, ◌≡◌, ◌≢◌, refl, sym, ap, ◌∙◌, String, false, List, [], ◌∷◌, map, take, length, arith, All, gt,
}
use rustafari_db.Common.Int.{◌≤ℤ◌}
use rustafari_db.Common.Sort.{sort_by, sort_by-perm, sort_by-Ranked, Ranked, IsTotalPreorder}
use rustafari_db.Core.Error.{ok}
use rustafari_db.Core.Host.{Host, F32, f32_is_nan, f32_key, f32_partial_cmp}
use rustafari_db.Storage.TableStore.{RowId}
use rustafari_db.Index.Vector.{
  VectorIndex, by_distance, distances, sum_of_squares, l2_distance, search,
}

-- A distance is a number.
abbrev pub IsNumber : RowId × F32 → Type 0
IsNumber e = f32_is_nan e.1 ≡ false

by_distance-order : IsTotalPreorder by_distance IsNumber
unfolding f32_partial_cmp
by_distance-order = record {
  total = λ x y p q g. ground (arith, p, q, g);
  trans = λ x y z p q r g k. ground (arith, p, q, r, g, k);
}

-- Every vector of the index has the index's dimension.
abbrev pub IsValid : VectorIndex → Type 0
IsValid ix = All (λ e. length e.1 ≡ ix.dimension) ix.entries

-- The distance of the first is at most that of the second: floats that are numbers are in the order
-- of their keys.
abbrev pub AtMost : RowId × F32 → RowId × F32 → Type 0
AtMost a b = f32_key a.1 ≤ℤ f32_key b.1

by_distance-AtMost :
    (a b : RowId × F32) → IsNumber a → IsNumber b → by_distance a b ≢ gt → AtMost a b
unfolding f32_partial_cmp
by_distance-AtMost a b p q g = ground (arith, p, q, g)

module _ (h : Host) where
  -- The squares of the differences.
  abbrev pub squares : List F32 → List F32 → List F32
  squares (x ∷ xs) (y ∷ ys) = h.f32_square (h.f32_sub x y) ∷ squares xs ys
  squares _ _ = []

  abbrev pub sum_from : F32 → List F32 → F32
  sum_from acc [] = acc
  sum_from acc (x ∷ xs) = sum_from (h.f32_add acc x) xs

  -- The Euclidean distance of two vectors.
  abbrev pub euclidean : List F32 → List F32 → F32
  euclidean a b = h.f32_sqrt (sum_from 0 (squares a b))

  -- The identifier of every entry, with the distance of its vector from the query.
  abbrev pub measured : List F32 → List (RowId × List F32) → List (RowId × F32)
  measured query [] = []
  measured query (e ∷ es) = (e.0, euclidean query e.1) ∷ measured query es

  sum_of_squares-sum_from :
      (a b : List F32) (acc : F32) → sum_of_squares h a b acc ≡ sum_from acc (squares a b)
  unfolding sum_of_squares
  sum_of_squares-sum_from [] b acc = refl
  sum_of_squares-sum_from (x ∷ a) [] acc = refl
  sum_of_squares-sum_from (x ∷ a) (y ∷ b) acc =
      sum_of_squares-sum_from a b (h.f32_add acc (h.f32_square (h.f32_sub x y)))

  map-measured :
      (query : List F32) (es : List (RowId × List F32))
      → map (λ e. (e.0, l2_distance h query e.1)) es ≡ measured query es
  unfolding l2_distance
  map-measured query [] = refl
  map-measured query (e ∷ es) =
      ap (λ d. (e.0, h.f32_sqrt d) ∷ map (λ x. (x.0, l2_distance h query x.1)) es)
        (sum_of_squares-sum_from query e.1 0)
      ∙ ap (◌∷◌ (e.0, euclidean query e.1)) (map-measured query es)

module _ (h : Host) (format : ℕ → ℕ → String) where
  -- A search for a vector of the index's dimension yields the first `top_k` entries of a ranking: the
  -- identifiers of all entries, each once, with the Euclidean distances of their vectors from the
  -- query, in an order in which every distance is at most each later one. No distance is a NaN.
  pub search-ranking :
      (ix : VectorIndex) (query : List F32) (top_k : ℕ)
      → length query ≡ ix.dimension
      → All IsNumber (measured h query ix.entries)
      → (ranking : List (RowId × F32)) × (search h format ix query top_k ≡ ok (take top_k ranking))
        × Perm ranking (measured h query ix.entries)
        × Ranked AtMost ranking
  unfolding search distances
  search-ranking ix query top_k fits numbers =
      let found = measured h query ix.entries in
      (
        sort_by by_distance found,
        rw (sym (map-measured h query ix.entries)) (ground (arith, fits)),
        sort_by-perm by_distance found,
        sort_by-Ranked by_distance IsNumber AtMost by_distance-AtMost by_distance-order found
            numbers,
      )
