-- ===== src/Executor/Aggregate/Paths.antt =====
-- The aggregates of crates/rustafari-executor/src/lib.rs: over chunks they answer what they answer
-- over the rows that the chunks were made of.
use rustafari_db.Common.{
  ℕ, ◌+◌, ◌<◌, ◌^◌, ◌≡◌, refl, ◌∙◌, sym, ap, subst, String, true, false, List, [], ◌∷◌, ◌++◌, map,
  Option, none, some, arith, Option-cases, inl, inr,
}
use rustafari_db.Common.Int.{ℤ, pos, IsI64, ◌+ℤ◌, saturating_add, saturating_add_exact}
use rustafari_db.Core.Host.{Host, F64, f64_zero}
use rustafari_db.Core.Row
use rustafari_db.Core.Row.{Row}
use rustafari_db.Core.Schema.{Schema, column_index}
use rustafari_db.Core.Value.{Value, int64, float64, is_null}
use rustafari_db.Storage.Columnar.{
  ColumnarChunk, column, count_non_null_slice, sum_i64_slice, sum_f64_slice, sum_f64_loop,
}
use rustafari_db.Storage.Columnar.Sums.{
  ints, sum_from, FitsFrom, none_if_empty, sum_i64_slice_exact,
}
use rustafari_db.Sql.Plan.{AggExpr}
use rustafari_db.Executor.State.{or_zero, or_null}
use rustafari_db.Executor.State.Buffer.{value_in, chunk_values}
use rustafari_db.Executor.Aggregate.Magnitude.{
  IsI64-of_mag, mag-sum_from, zero-add, FitsFrom-of_mag, sum_from_zero, total_mag-append,
  after-append, after_cons, after-i, after-has_f, mag, total_mag, after,
}
use rustafari_db.Executor.Aggregate.{
  Acc, add_slice, pick, pick_sum, start, find_index, step, fold_rows, count_rows, fold_chunks,
  sum_slice, count_chunks, aggregate_over_row_slice, aggregate_over_chunks,
}

module _ {h : Host} where
  count-append :
      (xs ys : List (Value h))
      → count_non_null_slice (xs ++ ys) ≡ count_non_null_slice xs + count_non_null_slice ys
  unfolding count_non_null_slice
  count-append [] ys = omega arith
  count-append (x ∷ xs) ys = ground (arith, count-append xs ys)

  count_chunks-chunk_values :
      (name : String) (cs : List (ColumnarChunk h)) (n : ℕ)
      → count_chunks name cs n ≡ n + count_non_null_slice (chunk_values name cs)
  unfolding count_chunks count_non_null_slice
  count_chunks-chunk_values name [] n = omega arith
  count_chunks-chunk_values name (c ∷ cs) n = elim (Option-cases (column c name)) [
    | inl absent ↦ ground (arith, absent, count_chunks-chunk_values name cs n)
    | inr (vs, there) ↦ ground (
      arith,
      there,
      count_chunks-chunk_values name cs (n + count_non_null_slice vs),
      count-append vs (chunk_values name cs),
    )
  ]

  count_rows-values :
      (idx : ℕ) (rows : List (Row h))
      → count_rows idx rows ≡ count_non_null_slice (map (λ r. or_null (Row.get r idx)) rows)
  unfolding count_rows count_non_null_slice is_null
  count_rows-values idx [] = refl
  count_rows-values idx (r ∷ rows) = ground (arith, count_rows-values idx rows)

  row_values :
      (schema : Schema) (name : String) (idx : ℕ) (rows : List (Row h))
      → column_index schema name ≡ some idx
      → map (value_in schema name) rows ≡ map (λ r. or_null (Row.get r idx)) rows
  row_values schema name idx rows at = ap (λ o. map (λ r. or_null (Row.get r (or_zero o))) rows) at

  -- COUNT of a column over chunks is its COUNT over the rows, when the chunks hold the rows' values
  -- for the column and the schema has the column.
  pub count_paths :
      (schema : Schema) (name : String) (idx : ℕ) (rows : List (Row h))
      (chunks : List (ColumnarChunk h))
      → column_index schema name ≡ some idx
      → chunk_values name chunks ≡ map (value_in schema name) rows
      → aggregate_over_chunks chunks (AggExpr.count name)
        ≡ aggregate_over_row_slice rows schema (AggExpr.count name)
  unfolding aggregate_over_chunks aggregate_over_row_slice find_index
  count_paths schema name idx rows chunks at same =
      let equal : count_chunks name chunks 0 ≡ count_rows idx rows =
        count_chunks-chunk_values name chunks 0
        ∙ ap (λ vs. 0 + count_non_null_slice vs) (same ∙ row_values schema name idx rows at)
        ∙ zero-add _
        ∙ sym (count_rows-values idx rows) in
      ground (arith, at, equal)

  -- No value is a float.
  abbrev pub NoFloats : List (Value h) → Type 0
  NoFloats [] = Unit
  NoFloats (float64 _ ∷ vs) = ⊥
  NoFloats (_ ∷ vs) = NoFloats vs

  sum_f64_slice_none :
      (z : F64) (vs : List (Value h)) → NoFloats vs → sum_f64_loop z false vs ≡ none
  unfolding sum_f64_loop
  sum_f64_slice_none z [] n = refl
  sum_f64_slice_none z (float64 _ ∷ vs) n = absurd n
  sum_f64_slice_none z (_ ∷ vs) n = sum_f64_slice_none z vs n

  ints-append : (xs ys : List (Value h)) → ints (xs ++ ys) ≡ ints xs ++ ints ys
  ints-append [] ys = refl
  ints-append (int64 x ∷ xs) ys = ap (◌∷◌ x) (ints-append xs ys)
  ints-append (_ ∷ xs) ys = ints-append xs ys

  NoFloats-split : (xs ys : List (Value h)) → NoFloats (xs ++ ys) → NoFloats xs × NoFloats ys
  NoFloats-split [] ys n = (tt, n)
  NoFloats-split (float64 _ ∷ xs) ys n = absurd n
  NoFloats-split (_ ∷ xs) ys n = NoFloats-split xs ys n

  fold_step :
      (o : Option (Value h)) (vs : List (Value h)) (a : Acc)
      → NoFloats (or_null o ∷ vs)
      → FitsFrom a.i (ints (or_null o ∷ vs))
      → NoFloats vs
        × FitsFrom (step saturating_add h.f64_add o a).i (ints vs)
        × (after (ints (or_null o ∷ vs)) a ≡ after (ints vs) (step saturating_add h.f64_add o a))
  fold_step none vs a n f = (n, f, refl)
  fold_step (some (int64 x)) vs a n f =
      let e = saturating_add_exact a.i x f.0 in
      (
        n,
        subst (λ z. FitsFrom z (ints vs)) (sym e) f.1,
        ap (λ z. after (ints vs) (record a { i = z; has_i = true })) (sym e),
      )
  fold_step (some (float64 _)) vs a n f = absurd n
  fold_step (some _) vs a n f = (n, f, refl)

  fold_rows-after :
      (idx : ℕ) (rows : List (Row h)) (a : Acc)
      → NoFloats (map (λ r. or_null (Row.get r idx)) rows)
      → FitsFrom a.i (ints (map (λ r. or_null (Row.get r idx)) rows))
      → fold_rows saturating_add h.f64_add idx rows a
        ≡ after (ints (map (λ r. or_null (Row.get r idx)) rows)) a
  unfolding fold_rows
  fold_rows-after idx [] a n f = refl
  fold_rows-after idx (r ∷ rows) a n f =
      let (n1, f1, e) = fold_step (Row.get r idx) (map (λ x. or_null (Row.get x idx)) rows) a n f in
      fold_rows-after idx rows (step saturating_add h.f64_add (Row.get r idx) a) n1 f1 ∙ sym e

  add_slice-after :
      (xs : List ℤ) (vs : List (Value h)) (a : Acc)
      → sum_i64_slice vs ≡ none_if_empty xs (sum_from (pos 0) xs)
      → sum_f64_slice vs ≡ none
      → IsI64 (sum_from a.i xs)
      → sum_slice vs a ≡ after xs a
  add_slice-after [] vs a e1 e2 f =
      ap (λ o. add_slice saturating_add h.f64_add o (sum_f64_slice vs) a) e1
      ∙ ap (λ o. add_slice saturating_add h.f64_add none o a) e2
  add_slice-after (x ∷ xs) vs a e1 e2 f =
      let z = sum_from_zero a.i (x ∷ xs) in
      ap (λ o. add_slice saturating_add h.f64_add o (sum_f64_slice vs) a) e1
      ∙ ap (λ o. add_slice saturating_add h.f64_add (some (sum_from (pos 0) (x ∷ xs))) o a) e2
      ∙ ap (λ i. record a { i = i; has_i = true })
          (saturating_add_exact a.i (sum_from (pos 0) (x ∷ xs)) (subst IsI64 (sym z) f) ∙ z)
      ∙ sym (after_cons xs (record a { i = a.i +ℤ x; has_i = true }) refl)

  sum_slice-after :
      (vs : List (Value h)) (a : Acc)
      → NoFloats vs
      → mag a.i + total_mag (ints vs) < 2 ^ 63
      → sum_slice vs a ≡ after (ints vs) a
  unfolding sum_f64_slice
  sum_slice-after vs a n l =
      add_slice-after (ints vs) vs a
        (sum_i64_slice_exact vs (FitsFrom-of_mag (pos 0) (ints vs) (omega arith)))
        (sum_f64_slice_none f64_zero vs n)
        (IsI64-of_mag _ (omega (arith, mag-sum_from a.i (ints vs))))

  abbrev next : Option (List (Value h)) → Acc → Acc
  next o a = elim o [ none ↦ a | some vs ↦ sum_slice vs a ]

  abbrev with_rest : Option (List (Value h)) → List (Value h) → List (Value h)
  with_rest o rest = elim o [ none ↦ rest | some vs ↦ vs ++ rest ]

  chunk_step :
      (o : Option (List (Value h))) (rest : List (Value h)) (a : Acc)
      → NoFloats (with_rest o rest)
      → mag a.i + total_mag (ints (with_rest o rest)) < 2 ^ 63
      → NoFloats rest
        × (mag (next o a).i + total_mag (ints rest) < 2 ^ 63)
        × (after (ints (with_rest o rest)) a ≡ after (ints rest) (next o a))
  chunk_step none rest a n l = (n, l, refl)
  chunk_step (some vs) rest a n l =
      let (n1, n2) = NoFloats-split vs rest n in
      let split = ap total_mag (ints-append vs rest) ∙ total_mag-append (ints vs) (ints rest) in
      let e = sum_slice-after vs a n1 (omega (arith, split)) in
      let i = ap (λ z. mag z.i) e ∙ ap mag (after-i (ints vs) a) in
      (
        n2,
        omega (arith, split, i, mag-sum_from a.i (ints vs)),
        ap (λ xs. after xs a) (ints-append vs rest)
            ∙ after-append (ints vs) (ints rest) a
            ∙ ap (after (ints rest)) (sym e),
      )

  fold_chunks-after :
      (name : String) (cs : List (ColumnarChunk h)) (a : Acc)
      → NoFloats (chunk_values name cs)
      → mag a.i + total_mag (ints (chunk_values name cs)) < 2 ^ 63
      → fold_chunks sum_slice name cs a ≡ after (ints (chunk_values name cs)) a
  unfolding fold_chunks
  fold_chunks-after name [] a n l = refl
  fold_chunks-after name (c ∷ cs) a n l =
      let (n1, l1, e) = chunk_step (column c name) (chunk_values name cs) a n l in
      fold_chunks-after name cs (next (column c name) a) n1 l1 ∙ sym e

  pick_whole : (a : Acc) → a.has_f ≡ false → pick {h = h} a ≡ pick_sum a
  pick_whole a e = ground (arith, e)

  -- SUM of a column over chunks is its SUM over the rows, when the chunks hold the rows' values for
  -- the column, the schema has the column, no value is a float, and the magnitudes of the integers
  -- add up to less than 2 ^ 63.
  pub sum_paths :
      (schema : Schema) (name : String) (idx : ℕ) (rows : List (Row h))
      (chunks : List (ColumnarChunk h))
      → column_index schema name ≡ some idx
      → chunk_values name chunks ≡ map (value_in schema name) rows
      → NoFloats (chunk_values name chunks)
      → total_mag (ints (chunk_values name chunks)) < 2 ^ 63
      → aggregate_over_chunks chunks (AggExpr.sum name)
        ≡ aggregate_over_row_slice rows schema (AggExpr.sum name)
  unfolding aggregate_over_chunks aggregate_over_row_slice find_index
  sum_paths schema name idx rows chunks at same n l =
      let z : Acc = start (pos 0) f64_zero in
      let values = same ∙ row_values schema name idx rows at in
      let over_chunks = fold_chunks-after name chunks z n (omega arith) in
      let over_rows = fold_rows-after idx rows z (subst NoFloats values n) (
        subst (λ vs. FitsFrom (pos 0) (ints vs)) values
          (FitsFrom-of_mag (pos 0) (ints (chunk_values name chunks)) (omega arith))) in
      let equal : fold_chunks sum_slice name chunks z
          ≡ fold_rows saturating_add h.f64_add idx rows z =
        over_chunks ∙ ap (λ vs. after (ints vs) z) values ∙ sym over_rows in
      let whole : (fold_chunks sum_slice name chunks z).has_f ≡ false =
        ap (λ b. b.has_f) over_chunks ∙ after-has_f (ints (chunk_values name chunks)) z in
      ground (arith, at, pick_whole (fold_chunks sum_slice name chunks z) whole, equal)
