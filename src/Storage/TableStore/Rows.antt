-- ===== src/Storage/TableStore/Rows.antt =====
-- The rows of one table: `range` over the keys of a table is a filter by the table's identifier.
use native.Mathlib.Decide.{ℕ_discrete}
use rustafari_db.Common.{
  ℕ, ◌+◌, ◌-◌, ◌<◌, ◌≤◌, ◌≡◌, ◌≢◌, refl, List, [], ◌∷◌, ◌++◌, map, arith, filter, All, u64_mod,
  next_u64, ◌==◌,
}
use rustafari_db.Common.BTreeMap
use rustafari_db.Common.BTreeMap.{
  BTreeMap, IsSorted, Above, is_eq, insert-IsSorted, remove-IsSorted,
}
use rustafari_db.Core.Catalog.{TableId}
use rustafari_db.Core.Error.{ok}
use rustafari_db.Core.Host.{Host}
use rustafari_db.Core.Row.{Row}
use rustafari_db.Storage.TableStore.{
  TableStore, RowId, RowKey, key_ord, new, insert, delete, scan, remove_all, drop_table,
}

module _ {h : Host} where
  -- The entries of one table, in row order.
  abbrev pub entries : TableId → BTreeMap RowKey (Row h) → BTreeMap RowKey (Row h)
  entries t = filter (λ e. e.0.0 == t)

  -- The rows of one table, in row order.
  abbrev pub rows_of : TableStore h → TableId → List (RowId × Row h)
  rows_of s t = map (λ e. (e.0.1, e.1)) (entries t s.rows)

  pub range_entries :
      (t : TableId) (m : BTreeMap RowKey (Row h)) → BTreeMap.range (t, 0) (t + 1, 0) m ≡ entries t m
  range_entries t [] = refl
  range_entries t (e ∷ m) = ground (arith, range_entries t m)

  -- `scan` returns the rows of the table for every identifier but the last `u64`.
  pub scan-rows_of :
      (s : TableStore h) (t : TableId) → t < u64_mod - 1 → scan s t ≡ ok (rows_of s t)
  unfolding scan
  scan-rows_of s t below = ground (arith, range_entries t s.rows)

  -- The keys ascend, and every row identifier is below the next one.
  pub record IsValid (s : TableStore h) : Type 0 where
    pub sorted : IsSorted s.rows
    pub below : All (λ e. e.0.1 < s.next_row_id) s.rows

  pub new-IsValid : IsValid new
  new-IsValid = record { sorted = tt; below = tt }

  All-insert :
      (n : ℕ) (k : RowKey) (r : Row h) (m : BTreeMap RowKey (Row h))
      → k.1 < n
      → All (λ e. e.0.1 < n) m
      → All (λ e. e.0.1 < n) (BTreeMap.insert k r m)
  unfolding BTreeMap.insert
  All-insert n k r [] l a = (l, tt)
  All-insert n k r (e ∷ m) l a = ground (arith, All-insert n k r m)

  All-remove :
      (n : ℕ) (k : RowKey) (m : BTreeMap RowKey (Row h))
      → All (λ e. e.0.1 < n) m
      → All (λ e. e.0.1 < n) (BTreeMap.remove k m)
  unfolding BTreeMap.remove
  All-remove n k [] a = tt
  All-remove n k (e ∷ m) a = ground (arith, All-remove n k m)

  All-later :
      (n k : ℕ) (m : BTreeMap RowKey (Row h))
      → n ≤ k
      → All (λ e. e.0.1 < n) m
      → All (λ e. e.0.1 < k) m
  All-later n k [] le a = tt
  All-later n k (e ∷ m) le a = (omega (arith, a.0), All-later n k m le a.1)

  -- `insert` keeps the keys sorted and the identifiers below the counter, which does not wrap.
  pub insert-IsValid :
      (s : TableStore h) (t : TableId) (r : Row h)
      → s.next_row_id + 1 < u64_mod
      → IsValid s
      → IsValid (insert s t r).0
  unfolding insert
  insert-IsValid s t r room v =
      let e : next_u64 s.next_row_id ≡ s.next_row_id + 1 = omega arith in
      record {
        sorted = insert-IsSorted (t, s.next_row_id) r s.rows v.sorted;
        below = rw e (
            All-insert (s.next_row_id + 1) (t, s.next_row_id) r s.rows (omega arith)
              (All-later s.next_row_id (s.next_row_id + 1) s.rows (omega arith) v.below));
      }

  pub delete-IsValid :
      (s : TableStore h) (t : TableId) (i : RowId) → IsValid s → IsValid (delete s t i).0
  unfolding delete
  delete-IsValid s t i v = record {
    sorted = remove-IsSorted (t, i) s.rows v.sorted;
    below = All-remove s.next_row_id (t, i) s.rows v.below;
  }

  pub remove_all-IsValid :
      (n : ℕ) (ks : List RowKey) (m : BTreeMap RowKey (Row h))
      → IsValid (record { next_row_id = n; rows = m })
      → IsValid (record { next_row_id = n; rows = remove_all ks m })
  unfolding remove_all
  remove_all-IsValid n [] m v = v
  remove_all-IsValid n (k ∷ ks) m v =
      remove_all-IsValid n ks (BTreeMap.remove k m)
        (record { sorted = remove-IsSorted k m v.sorted; below = All-remove n k m v.below })

  -- `drop_table` keeps the row store valid.
  pub drop_table-IsValid :
      (s s' : TableStore h) (t : TableId) → drop_table s t ≡ ok s' → IsValid s → IsValid s'
  unfolding drop_table
  drop_table-IsValid s s' t e v =
      let kept = remove_all-IsValid s.next_row_id (map (λ x. x.0) (entries t s.rows)) s.rows v in
      elim (ℕ_discrete t (u64_mod - 1)) [
        | yes last ↦ absurd (ground (arith, e, last))
        | no ne ↦ ground (arith, e, range_entries t s.rows, kept)
      ]

  -- Nothing of table `t` stands above a key of a later table.
  entries_Above :
      (t : TableId) (k : RowKey) (m : BTreeMap RowKey (Row h))
      → t < k.0
      → Above k m
      → entries t m ≡ []
  entries_Above t k [] l a = refl
  entries_Above t k (e ∷ m) l a = ground (arith, entries_Above t k m)

  pub entries-insert :
      (t : TableId) (n : RowId) (r : Row h) (m : BTreeMap RowKey (Row h))
      → IsSorted m
      → All (λ e. e.0.1 < n) m
      → entries t (BTreeMap.insert (t, n) r m) ≡ entries t m ++ ((t, n), r) ∷ []
  unfolding BTreeMap.insert
  entries-insert t n r [] s a = ground arith
  entries-insert t n r (e ∷ m) s a = ground (arith, entries-insert t n r m, entries_Above t e.0 m)

  pub entries-insert_ne :
      (t u : TableId) (n : RowId) (r : Row h) (m : BTreeMap RowKey (Row h))
      → t ≢ u
      → entries u (BTreeMap.insert (t, n) r m) ≡ entries u m
  unfolding BTreeMap.insert
  entries-insert_ne t u n r [] ne = ground arith
  entries-insert_ne t u n r (e ∷ m) ne = ground (arith, entries-insert_ne t u n r m)
