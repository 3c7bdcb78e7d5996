-- ===== src/Storage/TableStore/Tables.antt =====
-- What each operation of the row store does to the rows of every table.
use rustafari_db.Common.{
  ◌-◌, ◌<◌, ◌≡◌, ◌≢◌, refl, ap, Bool, true, not, ◌&&◌, List, [], ◌∷◌, ◌++◌, map, none, some, arith,
  filter, any, All, u64_mod, ◌==◌, if◌then◌else◌, sym, Bool-cases, inl, inr,
}
use rustafari_db.Common.BTreeMap
use rustafari_db.Common.BTreeMap.{BTreeMap, is_eq, get-insert, get-remove}
use rustafari_db.Core.Catalog.{TableId}
use rustafari_db.Core.Error.{ok}
use rustafari_db.Core.Host.{Host}
use rustafari_db.Core.Row.{Row}
use rustafari_db.Storage.TableStore.{
  TableStore, RowId, RowKey, key_ord, cmp_key, insert, get, delete, update, scan, remove_all,
  drop_table, is_some,
}
use rustafari_db.Storage.TableStore.Rows.{
  entries, rows_of, scan-rows_of, range_entries, IsValid, entries-insert, entries-insert_ne,
}

abbrev has_key : RowKey → List RowKey → Bool
has_key k = any (λ j. is_eq (cmp_key j k))

module _ {h : Host} where
  abbrev row : RowKey × Row h → RowId × Row h
  row e = (e.0.1, e.1)

  map-append_one :
      (xs : List (RowKey × Row h)) (x : RowKey × Row h)
      → map row (xs ++ x ∷ []) ≡ map row xs ++ row x ∷ []
  map-append_one [] x = refl
  map-append_one (y ∷ xs) x = ap (◌∷◌ (row y)) (map-append_one xs x)

  pub rows_of-insert :
      (s : TableStore h) (t : TableId) (r : Row h)
      → IsValid s
      → rows_of (insert s t r).0 t ≡ rows_of s t ++ (s.next_row_id, r) ∷ []
  unfolding insert
  rows_of-insert s t r v =
      rw (entries-insert t s.next_row_id r s.rows v.sorted v.below)
        (map-append_one (entries t s.rows) ((t, s.next_row_id), r))

  pub rows_of-insert_ne :
      (s : TableStore h) (t u : TableId) (r : Row h)
      → t ≢ u
      → rows_of (insert s t r).0 u ≡ rows_of s u
  unfolding insert
  rows_of-insert_ne s t u r ne = ap (map row) (entries-insert_ne t u s.next_row_id r s.rows ne)

  -- An inserted row comes last in the next scan of its table, under the identifier that `insert`
  -- returned, and the scan of every other table is what it was. The store is valid, and the table is
  -- not the last `u64`.
  pub scan-insert :
      (s : TableStore h) (t u : TableId) (r : Row h) (rows : List (RowId × Row h))
      → IsValid s
      → t < u64_mod - 1
      → u < u64_mod - 1
      → scan s u ≡ ok rows
      → scan (insert s t r).0 u ≡ ok (if t == u then rows ++ ((insert s t r).1, r) ∷ [] else rows)
  unfolding insert
  scan-insert s t u r rows v bt bu sc = ground (
    arith,
    scan-rows_of s u,
    scan-rows_of (insert s t r).0 u,
    rows_of-insert s t r v,
    rows_of-insert_ne s t u r,
  )

  -- A lookup sees an insertion, an update of a row that is there, and a deletion at the key that
  -- they name, and nothing of them at any other key; `update` and `delete` report whether the row
  -- was there.
  pub row_after :
      (s : TableStore h) (t u : TableId) (i j : RowId) (r : Row h)
      → (get (insert s t r).0 u j
          ≡ (if is_eq (cmp_key (u, j) (t, s.next_row_id)) then some r else get s u j))
        × (get (delete s t i).0 u j ≡ (if is_eq (cmp_key (u, j) (t, i)) then none else get s u j))
        × ((delete s t i).1 ≡ is_some (get s t i))
        × (get (update s t i r).0 u j
            ≡ (if is_eq (cmp_key (u, j) (t, i)) && is_some (get s t i) then some r else get s u j))
        × ((update s t i r).1 ≡ is_some (get s t i))
  unfolding get insert delete update
  row_after s t u i j r = (
    get-insert (u, j) (t, s.next_row_id) r s.rows,
    get-remove (u, j) (t, i) s.rows,
    refl,
    ground (arith, get-insert (u, j) (t, i) r s.rows),
    ground arith,
  )

  entries-remove :
      (t u : TableId) (i : RowId) (m : BTreeMap RowKey (Row h))
      → map row (entries u (BTreeMap.remove (t, i) m)) ≡ (
          if t == u
          then filter (λ e. not (e.0 == i)) (map row (entries u m))
          else map row (entries u m))
  unfolding BTreeMap.remove
  entries-remove t u i [] = ground arith
  entries-remove t u i (e ∷ m) = ground (arith, entries-remove t u i m)

  -- A deletion takes the row out of its table's rows and leaves all others, in order.
  pub rows_of-delete :
      (s : TableStore h) (t u : TableId) (i : RowId)
      → rows_of (delete s t i).0 u
        ≡ (if t == u then filter (λ e. not (e.0 == i)) (rows_of s u) else rows_of s u)
  unfolding delete
  rows_of-delete s t u i = entries-remove t u i s.rows

  abbrev Covered : TableId → List RowKey → BTreeMap RowKey (Row h) → Type 0
  Covered t ks m = All (λ e. has_key e.0 ks ≡ true) (entries t m)

  Covered-remove :
      (t : TableId) (k : RowKey) (ks : List RowKey) (m : BTreeMap RowKey (Row h))
      → Covered t (k ∷ ks) m
      → Covered t ks (BTreeMap.remove k m)
  unfolding BTreeMap.remove
  Covered-remove t k ks [] c = tt
  Covered-remove t k ks (e ∷ m) c = ground (arith, Covered-remove t k ks m)

  Covered-nil : (xs : List (RowKey × Row h)) → All (λ e. has_key e.0 [] ≡ true) xs → xs ≡ []
  Covered-nil [] c = refl
  Covered-nil (x ∷ xs) c = cc

  entries-remove_all :
      (t : TableId) (ks : List RowKey) (m : BTreeMap RowKey (Row h))
      → Covered t ks m
      → entries t (remove_all ks m) ≡ []
  unfolding remove_all
  entries-remove_all t [] m c = Covered-nil (entries t m) c
  entries-remove_all t (k ∷ ks) m c =
      entries-remove_all t ks (BTreeMap.remove k m) (Covered-remove t k ks m c)

  has_key_more :
      (k : RowKey) (ks : List RowKey) (xs : List (RowKey × Row h))
      → All (λ e. has_key e.0 ks ≡ true) xs
      → All (λ e. has_key e.0 (k ∷ ks) ≡ true) xs
  has_key_more k ks [] c = tt
  has_key_more k ks (x ∷ xs) c = (ground (arith, c.0), has_key_more k ks xs c.1)

  has_key_self : (xs : List (RowKey × Row h)) → All (λ e. has_key e.0 (map (λ x. x.0) xs) ≡ true) xs
  has_key_self [] = tt
  has_key_self (x ∷ xs) = (ground arith, has_key_more x.0 (map (λ y. y.0) xs) xs (has_key_self xs))

  entries-remove_all_ne :
      (u : TableId) (ks : List RowKey) (m : BTreeMap RowKey (Row h))
      → All (λ k. k.0 ≢ u) ks
      → map row (entries u (remove_all ks m)) ≡ map row (entries u m)
  unfolding remove_all
  entries-remove_all_ne u [] m a = refl
  entries-remove_all_ne u (k ∷ ks) m a =
      ground
        (arith, entries-remove_all_ne u ks (BTreeMap.remove k m) a.1, entries-remove k.0 u k.1 m)

  keys_of_table :
      (t u : TableId) (m : BTreeMap RowKey (Row h))
      → t ≢ u
      → All (λ k. k.0 ≢ u) (map (λ e. e.0) (entries t m))
  keys_of_table t u [] ne = tt
  keys_of_table t u (e ∷ m) ne = ground (arith, keys_of_table t u m ne)

  rows_of-remove_all :
      (t u : TableId) (m : BTreeMap RowKey (Row h))
      → map row (entries u (remove_all (map (λ e. e.0) (entries t m)) m))
        ≡ (if t == u then [] else map row (entries u m))
  rows_of-remove_all t u m = elim (Bool-cases (t == u)) [
    | inl same ↦
        let e : t ≡ u = ground (arith, same) in
        rw (same, sym e) (ap (map row) (entries-remove_all t _ m (has_key_self (entries t m))))
    | inr other ↦
        let ne : t ≢ u = ground (arith, other) in
        rw other (entries-remove_all_ne u _ m (keys_of_table t u m ne))
  ]

  -- `drop_table` succeeds for every identifier but the last `u64`; then its table has no rows, and
  -- every other table has the rows that it had.
  pub drop_table-rows_of :
      (s : TableStore h) (t : TableId)
      → t < u64_mod - 1
      → (s' : TableStore h) × (drop_table s t ≡ ok s')
        × ((u : TableId) → rows_of s' u ≡ (if t == u then [] else rows_of s u))
  unfolding drop_table
  drop_table-rows_of s t below = (
    record s { rows = remove_all (map (λ e. e.0) (entries t s.rows)) s.rows },
    ground (arith, range_entries t s.rows),
    λ u. rows_of-remove_all t u s.rows,
  )
