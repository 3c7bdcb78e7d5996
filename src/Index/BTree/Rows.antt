-- ===== src/Index/BTree/Rows.antt =====
-- Point lookups and range scans of a B-tree index after insertions and deletions.
use rustafari_db.Common.{
  ◌≡◌, ◌≢◌, ◌↔◌, refl, Bool, true, false, ◌||◌, List, [], ◌∷◌, ◌++◌, Option, none, some, arith, any,
  lt, gt, ◌==◌, if◌then◌else◌, Option-cases, Bool-cases, inl, inr,
}
use rustafari_db.Common.BTreeMap
use rustafari_db.Common.BTreeMap.{
  BTreeMap, IsSorted, Above, is_eq, get-insert, get-remove, insert-IsSorted, remove-IsSorted,
  in_range_inclusive, get-filter, filter-IsSorted,
}
use rustafari_db.Core.Error.{ok}
use rustafari_db.Storage.TableStore.{RowId}
use rustafari_db.Index.BTree.{
  BTreeIndex, IndexKey, bytes_ord, cmp_bytes, cmp_bytes_refl, eq_of_cmp_bytes, get, insert,
  remove_first, delete, store_ids, or_default, concat_ids, range, end_or_last,
}

-- The identifiers without the first occurrence of one.
abbrev pub without : RowId → List RowId → List RowId
without r [] = []
without r (x ∷ xs) = let rest = without r xs in if x == r then xs else x ∷ rest

abbrev pub has_id : RowId → List RowId → Bool
has_id r = any (λ x. x == r)

remove_first-without :
    (r : RowId) (xs : List RowId)
    → remove_first r xs ≡ (if has_id r xs then some (without r xs) else none)
unfolding remove_first
remove_first-without r [] = refl
remove_first-without r (x ∷ xs) = ground (arith, remove_first-without r xs)

without_absent : (r : RowId) (xs : List RowId) → has_id r xs ≡ false → without r xs ≡ xs
without_absent r [] h = refl
without_absent r (x ∷ xs) h = ground (arith, without_absent r xs)

get-store_ids :
    (j key : IndexKey) (ids : List RowId) (m : BTreeMap IndexKey (List RowId))
    → or_default (BTreeMap.get j (store_ids key ids m))
      ≡ (if is_eq (cmp_bytes j key) then ids else or_default (BTreeMap.get j m))
get-store_ids j key [] m = ground (arith, get-remove j key m)
get-store_ids j key (r ∷ rs) m = ground (arith, get-insert j key (r ∷ rs) m)

-- A point lookup finds an inserted identifier last at its key; a deletion takes its first
-- occurrence at its key out and reports whether there was one; no other key is changed.
pub ids_after :
    (ix : BTreeIndex) (key j : IndexKey) (r : RowId)
    → (get (insert ix key r) j ≡ (if is_eq (cmp_bytes j key) then get ix j ++ r ∷ [] else get ix j))
      × (get (delete ix key r).0 j
          ≡ (if is_eq (cmp_bytes j key) then without r (get ix j) else get ix j))
      × ((delete ix key r).1 ≡ has_id r (get ix key))
unfolding get insert delete
ids_after ix key j r = elim (Option-cases (BTreeMap.get key ix.keys)) [
  | inl missing ↦ (
    ground (arith, get-insert j key (get ix key ++ r ∷ []) ix.keys, eq_of_cmp_bytes j key),
    ground (arith, eq_of_cmp_bytes j key),
    ground arith,
  )
  | inr (ids, there) ↦ (
    ground (arith, get-insert j key (get ix key ++ r ∷ []) ix.keys, eq_of_cmp_bytes j key),
    ground (
      arith,
      remove_first-without r ids,
      get-store_ids j key (without r ids) ix.keys,
      eq_of_cmp_bytes j key,
      without_absent r ids,
    ),
    ground (arith, remove_first-without r ids),
  )
]

-- The keys ascend.
abbrev pub IsValid : BTreeIndex → Type 0
IsValid ix = IsSorted ix.keys

-- Insertions and deletions keep the keys in order.
pub insert-IsValid :
    (ix : BTreeIndex) (key : IndexKey) (r : RowId) → IsValid ix → IsValid (insert ix key r)
unfolding insert
insert-IsValid ix key r v = insert-IsSorted key _ ix.keys v

store_ids-IsSorted :
    (key : IndexKey) (ids : List RowId) (m : BTreeMap IndexKey (List RowId))
    → IsSorted m
    → IsSorted (store_ids key ids m)
store_ids-IsSorted key [] m v = remove-IsSorted key m v
store_ids-IsSorted key (r ∷ rs) m v = insert-IsSorted key (r ∷ rs) m v

pub delete-IsValid :
    (ix : BTreeIndex) (key : IndexKey) (r : RowId) → IsValid ix → IsValid (delete ix key r).0
unfolding delete
delete-IsValid ix key r v = elim (Option-cases (BTreeMap.get key ix.keys)) [
  | inl missing ↦ rw (missing, delete) v
  | inr (ids, there) ↦
      rw (there, delete)
        (elim (Option-cases (remove_first r ids)) [
          | inl absent ↦ rw (absent, delete) v
          | inr (rest, found) ↦ rw (found, delete) (store_ids-IsSorted key rest ix.keys v)
        ])
]

has_id-append :
    (r : RowId) (xs ys : List RowId) → has_id r (xs ++ ys) ≡ (has_id r xs || has_id r ys)
has_id-append r [] ys = refl
has_id-append r (x ∷ xs) ys = ground (arith, has_id-append r xs ys)

ids_below :
    (k : IndexKey) (m : BTreeMap IndexKey (List RowId)) → Above k m → BTreeMap.get k m ≡ none
unfolding BTreeMap.get
ids_below k [] a = refl
ids_below k (e ∷ m) a = ground (arith, ids_below k m)

concat_of_get :
    (r : RowId) (k : IndexKey) (m : BTreeMap IndexKey (List RowId))
    → has_id r (or_default (BTreeMap.get k m)) ≡ true
    → has_id r (concat_ids m) ≡ true
unfolding BTreeMap.get
concat_of_get r k [] h = h
concat_of_get r k (e ∷ m) h =
    ground (arith, concat_of_get r k m, has_id-append r e.1 (concat_ids m))

get_of_concat :
    (r : RowId) (m : BTreeMap IndexKey (List RowId))
    → IsSorted m
    → has_id r (concat_ids m) ≡ true
    → (k : IndexKey) × (has_id r (or_default (BTreeMap.get k m)) ≡ true)
unfolding BTreeMap.get
get_of_concat r [] s h = absurd (ground arith)
get_of_concat r (e ∷ m) s h = elim (Bool-cases (has_id r e.1)) [
  | inl here ↦ (e.0, ground (arith, cmp_bytes_refl e.0))
  | inr other ↦
      let (k, found) = get_of_concat r m s.1 (ground (arith, has_id-append r e.1 (concat_ids m))) in
      (k, ground (arith, eq_of_cmp_bytes k e.0, ids_below e.0 m s.0))
]

-- A key lies between the two ends of a scan, both included.
abbrev pub between : IndexKey → IndexKey → IndexKey → Bool
between start end k = elim (cmp_bytes k start) [
  | lt ↦ false
  | _ ↦ elim (cmp_bytes k end) [ gt ↦ false | _ ↦ true ]
]

get-range :
    (start end k : IndexKey) (m : BTreeMap IndexKey (List RowId))
    → IsSorted m
    → or_default (BTreeMap.get k (BTreeMap.range_inclusive start end m))
      ≡ (if between start end k then or_default (BTreeMap.get k m) else [])
get-range start end k m s = ground (arith, get-filter (in_range_inclusive start end) k m s)

-- A scan whose start does not come after its end succeeds, and holds an identifier exactly when
-- some key from the start to the end, both included, holds it. The keys of the index ascend; a scan
-- with no end ends at 256 bytes 0xff.
pub range_hits :
    (ix : BTreeIndex) (start : IndexKey) (end : Option IndexKey)
    → IsValid ix
    → cmp_bytes start (end_or_last end) ≢ gt
    → (ids : List RowId) × (range ix start end ≡ ok ids)
      × ((r : RowId)
          → (has_id r ids ≡ true) ↔ (
              (k : IndexKey) × (between start (end_or_last end) k ≡ true)
              × (has_id r (get ix k) ≡ true)))
unfolding range get
range_hits ix start end v fits =
    let last = end_or_last end in
    let found = BTreeMap.range_inclusive start last ix.keys in
    (
      concat_ids found,
      ground arith,
      λ r. (
        λ hit.
            let (k, there) = get_of_concat r found (filter-IsSorted _ ix.keys v) hit in
            (
              k,
              ground (arith, get-range start last k ix.keys v),
              ground (arith, get-range start last k ix.keys v),
            ),
        λ (k, inside, there).
            concat_of_get r k found (ground (arith, get-range start last k ix.keys v)),
      ),
    )
