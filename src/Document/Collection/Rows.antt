-- ===== src/Document/Collection/Rows.antt =====
-- What `find` and `delete_many` do to the rows of a collection.
use rustafari_db.Common.{
  ℕ, ◌-◌, ◌<◌, ◌≡◌, refl, ◌∙◌, sym, ap, Bool, false, not, List, [], ◌∷◌, map, Option, arith, filter,
  any, All, u64_mod, next_u64, ◌==◌, if◌then◌else◌, Bool-cases, inl, inr, filter_cong,
}
use rustafari_db.Common.BTreeMap
use rustafari_db.Common.BTreeMap.{IsSorted, Above}
use rustafari_db.Core.Catalog.{TableId}
use rustafari_db.Core.Error.{ok}
use rustafari_db.Core.Host.{Host}
use rustafari_db.Core.Row.{Row}
use rustafari_db.Core.Schema.{Schema}
use rustafari_db.Storage.TableStore
use rustafari_db.Storage.TableStore.{TableStore, RowId, RowKey, key_ord, cmp_key, is_some}
use rustafari_db.Storage.TableStore.Rows.{IsValid, entries, rows_of, scan-rows_of}
use rustafari_db.Storage.TableStore.Tables.{rows_of-delete}
use rustafari_db.Document.Filter.{DocFilter}
use rustafari_db.Document.Collection.{
  DocumentCollection, accepts, find_loop, find, delete_loop, delete_many,
}

module _ {h : Host} where
  abbrev matching : Schema → Option (DocFilter h) → List (RowId × Row h) → List (RowId × Row h)
  matching schema f = filter (λ r. accepts schema f r.1)

  find_loop-matching :
      (schema : Schema) (f : Option (DocFilter h)) (rs : List (RowId × Row h))
      → find_loop schema f rs ≡ matching schema f rs
  unfolding find_loop
  find_loop-matching schema f [] = refl
  find_loop-matching schema f (r ∷ rs) = ground (arith, find_loop-matching schema f rs)

  pub find-matching :
      (c : DocumentCollection) (f : Option (DocFilter h)) (s : TableStore h)
      → c.table_id < u64_mod - 1
      → find c f s ≡ ok (matching c.schema f (rows_of s c.table_id))
  unfolding find
  find-matching c f s below =
      ground (
        arith,
        scan-rows_of s c.table_id below,
        find_loop-matching c.schema f (rows_of s c.table_id),
      )

  -- The identifiers of the rows.
  abbrev has_row : RowId → List (RowId × Row h) → Bool
  has_row i = any (λ r. r.0 == i)

  -- No two rows have one identifier.
  abbrev Distinct : List (RowId × Row h) → Type 0
  Distinct [] = Unit
  Distinct (r ∷ rs) = (has_row r.0 rs ≡ false) × Distinct rs

  entries_past :
      (t : TableId) (k : RowKey) (m : BTreeMap.BTreeMap RowKey (Row h))
      → k.0 ≡ t
      → Above k m
      → has_row k.1 (map (λ e. (e.0.1, e.1)) (entries t m)) ≡ false
  entries_past t k [] e a = refl
  entries_past t k (x ∷ m) e a = ground (arith, entries_past t k m)

  Distinct-entries :
      (t : TableId) (m : BTreeMap.BTreeMap RowKey (Row h))
      → IsSorted m
      → Distinct (map (λ e. (e.0.1, e.1)) (entries t m))
  Distinct-entries t [] s = tt
  Distinct-entries t (e ∷ m) s = ground (arith, Distinct-entries t m, entries_past t e.0 m)

  has_row_of_filter :
      (p : RowId × Row h → Bool) (i : RowId) (rs : List (RowId × Row h))
      → has_row i rs ≡ false
      → has_row i (filter p rs) ≡ false
  has_row_of_filter p i [] e = refl
  has_row_of_filter p i (r ∷ rs) e = ground (arith, has_row_of_filter p i rs)

  under_cons :
      (p : RowId × Row h → Bool) (d : RowId × Row h) (ds rs : List (RowId × Row h))
      → has_row d.0 rs ≡ false
      → All (λ x. has_row x.0 ds ≡ p x) rs
      → All (λ x. has_row x.0 (d ∷ ds) ≡ p x) rs
  under_cons p d ds [] e a = tt
  under_cons p d ds (r ∷ rs) e a = ground (arith, a.0, under_cons p d ds rs)

  abbrev Tells : (RowId × Row h → Bool) → List (RowId × Row h) → List (RowId × Row h) → Type 0
  Tells p ds rs = All (λ x. has_row x.0 ds ≡ p x) rs

  Tells-of_eq :
      (p : RowId × Row h → Bool) (ds es rs : List (RowId × Row h))
      → ds ≡ es
      → Tells p es rs
      → Tells p ds rs
  Tells-of_eq p ds es rs e a = rw e a

  -- Among distinct rows the filter's identifiers tell what the filter accepts.
  filter-Tells :
      (p : RowId × Row h → Bool) (rs : List (RowId × Row h))
      → Distinct rs
      → Tells p (filter p rs) rs
  filter-Tells p [] d = tt
  filter-Tells p (r ∷ rs) d = elim (Bool-cases (p r)) [
    | inl takes ↦
        Tells-of_eq p (filter p (r ∷ rs)) (r ∷ filter p rs) (r ∷ rs) (rw takes)
          (ground (arith, takes), under_cons p r (filter p rs) rs d.0 (filter-Tells p rs d.1))
    | inr leaves ↦
        Tells-of_eq p (filter p (r ∷ rs)) (filter p rs) (r ∷ rs) (rw leaves)
          (has_row_of_filter p r.0 rs d.0 ∙ sym leaves, filter-Tells p rs d.1)
  ]

  not_cong :
      (p q : RowId × Row h → Bool) (rs : List (RowId × Row h))
      → All (λ x. p x ≡ q x) rs
      → All (λ x. not (p x) ≡ not (q x)) rs
  not_cong p q [] e = tt
  not_cong p q (r ∷ rs) e = (ap not e.0, not_cong p q rs e.1)

  filter_all : (rs : List (RowId × Row h)) → filter (λ r. not (has_row r.0 [])) rs ≡ rs
  filter_all [] = refl
  filter_all (r ∷ rs) = ap (◌∷◌ r) (filter_all rs)

  -- Two deletions in a row.
  filter_under_cons :
      (d : RowId × Row h) (ds rs : List (RowId × Row h))
      → filter (λ r. not (has_row r.0 ds)) (filter (λ r. not (r.0 == d.0)) rs)
        ≡ filter (λ r. not (has_row r.0 (d ∷ ds))) rs
  filter_under_cons d ds [] = refl
  filter_under_cons d ds (r ∷ rs) = ground (arith, filter_under_cons d ds rs)

  rows_of-delete_loop :
      (t u : TableId) (ds : List (RowId × Row h)) (s : TableStore h) (n : ℕ)
      → rows_of (delete_loop t ds s n).0 u
        ≡ (if t == u then filter (λ r. not (has_row r.0 ds)) (rows_of s u) else rows_of s u)
  unfolding delete_loop
  rows_of-delete_loop t u [] s n = ground (arith, filter_all (rows_of s u))
  rows_of-delete_loop t u (d ∷ ds) s n =
      let (s', gone) = TableStore.delete s t d.0 in
      ground (
        arith,
        rows_of-delete_loop t u ds s' (if gone then next_u64 n else n),
        rows_of-delete s t u d.0,
        filter_under_cons d ds (rows_of s u),
      )

  pub Distinct-rows_of : (s : TableStore h) (t : TableId) → IsValid s → Distinct (rows_of s t)
  Distinct-rows_of s t v = Distinct-entries t s.rows v.sorted

  none_matching :
      (p : RowId × Row h → Bool) (rs : List (RowId × Row h))
      → filter p (filter (λ r. not (p r)) rs) ≡ []
  none_matching p [] = refl
  none_matching p (r ∷ rs) = ground (arith, none_matching p rs)

  -- `delete_many` succeeds on every valid store and every table but the last `u64`: it takes out of
  -- the collection exactly the rows that its filter accepts, keeps the others in their order, and
  -- leaves the rows of every other table alone; a `find` with the same filter then finds nothing.
  pub delete_many-rows_of :
      (c : DocumentCollection) (f : Option (DocFilter h)) (s : TableStore h)
      → IsValid s
      → c.table_id < u64_mod - 1
      → (s' : TableStore h) × (n : ℕ) × (delete_many c f s ≡ ok (s', n))
        × ((u : TableId)
            → rows_of s' u ≡ (
                if c.table_id == u
                then filter (λ r. not (accepts c.schema f r.1)) (rows_of s u)
                else rows_of s u))
        × (find c f s' ≡ ok [])
  unfolding delete_many
  delete_many-rows_of c f s v below =
      let t = c.table_id in
      let ds = matching c.schema f (rows_of s t) in
      let s' = (delete_loop t ds s 0).0 in
      let kept : rows_of s' t ≡ filter (λ r. not (accepts c.schema f r.1)) (rows_of s t) = ground (
        arith,
        rows_of-delete_loop t t ds s 0,
        filter_cong _ _ (rows_of s t) (
            not_cong _ _ (rows_of s t)
              (filter-Tells (λ r. accepts c.schema f r.1) (rows_of s t) (Distinct-rows_of s t v))),
      ) in
      (
        s',
        (delete_loop t ds s 0).1,
        rw (find-matching c f s below) refl,
        λ u. elim (Bool-cases (t == u)) [
          | inl same ↦ let e : t ≡ u = ground (arith, same) in rw (same, sym e) kept
          | inr other ↦ rw other (rows_of-delete_loop t u ds s 0 ∙ rw other refl)
        ],
        find-matching c f s' below
            ∙ rw kept (ap ok (none_matching (λ r. accepts c.schema f r.1) (rows_of s t))),
      )
