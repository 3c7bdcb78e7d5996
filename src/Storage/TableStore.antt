-- ===== src/Storage/TableStore.antt =====
-- crates/rustafari-storage/src/table_store.rs. The lock leaves no trace: every operation runs
-- whole. `RowStore` is the trait of storage/src/lib.rs that `TableStore` implements.
pub mod Rows
pub mod Tables
use rustafari_db.Common.{
  ℕ, ◌+◌, Bool, true, false, List, [], ◌∷◌, Option, none, some, map, Ordering, lt, eq, gt, next_u64,
  u64_mod, ◌==◌, ◌-◌, if◌then◌else◌, ◌≡◌, arith,
}
use Prim.Native.Nat.{compare}
use rustafari_db.Common.BTreeMap
use rustafari_db.Common.BTreeMap.{BTreeMap, Ord}
use rustafari_db.Core.Catalog.{TableId}
use rustafari_db.Core.Error.{Result, ok, panic, ◌>>=◌}
use rustafari_db.Core.Host.{Host}
use rustafari_db.Core.Row.{Row}

abbrev pub RowId : Type 0
RowId = ℕ

abbrev pub RowKey : Type 0
RowKey = TableId × RowId

-- The order of pairs.
abbrev pub cmp_key : RowKey → RowKey → Ordering
cmp_key a b = elim (compare a.0 b.0) [ lt ↦ lt | eq ↦ compare a.1 b.1 | gt ↦ gt ]

pub cmp_key_refl : (a : RowKey) → cmp_key a a ≡ eq
cmp_key_refl a = ground arith

pub eq_of_cmp_key : (a b : RowKey) → cmp_key a b ≡ eq → a ≡ b
eq_of_cmp_key a b = ground arith

pub lt_of_gt_key : (a b : RowKey) → cmp_key a b ≡ gt → cmp_key b a ≡ lt
lt_of_gt_key a b = ground arith

pub gt_of_lt_key : (a b : RowKey) → cmp_key a b ≡ lt → cmp_key b a ≡ gt
gt_of_lt_key a b = ground arith

pub lt_trans_key : (a b c : RowKey) → cmp_key a b ≡ lt → cmp_key b c ≡ lt → cmp_key a c ≡ lt
lt_trans_key a b c = ground arith

instance abbrev pub key_ord : Ord RowKey
key_ord = record {
  cmp = cmp_key;
  cmp_refl = cmp_key_refl;
  eq_of_cmp = eq_of_cmp_key;
  lt_of_gt = lt_of_gt_key;
  gt_of_lt = gt_of_lt_key;
  lt_trans = lt_trans_key;
}

pub record TableStore (h : Host) : Type 0 where
  pub next_row_id : ℕ
  pub rows : BTreeMap RowKey (Row h)

-- `Option::is_some`
abbrev pub is_some {ℓ} : {A : Type ℓ} → Option A → Bool
is_some none = false
is_some (some _) = true

module _ {h : Host} where
  abbrev pub new : TableStore h
  new = record { next_row_id = 0; rows = [] }

  unfoldable pub insert : TableStore h → TableId → Row h → TableStore h × RowId
  insert s table_id row = (
    record s {
      next_row_id = next_u64 s.next_row_id;
      rows = BTreeMap.insert (table_id, s.next_row_id) row s.rows;
    },
    s.next_row_id,
  )

  unfoldable pub get : TableStore h → TableId → RowId → Option (Row h)
  get s table_id row_id = BTreeMap.get (table_id, row_id) s.rows

  unfoldable pub delete : TableStore h → TableId → RowId → TableStore h × Bool
  unfolding get
  delete s table_id row_id = (
    record s { rows = BTreeMap.remove (table_id, row_id) s.rows },
    is_some (get s table_id row_id),
  )

  unfoldable pub update : TableStore h → TableId → RowId → Row h → TableStore h × Bool
  unfolding get
  update s table_id row_id row =
      if is_some (get s table_id row_id)
      then (record s { rows = BTreeMap.insert (table_id, row_id) row s.rows }, true)
      else (s, false)

  -- `range((t, 0)..(t + 1, 0))`: for the last `u64` the sum wraps, and a range whose start lies past
  -- its end panics.
  unfoldable pub table_range : TableStore h → TableId → Result (BTreeMap RowKey (Row h))
  table_range s t = if t == u64_mod - 1 then panic else ok (BTreeMap.range (t, 0) (t + 1, 0) s.rows)

  unfoldable pub scan : TableStore h → TableId → Result (List (RowId × Row h))
  unfolding table_range
  scan s table_id = do m ← table_range s table_id; ok (map (λ e. (e.0.1, e.1)) m)

  unfoldable pub remove_all : List RowKey → BTreeMap RowKey (Row h) → BTreeMap RowKey (Row h)
  remove_all [] m = m
  remove_all (k ∷ ks) m = remove_all ks (BTreeMap.remove k m)

  unfoldable pub drop_table : TableStore h → TableId → Result (TableStore h)
  unfolding table_range remove_all
  drop_table s table_id = do
    m ← table_range s table_id
    ok (record s { rows = remove_all (map (λ e. e.0) m) s.rows })
