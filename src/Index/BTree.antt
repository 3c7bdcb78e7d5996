-- ===== src/Index/BTree.antt =====
-- crates/rustafari-index/src/btree.rs. The lock is never poisoned, so its error does not occur.
pub mod Key
pub mod Rows
use Prim.Native.Nat.{compare}
use Prim.Native.Char.{code}
use rustafari_db.Common.{
  ℕ, zero, suc, ◌+◌, ◌/◌, ◌%◌, ◌*◌, ◌-◌, ◌^◌, ◌≡◌, ◌≢◌, refl, ap, String, Bool, true, false, List,
  [], ◌∷◌, ◌++◌, Option, none, some, arith, Ordering, lt, eq, gt, replicate, ltb, ◌==◌,
  if◌then◌else◌,
}
use rustafari_db.Common.Int.{ℤ, bits_i64}
use rustafari_db.Common.BTreeMap
use rustafari_db.Common.BTreeMap.{BTreeMap, Ord}
use rustafari_db.Core.Catalog.{TableId}
use rustafari_db.Core.Error.{Result, ok, err, panic, index}
use rustafari_db.Core.Host.{Host}
use rustafari_db.Core.Value.{
  Value, null, bool, int64, float64, string, bytes, timestamp, date, document, array, vector,
}
use rustafari_db.Storage.TableStore.{RowId}

-- The bytes of an encoded column value.
abbrev pub IndexKey : Type 0
IndexKey = List ℕ

-- The derived order: bytes, lexicographically.
abbrev pub cmp_bytes : IndexKey → IndexKey → Ordering
cmp_bytes [] [] = eq
cmp_bytes [] (_ ∷ _) = lt
cmp_bytes (_ ∷ _) [] = gt
cmp_bytes (a ∷ xs) (b ∷ ys) =
    let rest = cmp_bytes xs ys in elim (compare a b) [ lt ↦ lt | eq ↦ rest | gt ↦ gt ]

pub cmp_bytes_refl : (a : IndexKey) → cmp_bytes a a ≡ eq
cmp_bytes_refl [] = refl
cmp_bytes_refl (a ∷ xs) = ground (arith, cmp_bytes_refl xs)

pub eq_of_cmp_bytes : (a b : IndexKey) → cmp_bytes a b ≡ eq → a ≡ b
eq_of_cmp_bytes [] [] h = refl
eq_of_cmp_bytes [] (_ ∷ _) h = cc
eq_of_cmp_bytes (_ ∷ _) [] h = cc
eq_of_cmp_bytes (a ∷ xs) (b ∷ ys) h = ground (arith, eq_of_cmp_bytes xs ys)

pub lt_of_gt_bytes : (a b : IndexKey) → cmp_bytes a b ≡ gt → cmp_bytes b a ≡ lt
lt_of_gt_bytes [] [] h = cc
lt_of_gt_bytes [] (_ ∷ _) h = cc
lt_of_gt_bytes (_ ∷ _) [] h = refl
lt_of_gt_bytes (a ∷ xs) (b ∷ ys) h = ground (arith, lt_of_gt_bytes xs ys)

pub gt_of_lt_bytes : (a b : IndexKey) → cmp_bytes a b ≡ lt → cmp_bytes b a ≡ gt
gt_of_lt_bytes [] [] h = cc
gt_of_lt_bytes [] (_ ∷ _) h = refl
gt_of_lt_bytes (_ ∷ _) [] h = cc
gt_of_lt_bytes (a ∷ xs) (b ∷ ys) h = ground (arith, gt_of_lt_bytes xs ys)

pub lt_trans_bytes :
    (a b c : IndexKey) → cmp_bytes a b ≡ lt → cmp_bytes b c ≡ lt → cmp_bytes a c ≡ lt
lt_trans_bytes [] [] c h k = cc
lt_trans_bytes [] (_ ∷ _) [] h k = cc
lt_trans_bytes [] (_ ∷ _) (_ ∷ _) h k = refl
lt_trans_bytes (_ ∷ _) [] c h k = cc
lt_trans_bytes (_ ∷ _) (_ ∷ _) [] h k = cc
lt_trans_bytes (a ∷ xs) (b ∷ ys) (c ∷ zs) h k = ground (arith, lt_trans_bytes xs ys zs)

instance abbrev pub bytes_ord : Ord IndexKey
bytes_ord = record {
  cmp = cmp_bytes;
  cmp_refl = cmp_bytes_refl;
  eq_of_cmp = eq_of_cmp_bytes;
  lt_of_gt = lt_of_gt_bytes;
  gt_of_lt = gt_of_lt_bytes;
  lt_trans = lt_trans_bytes;
}

-- `to_be_bytes`, `k` bytes of `n`, the most significant first.
unfoldable pub be_bytes : ℕ → ℕ → List ℕ
be_bytes zero n = []
be_bytes (suc k) n = be_bytes k (n / 256) ++ (n % 256) ∷ []

-- The UTF-8 encoding of a code point, and of a text.
abbrev pub utf8_char : ℕ → List ℕ
utf8_char c =
    if ltb c 0x80
    then c ∷ []
    else if ltb c 0x800
    then (0xc0 + c / 64) ∷ (0x80 + c % 64) ∷ []
    else if ltb c 0x1_0000
    then (0xe0 + c / 4096) ∷ (0x80 + c / 64 % 64) ∷ (0x80 + c % 64) ∷ []
    else (0xf0 + c / 262144) ∷ (0x80 + c / 4096 % 64) ∷ (0x80 + c / 64 % 64) ∷ (0x80 + c % 64) ∷ []

unfoldable pub utf8 : String → List ℕ
utf8 String.[] = []
utf8 (String.◌∷◌ c s) = utf8_char (code c) ++ utf8 s

-- `IndexKey::from_value`
unfoldable pub from_value : {h : Host} → Value h → Result IndexKey
unfolding be_bytes utf8
from_value null = err (index "null not indexable")
from_value (bool true) = ok (1 ∷ [])
from_value (bool false) = ok (0 ∷ [])
from_value (int64 i) = ok (be_bytes 8 (bits_i64 i))
from_value (float64 f) = ok (be_bytes 8 f)
from_value (string s) = ok (utf8 s)
from_value {h} (timestamp ts) = ok (be_bytes 8 (bits_i64 (h.timestamp_millis ts)))
from_value {h} (date d) = ok (be_bytes 8 (bits_i64 (h.date_millis d)))
from_value _ = err (index "type not indexable in btree")

pub record BTreeIndex : Type 0 where
  pub table_column : Option (TableId × String)
  pub keys : BTreeMap IndexKey (List RowId)

abbrev pub new : BTreeIndex
new = record { table_column = none; keys = [] }

abbrev pub or_default : Option (List RowId) → List RowId
or_default none = []
or_default (some ids) = ids

-- Point lookup.
unfoldable pub get : BTreeIndex → IndexKey → List RowId
get ix key = or_default (BTreeMap.get key ix.keys)

-- `entry(key).or_default().push(row_id)`
unfoldable pub insert : BTreeIndex → IndexKey → RowId → BTreeIndex
unfolding get
insert ix key row_id = record ix { keys = BTreeMap.insert key (get ix key ++ row_id ∷ []) ix.keys }

-- `ids.remove(pos)` at the first position of the identifier; `none` where there is no such position.
unfoldable pub remove_first : RowId → List RowId → Option (List RowId)
remove_first r [] = none
remove_first r (x ∷ xs) =
    let rest = remove_first r xs in
    if x == r then some xs else elim rest [ none ↦ none | some ys ↦ some (x ∷ ys) ]

-- An entry whose identifiers are all gone is taken out.
abbrev pub store_ids :
    IndexKey → List RowId → BTreeMap IndexKey (List RowId) → BTreeMap IndexKey (List RowId)
store_ids key [] m = BTreeMap.remove key m
store_ids key (r ∷ rs) m = BTreeMap.insert key (r ∷ rs) m

unfoldable pub delete : BTreeIndex → IndexKey → RowId → BTreeIndex × Bool
unfolding remove_first
delete ix key row_id = elim (BTreeMap.get key ix.keys) [
  | none ↦ (ix, false)
  | some ids ↦ elim (remove_first row_id ids) [
    | none ↦ (ix, false)
    | some rest ↦ (record ix { keys = store_ids key rest ix.keys }, true)
  ]
]

abbrev pub concat_ids : BTreeMap IndexKey (List RowId) → List RowId
concat_ids [] = []
concat_ids (e ∷ m) = e.1 ++ concat_ids m

-- The greatest key of a scan with no end.
abbrev pub last_key : IndexKey
last_key = replicate 256 0xff

abbrev pub end_or_last : Option IndexKey → IndexKey
end_or_last none = last_key
end_or_last (some end) = end

-- `BTreeMap::range(start..=end)` panics where the start lies past the end.
unfoldable pub range : BTreeIndex → IndexKey → Option IndexKey → Result (List RowId)
range ix start end = elim (cmp_bytes start (end_or_last end)) [
  | gt ↦ panic
  | _ ↦ ok (concat_ids (BTreeMap.range_inclusive start (end_or_last end) ix.keys))
]
