-- ===== src/Index/BTree/Key.antt =====
-- The order of encoded keys against the order of the integers that they encode.
use Prim.Native.Nat.{compare}
use native.Mathlib.Nat.{pow-suc}
use rustafari_db.Core.Error.{ok}
use rustafari_db.Core.Host.{Host}
use rustafari_db.Core.Value.{int64}
use rustafari_db.Index.BTree.{from_value}
use rustafari_db.Common.{
  ℕ, zero, suc, ◌*◌, ◌/◌, ◌%◌, ◌^◌, ◌<◌, ◌≡◌, refl, ◌∙◌, sym, List, [], ◌∷◌, ◌++◌, arith, Ordering,
  lt, eq, gt, length, length-append,
}
use rustafari_db.Common.Int.{ℤ, pos, negsuc, IsI64, cmp_ℤ, bits_i64}
use rustafari_db.Core.Error.{ok}
use rustafari_db.Core.Host.{Host}
use rustafari_db.Core.Value.{int64}
use rustafari_db.Index.BTree.{IndexKey, cmp_bytes, be_bytes, from_value, cmp_bytes_refl}

length-be_bytes : (k n : ℕ) → length (be_bytes k n) ≡ k
unfolding be_bytes
length-be_bytes zero n = refl
length-be_bytes (suc k) n =
    omega
      (arith, length-append (be_bytes k (n / 256)) ((n % 256) ∷ []), length-be_bytes k (n / 256))

abbrev then : Ordering → Ordering → Ordering
then lt _ = lt
then eq o = o
then gt _ = gt

cmp_bytes-append_one :
    (xs ys : List ℕ) (a b : ℕ)
    → length xs ≡ length ys
    → cmp_bytes (xs ++ a ∷ []) (ys ++ b ∷ []) ≡ then (cmp_bytes xs ys) (compare a b)
cmp_bytes-append_one [] [] a b e = ground arith
cmp_bytes-append_one [] (y ∷ ys) a b e = absurd (omega arith)
cmp_bytes-append_one (x ∷ xs) [] a b e = absurd (omega arith)
cmp_bytes-append_one (x ∷ xs) (y ∷ ys) a b e =
    ground (arith, cmp_bytes-append_one xs ys a b (omega arith))

compare-digits :
    (m n : ℕ) → then (compare (m / 256) (n / 256)) (compare (m % 256) (n % 256)) ≡ compare m n
compare-digits m n = ground arith

-- Keys of one length compare as the numbers that they encode.
pub cmp_bytes-be_bytes :
    (k m n : ℕ) → m < 256 ^ k → n < 256 ^ k → cmp_bytes (be_bytes k m) (be_bytes k n) ≡ compare m n
unfolding be_bytes
cmp_bytes-be_bytes zero m n hm hn = ground arith
cmp_bytes-be_bytes (suc k) m n hm hn =
    let p : 256 ^ suc k ≡ 256 ^ k * 256 = pow-suc 256 k in
    rw
      (
        cmp_bytes-append_one (be_bytes k (m / 256)) (be_bytes k (n / 256)) (m % 256) (n % 256)
            (length-be_bytes k (m / 256) ∙ sym (length-be_bytes k (n / 256))),
        cmp_bytes-be_bytes k (m / 256) (n / 256) (omega arith) (omega arith),
      )
      (compare-digits m n)

-- The order that the keys of two integers have.
abbrev pub key_order : ℤ → ℤ → Ordering
key_order (pos m) (negsuc n) = lt
key_order (negsuc m) (pos n) = gt
key_order a b = cmp_ℤ a b

abbrev pub int_key : ℤ → IndexKey
int_key a = be_bytes 8 (bits_i64 a)

compare-bits : (a b : ℤ) → IsI64 a → IsI64 b → compare (bits_i64 a) (bits_i64 b) ≡ key_order a b
compare-bits (pos m) (pos n) ha hb = ground arith
compare-bits (pos m) (negsuc n) ha hb = ground arith
compare-bits (negsuc m) (pos n) ha hb = ground arith
compare-bits (negsuc m) (negsuc n) ha hb = ground arith

bits-lt : (a : ℤ) → IsI64 a → bits_i64 a < 256 ^ 8
bits-lt (pos m) h = omega arith
bits-lt (negsuc m) h = omega arith

pub cmp_bytes-int_key :
    (a b : ℤ) → IsI64 a → IsI64 b → cmp_bytes (int_key a) (int_key b) ≡ key_order a b
cmp_bytes-int_key a b ha hb =
    cmp_bytes-be_bytes 8 (bits_i64 a) (bits_i64 b) (bits-lt a ha) (bits-lt b hb)
    ∙ compare-bits a b ha hb

key_order-eq : (a b : ℤ) → key_order a b ≡ eq → a ≡ b
key_order-eq (pos m) (pos n) e = ground arith
key_order-eq (pos m) (negsuc n) e = cc
key_order-eq (negsuc m) (pos n) e = cc
key_order-eq (negsuc m) (negsuc n) e = ground arith

pub int_key_inj : (a b : ℤ) → IsI64 a → IsI64 b → int_key a ≡ int_key b → a ≡ b
int_key_inj a b ha hb e =
    let p : cmp_bytes (int_key a) (int_key b) ≡ eq = rw e (cmp_bytes_refl (int_key b)) in
    key_order-eq a b (sym (cmp_bytes-int_key a b ha hb) ∙ p)

-- Every `i64` has a key. The keys of two `i64` of one sign are ordered as the integers, and are equal
-- just when these are; but the key of a negative integer comes after the key of every integer that is
-- not negative.
pub from_value-key_order :
    (h : Host) (a b : ℤ)
    → IsI64 a
    → IsI64 b
    → (k l : IndexKey) × (from_value {h = h} (int64 a) ≡ ok k)
      × (from_value {h = h} (int64 b) ≡ ok l)
      × (cmp_bytes k l ≡ key_order a b)
unfolding from_value
from_value-key_order h a b ha hb = (int_key a, int_key b, refl, refl, cmp_bytes-int_key a b ha hb)
