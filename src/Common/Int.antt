-- ===== src/Common/Int.antt =====
-- Signed 64-bit integers as integers over the native numbers, with the range written out.
use Prim.Native.Nat.{ℕ, suc, ◌+◌, ◌-◌, ◌%◌, ◌^◌, ◌≤◌, compare, Ordering}
use mathlib.Core.Path.{◌≡◌}
use mathlib.Core.Bool.{Bool, true, false}
use native.Mathlib.Omega.{arith}
use rustafari_db.Common.Tests.{ltb, leb, if◌then◌else◌}

-- `negsuc n` is -(n + 1).
pub data ℤ : Type 0 where
  pos : ℕ → ℤ
  negsuc : ℕ → ℤ

abbrev pub pos_part : ℤ → ℕ
pos_part (pos n) = n
pos_part (negsuc n) = 0

abbrev pub neg_part : ℤ → ℕ
neg_part (pos n) = 0
neg_part (negsuc n) = suc n

-- a - b, as an integer.
abbrev pub sub_ℕ : ℕ → ℕ → ℤ
sub_ℕ a b = if leb b a then pos (a - b) else negsuc (b - a - 1)

infixl 65 ◌+ℤ◌
infix 50 ◌≤ℤ◌
unfoldable pub ◌+ℤ◌ : ℤ → ℤ → ℤ
a +ℤ b = sub_ℕ (pos_part a + pos_part b) (neg_part a + neg_part b)

abbrev pub ◌≤ℤ◌ : ℤ → ℤ → Type 0
a ≤ℤ b = pos_part a + neg_part b ≤ pos_part b + neg_part a

-- `i64::cmp`
abbrev pub cmp_ℤ : ℤ → ℤ → Ordering
cmp_ℤ (pos a) (pos b) = compare a b
cmp_ℤ (pos a) (negsuc b) = Ordering.gt
cmp_ℤ (negsuc a) (pos b) = Ordering.lt
cmp_ℤ (negsuc a) (negsuc b) = compare b a

abbrev pub eq_ℤ : ℤ → ℤ → Bool
eq_ℤ a b = elim (cmp_ℤ a b) [ Ordering.eq ↦ true | _ ↦ false ]

abbrev pub lt_ℤ : ℤ → ℤ → Bool
lt_ℤ a b = elim (cmp_ℤ a b) [ Ordering.lt ↦ true | _ ↦ false ]

-- `i64::MAX`, `i64::MIN`
abbrev pub i64_max : ℤ
i64_max = pos (2 ^ 63 - 1)

abbrev pub i64_min : ℤ
i64_min = negsuc (2 ^ 63 - 1)

abbrev pub IsI64 : ℤ → Type 0
IsI64 a = (i64_min ≤ℤ a) × (a ≤ℤ i64_max)

abbrev pub min_ℤ : ℤ → ℤ → ℤ
min_ℤ a b = if lt_ℤ b a then b else a

abbrev pub max_ℤ : ℤ → ℤ → ℤ
max_ℤ a b = if lt_ℤ a b then b else a

-- `i64::saturating_add`: the exact sum, held in the range.
abbrev pub clamp_i64 : ℤ → ℤ
clamp_i64 a = if lt_ℤ a i64_min then i64_min else if lt_ℤ i64_max a then i64_max else a

unfoldable pub saturating_add : ℤ → ℤ → ℤ
unfolding ◌+ℤ◌
saturating_add a b = clamp_i64 (a +ℤ b)

-- `n as i64` of a `u64` or `usize`: two's complement.
abbrev pub as_i64 : ℕ → ℤ
as_i64 n = let w = n % 2 ^ 64 in if ltb w (2 ^ 63) then pos w else negsuc (2 ^ 64 - w - 1)

-- The bit pattern of an `i64`.
abbrev pub bits_i64 : ℤ → ℕ
bits_i64 (pos n) = n
bits_i64 (negsuc n) = 2 ^ 64 - 1 - n

pub eq_ℤ→eq : (a b : ℤ) → eq_ℤ a b ≡ true → a ≡ b
eq_ℤ→eq a b h = ground arith

pub eq_ℤ_refl : (a : ℤ) → eq_ℤ a a ≡ true
eq_ℤ_refl a = ground arith

pub saturating_add-IsI64 : (a b : ℤ) → IsI64 (saturating_add a b)
unfolding saturating_add
saturating_add-IsI64 a b = ground arith

pub saturating_add_exact : (a b : ℤ) → IsI64 (a +ℤ b) → saturating_add a b ≡ a +ℤ b
unfolding saturating_add
saturating_add_exact a b h = ground arith

pub +ℤ_assoc : (a b c : ℤ) → a +ℤ b +ℤ c ≡ a +ℤ (b +ℤ c)
unfolding ◌+ℤ◌
+ℤ_assoc a b c = ground arith

pub zero-+ℤ : (a : ℤ) → pos 0 +ℤ a ≡ a
unfolding ◌+ℤ◌
zero-+ℤ a = ground arith
