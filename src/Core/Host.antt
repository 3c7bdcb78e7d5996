-- ===== src/Core/Host.antt =====
-- What the database takes from elsewhere: 64-bit and 32-bit floating-point arithmetic, and the
-- instants and dates of the `chrono` crate. A float is its bit pattern, so that comparison, minimum
-- and maximum are written out below; sums, quotients,
-- conversions and the reading of a text are operations of the host.
use rustafari_db.Common.{
  ℕ, ◌-◌, ◌%◌, ◌^◌, String, Bool, true, false, ◌||◌, Option, none, some, Ordering, lt, eq, ltb,
  if◌then◌else◌,
}
use rustafari_db.Common.Int.{ℤ, pos, sub_ℕ, cmp_ℤ}

-- An `f64` and an `f32`, by their bits.
abbrev pub F64 : Type 0
F64 = ℕ

abbrev pub F32 : Type 0
F32 = ℕ

pub record Host : Type 1 where
  pub f64_add : F64 → F64 → F64
  pub f64_div : F64 → F64 → F64
  pub f64_of_i64 : ℤ → F64
  pub f64_of_usize : ℕ → F64
  pub f64_parse : String → Option F64
  pub f32_sub : F32 → F32 → F32
  pub f32_square : F32 → F32
  pub f32_add : F32 → F32 → F32
  pub f32_sqrt : F32 → F32
  pub Timestamp : Type 0
  pub timestamp_eq : Timestamp → Timestamp → Bool
  pub timestamp_millis : Timestamp → ℤ
  pub Date : Type 0
  pub date_eq : Date → Date → Bool
  pub date_millis : Date → ℤ

-- Whether an `f64` is a NaN: all exponent bits set and a mantissa that is not zero.
abbrev pub f64_is_nan : F64 → Bool
f64_is_nan x = ltb 0x7ff0_0000_0000_0000 (x % 2 ^ 63)

-- The bits in sign and magnitude, as an integer; both zeros are 0.
abbrev pub f64_key : F64 → ℤ
f64_key x = if ltb x (2 ^ 63) then pos x else sub_ℕ 0 (x - 2 ^ 63)

-- `f64::partial_cmp`
unfoldable pub f64_partial_cmp : F64 → F64 → Option Ordering
f64_partial_cmp x y =
    if f64_is_nan x || f64_is_nan y then none else some (cmp_ℤ (f64_key x) (f64_key y))

-- `==` of `f64`
unfoldable pub f64_eq : F64 → F64 → Bool
unfolding f64_partial_cmp
f64_eq x y = elim (f64_partial_cmp x y) [ some eq ↦ true | _ ↦ false ]

-- `f64::min` and `f64::max`: a NaN gives way to the other operand.
unfoldable pub f64_min : F64 → F64 → F64
f64_min x y =
    if f64_is_nan x
    then y
    else if f64_is_nan y
    then x
    else elim (cmp_ℤ (f64_key y) (f64_key x)) [ lt ↦ y | _ ↦ x ]

unfoldable pub f64_max : F64 → F64 → F64
f64_max x y =
    if f64_is_nan x
    then y
    else if f64_is_nan y
    then x
    else elim (cmp_ℤ (f64_key x) (f64_key y)) [ lt ↦ y | _ ↦ x ]

-- `f64::INFINITY`, `f64::NEG_INFINITY` and `0.0`.
abbrev pub f64_infinity : F64
f64_infinity = 0x7ff0_0000_0000_0000

abbrev pub f64_neg_infinity : F64
f64_neg_infinity = 0xfff0_0000_0000_0000

abbrev pub f64_zero : F64
f64_zero = 0

-- `f32::partial_cmp`
abbrev pub f32_is_nan : F32 → Bool
f32_is_nan x = ltb 0x7f80_0000 (x % 2 ^ 31)

abbrev pub f32_key : F32 → ℤ
f32_key x = if ltb x (2 ^ 31) then pos x else sub_ℕ 0 (x - 2 ^ 31)

unfoldable pub f32_partial_cmp : F32 → F32 → Option Ordering
f32_partial_cmp x y =
    if f32_is_nan x || f32_is_nan y then none else some (cmp_ℤ (f32_key x) (f32_key y))

abbrev pub f32_eq : F32 → F32 → Bool
f32_eq x y = elim (f32_partial_cmp x y) [ some eq ↦ true | _ ↦ false ]
