-- ===== src/Sql/Number.antt =====
-- `str::parse` of the standard library for `i64` and `u64`, as crates/rustafari-sql/src/plan.rs uses
-- it: an optional sign, at least one decimal digit and nothing else, and a value in the range.
pub mod RoundTrip
use Prim.Native.Char.{code}
use rustafari_db.Common.{
  ℕ, ◌+◌, ◌-◌, ◌*◌, ◌^◌, String, Bool, true, false, ◌&&◌, Option, none, some, ltb, leb, ◌==◌,
  if◌then◌else◌,
}
use rustafari_db.Common.Int.{ℤ, pos, sub_ℕ}

abbrev pub is_digit : ℕ → Bool
is_digit c = leb b'0' c && leb c b'9'

-- The number of the digits, after those that give `n`.
unfoldable pub digits_from : ℕ → String → Option ℕ
digits_from n String.[] = some n
digits_from n (String.◌∷◌ c s) =
    let rest = digits_from (n * 10 + (code c - b'0')) s in if is_digit (code c) then rest else none

-- At least one digit.
unfoldable pub digits : String → Option ℕ
unfolding digits_from
digits String.[] = none
digits (String.◌∷◌ c s) = digits_from 0 (String.◌∷◌ c s)

abbrev pub below : ℕ → Option ℕ → Option ℕ
below bound none = none
below bound (some n) = if ltb n bound then some n else none

abbrev pub plus : Option ℕ → Option ℤ
plus none = none
plus (some n) = some (pos n)

abbrev pub minus : Option ℕ → Option ℤ
minus none = none
minus (some n) = some (sub_ℕ 0 n)

unfoldable pub parse_u64 : String → Option ℕ
unfolding digits
parse_u64 String.[] = none
parse_u64 (String.◌∷◌ c s) =
    below (2 ^ 64) (if code c == b'+' then digits s else digits (String.◌∷◌ c s))

unfoldable pub parse_i64 : String → Option ℤ
unfolding digits
parse_i64 String.[] = none
parse_i64 (String.◌∷◌ c s) =
    if code c == b'-'
    then minus (below (2 ^ 63 + 1) (digits s))
    else plus (below (2 ^ 63) (if code c == b'+' then digits s else digits (String.◌∷◌ c s)))
