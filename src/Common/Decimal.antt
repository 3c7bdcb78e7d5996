-- ===== src/Common/Decimal.antt =====
-- Decimal numbers of the standard library: what `{}` prints of one.
use Prim.Native.String.{String, ◌++◌ as ◌+++◌}
use Prim.Native.Nat.{ℕ, zero, suc, ◌/◌, ◌%◌}
use rustafari_db.Common.Tests.{ltb, if◌then◌else◌}

-- The decimal digits of a number; `fuel` bounds their count, and the number itself is enough.
abbrev pub digit : ℕ → String
digit zero = "0"
digit (suc zero) = "1"
digit (suc (suc zero)) = "2"
digit (suc (suc (suc zero))) = "3"
digit (suc (suc (suc (suc zero)))) = "4"
digit (suc (suc (suc (suc (suc zero))))) = "5"
digit (suc (suc (suc (suc (suc (suc zero)))))) = "6"
digit (suc (suc (suc (suc (suc (suc (suc zero))))))) = "7"
digit (suc (suc (suc (suc (suc (suc (suc (suc zero)))))))) = "8"
digit _ = "9"

unfoldable pub show_digits : ℕ → ℕ → String
show_digits zero n = digit n
show_digits (suc fuel) n =
    let more = show_digits fuel (n / 10) in if ltb n 10 then digit n else more +++ digit (n % 10)

-- `format!("{}", n)`
unfoldable pub show_ℕ : ℕ → String
unfolding show_digits
show_ℕ n = show_digits n n
