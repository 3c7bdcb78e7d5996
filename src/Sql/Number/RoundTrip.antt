-- ===== src/Sql/Number/RoundTrip.antt =====
-- Decimal numbers, printed and read back.
use Prim.Native.Char.{code}
use Prim.Native.String.{◌++◌ as ◌+++◌}
use text.Mathlib.TextLemmas.{nil-append, cons-append}
use rustafari_db.Common.{
  ℕ, zero, suc, ◌+◌, ◌-◌, ◌*◌, ◌/◌, ◌%◌, ◌^◌, ◌<◌, ◌≤◌, ◌≡◌, ◌∙◌, refl, ap, String, Bool, true,
  false, some, arith, ltb, ltb→lt, Bool-cases, inl, inr, subst, sym, if◌then◌else◌,
}
use rustafari_db.Common.Decimal.{digit, show_digits, show_ℕ}
use rustafari_db.Common.Int.{pos}
use rustafari_db.Sql.Number.{is_digit, digits_from, parse_u64, parse_i64}

digits_from-digit : (acc d : ℕ) → d < 10 → digits_from acc (digit d) ≡ some (acc * 10 + d)
unfolding digits_from
digits_from-digit acc zero l = ap some (omega arith)
digits_from-digit acc (suc zero) l = ap some (omega arith)
digits_from-digit acc (suc (suc zero)) l = ap some (omega arith)
digits_from-digit acc (suc (suc (suc zero))) l = ap some (omega arith)
digits_from-digit acc (suc (suc (suc (suc zero)))) l = ap some (omega arith)
digits_from-digit acc (suc (suc (suc (suc (suc zero))))) l = ap some (omega arith)
digits_from-digit acc (suc (suc (suc (suc (suc (suc zero)))))) l = ap some (omega arith)
digits_from-digit acc (suc (suc (suc (suc (suc (suc (suc zero))))))) l = ap some (omega arith)
digits_from-digit acc (suc (suc (suc (suc (suc (suc (suc (suc zero)))))))) l = ap some (omega arith)
digits_from-digit acc (suc (suc (suc (suc (suc (suc (suc (suc (suc d))))))))) l =
    ap some (omega arith)

digits_from-append :
    (acc : ℕ) (s t : String) (n : ℕ)
    → digits_from acc s ≡ some n
    → digits_from acc (s +++ t) ≡ digits_from n t
unfolding digits_from
digits_from-append acc String.[] t n e = ap (digits_from acc) (nil-append t) ∙ ground (arith, e)
digits_from-append acc (String.◌∷◌ c s) t n e =
    ap (digits_from acc) (cons-append c s t)
    ∙ ground (arith, e, digits_from-append (acc * 10 + (code c - b'0')) s t n)

digits_from-show_digits : (fuel n : ℕ) → n ≤ fuel → digits_from 0 (show_digits fuel n) ≡ some n
unfolding show_digits
digits_from-show_digits zero n l = digits_from-digit 0 n (omega arith) ∙ ap some (omega arith)
digits_from-show_digits (suc fuel) n l = elim (Bool-cases (ltb n 10)) [
  | inl small ↦ rw small (digits_from-digit 0 n (ltb→lt n 10 small) ∙ ap some (omega arith))
  | inr large ↦
      let more = digits_from-show_digits fuel (n / 10) (ground arith) in
      ap
        (λ (b : Bool).
          digits_from 0 (if b then digit n else show_digits fuel (n / 10) +++ digit (n % 10)))
        large
      ∙ (digits_from-append 0 (show_digits fuel (n / 10)) (digit (n % 10)) (n / 10) more
          ∙ digits_from-digit (n / 10) (n % 10) (omega arith)
          ∙ ap some (omega arith))
]

-- The printed text is not empty, and starts with a digit.
abbrev StartsWithDigit : String → Type 0
StartsWithDigit String.[] = ⊥
StartsWithDigit (String.◌∷◌ c s) = is_digit (code c) ≡ true

StartsWithDigit-digit : (d : ℕ) → StartsWithDigit (digit d)
StartsWithDigit-digit zero = refl
StartsWithDigit-digit (suc zero) = refl
StartsWithDigit-digit (suc (suc zero)) = refl
StartsWithDigit-digit (suc (suc (suc zero))) = refl
StartsWithDigit-digit (suc (suc (suc (suc zero)))) = refl
StartsWithDigit-digit (suc (suc (suc (suc (suc zero))))) = refl
StartsWithDigit-digit (suc (suc (suc (suc (suc (suc zero)))))) = refl
StartsWithDigit-digit (suc (suc (suc (suc (suc (suc (suc zero))))))) = refl
StartsWithDigit-digit (suc (suc (suc (suc (suc (suc (suc (suc zero)))))))) = refl
StartsWithDigit-digit (suc (suc (suc (suc (suc (suc (suc (suc (suc d))))))))) = refl

StartsWithDigit-append : (s t : String) → StartsWithDigit s → StartsWithDigit (s +++ t)
StartsWithDigit-append String.[] t d = absurd d
StartsWithDigit-append (String.◌∷◌ c s) t d = subst StartsWithDigit (sym (cons-append c s t)) d

StartsWithDigit-show_digits : (fuel n : ℕ) → StartsWithDigit (show_digits fuel n)
unfolding show_digits
StartsWithDigit-show_digits zero n = StartsWithDigit-digit n
StartsWithDigit-show_digits (suc fuel) n =
    elim (ltb n 10)
      as (λ (b : Bool).
        StartsWithDigit (if b then digit n else show_digits fuel (n / 10) +++ digit (n % 10))) [
          | true ↦ StartsWithDigit-digit n
          | false ↦
              StartsWithDigit-append (show_digits fuel (n / 10)) (digit (n % 10))
                (StartsWithDigit-show_digits fuel (n / 10))
        ]

parse_i64_of_digits :
    (s : String) (n : ℕ)
    → StartsWithDigit s
    → digits_from 0 s ≡ some n
    → n < 2 ^ 63
    → parse_i64 s ≡ some (pos n)
unfolding parse_i64
parse_i64_of_digits String.[] n d e l = absurd d
parse_i64_of_digits (String.◌∷◌ c s) n d e l = ground (arith, e, d)

-- The standard library reads back what it prints, of every natural number in the range of an `i64`.
pub parse_i64-show_ℕ : (n : ℕ) → n < 2 ^ 63 → parse_i64 (show_ℕ n) ≡ some (pos n)
unfolding show_ℕ
parse_i64-show_ℕ n l =
    parse_i64_of_digits (show_digits n n) n (StartsWithDigit-show_digits n n)
      (digits_from-show_digits n n (omega arith)) l

parse_u64_of_digits :
    (s : String) (n : ℕ)
    → StartsWithDigit s
    → digits_from 0 s ≡ some n
    → n < 2 ^ 64
    → parse_u64 s ≡ some n
unfolding parse_u64
parse_u64_of_digits String.[] n d e l = absurd d
parse_u64_of_digits (String.◌∷◌ c s) n d e l = ground (arith, e, d)

pub parse_u64-show_ℕ : (n : ℕ) → n < 2 ^ 64 → parse_u64 (show_ℕ n) ≡ some n
unfolding show_ℕ
parse_u64-show_ℕ n l =
    parse_u64_of_digits (show_digits n n) n (StartsWithDigit-show_digits n n)
      (digits_from-show_digits n n (omega arith)) l

pub show_ℕ-IsNumber : (n : ℕ) → digits_from 0 (show_ℕ n) ≡ some n
unfolding show_ℕ
show_ℕ-IsNumber n = digits_from-show_digits n n (omega arith)
