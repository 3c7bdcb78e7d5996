-- ===== src/Executor/Aggregate/Magnitude.antt =====
-- Sums of 64-bit integers that the aggregates of crates/rustafari-executor/src/lib.rs build up, where no
-- sum leaves the range.
use rustafari_db.Common.{
  ℕ, suc, ◌+◌, ◌<◌, ◌≤◌, ◌^◌, ◌≡◌, refl, ◌∙◌, sym, ap, true, List, [], ◌∷◌, ◌++◌, arith,
}
use rustafari_db.Common.Int.{ℤ, pos, negsuc, IsI64, ◌+ℤ◌, +ℤ_assoc}
use rustafari_db.Storage.Columnar.Sums.{sum_from, FitsFrom}
use rustafari_db.Executor.Aggregate.{Acc}

-- The magnitude of an integer, and of a list of them.
abbrev pub mag : ℤ → ℕ
mag (pos n) = n
mag (negsuc n) = suc n

abbrev pub total_mag : List ℤ → ℕ
total_mag [] = 0
total_mag (x ∷ xs) = mag x + total_mag xs

pub zero-add : (n : ℕ) → 0 + n ≡ n
zero-add n = omega arith

pub mag-add : (a b : ℤ) → mag (a +ℤ b) ≤ mag a + mag b
unfolding ◌+ℤ◌
mag-add a b = ground arith

pub IsI64-of_mag : (a : ℤ) → mag a < 2 ^ 63 → IsI64 a
IsI64-of_mag (pos n) l = ground arith
IsI64-of_mag (negsuc n) l = ground arith

pub FitsFrom-of_mag : (acc : ℤ) (xs : List ℤ) → mag acc + total_mag xs < 2 ^ 63 → FitsFrom acc xs
FitsFrom-of_mag acc [] l = tt
FitsFrom-of_mag acc (x ∷ xs) l =
    let m = mag-add acc x in
    (IsI64-of_mag (acc +ℤ x) (omega (arith, m)), FitsFrom-of_mag (acc +ℤ x) xs (omega (arith, m)))

pub mag-sum_from : (acc : ℤ) (xs : List ℤ) → mag (sum_from acc xs) ≤ mag acc + total_mag xs
mag-sum_from acc [] = omega arith
mag-sum_from acc (x ∷ xs) = omega (arith, mag-add acc x, mag-sum_from (acc +ℤ x) xs)

pub sum_from_add : (acc b : ℤ) (xs : List ℤ) → acc +ℤ sum_from b xs ≡ sum_from (acc +ℤ b) xs
sum_from_add acc b [] = refl
sum_from_add acc b (x ∷ xs) =
    sum_from_add acc (b +ℤ x) xs ∙ ap (λ c. sum_from c xs) (sym (+ℤ_assoc acc b x))

pub add_zero : (a : ℤ) → a +ℤ pos 0 ≡ a
unfolding ◌+ℤ◌
add_zero a = ground arith

pub sum_from_zero : (acc : ℤ) (xs : List ℤ) → acc +ℤ sum_from (pos 0) xs ≡ sum_from acc xs
sum_from_zero acc xs = sum_from_add acc (pos 0) xs ∙ ap (λ c. sum_from c xs) (add_zero acc)

pub total_mag-append : (xs ys : List ℤ) → total_mag (xs ++ ys) ≡ total_mag xs + total_mag ys
total_mag-append [] ys = omega arith
total_mag-append (x ∷ xs) ys = omega (arith, total_mag-append xs ys)

-- The variables after integers have been added one by one, without overflow.
abbrev pub after : List ℤ → Acc → Acc
after [] a = a
after (x ∷ xs) a = after xs (record a { i = a.i +ℤ x; has_i = true })

pub after-append : (xs ys : List ℤ) (a : Acc) → after (xs ++ ys) a ≡ after ys (after xs a)
after-append [] ys a = refl
after-append (x ∷ xs) ys a = after-append xs ys _

pub after_cons :
    (xs : List ℤ) (a : Acc) → a.has_i ≡ true → after xs a ≡ record a { i = sum_from a.i xs }
after_cons [] a e = refl
after_cons (x ∷ xs) a e =
    after_cons xs (record a { i = a.i +ℤ x; has_i = true }) refl
    ∙ ap (λ b. record a { i = sum_from (a.i +ℤ x) xs; has_i = b }) (sym e)

pub after-i : (xs : List ℤ) (a : Acc) → (after xs a).i ≡ sum_from a.i xs
after-i [] a = refl
after-i (x ∷ xs) a = after-i xs (record a { i = a.i +ℤ x; has_i = true })

pub after-has_f : (xs : List ℤ) (a : Acc) → (after xs a).has_f ≡ a.has_f
after-has_f [] a = refl
after-has_f (x ∷ xs) a = after-has_f xs (record a { i = a.i +ℤ x; has_i = true })
