-- ===== src/Common/BTreeMap.antt =====
-- `std::collections::BTreeMap` as an association list sorted by the key's order.
use Prim.Native.Nat.{Ordering}
use Prim.Native.Nat.Ordering.{lt, eq, gt}
use mathlib.Core.Path.{◌≡◌, refl}
use mathlib.Core.Bool.{Bool, true, false}
use mathlib.Core.List.{List, [], ◌∷◌}
use mathlib.Core.Option.{Option, none, some}
use native.Mathlib.Omega.{arith}
use rustafari_db.Common.Tests.{if◌then◌else◌}
use rustafari_db.Common.Lists.{All, filter}

-- The bound `K: Ord`, with what the trait asks of `cmp`.
pub record Ord {ℓ} (K : Type ℓ) : Type ℓ where
  pub cmp : K → K → Ordering
  pub lt_trans : (x y z : K) → cmp x y ≡ lt → cmp y z ≡ lt → cmp x z ≡ lt
  pub gt_of_lt : (x y : K) → cmp x y ≡ lt → cmp y x ≡ gt
  pub lt_of_gt : (x y : K) → cmp x y ≡ gt → cmp y x ≡ lt
  pub eq_of_cmp : (x y : K) → cmp x y ≡ eq → x ≡ y
  pub cmp_refl : (x : K) → cmp x x ≡ eq

abbrev pub is_lt : Ordering → Bool
is_lt lt = true
is_lt _ = false

abbrev pub is_eq : Ordering → Bool
is_eq eq = true
is_eq _ = false

abbrev pub is_gt : Ordering → Bool
is_gt gt = true
is_gt _ = false

abbrev pub BTreeMap {ℓ κ} : Type ℓ → Type κ → Type (ℓ ⊔ κ)
BTreeMap K V = List (K × V)

module _ {ℓ κ} {K : Type ℓ} {V : Type κ} ⦃o : Ord K⦄ where
  unfoldable pub get : K → BTreeMap K V → Option V
  get k [] = none
  get k ((j, v) ∷ m) = if is_eq (o.cmp k j) then some v else get k m

  unfoldable pub insert : K → V → BTreeMap K V → BTreeMap K V
  insert k v [] = (k, v) ∷ []
  insert k v ((j, w) ∷ m) = elim (o.cmp k j) [
    | lt ↦ (k, v) ∷ (j, w) ∷ m
    | eq ↦ (k, v) ∷ m
    | gt ↦ (j, w) ∷ insert k v m
  ]

  unfoldable pub remove : K → BTreeMap K V → BTreeMap K V
  remove k [] = []
  remove k ((j, v) ∷ m) = let rest = remove k m in if is_eq (o.cmp k j) then rest else (j, v) ∷ rest

  -- `range(lo..hi)` and `range(lo..=hi)`
  abbrev pub in_range : K → K → K × V → Bool
  in_range lo hi e = elim (o.cmp e.0 lo) [ lt ↦ false | _ ↦ is_lt (o.cmp e.0 hi) ]

  abbrev pub range : K → K → BTreeMap K V → BTreeMap K V
  range lo hi = filter (in_range lo hi)

  abbrev pub in_range_inclusive : K → K → K × V → Bool
  in_range_inclusive lo hi e = elim (o.cmp e.0 lo) [
    | lt ↦ false
    | _ ↦ elim (o.cmp e.0 hi) [ gt ↦ false | _ ↦ true ]
  ]

  abbrev pub range_inclusive : K → K → BTreeMap K V → BTreeMap K V
  range_inclusive lo hi = filter (in_range_inclusive lo hi)

  pub get-insert :
      (j k : K) (v : V) (m : BTreeMap K V)
      → get j (insert k v m) ≡ (if is_eq (o.cmp j k) then some v else get j m)
  unfolding get insert
  get-insert j k v [] = refl
  get-insert j k v ((i, w) ∷ m) =
      ground
        (arith, o.eq_of_cmp j k, o.eq_of_cmp k i, o.eq_of_cmp j i, o.cmp_refl j, get-insert j k v m)

  pub get-remove :
      (j k : K) (m : BTreeMap K V)
      → get j (remove k m) ≡ (if is_eq (o.cmp j k) then none else get j m)
  unfolding get remove
  get-remove j k [] = ground arith
  get-remove j k ((i, w) ∷ m) =
      ground
        (arith, o.eq_of_cmp j k, o.eq_of_cmp k i, o.eq_of_cmp j i, o.cmp_refl j, get-remove j k m)

  -- Every key of the map comes after `k`.
  abbrev pub Above : K → BTreeMap K V → Type 0
  Above k m = All (λ e. o.cmp k e.0 ≡ lt) m

  -- The keys ascend, so no key stands twice.
  abbrev pub IsSorted : BTreeMap K V → Type 0
  IsSorted [] = Unit
  IsSorted (e ∷ m) = Above e.0 m × IsSorted m

  Above-trans : (j k : K) (m : BTreeMap K V) → o.cmp j k ≡ lt → Above k m → Above j m
  Above-trans j k [] h a = tt
  Above-trans j k (e ∷ m) h a = (o.lt_trans j k e.0 h a.0, Above-trans j k m h a.1)

  Above-insert :
      (j k : K) (v : V) (m : BTreeMap K V) → o.cmp j k ≡ lt → Above j m → Above j (insert k v m)
  unfolding insert
  Above-insert j k v [] h a = (h, tt)
  Above-insert j k v (e ∷ m) h a = ground (arith, Above-insert j k v m)

  pub insert-IsSorted : (k : K) (v : V) (m : BTreeMap K V) → IsSorted m → IsSorted (insert k v m)
  unfolding insert
  insert-IsSorted k v [] s = (tt, tt)
  insert-IsSorted k v (e ∷ m) s = ground (
    arith,
    insert-IsSorted k v m,
    Above-trans k e.0 m,
    Above-insert e.0 k v m,
    o.eq_of_cmp k e.0,
    o.lt_of_gt k e.0,
  )

  Above-remove : (j k : K) (m : BTreeMap K V) → Above j m → Above j (remove k m)
  unfolding remove
  Above-remove j k [] a = tt
  Above-remove j k (e ∷ m) a = ground (arith, Above-remove j k m)

  pub remove-IsSorted : (k : K) (m : BTreeMap K V) → IsSorted m → IsSorted (remove k m)
  unfolding remove
  remove-IsSorted k [] s = tt
  remove-IsSorted k (e ∷ m) s = ground (arith, remove-IsSorted k m, Above-remove e.0 k m)

  Above-filter : (p : K × V → Bool) (j : K) (m : BTreeMap K V) → Above j m → Above j (filter p m)
  Above-filter p j [] a = tt
  Above-filter p j (e ∷ m) a = ground (arith, Above-filter p j m)

  pub filter-IsSorted : (p : K × V → Bool) (m : BTreeMap K V) → IsSorted m → IsSorted (filter p m)
  filter-IsSorted p [] s = tt
  filter-IsSorted p (e ∷ m) s = ground (arith, filter-IsSorted p m, Above-filter p e.0 m)

  get-Above : (k : K) (m : BTreeMap K V) → Above k m → get k m ≡ none
  unfolding get
  get-Above k [] a = refl
  get-Above k (e ∷ m) a = ground (arith, get-Above k m)

  -- What a filter of a sorted map holds at a key.
  pub get-filter :
      (p : K × V → Bool) (k : K) (m : BTreeMap K V)
      → IsSorted m
      → get k (filter p m)
        ≡ elim (get k m) [ none ↦ none | some v ↦ (if p (k, v) then some v else none) ]
  unfolding get
  get-filter p k [] s = refl
  get-filter p k (e ∷ m) s = ground (
    arith,
    get-filter p k m,
    o.eq_of_cmp k e.0,
    get-Above k m,
    get-Above k (filter p m),
    Above-filter p e.0 m,
  )
