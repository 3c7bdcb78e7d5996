-- ===== src/Common/Sort.antt =====
-- The stable sorts of the standard library, as insertion sort: for a comparison that is a total
-- preorder the result of a stable sort is determined, so the method does not show.
use Prim.Native.Nat.{Ordering}
use Prim.Native.Nat.Ordering.{lt, eq, gt}
use Prim.Native.String.{String, compare as compare_text}
use mathlib.Core.Path.{◌≡◌, refl}
use mathlib.Core.Logic.{◌≢◌}
use mathlib.Core.List.{List, [], ◌∷◌, Perm}
use mathlib.Core.List.Perm
use native.Mathlib.Omega.{arith}
use mathlib.Core.Bool.{Bool, true}
use rustafari_db.Common.Tests.{if◌then◌else◌}
use rustafari_db.Common.Lists.{All, any}

module _ {ℓ} {A : Type ℓ} (cmp : A → A → Ordering) where
  -- `x` goes before the first element that it does not come after.
  unfoldable pub insert_sorted : A → List A → List A
  insert_sorted x [] = x ∷ []
  insert_sorted x (y ∷ ys) = elim (cmp x y) [ gt ↦ y ∷ insert_sorted x ys | _ ↦ x ∷ y ∷ ys ]

  unfoldable pub sort_by : List A → List A
  unfolding insert_sorted
  sort_by [] = []
  sort_by (x ∷ xs) = insert_sorted x (sort_by xs)

  insert_sorted-perm : (x : A) (ys : List A) → Perm (insert_sorted x ys) (x ∷ ys)
  unfolding insert_sorted
  insert_sorted-perm x [] = Perm.refl (x ∷ [])
  insert_sorted-perm x (y ∷ ys) =
      elim (cmp x y)
        as (λ c. Perm (elim c [ gt ↦ y ∷ insert_sorted x ys | _ ↦ x ∷ y ∷ ys ]) (x ∷ y ∷ ys)) [
          | gt ↦ Perm.trans (Perm.cons y (insert_sorted-perm x ys)) (Perm.swap x y ys)
          | lt ↦ Perm.refl _
          | eq ↦ Perm.refl _
        ]

  -- A sort reorders the list and keeps every element as often as it stood there.
  pub sort_by-perm : (xs : List A) → Perm (sort_by xs) xs
  unfolding sort_by
  sort_by-perm [] = Perm.refl []
  sort_by-perm (x ∷ xs) =
      Perm.trans (insert_sorted-perm x (sort_by xs)) (Perm.cons x (sort_by-perm xs))

  -- No element comes after a later one.
  abbrev pub IsSorted : List A → Type 0
  IsSorted [] = Unit
  IsSorted (x ∷ xs) = All (λ y. cmp x y ≢ gt) xs × IsSorted xs

  -- The comparison is a total preorder of the elements that have the property.
  pub record IsTotalPreorder {κ} (P : A → Type κ) : Type (ℓ ⊔ κ) where
    pub total : (x y : A) → P x → P y → cmp x y ≡ gt → cmp y x ≢ gt
    pub trans : (x y z : A) → P x → P y → P z → cmp x y ≢ gt → cmp y z ≢ gt → cmp x z ≢ gt

module _ {ℓ κ} {A : Type ℓ} (cmp : A → A → Ordering) (Q : A → Type κ) where
  All-insert_sorted : (x : A) (ys : List A) → Q x → All Q ys → All Q (insert_sorted cmp x ys)
  unfolding insert_sorted
  All-insert_sorted x [] h hs = (h, tt)
  All-insert_sorted x (y ∷ ys) h hs =
      elim (cmp x y) as (λ c. All Q (elim c [ gt ↦ y ∷ insert_sorted cmp x ys | _ ↦ x ∷ y ∷ ys ])) [
        | gt ↦ (hs.0, All-insert_sorted x ys h hs.1)
        | lt ↦ (h, hs)
        | eq ↦ (h, hs)
      ]

  pub All-sort_by : (xs : List A) → All Q xs → All Q (sort_by cmp xs)
  unfolding sort_by
  All-sort_by [] hs = tt
  All-sort_by (x ∷ xs) hs = All-insert_sorted x (sort_by cmp xs) hs.0 (All-sort_by xs hs.1)

module _ {ℓ} {A : Type ℓ} (cmp : A → A → Ordering) (p : A → Bool) where
  any-insert_sorted :
      (x : A) (ys : List A) → any p (insert_sorted cmp x ys) ≡ (if p x then true else any p ys)
  unfolding insert_sorted
  any-insert_sorted x [] = refl
  any-insert_sorted x (y ∷ ys) = ground (arith, any-insert_sorted x ys)

  -- A sort keeps whether an element passes a test.
  pub any-sort_by : (xs : List A) → any p (sort_by cmp xs) ≡ any p xs
  unfolding sort_by
  any-sort_by [] = refl
  any-sort_by (x ∷ xs) = ground (arith, any-insert_sorted x (sort_by cmp xs), any-sort_by xs)

module _ {ℓ κ} {A : Type ℓ} (cmp : A → A → Ordering) (P : A → Type κ)
    (order : IsTotalPreorder cmp P) where
  All-trans :
      (x y : A) (ys : List A)
      → P x
      → P y
      → All P ys
      → cmp x y ≢ gt
      → All (λ z. cmp y z ≢ gt) ys
      → All (λ z. cmp x z ≢ gt) ys
  All-trans x y [] px py ps h hs = tt
  All-trans x y (z ∷ zs) px py ps h hs =
      (order.trans x y z px py ps.0 h hs.0, All-trans x y zs px py ps.1 h hs.1)

  insert_sorted-IsSorted :
      (x : A) (ys : List A)
      → P x
      → All P ys
      → IsSorted cmp ys
      → IsSorted cmp (insert_sorted cmp x ys)
  unfolding insert_sorted
  insert_sorted-IsSorted x [] px ps s = (tt, tt)
  insert_sorted-IsSorted x (y ∷ ys) px ps s = ground (
    arith,
    insert_sorted-IsSorted x ys px ps.1 s.1,
    order.total x y px ps.0,
    All-trans x y ys px ps.0 ps.1,
    All-insert_sorted cmp (λ z. cmp y z ≢ gt) x ys,
  )

  -- A sort puts elements that have the property in order.
  pub sort_by-IsSorted : (xs : List A) → All P xs → IsSorted cmp (sort_by cmp xs)
  unfolding sort_by
  sort_by-IsSorted [] ps = tt
  sort_by-IsSorted (x ∷ xs) ps =
      insert_sorted-IsSorted x (sort_by cmp xs) ps.0 (All-sort_by cmp P xs ps.1)
        (sort_by-IsSorted xs ps.1)

-- Every element stands in the relation to all later ones.
abbrev pub Ranked {ℓ} : {A : Type ℓ} → (A → A → Type 0) → List A → Type 0
Ranked R [] = Unit
Ranked R (x ∷ xs) = All (R x) xs × Ranked R xs

module _ {ℓ} {A : Type ℓ} (cmp : A → A → Ordering) (P : A → Type 0) (R : A → A → Type 0)
    (below : (x y : A) → P x → P y → cmp x y ≢ gt → R x y) where
  All-below : (x : A) (ys : List A) → P x → All P ys → All (λ y. cmp x y ≢ gt) ys → All (R x) ys
  All-below x [] px ps h = tt
  All-below x (y ∷ ys) px ps h = (below x y px ps.0 h.0, All-below x ys px ps.1 h.1)

  IsSorted-Ranked : (xs : List A) → All P xs → IsSorted cmp xs → Ranked R xs
  IsSorted-Ranked [] ps s = tt
  IsSorted-Ranked (x ∷ xs) ps s = (All-below x xs ps.0 ps.1 s.0, IsSorted-Ranked xs ps.1 s.1)

  -- A sort ranks the elements by the relation that the comparison stands for.
  pub sort_by-Ranked : IsTotalPreorder cmp P → (xs : List A) → All P xs → Ranked R (sort_by cmp xs)
  sort_by-Ranked order xs ps =
      IsSorted-Ranked (sort_by cmp xs) (All-sort_by cmp P xs ps)
        (sort_by-IsSorted cmp P order xs ps)

-- `Vec<String>::sort`
unfoldable pub sort_strings : List String → List String
unfolding sort_by
sort_strings = sort_by compare_text
