-- ===== src/Common/HashMap.antt =====
-- `std::collections::HashMap` as an association list with one entry for each key. What the map's
-- iteration shows is the order of that list; the hash order of the real map is any order.
use Prim.Native.Nat.{ℕ}
use Prim.Native.String.{String}
use mathlib.Core.Path.{◌≡◌, refl, ◌∙◌}
use mathlib.Core.Logic.{◌↔◌}
use mathlib.Core.Bool.{Bool, true, ◌&&◌}
use mathlib.Core.List.{List, [], ◌∷◌, map}
use mathlib.Core.Option.{Option, none, some}
use native.Mathlib.Omega.{arith}
use text.Mathlib.Text.{◌==◌ as str_eq}
use text.Mathlib.TextEquality.{eq_iff}
use rustafari_db.Common.Lists.{All}
use rustafari_db.Common.Tests.{◌==◌, ==_iff, if◌then◌else◌}

-- The bound `K: Eq`.
pub record Eq {ℓ} (K : Type ℓ) : Type ℓ where
  pub beq : K → K → Bool
  pub beq_iff : (a b : K) → (beq a b ≡ true) ↔ (a ≡ b)

instance abbrev pub nat_eq : Eq ℕ
nat_eq = record { beq = ◌==◌; beq_iff = ==_iff }

instance abbrev pub string_eq : Eq String
string_eq = record { beq = str_eq; beq_iff = eq_iff }

pub pair_beq_iff {ℓ κ} :
    {A : Type ℓ} {B : Type κ} ⦃a : Eq A⦄ ⦃b : Eq B⦄ (x y : A × B)
    → ((a.beq x.0 y.0 && b.beq x.1 y.1) ≡ true) ↔ (x ≡ y)
pair_beq_iff ⦃a⦄ ⦃b⦄ x y = ground (arith, a.beq_iff x.0 y.0, b.beq_iff x.1 y.1)

instance abbrev pub pair_eq {ℓ κ} : {A : Type ℓ} {B : Type κ} ⦃a : Eq A⦄ ⦃b : Eq B⦄ → Eq (A × B)
pair_eq ⦃a⦄ ⦃b⦄ = record { beq = λ x y. a.beq x.0 y.0 && b.beq x.1 y.1; beq_iff = pair_beq_iff }

abbrev pub HashMap {ℓ κ} : Type ℓ → Type κ → Type (ℓ ⊔ κ)
HashMap K V = List (K × V)

abbrev pub empty {ℓ κ} : {K : Type ℓ} {V : Type κ} → HashMap K V
empty = []

module _ {ℓ κ} {K : Type ℓ} {V : Type κ} where
  abbrev pub keys : HashMap K V → List K
  keys = map (λ e. e.0)

  abbrev pub values : HashMap K V → List V
  values = map (λ e. e.1)

pub beq_refl {ℓ} : {K : Type ℓ} ⦃e : Eq K⦄ (k : K) → e.beq k k ≡ true
beq_refl ⦃e⦄ k = (e.beq_iff k k).1 refl

module _ {ℓ κ} {K : Type ℓ} {V : Type κ} ⦃e : Eq K⦄ where
  unfoldable pub get : K → HashMap K V → Option V
  get k [] = none
  get k ((j, v) ∷ m) = if e.beq j k then some v else get k m

  unfoldable pub remove : K → HashMap K V → HashMap K V
  remove k [] = []
  remove k ((j, v) ∷ m) = let rest = remove k m in if e.beq j k then rest else (j, v) ∷ rest

  unfoldable pub insert : K → V → HashMap K V → HashMap K V
  insert k v [] = (k, v) ∷ []
  insert k v ((j, w) ∷ m) = if e.beq j k then (k, v) ∷ m else (j, w) ∷ insert k v m

  pub get-insert :
      (j k : K) (v : V) (m : HashMap K V)
      → get j (insert k v m) ≡ (if e.beq k j then some v else get j m)
  unfolding get insert
  get-insert j k v [] = refl
  get-insert j k v ((i, w) ∷ m) =
      ground (arith, e.beq_iff k j, e.beq_iff i k, e.beq_iff i j, get-insert j k v m)

  pub get_same : (k : K) (v : V) (m : HashMap K V) → get k (insert k v m) ≡ some v
  get_same k v m = get-insert k k v m ∙ rw (beq_refl k) refl

  pub get-remove :
      (j k : K) (m : HashMap K V) → get j (remove k m) ≡ (if e.beq k j then none else get j m)
  unfolding get remove
  get-remove j k [] = ground arith
  get-remove j k ((i, w) ∷ m) =
      ground (arith, e.beq_iff k j, e.beq_iff i k, e.beq_iff i j, get-remove j k m)

pub get-empty {ℓ κ} :
    {K : Type ℓ} {V : Type κ} ⦃e : Eq K⦄ (k : K) → get k (empty {K = K} {V = V}) ≡ none
unfolding get
get-empty k = refl

module _ {ℓ κ} {K : Type ℓ} {V : Type κ} ⦃e : Eq K⦄ where
  -- No two entries have one key.
  abbrev pub IsMap : HashMap K V → Type κ
  IsMap [] = Unit
  IsMap ((k, v) ∷ m) = (get k m ≡ none) × IsMap m

  pub insert-IsMap : (k : K) (v : V) (m : HashMap K V) → IsMap m → IsMap (insert k v m)
  unfolding insert get
  insert-IsMap k v [] f = (refl, tt)
  insert-IsMap k v ((j, w) ∷ m) f =
      ground (arith, e.beq_iff j k, e.beq_iff k j, insert-IsMap k v m, get-insert j k v m)

  Found_under_cons :
      (j : K) (w : V) (m n : HashMap K V)
      → get j m ≡ none
      → All (λ c. get c.0 m ≡ some c.1) n
      → All (λ c. get c.0 ((j, w) ∷ m) ≡ some c.1) n
  unfolding get
  Found_under_cons j w m [] f a = tt
  Found_under_cons j w m (c ∷ n) f a =
      (ground (arith, e.beq_iff j c.0, a.0, f), Found_under_cons j w m n f a.1)

  -- A lookup finds every entry of a map.
  pub entries_found : (m : HashMap K V) → IsMap m → All (λ c. get c.0 m ≡ some c.1) m
  unfolding get
  entries_found [] f = tt
  entries_found ((j, w) ∷ m) f =
      (ground (arith, beq_refl j), Found_under_cons j w m m f.0 (entries_found m f.1))

pub ruleset map_laws = (get-empty, get-insert, get-remove)
