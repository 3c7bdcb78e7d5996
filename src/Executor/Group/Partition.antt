-- ===== src/Executor/Group/Partition.antt =====
-- GROUP BY of crates/rustafari-executor/src/lib.rs: the groups that a run over the rows builds.
use Prim.Native.String.{compare as compare_text}
use rustafari_db.Common.{
  ℕ, ◌≡◌, refl, ◌∙◌, sym, ap, String, true, false, List, [], ◌∷◌, ◌++◌, Option, none, some, arith,
  filter, if◌then◌else◌, append_assoc, append-nil, Option-cases, inl, inr,
}
use text.Mathlib.TextEquality.{path_by_compare}
use rustafari_db.Common.BTreeMap
use rustafari_db.Common.BTreeMap.{is_eq, get-insert}
use rustafari_db.Common.TextOrder.{text_ord}
use rustafari_db.Core.Host.{Host}
use rustafari_db.Core.Row.{Row}
use rustafari_db.Core.Value.{Value}
use rustafari_db.Executor.Group.{Groups, group_key, key_values, add_to_group, build_groups}

module _ {h : Host} (debug : Value h → String) (indices : List ℕ) where
  abbrev pub key_of : Row h → String
  key_of r = group_key debug (key_values r indices)

  -- The rows that have the key, in order.
  abbrev pub rows_with : String → List (Row h) → List (Row h)
  rows_with key = filter (λ r. is_eq (compare_text key (key_of r)))

  -- A group with rows added; the values of its key are those of its first row.
  abbrev pub extend :
      Option (List (Value h) × List (Row h)) → List (Row h) → Option (List (Value h) × List (Row h))
  extend none [] = none
  extend none (r ∷ rs) = some (key_values r indices, r ∷ rs)
  extend (some (vals, found)) rs = some (vals, found ++ rs)

  get-add_to_group :
      (key : String) (r : Row h) (m : Groups h)
      → BTreeMap.get key (add_to_group (key_of r) (key_values r indices) r m) ≡ (
          if is_eq (compare_text key (key_of r))
          then extend (BTreeMap.get key m) (r ∷ [])
          else BTreeMap.get key m)
  unfolding add_to_group
  get-add_to_group key r m = elim (Option-cases (BTreeMap.get (key_of r) m)) [
    | inl missing ↦ ground (
      arith,
      missing,
      get-insert key (key_of r) (key_values r indices, r ∷ []) m,
      path_by_compare key (key_of r),
    )
    | inr ((vals, found), there) ↦ ground (
      arith,
      there,
      get-insert key (key_of r) (vals, found ++ r ∷ []) m,
      path_by_compare key (key_of r),
    )
  ]

  extend-extend :
      (g : Option (List (Value h) × List (Row h))) (r : Row h) (rs : List (Row h))
      → extend (extend g (r ∷ [])) rs ≡ extend g (r ∷ rs)
  extend-extend none r rs = refl
  extend-extend (some (vals, found)) r rs =
      ap (λ xs. some (vals, xs)) (append_assoc found (r ∷ []) rs)

  extend_nothing : (g : Option (List (Value h) × List (Row h))) → extend g [] ≡ g
  extend_nothing none = refl
  extend_nothing (some (vals, found)) = ap (λ xs. some (vals, xs)) (append-nil found)

  get-build_groups_from :
      (key : String) (rs : List (Row h)) (m : Groups h)
      → BTreeMap.get key (build_groups debug indices rs m)
        ≡ extend (BTreeMap.get key m) (rows_with key rs)
  unfolding build_groups
  get-build_groups_from key [] m = sym (extend_nothing (BTreeMap.get key m))
  get-build_groups_from key (r ∷ rs) m =
      let before : Option (List (Value h) × List (Row h)) = BTreeMap.get key m in
      get-build_groups_from key rs (add_to_group (key_of r) (key_values r indices) r m)
      ∙ ap (λ g. extend g (rows_with key rs)) (get-add_to_group key r m)
      ∙ elim (is_eq (compare_text key (key_of r)))
          as (λ b.
            extend (if b then extend before (r ∷ []) else before) (rows_with key rs)
            ≡ extend before (if b then r ∷ rows_with key rs else rows_with key rs)) [
              | true ↦ extend-extend before r (rows_with key rs)
              | false ↦ refl
            ]

  -- GROUP BY sorts the rows into groups by key: the group of a key holds exactly the rows that have
  -- the key, in the order of the input, with the key values of the first of them, and a key that no
  -- row has is not there.
  pub get-build_groups :
      (key : String) (rs : List (Row h))
      → BTreeMap.get key (build_groups debug indices rs []) ≡ extend none (rows_with key rs)
  unfolding BTreeMap.get
  get-build_groups key rs = get-build_groups_from key rs []
