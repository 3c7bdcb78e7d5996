-- ===== src/Core/Schema/Index.antt =====
-- The name index of a schema against the columns that it was built from.
use text.Mathlib.Text.{◌==◌ as str_eq}
use text.Mathlib.TextEquality.{eq_iff}
use rustafari_db.Common.{
  ℕ, suc, ◌-◌, ◌≤◌, ◌⊎◌, inl, inr, String, ◌≡◌, refl, List, [], ◌∷◌, Option, none, some, arith,
  Bool-cases, get_elem?, if◌then◌else◌,
}
use rustafari_db.Common.HashMap
use rustafari_db.Common.HashMap.{HashMap, string_eq, get-insert, get-empty}
use rustafari_db.Core.Schema.{Column, collect_index, new, column_index, column_by_name}

-- The last position, counted from `i`, of a column with the name, or else `found`.
abbrev pub last_index : String → ℕ → List Column → Option ℕ → Option ℕ
last_index name i [] found = found
last_index name i (c ∷ cs) found =
    last_index name (suc i) cs (if str_eq c.name name then some i else found)

get-collect_index :
    (name : String) (i : ℕ) (cs : List Column) (m : HashMap String ℕ)
    → HashMap.get name (collect_index i cs m) ≡ last_index name i cs (HashMap.get name m)
unfolding collect_index
get-collect_index name i [] m = refl
get-collect_index name i (c ∷ cs) m = ground (
  arith,
  get-collect_index name (suc i) cs (HashMap.insert c.name i m),
  get-insert name c.name i m,
)

-- A built schema finds, for every name, the last column that bears it, and nothing for a name that
-- no column bears.
pub column_index-new :
    (cs : List Column) (name : String) → column_index (new cs) name ≡ last_index name 0 cs none
unfolding column_index new
column_index-new cs name =
    ground (arith, get-collect_index name 0 cs HashMap.empty, get-empty {V = ℕ} name)

-- Where a search started at `i` hits inside the columns, the column there bears the name.
last_index_hit :
    (name : String) (i : ℕ) (cs : List Column) (found : Option ℕ) (k : ℕ)
    → last_index name i cs found ≡ some k
    → (found ≡ some k)
      ⊎ ((c : Column) × (i ≤ k) × (get_elem? cs (k - i) ≡ some c) × (c.name ≡ name))
last_index_hit name i [] found k h = inl h
last_index_hit name i (c ∷ cs) found k h = elim (last_index_hit name (suc i) cs _ k h) [
  | inr (d, le, at, eq) ↦
      let e : k - i ≡ suc (k - suc i) = omega arith in inr (d, omega arith, rw e at, eq)
  | inl p ↦ elim (Bool-cases (str_eq c.name name)) [
    | inl same ↦
        let q : some i ≡ some k = rw same at p in
        let e : k - i ≡ 0 = ground arith in inr (c, ground arith, rw e, (eq_iff c.name name).0 same)
    | inr other ↦ inl (rw other at p)
  ]
]

-- An index that a built schema gives is in range, and the column there bears the name; so
-- `column_by_name` returns that column, and its indexing never panics.
pub column_index-column_by_name :
    (cs : List Column) (name : String) (i : ℕ)
    → column_index (new cs) name ≡ some i
    → (c : Column) × (get_elem? cs i ≡ some c)
      × (c.name ≡ name)
      × (column_by_name (new cs) name ≡ some c)
unfolding column_by_name
column_index-column_by_name cs name i h =
    elim (last_index_hit name 0 cs none i (rw column_index-new at h)) [
      | inl p ↦ cc
      | inr (c, le, at, eq) ↦
          let e : i - 0 ≡ i = omega arith in
          let found : get_elem? cs i ≡ some c = rw e at at in
          (c, found, eq, unfold new in rw (h, column_by_name) found)
    ]
