-- ===== src/Core/Row.antt =====
-- crates/rustafari-core/src/row.rs
use rustafari_db.Common.{
  ℕ, String, Bool, true, false, List, [], ◌∷◌, Option, none, some, length, get_elem?,
}
use rustafari_db.Core.Host.{Host}
use rustafari_db.Core.Value.{Value}
use rustafari_db.Core.Schema.{Schema, column_index}

pub record Row (h : Host) : Type 0 where
  pub values : List (Value h)

unfoldable pub new : {h : Host} → List (Value h) → Row h
new values = record { values = values }

unfoldable pub get : {h : Host} → Row h → ℕ → Option (Value h)
get r index = get_elem? r.values index

unfoldable pub get_by_name : {h : Host} → Row h → Schema → String → Option (Value h)
unfolding get
get_by_name r schema name = elim (column_index schema name) [ none ↦ none | some i ↦ get r i ]

unfoldable pub len : {h : Host} → Row h → ℕ
len r = length r.values

unfoldable pub is_empty : {h : Host} → Row h → Bool
is_empty r = elim r.values [ [] ↦ true | _ ∷ _ ↦ false ]
