-- ===== src/Core/Schema.antt =====
-- crates/rustafari-core/src/schema.rs
pub mod Index
use rustafari_db.Common.{ℕ, suc, ◌+◌, String, Bool, List, [], ◌∷◌, Option, none, some, get_elem?}
use rustafari_db.Common.HashMap
use rustafari_db.Common.HashMap.{HashMap, string_eq}

pub data ColumnType : Type 0 where
  big_int double : ColumnType
  varchar : Option ℕ → ColumnType
  text boolean timestamp date blob document : ColumnType
  array : ColumnType → ColumnType
  vector : ℕ → ColumnType

pub record Column : Type 0 where
  pub name : String
  pub data_type : ColumnType
  pub nullable : Bool

unfoldable pub new_column : String → ColumnType → Bool → Column
new_column name data_type nullable = record {
  name = name;
  data_type = data_type;
  nullable = nullable;
}

pub record Schema : Type 0 where
  pub columns : List Column
  pub name_to_index : HashMap String ℕ

-- `columns.iter().enumerate().map(|(i, c)| (c.name.clone(), i)).collect()`, from the index `i`.
unfoldable pub collect_index : ℕ → List Column → HashMap String ℕ → HashMap String ℕ
collect_index i [] m = m
collect_index i (c ∷ cs) m = collect_index (suc i) cs (HashMap.insert c.name i m)

unfoldable pub new : List Column → Schema
new columns = record { columns = columns; name_to_index = collect_index 0 columns HashMap.empty }

unfoldable pub column_index : Schema → String → Option ℕ
column_index s name = HashMap.get name s.name_to_index

-- `&self.columns[i]` panics out of range; `Index` shows that a built schema holds no such index.
unfoldable pub column_by_name : Schema → String → Option Column
unfolding column_index
column_by_name s name = elim (column_index s name) [ none ↦ none | some i ↦ get_elem? s.columns i ]

unfoldable pub rebuild_name_to_index : Schema → Schema
rebuild_name_to_index s = record s { name_to_index = collect_index 0 s.columns HashMap.empty }

unfoldable pub default : Schema
default = record { columns = []; name_to_index = HashMap.empty }
