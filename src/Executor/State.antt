-- ===== src/Executor/State.antt =====
-- `SessionState` of crates/rustafari-executor/src/lib.rs. The shared parts of a session are fields
-- of one record; an operation runs to its end before the next, and what it changed before an error
-- or a panic stays changed.
pub mod Buffer
use rustafari_db.Common.{
  ℕ, String, Bool, true, false, List, [], ◌∷◌, ◌++◌, Option, none, some, map, length, leb, ltb,
  if◌then◌else◌, ◌≡◌, refl,
}
use rustafari_db.Common.HashMap
use rustafari_db.Common.HashMap.{HashMap, nat_eq, string_eq, pair_eq}
use rustafari_db.Common.Sort.{sort_strings}
use rustafari_db.Core.Catalog
use rustafari_db.Core.Catalog.{Catalog, TableId, TableMeta}
use rustafari_db.Core.Error.{RustafariError, Result, ok, err, panic}
use rustafari_db.Core.Host.{Host}
use rustafari_db.Core.Row
use rustafari_db.Core.Row.{Row}
use rustafari_db.Core.Schema.{Schema, Column, column_index}
use rustafari_db.Core.Value.{Value, null}
use rustafari_db.Index.BTree.{BTreeIndex}
use rustafari_db.Storage.Columnar
use rustafari_db.Storage.Columnar.{ColumnChunk, ColumnarChunk, ColumnarStore, columnar_chunk_size}
use rustafari_db.Storage.TableStore
use rustafari_db.Storage.TableStore.{TableStore}

pub record SessionState (h : Host) : Type 0 where
  pub catalog : Catalog
  pub row_store : TableStore h
  pub columnar_store : ColumnarStore h
  pub index_store : HashMap (TableId × String) BTreeIndex
  pub columnar_buffer : HashMap TableId (List (Row h))

-- `unwrap_or(0)`
abbrev pub or_zero : Option ℕ → ℕ
or_zero none = 0
or_zero (some n) = n

-- `unwrap_or("public")`
abbrev pub or_public : Option String → String
or_public none = "public"
or_public (some ns) = ns

-- A step of a session: its outcome, and the state that it leaves in every case.
abbrev pub Exec {ℓ} : Host → Type ℓ → Type ℓ
Exec h A = SessionState h → Result A × SessionState h

module _ {h : Host} where
  abbrev pub pure {ℓ} : {A : Type ℓ} → A → Exec h A
  pure a s = (ok a, s)

  abbrev pub lift {ℓ} : {A : Type ℓ} → Result A → Exec h A
  lift r s = (r, s)

  abbrev pub continue {ℓ κ} : {A : Type ℓ} {B : Type κ} → Result A → (A → Exec h B) → Exec h B
  continue (ok a) f s = f a s
  continue (err e) f s = (err e, s)
  continue panic f s = (panic, s)

  infixl 5 ◌>>=◌ ◌>>◌
  abbrev pub ◌>>=◌ {ℓ κ} : {A : Type ℓ} {B : Type κ} → Exec h A → (A → Exec h B) → Exec h B
  ◌>>=◌ m f s = let (r, s') = m s in continue r f s'

  abbrev pub ◌>>◌ {ℓ κ} : {A : Type ℓ} {B : Type κ} → Exec h A → Exec h B → Exec h B
  m >> n = m >>= λ _. n

  abbrev pub new : SessionState h
  new = record {
    catalog = Catalog.new;
    row_store = TableStore.new;
    columnar_store = Columnar.new;
    index_store = HashMap.empty;
    columnar_buffer = HashMap.empty;
  }

  abbrev pub or_null : Option (Value h) → Value h
  or_null none = null
  or_null (some v) = v

  -- One column of the buffered rows: the values at the index that the schema gives for its name.
  abbrev pub build_column : Schema → List (Row h) → Column → ColumnChunk h
  build_column schema rows col =
      let idx = or_zero (column_index schema col.name) in
      record { column_name = col.name; values = map (λ r. or_null (Row.get r idx)) rows }

  -- The columns of a new chunk.
  unfoldable pub build_columns : Schema → List (Row h) → List (ColumnChunk h)
  unfolding column_index Row.get
  build_columns schema rows = map (build_column schema rows) schema.columns

  -- The chunk of the rows taken from the buffer, added to the columnar store.
  unfoldable pub store_chunk : TableId → Schema → List (Row h) → SessionState h → SessionState h
  unfolding build_columns
  store_chunk table_id schema rows s =
      let (c, id) = Columnar.next_chunk_id s.columnar_store in
      record s {
        columnar_store =
            Columnar.insert_chunk c table_id (Columnar.new_chunk id (build_columns schema rows));
      }

  abbrev pub buffered : SessionState h → TableId → List (Row h)
  buffered s table_id = elim (HashMap.get table_id s.columnar_buffer) [
    | none ↦ []
    | some rows ↦ rows
  ]

  abbrev pub set_buffer : TableId → List (Row h) → SessionState h → SessionState h
  set_buffer table_id rows s = record s {
    columnar_buffer = HashMap.insert table_id rows s.columnar_buffer;
  }

  -- A buffer that is missing or empty is left alone.
  unfoldable pub flush_columnar_buffer : TableId → Schema → SessionState h → SessionState h
  flush_columnar_buffer table_id schema s = elim (buffered s table_id) [
    | [] ↦ s
    | r ∷ rs ↦ store_chunk table_id schema (r ∷ rs) (set_buffer table_id [] s)
  ]

  unfoldable pub push_columnar_row : TableId → Row h → Schema → SessionState h → SessionState h
  push_columnar_row table_id row schema s =
      let rows = buffered s table_id ++ row ∷ [] in
      if ltb (length rows) columnar_chunk_size
      then set_buffer table_id rows s
      else store_chunk table_id schema rows (set_buffer table_id [] s)

  unfoldable pub get_index : SessionState h → TableId → String → Option BTreeIndex
  get_index s table_id column = HashMap.get (table_id, column) s.index_store

  unfoldable pub table_meta : SessionState h → Option String → String → Option TableMeta
  table_meta s namespace table = Catalog.get_table s.catalog (or_public namespace) table

  unfoldable pub list_databases : SessionState h → List String
  list_databases s = Catalog.list_namespaces s.catalog

  unfoldable pub list_tables : SessionState h → Option String → List String
  list_tables s namespace =
      sort_strings (map (λ m. m.name) (Catalog.list_tables s.catalog (or_public namespace)))
