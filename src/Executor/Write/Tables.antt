-- ===== src/Executor/Write/Tables.antt =====
-- CREATE TABLE and DROP TABLE of crates/rustafari-executor/src/lib.rs, over all stores of a session.
use rustafari_db.Common.{
  ℕ, ◌-◌, ◌<◌, ◌≡◌, refl, String, true, not, ◌&&◌, List, [], ◌∷◌, map, Option, none, some, arith,
  filter, u64_mod, ◌==◌, if◌then◌else◌,
}
use text.Mathlib.Text.{◌==◌ as str_eq}
use rustafari_db.Common.HashMap
use rustafari_db.Common.HashMap.{HashMap, get_same, get-insert, nat_eq, string_eq, pair_eq}
use rustafari_db.Core.Catalog
use rustafari_db.Core.Catalog.{TableId, TableMeta}
use rustafari_db.Core.Catalog.Invariant as CatalogInvariant
use rustafari_db.Core.Catalog.Tables.{get_table-create_table, get_table-drop_table}
use rustafari_db.Core.Error.{ok}
use rustafari_db.Core.Host.{Host}
use rustafari_db.Core.Schema
use rustafari_db.Core.Schema.{Schema, ColumnType, new_column, column_index}
use rustafari_db.Common.BTreeMap
use rustafari_db.Index.BTree
use rustafari_db.Index.BTree.{BTreeIndex}
use rustafari_db.Storage.Columnar
use rustafari_db.Storage.Columnar.Sums.{chunks_after}
use rustafari_db.Storage.TableStore.Rows.{IsValid, rows_of}
use rustafari_db.Storage.TableStore.Tables.{drop_table-rows_of}
use rustafari_db.Executor.State.{SessionState, get_index, or_public}
use rustafari_db.Executor.Read.{rows_affected, find_table}
use rustafari_db.Executor.Write.{execute_create_table, execute_drop_table}
use rustafari_db.Executor.Write.Rows.{Indexed}

pub get_of_other :
    (t u : TableId) (c : String) (m : HashMap (TableId × String) BTreeIndex)
    → HashMap.get (u, c) (filter (λ e. not (e.0.0 == t)) m)
      ≡ (if t == u then none else HashMap.get (u, c) m)
unfolding HashMap.get
get_of_other t u c [] = ground arith
get_of_other t u c (e ∷ m) = ground (arith, get_of_other t u c m)

abbrev pub schema_of : List (String × ColumnType) → Schema
schema_of columns = Schema.new (map (λ c. new_column c.0 c.1 true) columns)

pub new_table_meta :
    (c : Catalog.Catalog) (namespace name : String) (schema : Schema)
    → ((Catalog.create_table c namespace name schema none).1.schema ≡ schema)
      × ((Catalog.create_table c namespace name schema none).1.id ≡ c.next_table_id)
unfolding Catalog.create_table Catalog.add_table Catalog.ensure_namespace
new_table_meta c namespace name schema = (refl, ground arith)

module _ {h : Host} where
  -- DROP TABLE of a table that is there succeeds unless its identifier is the last `u64`. The table
  -- is then not found, and has no rows, no chunks and no index; every other table is found as before
  -- and keeps its rows, chunks and indexes. What waits in the columnar buffer is left, that of the
  -- dropped table too. The catalog is valid.
  pub execute_drop_table-state :
      (table : String) (namespace : Option String) (s : SessionState h) (meta : TableMeta)
      → find_table s namespace table ≡ ok meta
      → meta.id < u64_mod - 1
      → CatalogInvariant.IsValid s.catalog
      → (s' : SessionState h) × (execute_drop_table table namespace s ≡ (ok (rows_affected 0), s'))
        × ((ns name : String)
            → Catalog.get_table s'.catalog ns name ≡ (
                if str_eq (or_public namespace) ns && str_eq table name
                then none
                else Catalog.get_table s.catalog ns name))
        × ((u : TableId)
            → rows_of s'.row_store u ≡ (if meta.id == u then [] else rows_of s.row_store u))
        × ((u : TableId)
            → Columnar.chunks s'.columnar_store u
              ≡ (if meta.id == u then [] else Columnar.chunks s.columnar_store u))
        × ((u : TableId) (c : String)
            → get_index s' u c ≡ (if meta.id == u then none else get_index s u c))
        × (s'.columnar_buffer ≡ s.columnar_buffer)
  unfolding execute_drop_table get_index
  execute_drop_table-state table namespace s meta found below v =
      let (store, drops, left) = drop_table-rows_of s.row_store meta.id below in
      (
        record s {
          catalog = (Catalog.drop_table s.catalog (or_public namespace) table).0;
          row_store = store;
          columnar_store = Columnar.drop_table s.columnar_store meta.id;
          index_store = filter (λ e. not (e.0.0 == meta.id)) s.index_store;
        },
        ground (arith, found, drops),
        λ ns name. get_table-drop_table s.catalog (or_public namespace) table ns name v,
        left,
        λ u. (chunks_after s.columnar_store meta.id u (Columnar.new_chunk 0 [])).1,
        λ u c. get_of_other meta.id u c s.index_store,
        refl,
      )

  -- CREATE TABLE always succeeds; the new table is then found under its name, with the schema of its
  -- columns and the next identifier, and every other table as before. The catalog is valid.
  pub execute_create_table-state :
      (table : String) (namespace : Option String) (columns : List (String × ColumnType))
      (s : SessionState h)
      → CatalogInvariant.IsValid s.catalog
      → (s' : SessionState h) × (meta : TableMeta) × (execute_create_table table namespace columns s
          ≡ (ok (rows_affected 0), s'))
        × (meta.schema ≡ schema_of columns)
        × (meta.id ≡ s.catalog.next_table_id)
        × ((ns name : String)
            → Catalog.get_table s'.catalog ns name ≡ (
                if str_eq (or_public namespace) ns && str_eq table name
                then some meta
                else Catalog.get_table s.catalog ns name))
        × (s'.row_store ≡ s.row_store)
  unfolding execute_create_table
  execute_create_table-state table namespace columns s v = (
    (execute_create_table table namespace columns s).1,
    (Catalog.create_table s.catalog (or_public namespace) table (schema_of columns) none).1,
    refl,
    (new_table_meta s.catalog (or_public namespace) table (schema_of columns)).0,
    (new_table_meta s.catalog (or_public namespace) table (schema_of columns)).1,
    λ ns name.
        get_table-create_table s.catalog (or_public namespace) table (schema_of columns) none ns
          name v,
    refl,
  )

  -- A new table that has a column `id`, and whose identifier has no rows yet, has an index on `id` that
  -- agrees with the rows. The row store is valid.
  pub execute_create_table-Indexed :
      (table : String) (namespace : Option String) (columns : List (String × ColumnType))
      (s : SessionState h) (col : ℕ)
      → IsValid s.row_store
      → column_index (schema_of columns) "id" ≡ some col
      → rows_of s.row_store s.catalog.next_table_id ≡ []
      → Indexed s.catalog.next_table_id col (execute_create_table table namespace columns s).1
  unfolding execute_create_table get_index BTree.get BTreeMap.get
  execute_create_table-Indexed table namespace columns s col v at fresh = record {
    valid = v;
    ix = BTree.new;
    index =
        let (schema, id) =
          new_table_meta s.catalog (or_public namespace) table (schema_of columns) in
        ground
          (arith, schema, id, at, get_same (s.catalog.next_table_id, "id") BTree.new s.index_store);
    agrees = λ key. ground (arith, fresh);
  }
