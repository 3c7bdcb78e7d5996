-- ===== src/Tests/Session.antt =====
-- The executor's theorems at a session with the table `people`.
use rustafari_db.Common.{
  ℕ, ◌≡◌, refl, String, true, ◌&&◌, [], ◌∷◌, none, ◌==◌, arith, inr, if◌then◌else◌,
}
use text.Mathlib.Text.{◌==◌ as str_eq}
use rustafari_db.Common.HashMap
use rustafari_db.Common.BTreeMap
use rustafari_db.Common.HashMap.{HashMap, nat_eq, string_eq}
use rustafari_db.Common.Int.{pos}
use rustafari_db.Core.Catalog
use rustafari_db.Core.Catalog.{TableId, TableMeta}
use rustafari_db.Core.Catalog.Invariant as CatalogInvariant
use rustafari_db.Core.Error.{Result, ok}
use rustafari_db.Core.Row
use rustafari_db.Core.Row.{Row}
use rustafari_db.Core.Schema
use rustafari_db.Core.Schema.{Schema, ColumnType, column_index}
use rustafari_db.Core.Value.{int64, string}
use rustafari_db.Index.BTree
use rustafari_db.Index.BTree.{BTreeIndex, from_value}
use rustafari_db.Storage.TableStore
use rustafari_db.Storage.TableStore.{RowId, TableStore}
use rustafari_db.Storage.TableStore.Rows.{rows_of, new-IsValid}
use rustafari_db.Storage.Columnar
use rustafari_db.Storage.Columnar.{ColumnarChunk}
use rustafari_db.Executor.State
use rustafari_db.Executor.State.{
  SessionState, table_meta, get_index, or_public, buffered, push_columnar_row,
  flush_columnar_buffer, continue,
}
use rustafari_db.Executor.State.Buffer.{has_column}
use rustafari_db.Executor.Read.{rows_affected, find_table}
use rustafari_db.Executor.Read.Lookup.{HasInts}
use rustafari_db.Executor.Write.{
  insert_row, index_row, insert_rows, execute_insert, execute_create_table, execute_drop_table,
}
use rustafari_db.Executor.Write.Rows.{
  Indexed, Inserted, insert_rows-Inserted, execute_insert-Inserted,
}
use rustafari_db.Executor.Write.Tables.{
  schema_of, execute_create_table-Indexed, execute_drop_table-state,
}
use rustafari_db.Tests.Fixtures.{
  host, columns, people, created, two_rows, filled, id_column, people-created,
}

created_at_zero-Indexed : Indexed 0 0 created
unfolding Schema.new Schema.collect_index Schema.new_column column_index HashMap.get HashMap.insert
created_at_zero-Indexed =
    execute_create_table-Indexed "people" none columns State.new 0 new-IsValid refl refl

pub people_id : people.id ≡ 0
unfolding Catalog.create_table Catalog.add_table Catalog.ensure_namespace HashMap.get
people_id = refl

pub created-Indexed : Indexed people.id 0 created
created-Indexed = rw people_id created_at_zero-Indexed

pub next_in_created : created.row_store.next_row_id ≡ 0
unfolding execute_create_table
next_in_created = refl

pub filled-Indexed : Indexed people.id 0 filled
filled-Indexed =
    (insert_rows-Inserted people 0 two_rows 0 created id_column (rw next_in_created (omega arith))
      created-Indexed).2

pub people-filled : find_table filled none "people" ≡ ok people
unfolding execute_create_table find_table table_meta Catalog.get_table Catalog.namespace_id
    Catalog.create_table Catalog.add_table Catalog.ensure_namespace Schema.new Schema.collect_index
    Schema.new_column column_index HashMap.get HashMap.insert insert_rows insert_row index_row
    push_columnar_row TableStore.insert BTreeMap.insert BTreeMap.get get_index from_value
    BTree.be_bytes BTree.insert BTree.get Row.new
people-filled = refl

pub filled_rows :
    rows_of filled.row_store people.id
    ≡ (0, Row.new (int64 (pos 7) ∷ string "ada" ∷ []))
      ∷ (1, Row.new (int64 (pos 9) ∷ string "bob" ∷ []))
      ∷ []
unfolding execute_create_table find_table table_meta Catalog.get_table Catalog.namespace_id
    Catalog.create_table Catalog.add_table Catalog.ensure_namespace Schema.new Schema.collect_index
    Schema.new_column column_index HashMap.get HashMap.insert insert_rows insert_row index_row
    push_columnar_row TableStore.insert BTreeMap.insert BTreeMap.get get_index from_value
    BTree.be_bytes BTree.insert BTree.get Row.new
filled_rows = refl

pub has_ints : HasInts 0 (rows_of filled.row_store people.id)
unfolding Row.new
has_ints = rw filled_rows (
  inr (inr (pos 7, refl, (omega arith, omega arith))),
  (inr (inr (pos 9, refl, (omega arith, omega arith))), tt),
)

execute_insert-Inserted_example :
    (r : Result ℕ) × (s' : SessionState host) × Inserted people.id 0 two_rows 0 created (r, s')
    × (execute_insert "people" none two_rows created
        ≡ continue r (λ n s'. (ok (rows_affected n), s')) s')
execute_insert-Inserted_example =
    execute_insert-Inserted "people" none two_rows created people 0 people-created id_column
      (rw next_in_created (omega arith)) created-Indexed

-- `filled` with a catalog of its own kept.
pub catalog_kept : filled.catalog ≡ created.catalog
unfolding execute_create_table Catalog.create_table Catalog.add_table Catalog.ensure_namespace
    Schema.new Schema.collect_index Schema.new_column column_index HashMap.get HashMap.insert
    insert_rows insert_row index_row push_columnar_row TableStore.insert BTreeMap.insert
    BTreeMap.get get_index from_value BTree.be_bytes BTree.insert BTree.get Row.new
catalog_kept = refl

pub created_IsValid : CatalogInvariant.IsValid created.catalog
unfolding execute_create_table
created_IsValid =
    CatalogInvariant.create_table-IsValid Catalog.new "public" "people" (schema_of columns) none
      (record { namespaces_left = omega arith; tables_left = omega arith })
      CatalogInvariant.new-IsValid

filled_IsValid : CatalogInvariant.IsValid filled.catalog
filled_IsValid = rw catalog_kept created_IsValid

execute_drop_table-state_example :
    (s' : SessionState host) × (execute_drop_table "people" none filled
      ≡ (ok (rows_affected 0), s'))
    × ((ns name : String)
        → Catalog.get_table s'.catalog ns name ≡ (
            if str_eq "public" ns && str_eq "people" name
            then none
            else Catalog.get_table filled.catalog ns name))
    × ((u : TableId)
        → rows_of s'.row_store u ≡ (if people.id == u then [] else rows_of filled.row_store u))
    × ((u : TableId)
        → Columnar.chunks s'.columnar_store u
          ≡ (if people.id == u then [] else Columnar.chunks filled.columnar_store u))
    × ((u : TableId) (c : String)
        → get_index s' u c ≡ (if people.id == u then none else get_index filled u c))
    × (s'.columnar_buffer ≡ filled.columnar_buffer)
execute_drop_table-state_example =
    execute_drop_table-state "people" none filled people people-filled (rw people_id (omega arith))
      filled_IsValid

pub has_id : has_column "id" people.schema.columns ≡ true
unfolding Catalog.create_table Catalog.add_table Catalog.ensure_namespace Schema.new
    Schema.new_column HashMap.get
has_id = refl
