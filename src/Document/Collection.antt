-- ===== src/Document/Collection.antt =====
-- crates/rustafari-document/src/coll.rs. The row store that a collection shares with others is the
-- state of its operations.
pub mod Rows
use rustafari_db.Common.{
  ℕ, String, Bool, true, false, List, [], ◌∷◌, Option, none, some, next_u64, if◌then◌else◌,
}
use rustafari_db.Core.Catalog.{TableId}
use rustafari_db.Core.Error.{Result, ok, err, panic, ◌>>=◌}
use rustafari_db.Core.Host.{Host}
use rustafari_db.Core.Row
use rustafari_db.Core.Row.{Row}
use rustafari_db.Core.Schema.{Schema, column_index}
use rustafari_db.Core.Value.{Value}
use rustafari_db.Document.Filter.{DocFilter, matches_filter}
use rustafari_db.Storage.TableStore
use rustafari_db.Storage.TableStore.{TableStore, RowId}

pub record DocumentCollection : Type 0 where
  pub table_id : TableId
  pub schema : Schema

abbrev pub new : TableId → Schema → DocumentCollection
new table_id schema = record { table_id = table_id; schema = schema }

module _ {h : Host} where
  unfoldable pub insert_one : DocumentCollection → Row h → TableStore h → TableStore h × RowId
  unfolding TableStore.insert
  insert_one c row store = TableStore.insert store c.table_id row

  -- The closure `get_field` of `find`.
  unfoldable pub field_in : Schema → Row h → String → Option (Value h)
  unfolding column_index Row.get
  field_in schema row name = elim (column_index schema name) [
    | none ↦ none
    | some i ↦ Row.get row i
  ]

  abbrev pub accepts : Schema → Option (DocFilter h) → Row h → Bool
  accepts schema none row = true
  accepts schema (some f) row = matches_filter (field_in schema row) f

  -- The loop of `find`.
  unfoldable pub find_loop :
      Schema → Option (DocFilter h) → List (RowId × Row h) → List (RowId × Row h)
  unfolding field_in matches_filter
  find_loop schema filter [] = []
  find_loop schema filter ((rid, row) ∷ rest) =
      let out = find_loop schema filter rest in
      if accepts schema filter row then (rid, row) ∷ out else out

  unfoldable pub find :
      DocumentCollection → Option (DocFilter h) → TableStore h → Result (List (RowId × Row h))
  unfolding find_loop TableStore.scan
  find c filter store = do
    rows ← TableStore.scan store c.table_id
    ok (find_loop c.schema filter rows)

  abbrev pub first : List (RowId × Row h) → Option (RowId × Row h)
  first [] = none
  first (x ∷ _) = some x

  unfoldable pub find_one :
      DocumentCollection → Option (DocFilter h) → TableStore h → Result (Option (RowId × Row h))
  unfolding find
  find_one c filter store = do rows ← find c filter store; ok (first rows)

  -- The loop of `delete_many`, with the count so far.
  unfoldable pub delete_loop : TableId → List (RowId × Row h) → TableStore h → ℕ → TableStore h × ℕ
  unfolding TableStore.delete
  delete_loop table_id [] store n = (store, n)
  delete_loop table_id ((rid, row) ∷ rest) store n =
      let (store', gone) = TableStore.delete store table_id rid in
      delete_loop table_id rest store' (if gone then next_u64 n else n)

  unfoldable pub delete_many :
      DocumentCollection → Option (DocFilter h) → TableStore h → Result (TableStore h × ℕ)
  unfolding find delete_loop
  delete_many c filter store = do
    to_delete ← find c filter store
    ok (delete_loop c.table_id to_delete store 0)
