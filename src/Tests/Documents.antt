-- ===== src/Tests/Documents.antt =====
-- The theorems on filters and collections at concrete inputs.
use rustafari_db.Common.{
  ℕ, ◌≡◌, refl, String, true, not, [], ◌∷◌, Option, some, ◌==◌, arith, filter, if◌then◌else◌,
}
use rustafari_db.Common.Int.{pos}
use rustafari_db.Core.Catalog.{TableId}
use rustafari_db.Core.Error.{ok}
use rustafari_db.Core.Row
use rustafari_db.Core.Row.{Row}
use rustafari_db.Core.Schema
use rustafari_db.Core.Schema.{ColumnType}
use rustafari_db.Core.Value.{Value, int64, string}
use rustafari_db.Storage.TableStore
use rustafari_db.Storage.TableStore.{TableStore}
use rustafari_db.Storage.TableStore.Rows.{IsValid, rows_of, new-IsValid, insert-IsValid}
use rustafari_db.Document.Collection
use rustafari_db.Document.Collection.{DocumentCollection, accepts, find, delete_many}
use rustafari_db.Document.Collection.Rows.{delete_many-rows_of}
use rustafari_db.Document.Filter.{
  DocFilter, done, condition, Filters, no_filter, more, cmp, none_of, gt_op, lt_op, gte_op, eq_op,
  filter_from_json,
}
use rustafari_db.Document.Filter.RoundTrip.{
  filter_to_json, IsPrintable, IsJson, filter_from_json-filter_to_json,
}
use rustafari_db.Tests.Fixtures.{host}

abbrev collection : DocumentCollection
collection = Collection.new 3 (Schema.new (Schema.new_column "age" ColumnType.big_int true ∷ []))

abbrev old : DocFilter host
old = condition (cmp "age" gt_op (int64 (pos 40))) done

abbrev stored : TableStore host
stored = (TableStore.insert TableStore.new 3 (Row.new (int64 (pos 41) ∷ []))).0

stored-IsValid : IsValid stored
stored-IsValid =
    insert-IsValid TableStore.new 3 (Row.new (int64 (pos 41) ∷ [])) (omega arith) new-IsValid

delete_many-rows_of_example :
    (s' : TableStore host) × (n : ℕ) × (delete_many collection (some old) stored ≡ ok (s', n))
    × ((u : TableId)
        → rows_of s' u ≡ (
            if 3 == u
            then filter (λ r. not (accepts collection.schema (some old) r.1)) (rows_of stored u)
            else rows_of stored u))
    × (find collection (some old) s' ≡ ok [])
delete_many-rows_of_example =
    delete_many-rows_of collection (some old) stored stored-IsValid (omega arith)

abbrev get_age : String → Option (Value host)
get_age _ = some (int64 (pos 41))

abbrev two_filters : Filters host
two_filters = more old (more (condition (cmp "age" lt_op (int64 (pos 50))) done) no_filter)

abbrev forty : Value host
forty = int64 (pos 40)

abbrev fifty : Value host
fifty = int64 (pos 50)

-- { "$not": { "name": { "$eq": "bob" } }, "age": { "$gte": 18 } }
abbrev printable : DocFilter host
printable =
    condition (none_of (condition (cmp "name" eq_op (string "bob")) done))
      (condition (cmp "age" gte_op (int64 (pos 18))) done)

filter_from_json-filter_to_json_example : filter_from_json (filter_to_json printable) ≡ ok printable
unfolding IsPrintable IsJson
filter_from_json-filter_to_json_example =
    filter_from_json-filter_to_json printable (((refl, tt), tt, tt), refl, ((refl, tt), tt, tt))
