-- ===== src/Tests/Stores.antt =====
-- The theorems on the catalog, the schema and the storage at concrete inputs.
use rustafari_db.Common.{
  ℕ, ◌≡◌, refl, true, ◌&&◌, List, [], ◌∷◌, ◌++◌, none, some, ◌==◌, ◌-◌, ◌+◌, length, arith,
  get_elem?, leb, ltb, if◌then◌else◌,
}
use rustafari_db.Common.HashMap.{nat_eq, string_eq}
use rustafari_db.Common.BTreeMap
use rustafari_db.Common.BTreeMap.{is_eq}
use rustafari_db.Common.Int.{ℤ, pos, negsuc}
use rustafari_db.Core.Catalog
use rustafari_db.Core.Catalog.{Catalog, TableId, TableMeta}
use rustafari_db.Core.Catalog.Invariant as CatalogInvariant
use rustafari_db.Core.Error.{ok}
use rustafari_db.Core.Row
use rustafari_db.Core.Row.{Row}
use rustafari_db.Core.Schema
use rustafari_db.Core.Schema.{Schema, Column, ColumnType, column_index, column_by_name}
use rustafari_db.Core.Value.{Value, int64, null}
use rustafari_db.Storage.Page
use rustafari_db.Storage.Page.{Page, PageId, read, write}
use rustafari_db.Storage.Page.Access.{new-IsValid as page-IsValid, write_fits, read-write}
use rustafari_db.Storage.TableStore
use rustafari_db.Storage.TableStore.{RowId, TableStore, cmp_key, is_some}
use rustafari_db.Storage.TableStore.Rows.{IsValid, new-IsValid, insert-IsValid}
use rustafari_db.Storage.TableStore.Tables.{scan-insert, row_after}
use rustafari_db.Storage.Columnar
use rustafari_db.Storage.Columnar.{ColumnarChunk, min_max_i64_slice, sum_i64_slice}
use rustafari_db.Storage.Columnar.Sums.{ints}
use rustafari_db.Storage.Columnar.Extrema.{AreExtrema, min_max_i64_slice-AreExtrema}
use rustafari_db.Tests.Fixtures.{host}

abbrev two_columns : List Column
two_columns =
    Schema.new_column "id" ColumnType.big_int true
    ∷ Schema.new_column "name" ColumnType.text true
    ∷ []

abbrev with_people : Catalog
with_people = (Catalog.create_table Catalog.new "public" "people" (Schema.new two_columns) none).0

room : CatalogInvariant.HasRoom Catalog.new
room = record { namespaces_left = omega arith; tables_left = omega arith }

Reach-IsValid_example :
    CatalogInvariant.IsValid (Catalog.drop_table with_people "public" "people").0
Reach-IsValid_example = CatalogInvariant.Reach-IsValid (
    CatalogInvariant.table_dropped "public" "people" (
      CatalogInvariant.table_created "public" "people" (Schema.new two_columns) none
        CatalogInvariant.start room))

with_people-IsValid : CatalogInvariant.IsValid with_people
with_people-IsValid =
    CatalogInvariant.create_table-IsValid Catalog.new "public" "people" (Schema.new two_columns)
      none room CatalogInvariant.new-IsValid

abbrev row_of : ℤ → Row host
row_of n = Row.new (int64 n ∷ [])

abbrev one_row : TableStore host
one_row = (TableStore.insert TableStore.new 3 (row_of (pos 1))).0

one_row-IsValid : IsValid one_row
one_row-IsValid = insert-IsValid TableStore.new 3 (row_of (pos 1)) (omega arith) new-IsValid

one_row-scan : TableStore.scan one_row 3 ≡ ok ((0, row_of (pos 1)) ∷ [])
unfolding TableStore.scan TableStore.table_range TableStore.insert BTreeMap.insert BTreeMap.range
one_row-scan = refl

scan-insert_example :
    TableStore.scan (TableStore.insert one_row 3 (row_of (pos 2))).0 3
    ≡ ok (
        if 3 == 3
        then ((0, row_of (pos 1)) ∷ [])
          ++ ((TableStore.insert one_row 3 (row_of (pos 2))).1, row_of (pos 2)) ∷ []
        else (0, row_of (pos 1)) ∷ [])
scan-insert_example =
    scan-insert one_row 3 3 (row_of (pos 2)) ((0, row_of (pos 1)) ∷ []) one_row-IsValid
      (omega arith) (omega arith) one_row-scan

row_after_example :
    (TableStore.get (TableStore.insert one_row 3 (row_of (pos 2))).0 3 0 ≡ (
      if is_eq (cmp_key (3, 0) (3, one_row.next_row_id))
      then some (row_of (pos 2))
      else TableStore.get one_row 3 0))
    × (TableStore.get (TableStore.delete one_row 3 0).0 3 0
        ≡ (if is_eq (cmp_key (3, 0) (3, 0)) then none else TableStore.get one_row 3 0))
    × ((TableStore.delete one_row 3 0).1 ≡ is_some (TableStore.get one_row 3 0))
    × (TableStore.get (TableStore.update one_row 3 0 (row_of (pos 2))).0 3 0 ≡ (
        if is_eq (cmp_key (3, 0) (3, 0)) && is_some (TableStore.get one_row 3 0)
        then some (row_of (pos 2))
        else TableStore.get one_row 3 0))
    × ((TableStore.update one_row 3 0 (row_of (pos 2))).1 ≡ is_some (TableStore.get one_row 3 0))
row_after_example = row_after one_row 3 3 0 0 (row_of (pos 2))

abbrev numbers : List (Value host)
numbers = int64 (pos 5) ∷ null ∷ int64 (negsuc 2) ∷ []

min_max_i64_slice-AreExtrema_example : AreExtrema (ints numbers) (negsuc 2) (pos 5)
unfolding min_max_i64_slice Columnar.min_max_i64_loop
min_max_i64_slice-AreExtrema_example =
    min_max_i64_slice-AreExtrema numbers (negsuc 2) (pos 5)
      ((omega arith, omega arith), ((omega arith, omega arith), tt)) refl

abbrev no_columns : ColumnarChunk host
no_columns = Columnar.new_chunk 0 []

abbrev page : Page
page = Page.new (record { file_id = 0; page_no = 0 })

write_fits_example :
    ((write page 10 (1 ∷ 2 ∷ [])).1 ≡ ok tt)
    × ((write page 10 (1 ∷ 2 ∷ [])).0.dirty ≡ true)
    × ((write page 10 (1 ∷ 2 ∷ [])).0.id ≡ page.id)
    × ((i : ℕ)
        → get_elem? (write page 10 (1 ∷ 2 ∷ [])).0.bytes i ≡ (
            if leb 10 i && ltb i (10 + length {A = ℕ} (1 ∷ 2 ∷ []))
            then get_elem? (1 ∷ 2 ∷ []) (i - 10)
            else get_elem? page.bytes i))
write_fits_example = write_fits page 10 (1 ∷ 2 ∷ []) (page-IsValid _) (omega arith)

read-write_example :
    read (write page 10 (1 ∷ 2 ∷ [])).0 10 (10 + length {A = ℕ} (1 ∷ 2 ∷ [])) ≡ ok (1 ∷ 2 ∷ [])
read-write_example = read-write page 10 (1 ∷ 2 ∷ []) (page-IsValid _) (omega arith)
