-- ===== src/Tests/Selects.antt =====
-- The theorems on whole selects at the session with two rows in `people`.
use rustafari_db.Common.{◌≡◌, refl, [], ◌∷◌, none, arith}
use rustafari_db.Common.HashMap
use rustafari_db.Common.HashMap.{HashMap, nat_eq, string_eq}
use rustafari_db.Core.Catalog
use rustafari_db.Core.Error.{ok}
use rustafari_db.Core.Row
use rustafari_db.Core.Row.{Row}
use rustafari_db.Core.Schema
use rustafari_db.Core.Schema.{Schema, column_index}
use rustafari_db.Index.BTree
use rustafari_db.Index.BTree.{from_value}
use rustafari_db.Storage.TableStore
use rustafari_db.Storage.Columnar
use rustafari_db.Sql.Plan.{PlanNode, AggExpr}
use rustafari_db.Executor.State.{get_index, push_columnar_row}
use rustafari_db.Executor.Aggregate.{aggregate_over_row_slice}
use rustafari_db.Executor.Write.{insert_row, index_row, insert_rows, execute_create_table}
use rustafari_db.Executor.Write.Mirror.{Mirrors, insert_rows-Mirrors}
use rustafari_db.Executor.Plan.{execute_node}
use rustafari_db.Executor.Plan.Selects.{table_rows, answer, select_count}
use rustafari_db.Tests.Fixtures.{people, created, two_rows, filled, id_column}
use rustafari_db.Tests.Session.{people-filled, people_id, has_id, next_in_created, created-Indexed}
use rustafari_db.Tests.Queries.{show_value, scan_people}

pub inserted_two : (insert_rows people two_rows 0 created).0 ≡ ok 2
unfolding execute_create_table Catalog.create_table Catalog.add_table Catalog.ensure_namespace
    Schema.new Schema.collect_index Schema.new_column column_index HashMap.get HashMap.insert
    insert_rows insert_row index_row push_columnar_row TableStore.insert get_index from_value
    BTree.be_bytes BTree.insert BTree.get Row.new
inserted_two = refl

created-Mirrors : Mirrors people.id people.schema "id" created
unfolding execute_create_table Columnar.chunks HashMap.get
created-Mirrors = refl

filled-Mirrors : Mirrors people.id people.schema "id" filled
filled-Mirrors =
    insert_rows-Mirrors people "id" two_rows 0 2 created created-Indexed.valid
      (rw next_in_created (omega arith)) has_id inserted_two created-Mirrors

select_count_example :
    (execute_node show_value (PlanNode.aggregate scan_people (AggExpr.count "id" ∷ [])) filled).0
    ≡ answer
        (aggregate_over_row_slice (table_rows filled people.id) people.schema (AggExpr.count "id"))
select_count_example =
    select_count show_value "people" none "id" filled people 0 people-filled
      (rw people_id (omega arith)) has_id id_column filled-Mirrors
