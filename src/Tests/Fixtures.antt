-- ===== src/Tests/Fixtures.antt =====
-- The concrete host, session and tables that the tests share.
use rustafari_db.Common.{ℕ, ◌≡◌, refl, String, List, [], ◌∷◌, none, some, ◌==◌}
use rustafari_db.Common.HashMap
use rustafari_db.Common.HashMap.{nat_eq, string_eq}
use rustafari_db.Common.Int.{pos}
use rustafari_db.Core.Catalog
use rustafari_db.Core.Catalog.{TableMeta}
use rustafari_db.Core.Error.{ok}
use rustafari_db.Core.Host.{Host}
use rustafari_db.Core.Schema
use rustafari_db.Core.Schema.{Schema, ColumnType, column_index}
use rustafari_db.Core.Value.{Value, int64, string}
use rustafari_db.Executor.State
use rustafari_db.Executor.State.{SessionState, table_meta}
use rustafari_db.Executor.Read.{find_table}
use rustafari_db.Executor.Write.{insert_rows, execute_create_table}
use rustafari_db.Executor.Write.Tables.{schema_of}

-- A host whose floats add nothing and whose instants are numbers.
abbrev pub host : Host
host = record {
  f64_add = λ x y. x;
  f64_div = λ x y. x;
  f64_of_i64 = λ i. 0;
  f64_of_usize = λ n. n;
  f64_parse = λ s. none;
  f32_sub = λ x y. x;
  f32_square = λ x. x;
  f32_add = λ x y. x;
  f32_sqrt = λ x. x;
  Timestamp = ℕ;
  timestamp_eq = λ a b. a == b;
  timestamp_millis = λ a. pos a;
  Date = ℕ;
  date_eq = λ a b. a == b;
  date_millis = λ a. pos a;
}

abbrev pub columns : List (String × ColumnType)
columns = ("id", ColumnType.big_int) ∷ ("name", ColumnType.text) ∷ []

abbrev pub people : TableMeta
people = (Catalog.create_table Catalog.new "public" "people" (schema_of columns) none).1

-- A session with the table `people`, and then with two rows in it.
abbrev pub created : SessionState host
created = (execute_create_table "people" none columns State.new).1

abbrev pub two_rows : List (List (Value host))
two_rows = (int64 (pos 7) ∷ string "ada" ∷ []) ∷ (int64 (pos 9) ∷ string "bob" ∷ []) ∷ []

abbrev pub filled : SessionState host
filled = (insert_rows people two_rows 0 created).1

pub id_column : column_index people.schema "id" ≡ some 0
unfolding Catalog.create_table Catalog.add_table Catalog.ensure_namespace Schema.new
    Schema.collect_index Schema.new_column column_index HashMap.get HashMap.insert
id_column = refl

pub people-created : find_table created none "people" ≡ ok people
unfolding execute_create_table find_table table_meta Catalog.get_table Catalog.namespace_id
    Catalog.create_table Catalog.add_table Catalog.ensure_namespace Schema.new Schema.collect_index
    Schema.new_column column_index HashMap.get HashMap.insert
people-created = refl
