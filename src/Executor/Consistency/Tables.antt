-- ===== src/Executor/Consistency/Tables.antt =====
-- CREATE TABLE and DROP TABLE of crates/rustafari-executor/src/lib.rs keep the stores of a session in
-- step.
use text.Mathlib.TextEquality.{eq_iff}
use text.Mathlib.Text.{◌==◌ as str_eq}
use rustafari_db.Common.{
  ◌<◌, ◌≤◌, ◌≡◌, ◌≢◌, refl, ◌∙◌, sym, ap, subst, String, not, ◌&&◌, List, [], Option, none, some,
  filter, arith, ◌==◌, if◌then◌else◌, Bool-cases, inl, inr, u64_mod, next_u64,
}
use rustafari_db.Common.BTreeMap
use rustafari_db.Common.HashMap.{get_same, get-insert, nat_eq, string_eq, pair_eq}
use rustafari_db.Core.Catalog
use rustafari_db.Core.Catalog.{TableId, TableMeta}
use rustafari_db.Core.Catalog.Invariant as CatalogInvariant
use rustafari_db.Core.Catalog.Tables.{get_table-create_table, get_table-drop_table}
use rustafari_db.Core.Error.{ok}
use rustafari_db.Core.Host.{Host}
use rustafari_db.Core.Schema.{ColumnType}
use rustafari_db.Index.BTree
use rustafari_db.Index.BTree.{BTreeIndex}
use rustafari_db.Storage.Columnar
use rustafari_db.Storage.Columnar.Sums.{chunks_after}
use rustafari_db.Storage.TableStore
use rustafari_db.Storage.TableStore.Rows.{rows_of, drop_table-IsValid}
use rustafari_db.Storage.TableStore.Tables.{drop_table-rows_of}
use rustafari_db.Executor.State.{SessionState, get_index, or_public}
use rustafari_db.Executor.Read.{find_table}
use rustafari_db.Executor.Write.{execute_create_table, execute_drop_table}
use rustafari_db.Executor.Write.Tables.{schema_of, new_table_meta, get_of_other}
use rustafari_db.Executor.Consistency.{
  InStep, IsConsistent, SameFor, InStep-SameFor, IsUnused-SameFor, filed_table, table_of_id,
  name_of_table, find_table-found, find_table-cases,
}

next_table_id-create_table :
    (c : Catalog.Catalog) (namespace name : String) (m : TableMeta)
    → (Catalog.create_table c namespace name m.schema none).0.next_table_id
      ≡ next_u64 c.next_table_id
unfolding Catalog.create_table Catalog.add_table Catalog.ensure_namespace
next_table_id-create_table c namespace name m = ground arith

next_table_id-drop_table :
    (c : Catalog.Catalog) (namespace name : String)
    → (Catalog.drop_table c namespace name).0.next_table_id ≡ c.next_table_id
unfolding Catalog.drop_table Catalog.remove_table
next_table_id-drop_table c namespace name = ground arith

module _ {h : Host} where
  -- CREATE TABLE keeps the session consistent, if no counter of the catalog wraps.
  module _ (table : String) (namespace : Option String) (columns : List (String × ColumnType))
      (s : SessionState h) (room : CatalogInvariant.HasRoom s.catalog) (v : IsConsistent s) where
    abbrev created : SessionState h
    created = (execute_create_table table namespace columns s).1

    abbrev new_table : TableMeta
    new_table =
        (Catalog.create_table s.catalog (or_public namespace) table (schema_of columns) none).1

    -- Under an identifier in use every part is what it was.
    created-SameFor : (t : TableId) → t < s.catalog.next_table_id → SameFor t s created
    unfolding execute_create_table get_index
    created-SameFor t below =
        let (_, id) = new_table_meta s.catalog (or_public namespace) table (schema_of columns) in
        (
          refl,
          ground (arith, id, get-insert (t, "id") (new_table.id, "id") BTree.new s.index_store),
          refl,
          refl,
        )

    new_table-InStep : InStep new_table created
    unfolding execute_create_table get_index BTree.get BTreeMap.get
    new_table-InStep =
        let (schema, id) =
          new_table_meta s.catalog (or_public namespace) table (schema_of columns) in
        let (no_rows, no_chunks, no_buffer) = v.unused new_table.id (omega (arith, id)) in
        record {
          indexed = λ col at. (
            BTree.new,
            ground (arith, at, get_same (new_table.id, "id") BTree.new s.index_store),
            λ key. ground (arith, no_rows),
          );
          mirrored = λ name has. ground (arith, no_rows, no_chunks, no_buffer);
        }

    pub execute_create_table-IsConsistent : IsConsistent created
    unfolding execute_create_table
    execute_create_table-IsConsistent = record {
      catalog =
          CatalogInvariant.create_table-IsValid s.catalog (or_public namespace) table
            (schema_of columns) none room v.catalog;
      store = v.store;
      unused = λ t le. v.unused t (
          omega (
            arith,
            room.tables_left,
            next_table_id-create_table s.catalog (or_public namespace) table
                (record new_table { schema = schema_of columns }),
          ));
      tables = λ ns name m e.
          let seen =
            get_table-create_table s.catalog (or_public namespace) table (schema_of columns) none ns
              name v.catalog in
          elim (Bool-cases (str_eq (or_public namespace) ns && str_eq table name)) [
            | inl this ↦
                let same : new_table ≡ m = ground (arith, e, seen, this) in
                subst (λ x. InStep x created) same new_table-InStep
            | inr other ↦
                let old : Catalog.get_table s.catalog ns name ≡ some m =
                  ground (arith, e, seen, other) in
                InStep-SameFor m s created
                  (created-SameFor m.id (filed_table s.catalog ns name m v.catalog old).1)
                  (v.tables ns name m old)
          ];
    }

  -- DROP TABLE of a table that is there keeps the session consistent, unless the identifier is the
  -- last `u64`.
  module _ (table : String) (namespace : Option String) (s : SessionState h) (meta : TableMeta)
      (store : TableStore.TableStore h) (found : find_table s namespace table ≡ ok meta)
      (drops : TableStore.drop_table s.row_store meta.id ≡ ok store)
      (left : (u : TableId)
        → rows_of store u ≡ (if meta.id == u then [] else rows_of s.row_store u))
      (v : IsConsistent s) where
    abbrev dropped : SessionState h
    dropped = record s {
      catalog = (Catalog.drop_table s.catalog (or_public namespace) table).0;
      row_store = store;
      columnar_store = Columnar.drop_table s.columnar_store meta.id;
      index_store = filter (λ e. not (e.0.0 == meta.id)) s.index_store;
    }

    dropped-SameFor : (u : TableId) → meta.id ≢ u → SameFor u s dropped
    unfolding get_index
    dropped-SameFor u ne = (
      ground (arith, left u),
      ground (arith, get_of_other meta.id u "id" s.index_store),
      ground (arith, (chunks_after s.columnar_store meta.id u (Columnar.new_chunk 0 [])).1),
      refl,
    )

    dropped-IsConsistent : IsConsistent dropped
    dropped-IsConsistent =
        let there : Catalog.get_table s.catalog (or_public namespace) table ≡ some meta =
          find_table-found namespace table s meta found in
        let below : meta.id < s.catalog.next_table_id =
          (filed_table s.catalog (or_public namespace) table meta v.catalog there).1 in
        record {
          catalog =
              CatalogInvariant.drop_table-IsValid s.catalog (or_public namespace) table v.catalog;
          store = drop_table-IsValid s.row_store store meta.id drops v.store;
          unused = λ t le.
              let le' : s.catalog.next_table_id ≤ t =
                omega (arith, next_table_id-drop_table s.catalog (or_public namespace) table) in
              IsUnused-SameFor t s dropped (dropped-SameFor t (λ e. absurd (omega arith)))
                (v.unused t le');
          tables = λ ns name m e.
              let seen =
                get_table-drop_table s.catalog (or_public namespace) table ns name v.catalog in
              elim (Bool-cases (str_eq (or_public namespace) ns && str_eq table name)) [
                | inl this ↦ absurd (ground (arith, e, seen, this))
                | inr other ↦
                    let old : Catalog.get_table s.catalog ns name ≡ some m =
                      ground (arith, e, seen, other) in
                    InStep-SameFor m s dropped
                      (dropped-SameFor m.id λ same.
                        let one =
                          table_of_id s.catalog (or_public namespace) table ns name meta m v.catalog
                            there old same in
                        let (ns_is, name_is) =
                          name_of_table s.catalog (or_public namespace) table ns name m v.catalog
                            (there ∙ ap some one) old in
                        absurd (
                          ground (
                            arith,
                            other,
                            ns_is,
                            name_is,
                            eq_iff (or_public namespace) ns,
                            eq_iff table name,
                          )))
                      (v.tables ns name m old)
              ];
        }

  pub execute_drop_table-IsConsistent :
      (table : String) (namespace : Option String) (s : SessionState h)
      → s.catalog.next_table_id < u64_mod
      → IsConsistent s
      → IsConsistent (execute_drop_table table namespace s).1
  unfolding execute_drop_table
  execute_drop_table-IsConsistent table namespace s room v =
      elim (find_table-cases namespace table s) [
        | inl missing ↦ ground (arith, missing, v)
        | inr (meta, found) ↦
            let there : Catalog.get_table s.catalog (or_public namespace) table ≡ some meta =
              find_table-found namespace table s meta found in
            let below : meta.id < s.catalog.next_table_id =
              (filed_table s.catalog (or_public namespace) table meta v.catalog there).1 in
            let (store, drops, left) = drop_table-rows_of s.row_store meta.id (omega arith) in
            let e : (execute_drop_table table namespace s).1
                ≡ dropped table namespace s meta store found drops left v =
              ground (arith, found, drops) in
            subst IsConsistent (sym e)
              (dropped-IsConsistent table namespace s meta store found drops left v)
      ]
