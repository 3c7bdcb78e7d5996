-- ===== src/Executor/Write/Rows.antt =====
-- A whole INSERT of crates/rustafari-executor/src/lib.rs: its outcome, the rows it stores, and the
-- index it keeps.
use rustafari_db.Common.{
  ℕ, ◌+◌, ◌<◌, ◌≡◌, refl, ◌∙◌, sym, ap, String, List, [], ◌∷◌, ◌++◌, length, Option, none, some,
  arith, subst, u64_mod, next_u64, ◌==◌, if◌then◌else◌, get_elem?, Option-cases, inl, inr,
}
use rustafari_db.Core.Catalog.{TableId, TableMeta}
use rustafari_db.Core.Error.{RustafariError, Result, ok, err}
use rustafari_db.Core.Host.{Host}
use rustafari_db.Core.Row
use rustafari_db.Core.Row.{Row}
use rustafari_db.Core.Schema.{column_index}
use rustafari_db.Core.Value.{Value}
use rustafari_db.Index.BTree.{BTreeIndex}
use rustafari_db.Storage.TableStore
use rustafari_db.Storage.TableStore.{TableStore, RowId}
use rustafari_db.Storage.TableStore.Rows.{IsValid, rows_of, insert-IsValid}
use rustafari_db.Storage.TableStore.Tables.{rows_of-insert, rows_of-insert_ne}
use rustafari_db.Executor.State.{SessionState, get_index, continue}
use rustafari_db.Executor.Read.{rows_affected, find_table}
use rustafari_db.Executor.Read.Lookup.{Agrees}
use rustafari_db.Executor.Write.{insert_row, insert_rows, execute_insert}
use rustafari_db.Executor.Write.Insert.{
  bad_key, index_with, insert_row_lem, has_key-index_with, ids_with-append_one,
}

abbrev pub or_error : Option RustafariError → Result ℕ → Result ℕ
or_error none later = later
or_error (some e) later = err e

abbrev pub or_none {ℓ} : {A : Type ℓ} → Option RustafariError → List A → List A
or_none none later = later
or_none (some e) later = []

module _ {h : Host} where
  -- The row store is valid, the table has an index on `id`, and the index agrees with the rows.
  pub record Indexed (t : TableId) (col : ℕ) (s : SessionState h) : Type 0 where
    pub valid : IsValid s.row_store
    pub ix : BTreeIndex
    pub index : get_index s t "id" ≡ some ix
    pub agrees : Agrees t col ix s.row_store

  -- The first row that cannot be a key ends the INSERT with its error; else the rows are counted.
  abbrev pub outcome : ℕ → List (List (Value h)) → ℕ → Result ℕ
  outcome col [] n = ok n
  outcome col (vals ∷ rest) n =
      let later = outcome col rest (next_u64 n) in or_error (bad_key col vals) later

  -- The rows that the INSERT stores: those before that row, and that row itself.
  abbrev pub stored : ℕ → List (List (Value h)) → List (List (Value h))
  stored col [] = []
  stored col (vals ∷ rest) = let later = stored col rest in vals ∷ or_none (bad_key col vals) later

  -- The rows under the identifiers from `n` on.
  abbrev pub numbered : ℕ → List (List (Value h)) → List (RowId × Row h)
  numbered n [] = []
  numbered n (vals ∷ rest) = (n, Row.new vals) ∷ numbered (n + 1) rest

  -- One row of an INSERT keeps the index in step with the rows, also where it ends in an error.
  pub insert_row-Indexed :
      (meta : TableMeta) (col : ℕ) (vals : List (Value h)) (s : SessionState h)
      → column_index meta.schema "id" ≡ some col
      → s.row_store.next_row_id + 1 < u64_mod
      → Indexed meta.id col s
      → Indexed meta.id col (insert_row meta vals s).1
  insert_row-Indexed meta col vals s at room v =
      let store = s.row_store in
      let t = meta.id in
      let (_, stores, indexes) = insert_row_lem meta col vals s v.ix at v.index in
      record {
        valid = rw stores (insert-IsValid store t (Row.new vals) room v.valid);
        ix = index_with v.ix store.next_row_id (get_elem? vals col);
        index = indexes;
        agrees = λ key. ground (
          arith,
          stores,
          has_key-index_with v.ix col key vals store.next_row_id,
          v.agrees key,
          rows_of-insert store t (Row.new vals) v.valid,
          ids_with-append_one col key (rows_of store t) (store.next_row_id, Row.new vals),
        );
      }

  pub next_after :
      (store : TableStore h) (t : TableId) (row : Row h)
      → store.next_row_id + 1 < u64_mod
      → (TableStore.insert store t row).0.next_row_id ≡ store.next_row_id + 1
  unfolding TableStore.insert
  next_after store t row room = omega arith

  append_one :
      (xs ys : List (RowId × Row h)) (x : RowId × Row h) → (xs ++ x ∷ []) ++ ys ≡ xs ++ x ∷ ys
  append_one [] ys x = refl
  append_one (z ∷ xs) ys x = ap (◌∷◌ z) (append_one xs ys x)

  -- What the rows of an INSERT do to the state, row by row.
  abbrev pub Inserted :
      TableId → ℕ → List (List (Value h)) → ℕ → SessionState h → Result ℕ × SessionState h → Type 0
  Inserted t col values n s (r, s') =
      (r ≡ outcome col values n)
      × ((u : TableId)
          → rows_of s'.row_store u ≡ (
              if t == u
              then rows_of s.row_store u ++ numbered s.row_store.next_row_id (stored col values)
              else rows_of s.row_store u))
      × Indexed t col s'

  Inserted-of_eq :
      (t : TableId) (col : ℕ) (values : List (List (Value h))) (n : ℕ) (s : SessionState h)
      (x y : Result ℕ × SessionState h)
      → x ≡ y
      → Inserted t col values n s y
      → Inserted t col values n s x
  Inserted-of_eq t col values n s x y e i = subst (Inserted t col values n s) (sym e) i

  append_nil : (xs : List (RowId × Row h)) → xs ++ [] ≡ xs
  append_nil [] = refl
  append_nil (x ∷ xs) = ap (◌∷◌ x) (append_nil xs)

  pub insert_rows-Inserted :
      (meta : TableMeta) (col : ℕ) (values : List (List (Value h))) (n : ℕ) (s : SessionState h)
      → column_index meta.schema "id" ≡ some col
      → s.row_store.next_row_id + length values < u64_mod
      → Indexed meta.id col s
      → Inserted meta.id col values n s (insert_rows meta values n s)
  unfolding insert_rows
  insert_rows-Inserted meta col [] n s at room v =
      (refl, λ u. ground (arith, append_nil (rows_of s.row_store u)), v)
  insert_rows-Inserted meta col (vals ∷ rest) n s at room v =
      let store = s.row_store in
      let t = meta.id in
      let s1 = (insert_row meta vals s).1 in
      let (result, stores, indexes) = insert_row_lem meta col vals s v.ix at v.index in
      let v1 = insert_row-Indexed meta col vals s at (omega arith) v in
      let next : s1.row_store.next_row_id ≡ store.next_row_id + 1 =
        ap (λ x. x.next_row_id) stores ∙ next_after store t (Row.new vals) (omega arith) in
      let row : RowId × Row h = (store.next_row_id, Row.new vals) in
      let first : (u : TableId)
          → rows_of s1.row_store u
            ≡ (if t == u then rows_of store u ++ row ∷ [] else rows_of store u) =
        λ u. ground (
          arith,
          stores,
          rows_of-insert store t (Row.new vals) v.valid,
          rows_of-insert_ne store t u (Row.new vals),
        ) in
      let result_of : Option RustafariError → Result (Unit {0}) =
        λ o. elim o [ none ↦ ok tt | some e ↦ err e ] in
      elim (Option-cases (bad_key col vals)) [
        | inl good ↦
            let (r, w, v2) =
              insert_rows-Inserted meta col rest (next_u64 n) s1 at (omega (arith, next)) v1 in
            Inserted-of_eq t col (vals ∷ rest) n s _ (insert_rows meta rest (next_u64 n) s1)
              (ap (λ x. continue x (λ _. insert_rows meta rest (next_u64 n)) s1)
                (result ∙ ap result_of good))
              (
                r ∙ sym (ap (λ o. or_error o (outcome col rest (next_u64 n))) good),
                λ u. ground (
                  arith,
                  w u,
                  next,
                  first u,
                  good,
                  append_one (rows_of store u) (numbered (store.next_row_id + 1) (stored col rest))
                      row,
                ),
                v2,
              )
        | inr (e, bad) ↦
            Inserted-of_eq t col (vals ∷ rest) n s _ (err e, s1)
              (ap (λ x. continue x (λ _. insert_rows meta rest (next_u64 n)) s1)
                (result ∙ ap result_of bad))
              (
                sym (ap (λ o. or_error o (outcome col rest (next_u64 n))) bad),
                λ u. ground (arith, first u, bad),
                v1,
              )
      ]

  -- An INSERT into a table whose `id` is indexed stores its rows in order under the next identifiers
  -- and counts them; a row whose `id` cannot be a key ends it with that key's error, after that row is
  -- stored. No row of another table changes, and the index still agrees with the rows.
  pub execute_insert-Inserted :
      (table : String) (namespace : Option String) (values : List (List (Value h)))
      (s : SessionState h) (meta : TableMeta) (col : ℕ)
      → find_table s namespace table ≡ ok meta
      → column_index meta.schema "id" ≡ some col
      → s.row_store.next_row_id + length values < u64_mod
      → Indexed meta.id col s
      → (r : Result ℕ) × (s' : SessionState h) × Inserted meta.id col values 0 s (r, s')
        × (execute_insert table namespace values s
            ≡ continue r (λ n s'. (ok (rows_affected n), s')) s')
  unfolding execute_insert
  execute_insert-Inserted table namespace values s meta col found at room v = (
    (insert_rows meta values 0 s).0,
    (insert_rows meta values 0 s).1,
    insert_rows-Inserted meta col values 0 s at room v,
    rw found refl,
  )
