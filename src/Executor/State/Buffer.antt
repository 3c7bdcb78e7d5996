-- ===== src/Executor/State/Buffer.antt =====
-- The columnar buffer of crates/rustafari-executor/src/lib.rs: what a table's columns hold over its
-- chunks and the buffer.
use rustafari_db.Common.{
  ◌≡◌, refl, ◌∙◌, sym, ap, String, Bool, true, List, [], ◌∷◌, ◌++◌, map, length, none, some, arith,
  any, ltb, Bool-cases, Option-cases, inl, inr, append-nil, append_assoc,
}
use text.Mathlib.Text.{◌==◌ as str_eq}
use text.Mathlib.TextEquality.{eq_iff}
use rustafari_db.Common.HashMap.{get_same, nat_eq}
use rustafari_db.Core.Catalog.{TableId}
use rustafari_db.Core.Host.{Host}
use rustafari_db.Core.Row
use rustafari_db.Core.Row.{Row}
use rustafari_db.Core.Schema.{Schema, Column, column_index}
use rustafari_db.Core.Value.{Value}
use rustafari_db.Storage.Columnar
use rustafari_db.Storage.Columnar.{
  ColumnarChunk, ColumnChunk, columnar_chunk_size, find_column, column,
}
use rustafari_db.Storage.Columnar.Sums.{chunks_after}
use rustafari_db.Executor.State.{
  SessionState, or_zero, or_null, build_column, build_columns, store_chunk, buffered, set_buffer,
  flush_columnar_buffer, push_columnar_row,
}

abbrev pub has_column : String → List Column → Bool
has_column name = any (λ c. str_eq c.name name)

module _ {h : Host} where
  -- The value that a row has for a column, NULL where it is too short.
  abbrev pub value_in : Schema → String → Row h → Value h
  value_in schema name r = or_null (Row.get r (or_zero (column_index schema name)))

  -- The values of a column over the chunks, in order.
  abbrev pub chunk_values : String → List (ColumnarChunk h) → List (Value h)
  chunk_values name [] = []
  chunk_values name (c ∷ cs) =
      let rest = chunk_values name cs in elim (column c name) [ none ↦ rest | some vs ↦ vs ++ rest ]

  -- The values of a column over the chunks and the buffer.
  abbrev pub column_values : TableId → Schema → String → SessionState h → List (Value h)
  column_values t schema name s =
      chunk_values name (Columnar.chunks s.columnar_store t)
      ++ map (value_in schema name) (buffered s t)

  find_column-build :
      (schema : Schema) (rows : List (Row h)) (name : String) (cols : List Column)
      → has_column name cols ≡ true
      → find_column name (map (build_column schema rows) cols)
        ≡ some (map (value_in schema name) rows)
  unfolding find_column
  find_column-build schema rows name [] e = absurd (ground (arith, e))
  find_column-build schema rows name (c ∷ cols) e =
      ground (arith, e, eq_iff c.name name, find_column-build schema rows name cols)

  chunk_values-append_one :
      (name : String) (cs : List (ColumnarChunk h)) (c : ColumnarChunk h) (vs : List (Value h))
      → column c name ≡ some vs
      → chunk_values name (cs ++ c ∷ []) ≡ chunk_values name cs ++ vs
  chunk_values-append_one name [] c vs e =
      ap (λ o. elim o [ none ↦ [] | some ws ↦ ws ++ [] ]) e ∙ append-nil vs
  chunk_values-append_one name (d ∷ cs) c vs e = elim (Option-cases (column d name)) [
    | inl absent ↦ ground (arith, absent, chunk_values-append_one name cs c vs e)
    | inr (ws, there) ↦ ground (
      arith,
      there,
      chunk_values-append_one name cs c vs e,
      append_assoc ws (chunk_values name cs) vs,
    )
  ]

  -- A chunk of rows adds their values to every column of the schema.
  store_chunk-chunk_values :
      (t : TableId) (schema : Schema) (rows : List (Row h)) (name : String) (s : SessionState h)
      → has_column name schema.columns ≡ true
      → chunk_values name (Columnar.chunks (store_chunk t schema rows s).columnar_store t)
        ≡ chunk_values name (Columnar.chunks s.columnar_store t) ++ map (value_in schema name) rows
  unfolding store_chunk build_columns Columnar.next_chunk_id Columnar.new_chunk column
      Columnar.chunks
  store_chunk-chunk_values t schema rows name s has =
      let c0 = (Columnar.next_chunk_id s.columnar_store).0 in
      let chunk = Columnar.new_chunk s.columnar_store.next_chunk_id (build_columns schema rows) in
      let added : Columnar.chunks (Columnar.insert_chunk c0 t chunk) t
          ≡ Columnar.chunks s.columnar_store t ++ chunk ∷ [] =
        ground (arith, (chunks_after c0 t t chunk).0) in
      ap (chunk_values name) added
      ∙ chunk_values-append_one name (Columnar.chunks s.columnar_store t) chunk
          (map (value_in schema name) rows) (find_column-build schema rows name schema.columns has)

  buffered-set :
      (t : TableId) (rows : List (Row h)) (s : SessionState h)
      → buffered (set_buffer t rows s) t ≡ rows
  buffered-set t rows s =
      ap (λ o. elim o [ none ↦ [] | some r ↦ r ]) (get_same t rows s.columnar_buffer)

  map-append_one :
      (f : Row h → Value h) (xs : List (Row h)) (x : Row h)
      → map f (xs ++ x ∷ []) ≡ map f xs ++ f x ∷ []
  map-append_one f [] x = refl
  map-append_one f (y ∷ xs) x = ap (◌∷◌ (f y)) (map-append_one f xs x)

  -- The rows of a buffer that became a chunk.
  column_values-stored :
      (t : TableId) (schema : Schema) (rows : List (Row h)) (name : String) (s : SessionState h)
      → has_column name schema.columns ≡ true
      → column_values t schema name (store_chunk t schema rows (set_buffer t [] s))
        ≡ chunk_values name (Columnar.chunks s.columnar_store t) ++ map (value_in schema name) rows
  unfolding store_chunk
  column_values-stored t schema rows name s has =
      let s1 = store_chunk t schema rows (set_buffer t [] s) in
      let none_left : buffered s1 t ≡ [] = buffered-set t [] s in
      ap
        (λ rs.
          chunk_values name (Columnar.chunks s1.columnar_store t) ++ map (value_in schema name) rs)
        none_left
      ∙ append-nil (chunk_values name (Columnar.chunks s1.columnar_store t))
      ∙ store_chunk-chunk_values t schema rows name (set_buffer t [] s) has

  -- A flush whose buffer is `rows`.
  abbrev flushed : TableId → Schema → SessionState h → List (Row h) → SessionState h
  flushed t schema s rows = elim rows [
    | [] ↦ s
    | r ∷ rs ↦ store_chunk t schema (r ∷ rs) (set_buffer t [] s)
  ]

  flushed-column_values :
      (t : TableId) (schema : Schema) (name : String) (s : SessionState h) (rows : List (Row h))
      → has_column name schema.columns ≡ true
      → buffered s t ≡ rows
      → (column_values t schema name (flushed t schema s rows) ≡ column_values t schema name s)
        × (buffered (flushed t schema s rows) t ≡ [])
  unfolding store_chunk
  flushed-column_values t schema name s [] has e = (refl, e)
  flushed-column_values t schema name s (r ∷ rs) has e = (
    column_values-stored t schema (r ∷ rs) name s has
        ∙ ap
            (λ xs.
              chunk_values name (Columnar.chunks s.columnar_store t)
              ++ map (value_in schema name) xs)
            (sym e),
    buffered-set t [] s,
  )

  -- A push adds the value of its row to the column, after all that the chunks and the buffer hold of
  -- it, whether the row stays in the buffer or fills a chunk; a flush moves the buffer's rows into a
  -- chunk and changes no value and no order. The column is one of the schema's.
  pub column_values_after :
      (t : TableId) (row : Row h) (schema : Schema) (name : String) (s : SessionState h)
      → has_column name schema.columns ≡ true
      → (column_values t schema name (push_columnar_row t row schema s)
          ≡ column_values t schema name s ++ value_in schema name row ∷ [])
        × (column_values t schema name (flush_columnar_buffer t schema s)
            ≡ column_values t schema name s)
        × (buffered (flush_columnar_buffer t schema s) t ≡ [])
  unfolding push_columnar_row flush_columnar_buffer
  column_values_after t row schema name s has =
      let old = chunk_values name (Columnar.chunks s.columnar_store t) in
      let all = buffered s t ++ row ∷ [] in
      let longer : old ++ map (value_in schema name) all
          ≡ column_values t schema name s ++ value_in schema name row ∷ [] =
        ap (◌++◌ old) (map-append_one (value_in schema name) (buffered s t) row)
        ∙ sym (
            append_assoc old (map (value_in schema name) (buffered s t))
              (value_in schema name row ∷ [])) in
      let (moved, empty) = flushed-column_values t schema name s (buffered s t) has refl in
      (
        elim (Bool-cases (ltb (length all) columnar_chunk_size)) [
          | inl stays ↦
              let e : push_columnar_row t row schema s ≡ set_buffer t all s = rw stays refl in
              ap (column_values t schema name) e
              ∙ ap (λ rs. old ++ map (value_in schema name) rs) (buffered-set t all s)
              ∙ longer
          | inr fills ↦
              let e : push_columnar_row t row schema s
                  ≡ store_chunk t schema all (set_buffer t [] s) =
                rw fills refl in
              ap (column_values t schema name) e
              ∙ column_values-stored t schema all name s has
              ∙ longer
        ],
        moved,
        empty,
      )
