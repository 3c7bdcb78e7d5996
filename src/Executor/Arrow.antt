-- ===== src/Executor/Arrow.antt =====
-- crates/rustafari-executor/src/columnar.rs. The builders, arrays and batches of the arrow crate are
-- parameters; a data type and a field are the data that `DataType` and `Field::new` are given.
pub mod Slots
use rustafari_db.Common.{String, Bool, true, List, [], ◌∷◌, ◌⊎◌, inl, inr}
use rustafari_db.Common.Int.{ℤ}
use rustafari_db.Core.Error.{Result, ok, err, panic, execution, ◌>>=◌}
use rustafari_db.Core.Host.{Host, F64}
use rustafari_db.Core.Value.{Value, int64, float64, string}
use rustafari_db.Storage.Columnar.{ColumnChunk, ColumnarChunk}

pub data ArrowType : Type 0 where
  int64_type float64_type utf8_type : ArrowType

pub record Field : Type 0 where
  pub name : String
  pub data_type : ArrowType
  pub nullable : Bool

-- A builder of arrays of some type.
pub record BuilderOf (A Array : Type 0) : Type 1 where
  pub Builder : Type 0
  pub empty : Builder
  pub append_value : Builder → A → Builder
  pub append_null : Builder → Builder
  pub finish : Builder → Array

-- The arrow crate; `no_int64` is the array of no value, `try_new` fails with a text.
pub record Arrow : Type 1 where
  pub ArrayRef : Type 0
  pub Batch : Type 0
  pub int64_builder : BuilderOf ℤ ArrayRef
  pub float64_builder : BuilderOf F64 ArrayRef
  pub string_builder : BuilderOf String ArrayRef
  pub no_int64 : ArrayRef
  pub try_new : List Field → List ArrayRef → Batch ⊎ String

module _ {h : Host} (arrow : Arrow) where
  unfoldable pub append_int64 :
      List (Value h) → arrow.int64_builder.Builder → arrow.int64_builder.Builder
  append_int64 [] b = b
  append_int64 (int64 x ∷ vs) b = append_int64 vs (arrow.int64_builder.append_value b x)
  append_int64 (_ ∷ vs) b = append_int64 vs (arrow.int64_builder.append_null b)

  unfoldable pub append_float64 :
      List (Value h) → arrow.float64_builder.Builder → arrow.float64_builder.Builder
  append_float64 [] b = b
  append_float64 (float64 x ∷ vs) b = append_float64 vs (arrow.float64_builder.append_value b x)
  append_float64 (_ ∷ vs) b = append_float64 vs (arrow.float64_builder.append_null b)

  unfoldable pub append_string :
      List (Value h) → arrow.string_builder.Builder → arrow.string_builder.Builder
  append_string [] b = b
  append_string (string s ∷ vs) b = append_string vs (arrow.string_builder.append_value b s)
  append_string (_ ∷ vs) b = append_string vs (arrow.string_builder.append_null b)

  -- The last arm: a null for each value.
  unfoldable pub append_nulls :
      List (Value h) → arrow.int64_builder.Builder → arrow.int64_builder.Builder
  append_nulls [] b = b
  append_nulls (_ ∷ vs) b = append_nulls vs (arrow.int64_builder.append_null b)

  -- The array of values, by the type of the first.
  unfoldable pub typed_array : Value h → List (Value h) → arrow.ArrayRef × ArrowType
  unfolding append_int64 append_float64 append_string append_nulls
  typed_array (int64 _) vs =
      (arrow.int64_builder.finish (append_int64 vs arrow.int64_builder.empty), int64_type)
  typed_array (float64 _) vs =
      (arrow.float64_builder.finish (append_float64 vs arrow.float64_builder.empty), float64_type)
  typed_array (string _) vs =
      (arrow.string_builder.finish (append_string vs arrow.string_builder.empty), utf8_type)
  typed_array _ vs =
      (arrow.int64_builder.finish (append_nulls vs arrow.int64_builder.empty), int64_type)

  unfoldable pub column_to_arrow : ColumnChunk h → Result (arrow.ArrayRef × Field)
  unfolding typed_array
  column_to_arrow col = elim col.values [
    | [] ↦
        ok (
          arrow.no_int64,
          record { name = col.column_name; data_type = int64_type; nullable = true },
        )
    | v ∷ vs ↦
        let (arr, dtype) = typed_array v (v ∷ vs) in
        ok (arr, record { name = col.column_name; data_type = dtype; nullable = true })
  ]

  -- The loop over the columns: the arrays and the fields.
  unfoldable pub columns_to_arrow : List (ColumnChunk h) → Result (List arrow.ArrayRef × List Field)
  unfolding column_to_arrow
  columns_to_arrow [] = ok ([], [])
  columns_to_arrow (col ∷ cols) =
      column_to_arrow col >>= λ a. columns_to_arrow cols >>= λ rest. ok (a.0 ∷ rest.0, a.1 ∷ rest.1)

  unfoldable pub chunk_to_record_batch : ColumnarChunk h → Result arrow.Batch
  unfolding columns_to_arrow
  chunk_to_record_batch chunk = columns_to_arrow chunk.columns >>= λ parts.
      elim (arrow.try_new parts.1 parts.0) [ inl batch ↦ ok batch | inr e ↦ err (execution e) ]
