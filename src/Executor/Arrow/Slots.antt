-- ===== src/Executor/Arrow/Slots.antt =====
-- What the arrays of crates/rustafari-executor/src/columnar.rs hold.
use rustafari_db.Common.{
  ◌≡◌, refl, ◌∙◌, sym, ap, String, true, List, [], ◌∷◌, ◌++◌, Option, none, some, map, append-nil,
  append_assoc,
}
use rustafari_db.Common.Int.{ℤ}
use rustafari_db.Core.Error.{ok}
use rustafari_db.Core.Host.{Host, F64}
use rustafari_db.Core.Value.{Value, int64, float64, string}
use rustafari_db.Executor.Arrow.{
  BuilderOf, Arrow, ArrowType, int64_type, float64_type, utf8_type, append_int64, append_float64,
  append_string, append_nulls, typed_array, column_to_arrow,
}

-- What the arrow crate documents of a builder: its array has a slot for each call, in order, with the
-- value that was appended, or empty for a null.
pub record HoldsCalls {A Array : Type 0} (b : BuilderOf A Array) : Type 0 where
  pub given : b.Builder → List (Option A)
  pub slots : Array → List (Option A)
  pub given_empty : given b.empty ≡ []
  pub given_value : (x : b.Builder) (a : A) → given (b.append_value x a) ≡ given x ++ some a ∷ []
  pub given_null : (x : b.Builder) → given (b.append_null x) ≡ given x ++ none ∷ []
  pub slots_finish : (x : b.Builder) → slots (b.finish x) ≡ given x

module _ {h : Host} where
  abbrev pub int_slot : Value h → Option ℤ
  int_slot (int64 x) = some x
  int_slot _ = none

  abbrev pub float_slot : Value h → Option F64
  float_slot (float64 x) = some x
  float_slot _ = none

  abbrev pub text_slot : Value h → Option String
  text_slot (string s) = some s
  text_slot _ = none

  abbrev pub empty_slot : Value h → Option ℤ
  empty_slot _ = none

module _ {A Array : Type 0} (b : BuilderOf A Array) (c : HoldsCalls b) where
  put_value :
      (x : b.Builder) (a : A) (rest : List (Option A))
      → c.given (b.append_value x a) ++ rest ≡ c.given x ++ some a ∷ rest
  put_value x a rest =
      ap (λ xs. xs ++ rest) (c.given_value x a) ∙ append_assoc (c.given x) (some a ∷ []) rest

  put_null :
      (x : b.Builder) (rest : List (Option A))
      → c.given (b.append_null x) ++ rest ≡ c.given x ++ none ∷ rest
  put_null x rest =
      ap (λ xs. xs ++ rest) (c.given_null x) ∙ append_assoc (c.given x) (none ∷ []) rest

  -- The array of a loop that began with nothing.
  finished :
      (x : b.Builder) (os : List (Option A))
      → c.given x ≡ c.given b.empty ++ os
      → c.slots (b.finish x) ≡ os
  finished x os e = c.slots_finish x ∙ e ∙ ap (λ xs. xs ++ os) c.given_empty

module _ {h : Host} (arrow : Arrow) (ints : HoldsCalls arrow.int64_builder) where
  append_int64-given :
      (vs : List (Value h)) (x : arrow.int64_builder.Builder)
      → ints.given (append_int64 arrow vs x) ≡ ints.given x ++ map int_slot vs
  unfolding append_int64
  append_int64-given [] x = sym (append-nil (ints.given x))
  append_int64-given (int64 v ∷ vs) x =
      append_int64-given vs (arrow.int64_builder.append_value x v)
      ∙ put_value arrow.int64_builder ints x v (map int_slot vs)
  append_int64-given (_ ∷ vs) x =
      append_int64-given vs (arrow.int64_builder.append_null x)
      ∙ put_null arrow.int64_builder ints x (map int_slot vs)

  append_nulls-given :
      (vs : List (Value h)) (x : arrow.int64_builder.Builder)
      → ints.given (append_nulls arrow vs x) ≡ ints.given x ++ map empty_slot vs
  unfolding append_nulls
  append_nulls-given [] x = sym (append-nil (ints.given x))
  append_nulls-given (_ ∷ vs) x =
      append_nulls-given vs (arrow.int64_builder.append_null x)
      ∙ put_null arrow.int64_builder ints x (map empty_slot vs)

module _ {h : Host} (arrow : Arrow) (floats : HoldsCalls arrow.float64_builder) where
  append_float64-given :
      (vs : List (Value h)) (x : arrow.float64_builder.Builder)
      → floats.given (append_float64 arrow vs x) ≡ floats.given x ++ map float_slot vs
  unfolding append_float64
  append_float64-given [] x = sym (append-nil (floats.given x))
  append_float64-given (float64 v ∷ vs) x =
      append_float64-given vs (arrow.float64_builder.append_value x v)
      ∙ put_value arrow.float64_builder floats x v (map float_slot vs)
  append_float64-given (_ ∷ vs) x =
      append_float64-given vs (arrow.float64_builder.append_null x)
      ∙ put_null arrow.float64_builder floats x (map float_slot vs)

module _ {h : Host} (arrow : Arrow) (texts : HoldsCalls arrow.string_builder) where
  append_string-given :
      (vs : List (Value h)) (x : arrow.string_builder.Builder)
      → texts.given (append_string arrow vs x) ≡ texts.given x ++ map text_slot vs
  unfolding append_string
  append_string-given [] x = sym (append-nil (texts.given x))
  append_string-given (string v ∷ vs) x =
      append_string-given vs (arrow.string_builder.append_value x v)
      ∙ put_value arrow.string_builder texts x v (map text_slot vs)
  append_string-given (_ ∷ vs) x =
      append_string-given vs (arrow.string_builder.append_null x)
      ∙ put_null arrow.string_builder texts x (map text_slot vs)

module _ {h : Host} (arrow : Arrow) (ints : HoldsCalls arrow.int64_builder)
    (floats : HoldsCalls arrow.float64_builder) (texts : HoldsCalls arrow.string_builder) where
  -- An array of values of the type of the first, and empty slots for all others; where the first is
  -- of no such type, empty slots only.
  abbrev pub IsArrayOf : Value h → List (Value h) → arrow.ArrayRef × ArrowType → Type 0
  IsArrayOf (int64 _) vs (arr, t) = (t ≡ int64_type) × (ints.slots arr ≡ map int_slot vs)
  IsArrayOf (float64 _) vs (arr, t) = (t ≡ float64_type) × (floats.slots arr ≡ map float_slot vs)
  IsArrayOf (string _) vs (arr, t) = (t ≡ utf8_type) × (texts.slots arr ≡ map text_slot vs)
  IsArrayOf _ vs (arr, t) = (t ≡ int64_type) × (ints.slots arr ≡ map empty_slot vs)

  typed_array-IsArrayOf :
      (v : Value h) (vs : List (Value h)) → IsArrayOf v vs (typed_array arrow v vs)
  unfolding typed_array
  typed_array-IsArrayOf (int64 _) vs = (
    refl,
    finished arrow.int64_builder ints _ _
        (append_int64-given arrow ints vs arrow.int64_builder.empty),
  )
  typed_array-IsArrayOf (float64 _) vs = (
    refl,
    finished arrow.float64_builder floats _ _
        (append_float64-given arrow floats vs arrow.float64_builder.empty),
  )
  typed_array-IsArrayOf (string _) vs = (
    refl,
    finished arrow.string_builder texts _ _
        (append_string-given arrow texts vs arrow.string_builder.empty),
  )
  typed_array-IsArrayOf _ vs = (
    refl,
    finished arrow.int64_builder ints _ _
        (append_nulls-given arrow ints vs arrow.int64_builder.empty),
  )

  -- A column that has a value becomes an array with a slot for each value, in order, under the name of
  -- the column. The first value fixes the type: a 64-bit integer, a float or a text, and the values of
  -- another type become empty slots. Where the first is of no such type, a NULL above all, every slot
  -- is empty, whatever values follow it.
  pub column_to_arrow-IsArrayOf :
      (name : String) (v : Value h) (vs : List (Value h))
      → (arr : arrow.ArrayRef) × (t : ArrowType) × (column_to_arrow arrow
            (record { column_name = name; values = v ∷ vs })
          ≡ ok (arr, record { name = name; data_type = t; nullable = true }))
        × IsArrayOf v (v ∷ vs) (arr, t)
  unfolding column_to_arrow
  column_to_arrow-IsArrayOf name v vs =
      let a = typed_array arrow v (v ∷ vs) in (a.0, a.1, refl, typed_array-IsArrayOf v (v ∷ vs))
