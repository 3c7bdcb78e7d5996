-- ===== src/Core/Value.antt =====
-- crates/rustafari-core/src/value.rs. The lists and maps that a value holds are data types of the
-- same block: `Items` is `Vec<Value>`, `Fields` is `BTreeMap<String, Value>` in key order.
use text.Mathlib.Text.{◌==◌ as str_eq}
use rustafari_db.Common.{ℕ, String, Bool, true, false, ◌&&◌, List, [], ◌∷◌, ◌==◌, if◌then◌else◌}
use rustafari_db.Common.Int.{ℤ, eq_ℤ}
use rustafari_db.Core.Host.{Host, F64, F32, f64_eq, f32_eq}

mutual
  pub data Value (h : Host) : Type 0 where
    null : Value h
    bool : Bool → Value h
    int64 : ℤ → Value h
    float64 : F64 → Value h
    string : String → Value h
    bytes : List ℕ → Value h
    timestamp : h.Timestamp → Value h
    date : h.Date → Value h
    document : Fields h → Value h
    array : Items h → Value h
    vector : List F32 → Value h

  pub data Items (h : Host) : Type 0 where
    nil : Items h
    cons : Value h → Items h → Items h

  pub data Fields (h : Host) : Type 0 where
    end : Fields h
    field : String → Value h → Fields h → Fields h

unfoldable pub is_null : {h : Host} → Value h → Bool
is_null null = true
is_null _ = false

unfoldable pub type_name : {h : Host} → Value h → String
type_name null = "null"
type_name (bool _) = "boolean"
type_name (int64 _) = "bigint"
type_name (float64 _) = "double"
type_name (string _) = "varchar"
type_name (bytes _) = "blob"
type_name (timestamp _) = "timestamp"
type_name (date _) = "date"
type_name (document _) = "document"
type_name (array _) = "array"
type_name (vector _) = "vector"

abbrev pub bool_eq : Bool → Bool → Bool
bool_eq true true = true
bool_eq false false = true
bool_eq _ _ = false

-- `==` of two vectors, by `==` of their elements.
abbrev pub list_eq {ℓ} : {A : Type ℓ} → (A → A → Bool) → List A → List A → Bool
list_eq e [] [] = true
list_eq e (x ∷ xs) (y ∷ ys) = let rest = list_eq e xs ys in if e x y then rest else false
list_eq e _ _ = false

-- The derived `PartialEq`: no two values of different variants are equal.
unfoldable mutual
  unfolding f64_eq

  pub value_eq : {h : Host} → Value h → Value h → Bool
  value_eq null null = true
  value_eq (bool a) (bool b) = bool_eq a b
  value_eq (int64 a) (int64 b) = eq_ℤ a b
  value_eq (float64 a) (float64 b) = f64_eq a b
  value_eq (string a) (string b) = str_eq a b
  value_eq (bytes a) (bytes b) = list_eq ◌==◌ a b
  value_eq {h} (timestamp a) (timestamp b) = h.timestamp_eq a b
  value_eq {h} (date a) (date b) = h.date_eq a b
  value_eq (document a) (document b) = fields_eq a b
  value_eq (array a) (array b) = items_eq a b
  value_eq (vector a) (vector b) = list_eq f32_eq a b
  value_eq _ _ = false

  pub items_eq : {h : Host} → Items h → Items h → Bool
  items_eq nil nil = true
  items_eq (cons x xs) (cons y ys) =
      let rest = items_eq xs ys in if value_eq x y then rest else false
  items_eq _ _ = false

  pub fields_eq : {h : Host} → Fields h → Fields h → Bool
  fields_eq end end = true
  fields_eq (field k x xs) (field l y ys) =
      let rest = fields_eq xs ys in if str_eq k l && value_eq x y then rest else false
  fields_eq _ _ = false
