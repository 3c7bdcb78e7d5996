-- ===== src/Document/Json.antt =====
-- The conversions of JSON in crates/rustafari-document/src/lib.rs and filter.rs. The parser of JSON
-- text is `serde_json`; its values are the data here, a number by what `as_i64` and `as_f64` return
-- of it, an object the list of its members in the order of its keys, each key once; the functions here
-- read such lists, and take any list.
use Prim.Native.String.{compare}
use rustafari_db.Common.{String, Bool, List, [], ◌∷◌, Option, none, some, lt, eq, gt}
use rustafari_db.Common.Int.{ℤ}
use rustafari_db.Core.Error.{Result, ok, ◌>>=◌}
use rustafari_db.Core.Host.{Host, F64, f64_zero}
use rustafari_db.Core.Row
use rustafari_db.Core.Row.{Row}
use rustafari_db.Core.Value.{
  Value, null, bool, int64, float64, string, document, array, Items, nil, cons, Fields, end, field,
}

mutual
  pub data JsonValue : Type 0 where
    json_null : JsonValue
    json_bool : Bool → JsonValue
    json_number : Option ℤ → Option F64 → JsonValue
    json_string : String → JsonValue
    json_array : JsonItems → JsonValue
    json_object : JsonFields → JsonValue

  pub data JsonItems : Type 0 where
    no_item : JsonItems
    item : JsonValue → JsonItems → JsonItems

  pub data JsonFields : Type 0 where
    no_member : JsonFields
    member : String → JsonValue → JsonFields → JsonFields

-- `BTreeMap::insert`
unfoldable pub insert_field : {h : Host} → String → Value h → Fields h → Fields h
insert_field k v end = field k v end
insert_field k v (field j w fs) = elim (compare k j) [
  | lt ↦ field k v (field j w fs)
  | eq ↦ field k v fs
  | gt ↦ field j w (insert_field k v fs)
]

abbrev pub or_zero : Option F64 → F64
or_zero none = f64_zero
or_zero (some f) = f

module _ {h : Host} where
  -- The numbers of filter.rs and of lib.rs, which tries `as_f64` twice.
  abbrev pub number_of : Option ℤ → Option F64 → Value h
  number_of (some i) f = int64 i
  number_of none f = float64 (or_zero f)

  abbrev pub number_of_document : Option ℤ → Option F64 → Value h
  number_of_document (some i) f = int64 i
  number_of_document none (some f) = float64 f
  number_of_document none none = float64 (or_zero none)

-- `json_to_value` of filter.rs, of lib.rs where `number` is its choice.
unfoldable mutual
  unfolding insert_field

  pub json_to_value : {h : Host} → (Option ℤ → Option F64 → Value h) → JsonValue → Result (Value h)
  json_to_value number json_null = ok null
  json_to_value number (json_bool b) = ok (bool b)
  json_to_value number (json_number i f) = ok (number i f)
  json_to_value number (json_string s) = ok (string s)
  json_to_value number (json_array xs) = json_items number xs >>= λ vs. ok (array vs)
  json_to_value number (json_object fs) = json_fields number fs >>= λ vs. ok (document vs)

  pub json_items : {h : Host} → (Option ℤ → Option F64 → Value h) → JsonItems → Result (Items h)
  json_items number no_item = ok nil
  json_items number (item x xs) =
      json_to_value number x >>= λ v. json_items number xs >>= λ vs. ok (cons v vs)

  pub json_fields : {h : Host} → (Option ℤ → Option F64 → Value h) → JsonFields → Result (Fields h)
  json_fields number no_member = ok end
  json_fields number (member k x fs) =
      json_to_value number x >>= λ v. json_fields number fs >>= λ vs. ok (insert_field k v vs)

-- The values of a document in the order of its keys.
unfoldable pub doc_values : {h : Host} → JsonFields → Result (List (Value h))
unfolding json_to_value
doc_values no_member = ok []
doc_values (member k x fs) =
    json_to_value number_of_document x >>= λ v. doc_values fs >>= λ vs. ok (v ∷ vs)

unfoldable pub doc_to_row : {h : Host} → JsonFields → Result (Row h)
unfolding doc_values Row.new
doc_to_row doc = doc_values doc >>= λ vs. ok (Row.new vs)
