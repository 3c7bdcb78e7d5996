-- ===== src/Document/Filter.antt =====
-- crates/rustafari-document/src/filter.rs
pub mod Meaning
pub mod RoundTrip
use Prim.Native.String.{compare as compare_text, ◌++◌ as ◌+++◌}
use text.Mathlib.Text.{◌==◌ as str_eq, starts_with}
use rustafari_db.Common.{
  String, Bool, true, false, not, Option, none, some, Ordering, lt, eq, gt, if◌then◌else◌,
}
use rustafari_db.Common.Int.{cmp_ℤ}
use rustafari_db.Core.Error.{Result, ok, err, panic, parse, ◌>>=◌}
use rustafari_db.Core.Host.{Host, f64_partial_cmp}
use rustafari_db.Core.Value.{
  Value, null, bool, int64, float64, string, array, Items, nil, cons, value_eq,
}
use rustafari_db.Document.Json.{
  JsonValue, json_null, json_bool, json_number, json_string, json_array, json_object, JsonItems,
  no_item, item, JsonFields, no_member, member, json_to_value, number_of,
}

pub data FilterOp : Type 0 where
  eq_op ne_op gt_op gte_op lt_op lte_op in_op nin_op : FilterOp

-- `DocFilter` is the list of its conditions; `Filters` is `Vec<DocFilter>`.
mutual
  pub data DocFilter (h : Host) : Type 0 where
    done : DocFilter h
    condition : FilterCondition h → DocFilter h → DocFilter h

  pub data FilterCondition (h : Host) : Type 0 where
    cmp : String → FilterOp → Value h → FilterCondition h
    all_of : Filters h → FilterCondition h
    any_of : Filters h → FilterCondition h
    none_of : DocFilter h → FilterCondition h

  pub data Filters (h : Host) : Type 0 where
    no_filter : Filters h
    more : DocFilter h → Filters h → Filters h

-- `sub.get(key)` of a JSON object.
unfoldable pub json_get : String → JsonFields → Option JsonValue
json_get k no_member = none
json_get k (member j v fs) = if str_eq j k then some v else json_get k fs

-- The operator of `{ "$op": value }`: the first of the eight that the object has.
unfoldable pub field_op : JsonFields → Option (FilterOp × JsonValue)
unfolding json_get
field_op sub = elim (json_get "$eq" sub) [
  | some v ↦ some (eq_op, v)
  | none ↦ elim (json_get "$ne" sub) [
    | some v ↦ some (ne_op, v)
    | none ↦ elim (json_get "$gt" sub) [
      | some v ↦ some (gt_op, v)
      | none ↦ elim (json_get "$gte" sub) [
        | some v ↦ some (gte_op, v)
        | none ↦ elim (json_get "$lt" sub) [
          | some v ↦ some (lt_op, v)
          | none ↦ elim (json_get "$lte" sub) [
            | some v ↦ some (lte_op, v)
            | none ↦ elim (json_get "$in" sub) [
              | some v ↦ some (in_op, v)
              | none ↦ elim (json_get "$nin" sub) [ some v ↦ some (nin_op, v) | none ↦ none ]
            ]
          ]
        ]
      ]
    ]
  ]
]

module _ {h : Host} where
  -- `field: value` or `field: { $op: value }`.
  unfoldable pub field_condition : String → JsonValue → Result (FilterCondition h)
  unfolding field_op json_to_value
  field_condition k (json_object sub) = elim (field_op sub) [
    | none ↦ err (parse "unknown operator in field")
    | some (op, inner) ↦ json_to_value number_of inner >>= λ v. ok (cmp k op v)
  ]
  field_condition k v = json_to_value number_of v >>= λ w. ok (cmp k eq_op w)

-- The members are those of a `Map`: in the order of their keys, each key once.
unfoldable mutual
  unfolding field_condition

  pub filter_from_json : {h : Host} → JsonFields → Result (DocFilter h)
  filter_from_json no_member = ok done
  filter_from_json (member k v rest) =
      let conditions = filter_from_json rest in
      let sub_and = filter_array "$and must be array" "$and element must be object" v in
      let sub_or = filter_array "$or must be array" "$or element must be object" v in
      let sub_not = filter_object "$not must be object" v in
      let first =
        if starts_with k "$"
        then if str_eq k "$and"
          then (sub_and >>= λ fs. ok (all_of fs))
          else if str_eq k "$or"
          then (sub_or >>= λ fs. ok (any_of fs))
          else if str_eq k "$not"
          then (sub_not >>= λ f. ok (none_of f))
          else err (parse ("unknown operator " +++ k))
        else field_condition k v in
      first >>= λ c. conditions >>= λ cs. ok (condition c cs)

  pub filter_object : {h : Host} → String → JsonValue → Result (DocFilter h)
  filter_object message (json_object fs) = filter_from_json fs
  filter_object message _ = err (parse message)

  pub filter_array : {h : Host} → String → String → JsonValue → Result (Filters h)
  filter_array message element (json_array xs) = filter_items element xs
  filter_array message element _ = err (parse message)

  pub filter_items : {h : Host} → String → JsonItems → Result (Filters h)
  filter_items element no_item = ok no_filter
  filter_items element (item x xs) =
      filter_object element x >>= λ f. filter_items element xs >>= λ fs. ok (more f fs)

module _ {h : Host} where
  unfoldable pub compare : Value h → Value h → Option Ordering
  unfolding f64_partial_cmp
  compare (int64 x) (int64 y) = some (cmp_ℤ x y)
  compare (float64 x) (float64 y) = f64_partial_cmp x y
  compare (string x) (string y) = some (compare_text x y)
  compare _ _ = none

  -- `arr.iter().any(|v| v == field_val)`
  unfoldable pub any_equal : Items h → Value h → Bool
  unfolding value_eq
  any_equal nil f = false
  any_equal (cons v vs) f = let rest = any_equal vs f in if value_eq v f then true else rest

abbrev pub is_greater : Option Ordering → Bool
is_greater (some gt) = true
is_greater _ = false

abbrev pub is_less : Option Ordering → Bool
is_less (some lt) = true
is_less _ = false

-- `map(|c| c != Less).unwrap_or(false)`
abbrev pub is_not_less : Option Ordering → Bool
is_not_less none = false
is_not_less (some lt) = false
is_not_less (some _) = true

abbrev pub is_not_greater : Option Ordering → Bool
is_not_greater none = false
is_not_greater (some gt) = false
is_not_greater (some _) = true

module _ {h : Host} where
  unfoldable pub in_array : Value h → Value h → Bool
  unfolding any_equal
  in_array (array vs) f = any_equal vs f
  in_array _ f = false

  unfoldable pub cmp_match : FilterOp → Value h → Value h → Bool
  unfolding compare in_array
  cmp_match eq_op f c = value_eq f c
  cmp_match ne_op f c = not (value_eq f c)
  cmp_match gt_op f c = is_greater (compare f c)
  cmp_match gte_op f c = is_not_less (compare f c)
  cmp_match lt_op f c = is_less (compare f c)
  cmp_match lte_op f c = is_not_greater (compare f c)
  cmp_match in_op f c = in_array c f
  cmp_match nin_op f c = not (in_array c f)

unfoldable mutual
  unfolding cmp_match

  pub matches_filter : {h : Host} → (String → Option (Value h)) → DocFilter h → Bool
  matches_filter get_field done = true
  matches_filter get_field (condition c cs) =
      let rest = matches_filter get_field cs in
      if matches_condition get_field c then rest else false

  pub matches_condition : {h : Host} → (String → Option (Value h)) → FilterCondition h → Bool
  matches_condition get_field (cmp field op value) = elim (get_field field) [
    | none ↦ false
    | some fv ↦ cmp_match op fv value
  ]
  matches_condition get_field (all_of fs) = matches_all get_field fs
  matches_condition get_field (any_of fs) = matches_any get_field fs
  matches_condition get_field (none_of f) = not (matches_filter get_field f)

  pub matches_all : {h : Host} → (String → Option (Value h)) → Filters h → Bool
  matches_all get_field no_filter = true
  matches_all get_field (more f fs) =
      let rest = matches_all get_field fs in if matches_filter get_field f then rest else false

  pub matches_any : {h : Host} → (String → Option (Value h)) → Filters h → Bool
  matches_any get_field no_filter = false
  matches_any get_field (more f fs) =
      let rest = matches_any get_field fs in if matches_filter get_field f then true else rest
