-- ===== src/Document/Filter/RoundTrip.antt =====
-- Filters written as JSON, which `filter_from_json` of crates/rustafari-document/src/filter.rs reads.
use Prim.Native.String.{compare as compare_text}
use text.Mathlib.Text.{starts_with}
use rustafari_db.Common.{
  ◌≡◌, refl, sym, lt, eq, gt, ◌/◌, ◌%◌, ◌^◌, ◌<◌, ◌∙◌, ap, String, false, none, some,
}
use rustafari_db.Core.Error.{Result, ok, err, parse, ◌>>=◌}
use rustafari_db.Core.Host.{Host}
use rustafari_db.Core.Value.{
  Value, null, bool, int64, float64, string, bytes, timestamp, date, document, vector, array, Items,
  nil, cons,
}
use rustafari_db.Document.Json.{
  JsonValue, json_null, json_bool, json_number, json_string, json_array, json_object, JsonItems,
  no_item, item, JsonFields, no_member, member, json_to_value, json_items, number_of,
}
use rustafari_db.Document.Filter.{
  FilterOp, eq_op, ne_op, gt_op, gte_op, lt_op, lte_op, in_op, nin_op, DocFilter, done, condition,
  FilterCondition, cmp, all_of, any_of, none_of, Filters, no_filter, more, json_get, field_op,
  field_condition, filter_from_json, filter_items,
}

abbrev pub op_name : FilterOp → String
op_name eq_op = "$eq"
op_name ne_op = "$ne"
op_name gt_op = "$gt"
op_name gte_op = "$gte"
op_name lt_op = "$lt"
op_name lte_op = "$lte"
op_name in_op = "$in"
op_name nin_op = "$nin"

unfoldable mutual
  pub value_to_json : {h : Host} → Value h → JsonValue
  value_to_json (bool b) = json_bool b
  value_to_json {h} (int64 i) = json_number (some i) (some (h.f64_of_i64 i))
  value_to_json (float64 f) = json_number none (some f)
  value_to_json (string s) = json_string s
  value_to_json (array vs) = json_array (items_to_json vs)
  value_to_json _ = json_null

  pub items_to_json : {h : Host} → Items h → JsonItems
  items_to_json nil = no_item
  items_to_json (cons v vs) = item (value_to_json v) (items_to_json vs)

-- A value that JSON has: NULL, a Boolean, an integer, a finite float, a text, or an array of these.
unfoldable mutual
  pub IsJson : {h : Host} → Value h → Type 0
  IsJson null = Unit
  IsJson (bool b) = Unit
  IsJson (int64 i) = Unit
  IsJson (float64 f) = f / 2 ^ 52 % 2 ^ 11 < 2047
  IsJson (string s) = Unit
  IsJson (array vs) = AreJson vs
  IsJson _ = ⊥

  pub AreJson : {h : Host} → Items h → Type 0
  AreJson nil = Unit
  AreJson (cons v vs) = IsJson v × AreJson vs

-- `Map::insert`: the members stand in the order of their keys, each key once.
unfoldable pub insert_member : String → JsonValue → JsonFields → JsonFields
insert_member k v no_member = member k v no_member
insert_member k v (member j w fs) = elim (compare_text k j) [
  | lt ↦ member k v (member j w fs)
  | eq ↦ member k v fs
  | gt ↦ member j w (insert_member k v fs)
]

-- The key of a condition.
abbrev pub key_of : {h : Host} → FilterCondition h → String
key_of (cmp k op v) = k
key_of (all_of fs) = "$and"
key_of (any_of fs) = "$or"
key_of (none_of f) = "$not"

unfoldable mutual
  unfolding value_to_json insert_member

  pub filter_to_json : {h : Host} → DocFilter h → JsonFields
  filter_to_json done = no_member
  filter_to_json (condition c cs) =
      let rest = filter_to_json cs in insert_member (key_of c) (condition_to_json c) rest

  pub condition_to_json : {h : Host} → FilterCondition h → JsonValue
  condition_to_json (cmp k op v) = json_object (member (op_name op) (value_to_json v) no_member)
  condition_to_json (all_of fs) = json_array (filters_to_json fs)
  condition_to_json (any_of fs) = json_array (filters_to_json fs)
  condition_to_json (none_of f) = json_object (filter_to_json f)

  pub filters_to_json : {h : Host} → Filters h → JsonItems
  filters_to_json no_filter = no_item
  filters_to_json (more f fs) = item (json_object (filter_to_json f)) (filters_to_json fs)

-- The key comes before that of the first of the conditions.
abbrev pub Leads : {h : Host} → String → DocFilter h → Type 0
Leads k done = Unit
Leads k (condition c cs) = compare_text k (key_of c) ≡ lt

-- The conditions of a filter stand in the order of their keys, each key once; its fields do not start
-- with `$`, and its values are those that JSON has.
unfoldable mutual
  unfolding IsJson

  pub IsPrintable : {h : Host} → DocFilter h → Type 0
  IsPrintable done = Unit
  IsPrintable (condition c cs) = PrintsAs c × Leads (key_of c) cs × IsPrintable cs

  pub PrintsAs : {h : Host} → FilterCondition h → Type 0
  PrintsAs (cmp k op v) = (starts_with k "$" ≡ false) × IsJson v
  PrintsAs (all_of fs) = ArePrintable fs
  PrintsAs (any_of fs) = ArePrintable fs
  PrintsAs (none_of f) = IsPrintable f

  pub ArePrintable : {h : Host} → Filters h → Type 0
  ArePrintable no_filter = Unit
  ArePrintable (more f fs) = IsPrintable f × ArePrintable fs

mutual
  unfolding value_to_json IsJson json_to_value

  json_to_value-value_to_json :
      {h : Host} (v : Value h) → IsJson v → json_to_value number_of (value_to_json v) ≡ ok v
  json_to_value-value_to_json null j = refl
  json_to_value-value_to_json (bool b) j = refl
  json_to_value-value_to_json (int64 i) j = refl
  json_to_value-value_to_json (float64 f) j = refl
  json_to_value-value_to_json (string s) j = refl
  json_to_value-value_to_json (array vs) j =
      ap (λ r. r >>= λ ws. ok (array ws)) (json_items-items_to_json vs j)
  json_to_value-value_to_json (bytes b) j = absurd j
  json_to_value-value_to_json (timestamp t) j = absurd j
  json_to_value-value_to_json (date d) j = absurd j
  json_to_value-value_to_json (document fs) j = absurd j
  json_to_value-value_to_json (vector fs) j = absurd j

  json_items-items_to_json :
      {h : Host} (vs : Items h) → AreJson vs → json_items number_of (items_to_json vs) ≡ ok vs
  json_items-items_to_json nil j = refl
  json_items-items_to_json (cons v vs) (j, js) =
      ap (λ r. r >>= λ w. json_items number_of (items_to_json vs) >>= λ ws. ok (cons w ws))
        (json_to_value-value_to_json v j)
      ∙ ap (λ r. r >>= λ ws. ok (cons v ws)) (json_items-items_to_json vs js)

field_op-op_name :
    (op : FilterOp) (v : JsonValue) → field_op (member (op_name op) v no_member) ≡ some (op, v)
unfolding field_op json_get
field_op-op_name eq_op v = refl
field_op-op_name ne_op v = refl
field_op-op_name gt_op v = refl
field_op-op_name gte_op v = refl
field_op-op_name lt_op v = refl
field_op-op_name lte_op v = refl
field_op-op_name in_op v = refl
field_op-op_name nin_op v = refl

field_condition-cmp :
    {h : Host} (k : String) (op : FilterOp) (v : Value h)
    → IsJson v
    → field_condition k (json_object (member (op_name op) (value_to_json v) no_member))
      ≡ ok (cmp k op v)
unfolding field_condition
field_condition-cmp k op v j =
    ap
      (λ o. elim o [
        | none ↦ err (parse "unknown operator in field")
        | some (p, inner) ↦ json_to_value number_of inner >>= λ w. ok (cmp k p w)
      ])
      (field_op-op_name op (value_to_json v))
    ∙ ap (λ r. r >>= λ w. ok (cmp k op w)) (json_to_value-value_to_json v j)

-- The condition that is read first, and the others.
joined :
    {h : Host} (first : Result (FilterCondition h)) (others : Result (DocFilter h))
    (c : FilterCondition h) (cs : DocFilter h)
    → first ≡ ok c
    → others ≡ ok cs
    → (first >>= λ x. others >>= λ xs. ok (condition x xs)) ≡ ok (condition c cs)
joined first others c cs e f = rw e (rw f refl)

-- A condition that leads the others is the first member of the object.
first_member :
    {h : Host} (c : FilterCondition h) (cs : DocFilter h)
    → Leads (key_of c) cs
    → IsPrintable cs
    → filter_to_json (condition c cs) ≡ member (key_of c) (condition_to_json c) (filter_to_json cs)
unfolding filter_to_json IsPrintable
first_member c done l p = refl
first_member c (condition d ds) l p =
    let e = first_member d ds p.1 p.2 in
    ap (insert_member (key_of c) (condition_to_json c)) e
    ∙ (unfold insert_member in
        ap
          (λ o. elim o [
            | lt ↦
                member (key_of c) (condition_to_json c)
                  (member (key_of d) (condition_to_json d) (filter_to_json ds))
            | eq ↦ member (key_of c) (condition_to_json c) (filter_to_json ds)
            | gt ↦
                member (key_of d) (condition_to_json d)
                  (insert_member (key_of c) (condition_to_json c) (filter_to_json ds))
          ])
          l)
    ∙ ap (member (key_of c) (condition_to_json c)) (sym e)

mutual
  unfolding filter_to_json IsPrintable filter_from_json

  filter_read_back :
      {h : Host} (f : DocFilter h) → IsPrintable f → filter_from_json (filter_to_json f) ≡ ok f
  filter_read_back done p = refl
  filter_read_back (condition (cmp k op v) cs) ((s, j), l, p) =
      ap filter_from_json (first_member (cmp k op v) cs l p)
      ∙ rw s (
          joined (field_condition k (json_object (member (op_name op) (value_to_json v) no_member)))
            (filter_from_json (filter_to_json cs)) (cmp k op v) cs (field_condition-cmp k op v j)
            (filter_read_back cs p))
  filter_read_back (condition (all_of fs) cs) (q, l, p) =
      ap filter_from_json (first_member (all_of fs) cs l p)
      ∙ joined
          (filter_items "$and element must be object" (filters_to_json fs) >>= λ x. ok (all_of x))
          (filter_from_json (filter_to_json cs)) (all_of fs) cs
          (ap (λ r. r >>= λ x. ok (all_of x))
            (filters_read_back "$and element must be object" fs q))
          (filter_read_back cs p)
  filter_read_back (condition (any_of fs) cs) (q, l, p) =
      ap filter_from_json (first_member (any_of fs) cs l p)
      ∙ joined
          (filter_items "$or element must be object" (filters_to_json fs) >>= λ x. ok (any_of x))
          (filter_from_json (filter_to_json cs)) (any_of fs) cs
          (ap (λ r. r >>= λ x. ok (any_of x)) (filters_read_back "$or element must be object" fs q))
          (filter_read_back cs p)
  filter_read_back (condition (none_of f) cs) (q, l, p) =
      ap filter_from_json (first_member (none_of f) cs l p)
      ∙ joined (filter_from_json (filter_to_json f) >>= λ x. ok (none_of x))
          (filter_from_json (filter_to_json cs)) (none_of f) cs
          (ap (λ r. r >>= λ x. ok (none_of x)) (filter_read_back f q)) (filter_read_back cs p)

  filters_read_back :
      {h : Host} (message : String) (fs : Filters h)
      → ArePrintable fs
      → filter_items message (filters_to_json fs) ≡ ok fs
  filters_read_back message no_filter p = refl
  filters_read_back message (more f fs) (q, p) =
      ap (λ r. r >>= λ x. filter_items message (filters_to_json fs) >>= λ xs. ok (more x xs))
        (filter_read_back f q)
      ∙ ap (λ r. r >>= λ xs. ok (more f xs)) (filters_read_back message fs p)

-- A filter written as a JSON map is read back as it was. The keys of its conditions are distinct and in
-- ascending order, as the map holds them, also in the filters inside it; its fields do not start with
-- `$`, and its values are NULL, Booleans, integers, finite floats, texts and arrays of these.
pub filter_from_json-filter_to_json :
    {h : Host} (f : DocFilter h) → IsPrintable f → filter_from_json (filter_to_json f) ≡ ok f
filter_from_json-filter_to_json f p = filter_read_back f p
