-- ===== src/Executor/Group/Answers.antt =====
-- The answer of GROUP BY in crates/rustafari-executor/src/lib.rs.
use Prim.Native.String.{compare as compare_text}
use rustafari_db.Common.{
  ℕ, ◌≡◌, String, Bool, true, false, List, [], ◌∷◌, ◌++◌, Option, none, some, map, All, any, lt,
}
use rustafari_db.Common.BTreeMap
use rustafari_db.Common.BTreeMap.{BTreeMap, Ord, is_eq}
use rustafari_db.Core.Error.{Result, ok, collect, ◌>>=◌ as and_then}
use rustafari_db.Core.Host.{Host}
use rustafari_db.Core.Row
use rustafari_db.Core.Row.{Row}
use rustafari_db.Core.Schema.{Schema}
use rustafari_db.Core.Value.{Value}
use rustafari_db.Sql.Plan.{AggExpr}
use rustafari_db.Executor.Aggregate.{aggregate_over_row_slice}
use rustafari_db.Executor.Group.{key_values}
use rustafari_db.Executor.Group.Partition.{rows_with}

-- The texts ascend, so that none stands twice.
abbrev pub Ascending : List String → Type 0
Ascending [] = Unit
Ascending (k ∷ ks) = All (λ j. compare_text k j ≡ lt) ks × Ascending ks

abbrev pub has_text : String → List String → Bool
has_text key = any (λ k. is_eq (compare_text key k))

module _ {ℓ} {V : Type ℓ} where
  keys_of : BTreeMap String V → List String
  keys_of = map (λ e. e.0)

  abbrev is_there : Option V → Bool
  is_there none = false
  is_there (some _) = true

module _ {h : Host} (debug : Value h → String) (indices : List ℕ) where
  abbrev pub first_values : List (Row h) → List (Value h)
  first_values [] = []
  first_values (r ∷ _) = key_values r indices

  -- The row for a key: the values of the key in its first row, and the aggregates over its rows.
  abbrev pub group_answer : Schema → List AggExpr → List (Row h) → String → Result (Row h)
  group_answer schema aggs found key =
      let rs = rows_with debug indices key found in
      and_then (collect (aggregate_over_row_slice rs schema) aggs)
        λ vals. ok (Row.new (first_values rs ++ vals))
