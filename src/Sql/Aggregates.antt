-- ===== src/Sql/Aggregates.antt =====
-- The projection of a query in crates/rustafari-sql/src/plan.rs: aggregate calls, and the columns
-- beside them. `to_uppercase` is the Unicode mapping of the standard library, a parameter.
use Prim.Native.String.{◌++◌ as ◌+++◌}
use text.Mathlib.Text.{◌==◌ as str_eq}
use rustafari_db.Common.{String, List, [], ◌∷◌, Option, none, some, any, if◌then◌else◌}
use rustafari_db.Core.Error.{Result, ok, err, panic, parse, ◌>>=◌}
use rustafari_db.Sql.Ast.{
  Ident, identifier, function, Call, call, Args, no_arg, arg, FunctionArg, unnamed_expr,
  unnamed_wildcard, SelectItem, unnamed,
}
use rustafari_db.Sql.Plan.{AggExpr}

-- `f.name.0.first().map(|i| i.value)`, the empty text where there is none.
abbrev pub first_value : List Ident → String
first_value [] = ""
first_value (i ∷ _) = i.value

abbrev pub first_arg : Args → Option FunctionArg
first_arg no_arg = none
first_arg (arg a _) = some a

unfoldable pub col_from_arg : FunctionArg → Result String
col_from_arg (unnamed_expr (identifier id)) = ok id.value
col_from_arg _ = err (parse "aggregate argument must be a column name")

-- The argument of an aggregate that takes a column.
unfoldable pub column_argument : String → (String → AggExpr) → Args → Result AggExpr
unfolding col_from_arg
column_argument message agg no_arg = err (parse message)
column_argument message agg (arg a _) = col_from_arg a >>= λ c. ok (agg c)

-- COUNT: of all rows, or of a column.
unfoldable pub count_argument : Args → Result AggExpr
unfolding col_from_arg
count_argument (arg unnamed_wildcard _) = ok AggExpr.count_star
count_argument (arg a _) = col_from_arg a >>= λ c. ok (AggExpr.count c)
count_argument no_arg = err (parse "COUNT requires * or column")

module _ (to_uppercase : String → String) where
  unfoldable pub expr_to_agg : Call → Result AggExpr
  unfolding column_argument count_argument
  expr_to_agg (call f args) =
      let name = to_uppercase (first_value f.idents) in
      if str_eq name "SUM"
      then column_argument "SUM requires one argument" AggExpr.sum args
      else if str_eq name "COUNT"
      then count_argument args
      else if str_eq name "AVG"
      then column_argument "AVG requires one argument" AggExpr.avg args
      else if str_eq name "MIN"
      then column_argument "MIN requires one argument" AggExpr.min args
      else if str_eq name "MAX"
      then column_argument "MAX requires one argument" AggExpr.max args
      else err (parse ("unsupported aggregate: " +++ name))

  -- `.ok()?` of an item: `none` for an item that is no aggregate.
  unfoldable pub item_as_agg : SelectItem → Option AggExpr
  unfolding expr_to_agg
  item_as_agg (unnamed (function f)) = elim (expr_to_agg f) [
    | ok agg ↦ some agg
    | err _ ↦ none
    | panic ↦ none
  ]
  item_as_agg _ = none

  -- The loop of `projection_as_aggs`: the first item that is no aggregate ends it.
  unfoldable pub items_as_aggs : List SelectItem → Option (List AggExpr)
  unfolding item_as_agg
  items_as_aggs [] = some []
  items_as_aggs (p ∷ ps) =
      let rest = items_as_aggs ps in
      elim (item_as_agg p) [
        | none ↦ none
        | some agg ↦ elim rest [ none ↦ none | some aggs ↦ some (agg ∷ aggs) ]
      ]

  unfoldable pub projection_as_aggs : List SelectItem → Option (List AggExpr)
  unfolding items_as_aggs
  projection_as_aggs projection = elim (items_as_aggs projection) [
    | none ↦ none
    | some [] ↦ none
    | some (agg ∷ aggs) ↦ some (agg ∷ aggs)
  ]

  unfoldable pub projection_as_aggs_with_group :
      List SelectItem → List String → Result (List AggExpr)
  unfolding expr_to_agg
  projection_as_aggs_with_group [] group_by = ok []
  projection_as_aggs_with_group (unnamed (identifier id) ∷ ps) group_by =
      let rest = projection_as_aggs_with_group ps group_by in
      if any (str_eq id.value) group_by
      then rest
      else err (parse "GROUP BY projection: non-group column must be aggregated")
  projection_as_aggs_with_group (unnamed (function f) ∷ ps) group_by =
      expr_to_agg f >>= λ agg. projection_as_aggs_with_group ps group_by >>= λ aggs. ok (agg ∷ aggs)
  projection_as_aggs_with_group (_ ∷ ps) group_by =
      err (parse "GROUP BY projection: only column and aggregate")
