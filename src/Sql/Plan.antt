-- ===== src/Sql/Plan.antt =====
-- The plan types of crates/rustafari-sql/src/plan.rs.
use rustafari_db.Common.{ℕ, String, Bool, List, Option}
use rustafari_db.Core.Host.{Host}
use rustafari_db.Core.Schema.{ColumnType}
use rustafari_db.Core.Value.{Value}

pub data CmpOp : Type 0 where
  eq_op ne_op gt_op ge_op lt_op le_op : CmpOp

pub data FilterExpr (h : Host) : Type 0 where
  literal : Bool → FilterExpr h
  both : FilterExpr h → FilterExpr h → FilterExpr h
  either : FilterExpr h → FilterExpr h → FilterExpr h
  negate : FilterExpr h → FilterExpr h
  cmp : String → CmpOp → Value h → FilterExpr h

pub data AggExpr : Type 0 where
  sum : String → AggExpr
  count_star : AggExpr
  count avg min max : String → AggExpr

-- The fields of each node in the order of the source.
pub data PlanNode (h : Host) : Type 0 where
  scan : String → Option String → PlanNode h
  filter : PlanNode h → FilterExpr h → PlanNode h
  project : PlanNode h → List String → PlanNode h
  aggregate : PlanNode h → List AggExpr → PlanNode h
  group_by : PlanNode h → List String → List AggExpr → PlanNode h
  order_by : PlanNode h → List (String × Bool) → PlanNode h
  limit : PlanNode h → ℕ → ℕ → PlanNode h
  insert : String → Option String → List String → List (List (Value h)) → PlanNode h
  create_table : String → Option String → List (String × ColumnType) → PlanNode h
  drop_table : String → Option String → PlanNode h
  describe_table : String → Option String → PlanNode h

pub record LogicalPlan (h : Host) : Type 0 where
  pub root : PlanNode h
