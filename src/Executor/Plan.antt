-- ===== src/Executor/Plan.antt =====
-- `execute_plan` of crates/rustafari-executor/src/lib.rs: the arm of each plan node.
pub mod Answers
pub mod Kept
pub mod Failures
pub mod Reads
pub mod Selects
use rustafari_db.Common.{String}
use rustafari_db.Core.Host.{Host}
use rustafari_db.Core.Value.{Value}
use rustafari_db.Sql.Plan.{PlanNode, LogicalPlan}
use rustafari_db.Executor.State.{Exec}
use rustafari_db.Executor.Read.{
  ExecutionResult, execute_scan, execute_filter, execute_project, execute_limit,
}
use rustafari_db.Executor.Group.{execute_group_by, execute_order_by, execute_aggregate}
use rustafari_db.Executor.Write.{
  execute_insert, execute_create_table, execute_drop_table, execute_describe_table,
}

module _ {h : Host} (debug : Value h → String) where
  -- `debug` prints a value as `{:?}`.
  unfoldable pub execute_node : PlanNode h → Exec h (ExecutionResult h)
  unfolding execute_scan execute_filter execute_project execute_limit execute_group_by
      execute_order_by execute_aggregate execute_insert execute_create_table execute_drop_table
      execute_describe_table
  execute_node (PlanNode.scan table namespace) = execute_scan table namespace
  execute_node (PlanNode.filter input predicate) =
      let run = execute_node input in execute_filter input predicate run
  execute_node (PlanNode.project input columns) =
      let run = execute_node input in execute_project input columns run
  execute_node (PlanNode.limit input limit offset) =
      let run = execute_node input in execute_limit limit offset run
  execute_node (PlanNode.aggregate input aggs) =
      let run = execute_node input in execute_aggregate input aggs run
  execute_node (PlanNode.group_by input columns aggs) =
      let run = execute_node input in execute_group_by debug input columns aggs run
  execute_node (PlanNode.order_by input columns) =
      let run = execute_node input in execute_order_by input columns run
  execute_node (PlanNode.insert table namespace _ values) = execute_insert table namespace values
  execute_node (PlanNode.create_table table namespace columns) =
      execute_create_table table namespace columns
  execute_node (PlanNode.drop_table table namespace) = execute_drop_table table namespace
  execute_node (PlanNode.describe_table table namespace) = execute_describe_table table namespace

  unfoldable pub execute_plan : LogicalPlan h → Exec h (ExecutionResult h)
  unfolding execute_node
  execute_plan plan = execute_node plan.root
