-- ===== src/Executor/SqlExecutor.antt =====
-- crates/rustafari-executor/src/sql_executor.rs: parse, plan, execute.
pub mod Queries
pub mod Filters
pub mod History
pub mod Failures
pub mod Panics
use rustafari_db.Common.{String, List, ◌⊎◌}
use rustafari_db.Core.Error.{Result}
use rustafari_db.Core.Host.{Host}
use rustafari_db.Core.Value.{Value}
use rustafari_db.Sql.Ast.{Statement}
use rustafari_db.Sql.Statements.{sql_to_plan, ast_to_plan}
use rustafari_db.Executor.State.{Exec, lift, continue, ◌>>=◌}
use rustafari_db.Executor.Read.{ExecutionResult}
use rustafari_db.Executor.Plan.{execute_plan}

-- `debug` prints a value, `to_uppercase` is that of the standard library.
module _ {h : Host} (debug : Value h → String) (to_uppercase : String → String) where
  -- `parser` is that of the sqlparser crate.
  unfoldable pub execute : (String → List Statement ⊎ String) → String → Exec h (ExecutionResult h)
  unfolding sql_to_plan execute_plan
  execute parser sql = do plan ← lift (sql_to_plan to_uppercase parser sql); execute_plan debug plan
