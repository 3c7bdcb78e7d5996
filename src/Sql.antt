-- ===== src/Sql.antt =====
-- crates/rustafari-sql: from the syntax tree of a statement to the logical plan that the executor
-- runs.
pub mod Plan
pub mod Ast
pub mod Number
pub mod Where
pub mod Aggregates
pub mod Queries
pub mod Statements
