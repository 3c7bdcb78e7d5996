-- ===== src/Lib.antt =====
-- RustafariDB: an in-memory database with a row store, a columnar store, indexes, SQL plans and
-- documents. This library models the crates that hold its logic and proves what their operations do.
--
-- The parts, and the files that model them:
--   Core        crates/rustafari-core: Value, Row, Schema, Error, Transaction and Catalog are the modules
--               of the same names. Core/Host holds what comes from elsewhere: f64 and f32 arithmetic
--               and the instants and dates of chrono.
--   Storage     crates/rustafari-storage: Page (page.rs), TableStore (table_store.rs, the rows of all
--               tables under keys of table and row), Columnar (columnar.rs, chunks of columns) and Wal
--               (wal.rs, the write-ahead log).
--   Index       crates/rustafari-index: BTree (btree.rs), Inverted (inverted.rs), Vector (vector.rs).
--   Sql         crates/rustafari-sql: Ast (the syntax trees of sqlparser that the code reads), Number
--               (`str::parse` of integers), Plan (the plan types of plan.rs), and the translation of
--               plan.rs: Where (`expr_to_value`, `expr_to_filter`), Aggregates (`expr_to_agg` and the
--               projections), Queries (`query_to_plan`) and Statements (`ast_to_plan`, and lib.rs).
--   Document    crates/rustafari-document: Json and Filter (lib.rs, filter.rs), Collection (coll.rs).
--   Executor    crates/rustafari-executor/src/lib.rs: State is `SessionState`; Predicate, Aggregate,
--               Read, Group and Write hold the helpers and arms of `execute_plan`, Plan puts the
--               arms together. Consistency says when the stores of a session are in step, of every
--               kind of plan. SqlExecutor (sql_executor.rs) runs a SQL text, its History the texts of
--               a session, and Arrow (columnar.rs) turns chunks into Arrow arrays.
--   Server      crates/rustafari-server/src/main.rs: Shell is `run_shell` and the query command, Text the
--               functions on texts that it calls.
--   Common      shared lists, integers, maps, sorts and orders. Tests: runs at concrete inputs.
--
-- How they interact: a SQL text is parsed, its first statement translated to a plan, and the plan run
-- on a session. A session owns the catalog, the row store, the columnar store, the B-tree indexes
-- on `id` and the columnar buffer, as fields of the record `SessionState`. An INSERT writes the row
-- store, the index and the buffer; a filter reads the index or the rows; an aggregate flushes the
-- buffer and reads the chunks. A document collection shares a row store. The shell runs a text for each
-- line and writes the catalog to its file after each that succeeds.
--
-- Conventions: a function of the source that changes state takes it and returns it. `Result` has the
-- source's errors and `panic` as outcomes; a step of a session (`Exec`) returns its outcome and the
-- state, which keeps what was changed before an error. Sums of u64 and usize wrap, as in a release
-- build; an i64 is an integer with its range written out, and `saturating_add` holds it there. A float
-- is its bit pattern: comparison, minimum and maximum are written out, sums and quotients are the
-- host's. A hash map is an association list, an ordered map a sorted one. The stable sort of the
-- library is an insertion sort, which agrees with it where the comparison is a total preorder.
--
-- What is of another crate or of the system is a parameter: the parser of sqlparser, the encoder of
-- serde_json, the builders and arrays of arrow, what the system does of a write, the Unicode tables
-- of the standard library, what the line editor returns and whether a save of the catalog succeeds. A
-- syntax tree has the variants that the code names and one for all others.
--
-- Bounds and fuel: a page has 8192 bytes, a chunk 100000 rows and the buffer of a log 8192 bytes, as in
-- the source and the standard library. Every loop is structural recursion, but for the printing of a
-- number, whose fuel is the number itself, which is at least the count of its digits less one, and
-- the reader of a log, whose fuel is the length of the log, which is at least its count of records.
--
-- Not modelled: locks, since every operation runs to its end before the next; the command line, files
-- and log of crates/rustafari-server; crates/rustafari-lake and crates/rustafari-bench, which are input
-- and output through other crates; the dialect of crates/rustafari-sql, which no code uses; the text of
-- JSON; the two types of crates/rustafari-document/src/update.rs, which no code uses.
pub mod Common
pub mod Core
pub mod Storage
pub mod Index
pub mod Sql
pub mod Document
pub mod Executor
pub mod Server
pub mod Tests
