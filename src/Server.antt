-- ===== src/Server.antt =====
-- crates/rustafari-server/src/main.rs: the SQL shell.
pub mod Text
pub mod Shell
