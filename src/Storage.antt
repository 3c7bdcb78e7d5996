-- ===== src/Storage.antt =====
-- crates/rustafari-storage: pages, the row store and the columnar store.
pub mod Page
pub mod Wal
pub mod TableStore
pub mod Columnar
