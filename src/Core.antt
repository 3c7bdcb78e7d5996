-- ===== src/Core.antt =====
-- crates/rustafari-core: values, rows, schemas, errors, transactions and the catalog.
pub mod Host
pub mod Value
pub mod Row
pub mod Schema
pub mod Error
pub mod Transaction
pub mod Catalog
