-- ===== src/Document.antt =====
-- crates/rustafari-document: filters over documents and collections.
pub mod Json
pub mod Filter
pub mod Collection
