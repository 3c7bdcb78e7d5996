-- ===== src/Index.antt =====
-- crates/rustafari-index: the B-tree, inverted and vector indexes.
pub mod BTree
pub mod Inverted
pub mod Vector
