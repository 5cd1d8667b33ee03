-- ===== src/Manifest.antt =====
-- The SQLCipher manifest: src-tauri/src/storage/sqlcipher.rs, schema.rs and types/.
pub mod Types
pub mod Rows
pub mod Store
pub mod Nodes
pub mod Hierarchy
pub mod Deletion
pub mod Meta
