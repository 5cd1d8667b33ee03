-- ===== src/Storage.antt =====
-- src-tauri/src/storage: errors and validators.
pub mod Error
pub mod Validation
