-- ===== src/Cloud.antt =====
-- src-tauri/src/storage/cloud: where blobs go.
pub mod Remote
pub mod Endpoint
pub mod Header
