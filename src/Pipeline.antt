-- ===== src/Pipeline.antt =====
-- src-tauri/src/storage/pipeline: files to encrypted chunks in staging, and back.
pub mod Pieces
pub mod Encrypt
pub mod Decrypt
pub mod Tampering
pub mod Files
pub mod RoundTrip
pub mod Range
pub mod Disk
