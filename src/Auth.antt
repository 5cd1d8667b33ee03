-- ===== src/Auth.antt =====
-- src-tauri/src/auth: key sources, key derivation and the session manager.
pub mod Errors
pub mod Keys
pub mod Session
