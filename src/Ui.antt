-- ===== src/Ui.antt =====
-- src-tauri/src/ui: what the commands of the frontend check.
pub mod Validation
pub mod Video
