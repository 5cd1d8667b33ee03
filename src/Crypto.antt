-- ===== src/Crypto.antt =====
-- src-tauri/src/crypto: the chunk wire format, checksums and key wrapping.
pub mod Cipher
pub mod Types
pub mod Chunk
pub mod Checksum
pub mod WrapKey
