-- ===== src/Crypto/Types.antt =====
-- src-tauri/src/crypto/types/mod.rs and error.rs: identifiers, the associated data of a chunk, and
-- the errors. A key is its 32 bytes, a `FileId` its 16 bytes and a `ChunkIndex` a `u32`.
use arx_runa.Prelude.{ℕ, ◌/◌, ◌%◌, ◌^◌, ◌<◌, ◌≡◌, [], ◌∷◌, ◌++◌, arith, length, append_inj, Bytes}

pub data CryptoError : Type 0 where
  decryption_failed key_wrap_failed encryption_failed checksum_mismatch : CryptoError
  invalid_blob_format : ℕ → ℕ → CryptoError

-- `u32::to_be_bytes`.
unfoldable pub to_be_bytes : ℕ → Bytes
to_be_bytes n = (n / 2 ^ 24 % 256) ∷ (n / 2 ^ 16 % 256) ∷ (n / 2 ^ 8 % 256) ∷ (n % 256) ∷ []

unfoldable pub build_chunk_aad : Bytes → ℕ → Bytes
build_chunk_aad file_id chunk_index = file_id ++ to_be_bytes chunk_index

pub length-to_be_bytes : (n : ℕ) → length (to_be_bytes n) ≡ 4
unfolding to_be_bytes
length-to_be_bytes n = omega arith

-- Two `u32` values with the same bytes are equal.
pub to_be_bytes_injective :
    (m n : ℕ) → m < 2 ^ 32 → n < 2 ^ 32 → to_be_bytes m ≡ to_be_bytes n → m ≡ n
unfolding to_be_bytes
to_be_bytes_injective m n hm hn e = ground arith

pub build_chunk_aad_injective :
    (file_id file_id' : Bytes) (i i' : ℕ)
    → length file_id ≡ length file_id'
    → i < 2 ^ 32
    → i' < 2 ^ 32
    → build_chunk_aad file_id i ≡ build_chunk_aad file_id' i'
    → (file_id ≡ file_id') × (i ≡ i')
unfolding build_chunk_aad
build_chunk_aad_injective file_id file_id' i i' l h h' e =
    let (same_id, same_index) = append_inj file_id file_id' (to_be_bytes i) (to_be_bytes i') e l in
    (same_id, to_be_bytes_injective i i' h h' same_index)
