-- ===== src/Crypto/Cipher.antt =====
-- What the crate `chacha20poly1305` gives to src-tauri/src/crypto: the detached
-- XChaCha20-Poly1305 calls `encrypt_in_place_detached` and `decrypt_in_place_detached`. They are
-- not part of the repository, so they are a parameter, with the documented laws as hypotheses.
use arx_runa.Prelude.{ℕ, ◌≤◌, ◌≡◌, Option, some, length, Bytes}

pub record Cipher : Type 0 where
  -- key, nonce, associated data, plaintext; the ciphertext and the tag.
  pub seal : Bytes → Bytes → Bytes → Bytes → Option (Bytes × Bytes)
  -- key, nonce, associated data, ciphertext, tag; the plaintext.
  pub unseal : Bytes → Bytes → Bytes → Bytes → Bytes → Option Bytes

-- The crate's limit on a plaintext's length, in bytes.
abbrev pub max_plaintext : ℕ
max_plaintext = 274_877_906_880

pub record IsAead (c : Cipher) : Type 0 where
  -- Sealing fails only on a plaintext that is too long.
  pub seal_total :
      (key nonce aad m : Bytes)
      → length m ≤ max_plaintext
      → (r : Bytes × Bytes) × (c.seal key nonce aad m ≡ some r)
  -- The ciphertext is as long as the plaintext, and the tag has 16 bytes.
  pub seal_length :
      (key nonce aad m ciphertext tag : Bytes)
      → c.seal key nonce aad m ≡ some (ciphertext, tag)
      → (length ciphertext ≡ length m) × (length tag ≡ 16)
  pub unseal-seal :
      (key nonce aad m ciphertext tag : Bytes)
      → c.seal key nonce aad m ≡ some (ciphertext, tag)
      → c.unseal key nonce aad ciphertext tag ≡ some m
  -- The tag is computed from the ciphertext, so what opens is what sealing gives.
  pub seal-unseal :
      (key nonce aad ciphertext tag m : Bytes)
      → c.unseal key nonce aad ciphertext tag ≡ some m
      → c.seal key nonce aad m ≡ some (ciphertext, tag)
