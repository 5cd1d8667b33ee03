-- ===== src/World/Outside.antt =====
-- What the storage code takes from outside the repository: the cipher, BLAKE3, the random
-- generator, the crate `uuid`, and how the n-th call of the operating system or of the database
-- engine ends.
use arx_runa.Prelude.{ℕ, ◌≡◌, refl, ◌⊎◌, inl, inr, Option, some, Text, Bytes, length}
use arx_runa.Crypto.Cipher.{Cipher, IsAead}

-- `torn` is a write that fails after it has left some other content.
pub data Fate : Type 0 where
  done failed : Fate
  torn : Bytes → Fate

-- A call is done, or it is not.
pub Fate-cases : (f : Fate) → (f ≡ done) ⊎ ((f ≡ failed) ⊎ ((rubbish : Bytes) × (f ≡ torn rubbish)))
Fate-cases done = inl refl
Fate-cases failed = inr (inl refl)
Fate-cases (torn rubbish) = inr (inr (rubbish, refl))

pub record Env : Type 0 where
  pub cipher : Cipher
  pub hash : Bytes → Bytes
  -- The n-th draw: a nonce, a file key, a version 4 UUID (by its 128-bit value).
  pub nonce_at : ℕ → Bytes
  pub key_at : ℕ → Bytes
  pub uuid_at : ℕ → ℕ
  pub hyphenated : ℕ → Text
  pub parse_uuid : Text → Option ℕ
  pub uuid_version : ℕ → ℕ
  pub uuid_bytes : ℕ → Bytes
  pub fate : ℕ → Fate
  -- Decides how many bytes the n-th call, a read, gives.
  pub short : ℕ → ℕ

-- The documented behaviour of the crates. That two random UUIDs differ holds up to chance.
pub record IsLawful (env : Env) : Type 0 where
  pub aead : IsAead env.cipher
  pub nonce_length : (n : ℕ) → length (env.nonce_at n) ≡ 24
  pub key_length : (n : ℕ) → length (env.key_at n) ≡ 32
  pub parse-hyphenated : (u : ℕ) → env.parse_uuid (env.hyphenated u) ≡ some u
  pub version_at : (n : ℕ) → env.uuid_version (env.uuid_at n) ≡ 4
  pub uuid_distinct : (m n : ℕ) → env.uuid_at m ≡ env.uuid_at n → m ≡ n
