-- ===== src/Auth/Keys.antt =====
-- src-tauri/src/auth/kdf.rs, crypto/hkdf.rs and auth/session/keys.rs. Argon2id and HKDF-SHA256 come
-- from crates: they are functions of the platform.
use arx_runa.Prelude.{
  ℕ, Bool, false, not, ◌&&◌, ◌||◌, Option, none, some, [], ◌∷◌, ◌++◌, Bytes, codes, ◌==◌,
  if◌then◌else◌, Result, ok, err, ok_or,
}
use arx_runa.Auth.Errors.{AuthenticationError, invalid_credentials, memory_lock_failed}
use arx_runa.World.{FilePath}

pub record Argon2Params : Type 0 where
  pub memory_cost_kib : ℕ
  pub time_cost : ℕ
  pub parallelism : ℕ

-- What authentication takes from outside: the crates argon2 and hkdf, memory locking of the n-th
-- buffer, the blocking task, the file system and SQLCipher. A database handle is a number.
pub record Platform : Type 0 where
  pub params_valid : Argon2Params → Bool
  -- Parameters, input, salt.
  pub argon2id : Argon2Params → Bytes → Bytes → Option Bytes
  -- Salt, input key, info.
  pub hkdf_sha256 : Bytes → Bytes → Bytes → Option Bytes
  pub memory_locks : ℕ → Bool
  pub task_joins : Bool
  pub data_dir : FilePath
  pub exists : FilePath → Bool
  pub open_store : FilePath → Bytes → Option ℕ

pub record SessionKeys : Type 0 where
  pub key_encryption_key : Bytes
  pub sqlcipher_key : Bytes
  pub manifest_key : Bytes
  pub metadata_store : Option ℕ

abbrev pub try_then :
    {A B : Type 0}
    → Result AuthenticationError A
    → (A → Result AuthenticationError B)
    → Result AuthenticationError B
try_then (ok a) f = f a
try_then (err e) f = err e

abbrev pub append_key_file : Bytes → Option Bytes → Bytes
append_key_file password none = password
append_key_file password (some bytes) = password ++ bytes

abbrev pub hkdf_salt : Bytes
hkdf_salt = codes "arx-runa-v1"

abbrev pub hkdf_info_key_encryption : Bytes
hkdf_info_key_encryption = codes "arx-runa-key-encryption"

abbrev pub hkdf_info_sqlcipher : Bytes
hkdf_info_sqlcipher = codes "arx-runa-sqlcipher"

abbrev pub hkdf_info_manifest_backup : Bytes
hkdf_info_manifest_backup = codes "arx-runa-manifest-backup"

-- Some byte of the buffer is not zero.
unfoldable pub is_initialized : Bytes → Bool
is_initialized [] = false
is_initialized (b ∷ buffer) = not (b == 0) || is_initialized buffer

unfoldable pub derived_keys_are_initialized : SessionKeys → Bool
derived_keys_are_initialized derived =
    is_initialized derived.key_encryption_key
    && is_initialized derived.sqlcipher_key
    && is_initialized derived.manifest_key

module _ (p : Platform) where
  unfoldable pub derive_master_key_into :
      Bytes → Option Bytes → Bytes → Argon2Params → Result AuthenticationError Bytes
  derive_master_key_into password key_file salt parameters =
      if not (p.params_valid parameters)
      then err invalid_credentials
      else ok_or (p.argon2id parameters (append_key_file password key_file) salt)
          invalid_credentials

  unfoldable pub expand_vault_key : Bytes → Bytes → Result AuthenticationError Bytes
  expand_vault_key master_key info =
      ok_or (p.hkdf_sha256 hkdf_salt master_key info) invalid_credentials

  -- The three keys of `derive_vault_keys`, whose error the caller maps.
  unfoldable pub derive_vault_keys : Bytes → Result AuthenticationError (Bytes × Bytes × Bytes)
  unfolding expand_vault_key
  derive_vault_keys master_key =
      try_then (expand_vault_key master_key hkdf_info_key_encryption) λ key_encryption_key.
        try_then (expand_vault_key master_key hkdf_info_sqlcipher) λ sqlcipher_key.
          try_then (expand_vault_key master_key hkdf_info_manifest_backup)
            λ manifest_key. ok (key_encryption_key, sqlcipher_key, manifest_key)

  -- `SecureBytes::new` for the n-th buffer.
  abbrev pub new_secure_bytes : ℕ → Result AuthenticationError (Unit {0})
  new_secure_bytes n = if p.memory_locks n then ok tt else err memory_lock_failed

  unfoldable pub from_master_key_bytes : Bytes → Result AuthenticationError SessionKeys
  unfolding derive_vault_keys
  from_master_key_bytes master_key = try_then (derive_vault_keys master_key) λ keys.
      try_then (new_secure_bytes 0) λ _. try_then (new_secure_bytes 1) λ _.
        try_then (new_secure_bytes 2) λ _. ok (record {
          key_encryption_key = keys.0;
          sqlcipher_key = keys.1;
          manifest_key = keys.2;
          metadata_store = none;
        })

  unfoldable pub derive :
      Bytes → Option Bytes → Bytes → Argon2Params → Result AuthenticationError SessionKeys
  unfolding derive_master_key_into from_master_key_bytes
  derive password key_file salt parameters =
      try_then (derive_master_key_into password key_file salt parameters) from_master_key_bytes
