-- ===== src/Cloud/Header.antt =====
-- src-tauri/src/storage/cloud/vault_header.rs: which headers are accepted.
pub mod Trust
use arx_runa.Prelude.{
  ℕ, Bool, true, false, ◌&&◌, ◌||◌, not, Option, none, some, List, [], ◌∷◌, Text, Bytes, length,
  ltb, ◌==◌, ◌===◌, if◌then◌else◌, Result, ok, err,
}

pub record Argon2ParametersJson : Type 0 where
  pub memory_cost : ℕ
  pub time_cost : ℕ
  pub parallelism : ℕ

pub record RecoverySlot : Type 0 where
  pub method : Text
  pub argon2_salt : Text
  pub argon2_params : Argon2ParametersJson
  pub wrapped_master_key : Text

pub record VaultHeader : Type 0 where
  pub vault_id : Text
  pub schema_version : ℕ
  pub tier : ℕ
  pub argon2_salt : Text
  pub argon2_params : Argon2ParametersJson
  pub key_file_blake3 : Option Text
  pub recovery_slots : List RecoverySlot
  pub name : Option Text

pub record TrustedVaultHeaderAnchor : Type 0 where
  pub vault_id : Text
  pub argon2_salt : Text
  pub argon2_params : Argon2ParametersJson

pub data VaultHeaderTrustPolicy : Type 0 where
  bootstrap : VaultHeaderTrustPolicy
  existing_device : TrustedVaultHeaderAnchor → VaultHeaderTrustPolicy

pub data VaultHeaderError : Type 0 where
  unsupported_schema_version unsupported_tier : ℕ → VaultHeaderError
  key_file_blake3_decode_failed key_file_blake3_wrong_length : VaultHeaderError
  salt_decode_failed salt_wrong_length argon2_params_below_minimum : VaultHeaderError
  recovery_slot_salt_decode_failed recovery_slot_salt_wrong_length : VaultHeaderError
  recovery_slot_blob_decode_failed recovery_slot_blob_wrong_length : VaultHeaderError
  recovery_slot_argon2_params_below_minimum : VaultHeaderError
  trusted_vault_id_mismatch trusted_argon2_salt_mismatch : VaultHeaderError
  trusted_argon2_params_mismatch : VaultHeaderError

abbrev pub current_schema_version : ℕ
current_schema_version = 1

abbrev pub argon2_min_memory_cost_kib : ℕ
argon2_min_memory_cost_kib = 19_456

abbrev pub argon2_min_time_cost : ℕ
argon2_min_time_cost = 2

abbrev pub argon2_min_parallelism : ℕ
argon2_min_parallelism = 1

-- The decoders of the crates `base64` and `hex`.
pub record Decoders : Type 0 where
  pub base64 : Text → Option Bytes
  pub hex : Text → Option Bytes

abbrev pub Checked : Type 0
Checked = Result VaultHeaderError (Unit {0})

-- The `?` operator.
infixr 10 ◌and_then◌
abbrev pub ◌and_then◌ : Checked → Checked → Checked
(err e) and_then rest = err e
(ok u) and_then rest = rest

-- Decoded bytes must have a length.
abbrev pub has_length : Option Bytes → ℕ → VaultHeaderError → VaultHeaderError → Checked
has_length none n undecoded wrong = err undecoded
has_length (some bytes) n undecoded wrong = if length bytes == n then ok tt else err wrong

abbrev pub below_minimum : Argon2ParametersJson → Bool
below_minimum p =
    ltb p.memory_cost argon2_min_memory_cost_kib
    || ltb p.time_cost argon2_min_time_cost
    || ltb p.parallelism argon2_min_parallelism

unfoldable pub validate_argon2_parameters : Argon2ParametersJson → VaultHeaderError → Checked
validate_argon2_parameters p e = if below_minimum p then err e else ok tt

abbrev pub same_params : Argon2ParametersJson → Argon2ParametersJson → Bool
same_params p q =
    p.memory_cost == q.memory_cost && p.time_cost == q.time_cost && p.parallelism == q.parallelism

module _ (decoders : Decoders) where
  abbrev pub check_key_file : Option Text → Checked
  check_key_file none = ok tt
  check_key_file (some hex_digest) =
      has_length (decoders.hex hex_digest) 32 key_file_blake3_decode_failed
        key_file_blake3_wrong_length

  abbrev pub check_tier : ℕ → Option Text → Checked
  check_tier tier key_file_blake3 =
      if tier == 1 || tier == 2 then check_key_file key_file_blake3 else err (unsupported_tier tier)

  abbrev pub check_slot : RecoverySlot → Checked
  check_slot slot =
      has_length (decoders.base64 slot.argon2_salt) 32 recovery_slot_salt_decode_failed
        recovery_slot_salt_wrong_length
      and_then has_length (decoders.base64 slot.wrapped_master_key) 72
          recovery_slot_blob_decode_failed recovery_slot_blob_wrong_length

  abbrev pub check_slots : List RecoverySlot → Checked
  check_slots [] = ok tt
  check_slots (slot ∷ slots) = check_slot slot and_then check_slots slots

  unfoldable pub validate_structure : VaultHeader → Checked
  validate_structure header =
      if not (header.schema_version == current_schema_version)
      then err (unsupported_schema_version header.schema_version)
      else check_tier header.tier header.key_file_blake3
        and_then has_length (decoders.base64 header.argon2_salt) 32 salt_decode_failed
            salt_wrong_length
        and_then check_slots header.recovery_slots

  abbrev pub check_slot_params : List RecoverySlot → Checked
  check_slot_params [] = ok tt
  check_slot_params (slot ∷ slots) =
      validate_argon2_parameters slot.argon2_params recovery_slot_argon2_params_below_minimum
      and_then check_slot_params slots

  abbrev pub check_anchor : VaultHeader → VaultHeaderTrustPolicy → Checked
  check_anchor header bootstrap = ok tt
  check_anchor header (existing_device anchor) =
      if not (header.vault_id === anchor.vault_id)
      then err trusted_vault_id_mismatch
      else if not (header.argon2_salt === anchor.argon2_salt)
      then err trusted_argon2_salt_mismatch
      else if not (same_params header.argon2_params anchor.argon2_params)
      then err trusted_argon2_params_mismatch
      else ok tt

  unfoldable pub validate_trust_policy : VaultHeader → VaultHeaderTrustPolicy → Checked
  unfolding validate_structure validate_argon2_parameters
  validate_trust_policy header policy =
      validate_structure header
      and_then validate_argon2_parameters header.argon2_params argon2_params_below_minimum
      and_then check_slot_params header.recovery_slots
      and_then check_anchor header policy

  unfoldable pub validate : VaultHeader → Checked
  unfolding validate_structure validate_trust_policy
  validate header = validate_structure header and_then validate_trust_policy header bootstrap
