-- ===== src/Examples/Headers.antt =====
-- A vault header that a device knows.
use arx_runa.Prelude.{◌≡◌, ◌↔◌, none, some, [], ◌∷◌, codes, ok}
use arx_runa.Cloud.Header.{
  Argon2ParametersJson, VaultHeader, VaultHeaderTrustPolicy, existing_device, Decoders,
  validate_trust_policy,
}
use arx_runa.Cloud.Header.Trust.{IsTrusted, validate_trust_policy-eq-ok_iff}
use arx_runa.Examples.Toy.{zeros}

abbrev plain : Decoders
plain = record { base64 = λ t. some t; hex = λ t. some t }

abbrev params : Argon2ParametersJson
params = record { memory_cost = 65_536; time_cost = 3; parallelism = 4 }

abbrev header : VaultHeader
header = record {
  vault_id = codes "vault";
  schema_version = 1;
  tier = 2;
  argon2_salt = zeros 32;
  argon2_params = params;
  key_file_blake3 = none;
  recovery_slots =
      record {
        method = codes "bip39";
        argon2_salt = zeros 32;
        argon2_params = params;
        wrapped_master_key = zeros 72;
      }
      ∷ [];
  name = none;
}

abbrev policy : VaultHeaderTrustPolicy
policy =
    existing_device
      (record { vault_id = codes "vault"; argon2_salt = zeros 32; argon2_params = params })

validate_trust_policy-eq-ok_iff_example :
    (validate_trust_policy plain header policy ≡ ok tt) ↔ IsTrusted plain header policy
validate_trust_policy-eq-ok_iff_example = validate_trust_policy-eq-ok_iff plain header policy
