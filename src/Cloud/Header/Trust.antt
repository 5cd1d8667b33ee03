-- ===== src/Cloud/Header/Trust.antt =====
-- The headers that vault_header.rs accepts, by what they hold.
use arx_runa.Prelude.{
  ℕ, ◌≤◌, ◌≡◌, refl, ◌↔◌, ◌⊎◌, inl, inr, Bool-cases, true, ◌||◌, Option, none, some, List, [], ◌∷◌,
  Text, Bytes, length, ◌==◌, ===_iff, arith, ok, err,
}
use arx_runa.Cloud.Header.{
  Argon2ParametersJson, RecoverySlot, VaultHeader, VaultHeaderTrustPolicy, bootstrap,
  existing_device, VaultHeaderError, Decoders, Checked, ◌and_then◌, has_length,
  validate_argon2_parameters, check_key_file, check_tier, check_slot, check_slots,
  check_slot_params, check_anchor, validate_structure, validate_trust_policy,
}

abbrev pub IsStrong : Argon2ParametersJson → Type 0
IsStrong p = (19_456 ≤ p.memory_cost) × (2 ≤ p.time_cost) × (1 ≤ p.parallelism)

abbrev pub HasBytes : Option Bytes → ℕ → Type 0
HasBytes decoded n = (bytes : Bytes) × (decoded ≡ some bytes) × (length bytes ≡ n)

module _ (decoders : Decoders) where
  abbrev pub HasDigest : Option Text → Type 0
  HasDigest none = Unit
  HasDigest (some hex_digest) = HasBytes (decoders.hex hex_digest) 32

  -- Every recovery slot has a salt of 32 bytes and a wrapped key of 72.
  abbrev pub HaveBytes : List RecoverySlot → Type 0
  HaveBytes [] = Unit
  HaveBytes (slot ∷ slots) =
      (HasBytes (decoders.base64 slot.argon2_salt) 32
        × HasBytes (decoders.base64 slot.wrapped_master_key) 72)
      × HaveBytes slots

  abbrev pub AreStrong : List RecoverySlot → Type 0
  AreStrong [] = Unit
  AreStrong (slot ∷ slots) = IsStrong slot.argon2_params × AreStrong slots

  -- A device that knows the vault wants the identifier, the salt and the parameters that it knows.
  abbrev pub IsAnchored : VaultHeader → VaultHeaderTrustPolicy → Type 0
  IsAnchored header bootstrap = Unit
  IsAnchored header (existing_device anchor) =
      (header.vault_id ≡ anchor.vault_id)
      × (header.argon2_salt ≡ anchor.argon2_salt)
      × (header.argon2_params.memory_cost ≡ anchor.argon2_params.memory_cost)
      × (header.argon2_params.time_cost ≡ anchor.argon2_params.time_cost)
      × (header.argon2_params.parallelism ≡ anchor.argon2_params.parallelism)

  pub record IsTrusted (header : VaultHeader) (policy : VaultHeaderTrustPolicy) : Type 0 where
    pub version : header.schema_version ≡ 1
    pub tier : (header.tier ≡ 1) ⊎ (header.tier ≡ 2)
    pub digest : HasDigest header.key_file_blake3
    pub salt : HasBytes (decoders.base64 header.argon2_salt) 32
    pub slots : HaveBytes header.recovery_slots
    pub strong : IsStrong header.argon2_params
    pub slots_strong : AreStrong header.recovery_slots
    pub anchored : IsAnchored header policy

  and_then_iff : (a b : Checked) → ((a and_then b) ≡ ok tt) ↔ ((a ≡ ok tt) × (b ≡ ok tt))
  and_then_iff (ok u) b = (λ h. (refl, h), λ h. h.1)
  and_then_iff (err e) b = (λ h. absurd (cc (h)), λ h. absurd (cc (h.0)))

  has_length_iff :
      (o : Option Bytes) (n : ℕ) (undecoded wrong : VaultHeaderError)
      → (has_length o n undecoded wrong ≡ ok tt) ↔ HasBytes o n
  has_length_iff none n undecoded wrong = (λ h. absurd (cc (h)), λ h. absurd (cc (h.1)))
  has_length_iff (some bytes) n undecoded wrong =
      (λ h. (bytes, refl, ground arith), λ (other, same, len). ground arith)

  check_key_file_iff : (o : Option Text) → (check_key_file decoders o ≡ ok tt) ↔ HasDigest o
  check_key_file_iff none = (λ h. tt, λ h. refl)
  check_key_file_iff (some hex_digest) = has_length_iff (decoders.hex hex_digest) 32 _ _

  validate_argon2_parameters_iff :
      (p : Argon2ParametersJson) (e : VaultHeaderError)
      → (validate_argon2_parameters p e ≡ ok tt) ↔ IsStrong p
  unfolding validate_argon2_parameters
  validate_argon2_parameters_iff p e = (λ h. ground arith, λ h. ground arith)

  check_slots_iff :
      (slots : List RecoverySlot) → (check_slots decoders slots ≡ ok tt) ↔ HaveBytes slots
  check_slots_iff [] = (λ h. tt, λ h. refl)
  check_slots_iff (slot ∷ slots) =
      let salt = has_length_iff (decoders.base64 slot.argon2_salt) 32 _ _ in
      let key = has_length_iff (decoders.base64 slot.wrapped_master_key) 72 _ _ in
      let both = and_then_iff (check_slot decoders slot) (check_slots decoders slots) in
      let parts = and_then_iff _ _ in
      let rest = check_slots_iff slots in
      (
        λ h.
            let (first, others) = both.0 h in
            let (a, b) = parts.0 first in ((salt.0 a, key.0 b), rest.0 others),
        λ h. both.1 (parts.1 (salt.1 h.0.0, key.1 h.0.1), rest.1 h.1),
      )

  check_slot_params_iff :
      (slots : List RecoverySlot) → (check_slot_params decoders slots ≡ ok tt) ↔ AreStrong slots
  check_slot_params_iff [] = (λ h. tt, λ h. refl)
  check_slot_params_iff (slot ∷ slots) =
      let both = and_then_iff _ (check_slot_params decoders slots) in
      let first = validate_argon2_parameters_iff slot.argon2_params _ in
      let rest = check_slot_params_iff slots in
      (λ h. let (a, b) = both.0 h in (first.0 a, rest.0 b), λ h. both.1 (first.1 h.0, rest.1 h.1))

  check_anchor_iff :
      (header : VaultHeader) (policy : VaultHeaderTrustPolicy)
      → (check_anchor decoders header policy ≡ ok tt) ↔ IsAnchored header policy
  check_anchor_iff header bootstrap = (λ h. tt, λ h. refl)
  check_anchor_iff header (existing_device anchor) =
      let ids = ===_iff header.vault_id anchor.vault_id in
      let salts = ===_iff header.argon2_salt anchor.argon2_salt in
      (
        λ h. (ground (arith, ids), ground (arith, salts), ground arith, ground arith, ground arith),
        λ h. ground (arith, ids, salts),
      )

  check_tier_iff :
      (tier : ℕ) (o : Option Text)
      → (check_tier decoders tier o ≡ ok tt) ↔ (((tier ≡ 1) ⊎ (tier ≡ 2)) × HasDigest o)
  check_tier_iff tier o =
      let digest = check_key_file_iff o in
      (
        λ h. elim (Bool-cases (tier == 1 || tier == 2)) [
          | inl known ↦ (
            elim (Bool-cases (tier == 1)) [
              | inl one ↦ inl (ground arith)
              | inr other ↦ inr (ground arith)
            ],
            digest.0 (rw known at h),
          )
          | inr unknown ↦ absurd (cc (rw unknown at h))
        ],
        λ h. let known : tier == 1 || tier == 2 ≡ true = ground arith in rw known (digest.1 h.1),
      )

  validate_structure_iff :
      (header : VaultHeader)
      → (validate_structure decoders header ≡ ok tt) ↔ (
          (header.schema_version ≡ 1)
          × (((header.tier ≡ 1) ⊎ (header.tier ≡ 2)) × HasDigest header.key_file_blake3)
          × HasBytes (decoders.base64 header.argon2_salt) 32
          × HaveBytes header.recovery_slots)
  unfolding validate_structure
  validate_structure_iff header =
      let tiers = check_tier_iff header.tier header.key_file_blake3 in
      let salt = has_length_iff (decoders.base64 header.argon2_salt) 32 _ _ in
      let slots = check_slots_iff header.recovery_slots in
      let inner = and_then_iff _ (check_slots decoders header.recovery_slots) in
      let outer = and_then_iff (check_tier decoders header.tier header.key_file_blake3) _ in
      (
        λ h. elim (Bool-cases (header.schema_version == 1)) [
          | inr other ↦ absurd (cc (rw other at h))
          | inl same ↦
              let (a, b) = outer.0 (rw same at h) in
              let (c, d) = inner.0 b in (ground arith, tiers.0 a, salt.0 c, slots.0 d)
        ],
        λ h.
            let same : header.schema_version == 1 ≡ true = ground arith in
            rw same (outer.1 (tiers.1 h.1, inner.1 (salt.1 h.2, slots.1 h.3))),
      )

  -- A header passes `validate_trust_policy` exactly when its version, tier, key file digest and salts
  -- are well formed, all its Argon2 parameters reach the minimum, and, on a device that knows the
  -- vault, its identifier, salt and parameters are those that are known.
  pub validate_trust_policy-eq-ok_iff :
      (header : VaultHeader) (policy : VaultHeaderTrustPolicy)
      → (validate_trust_policy decoders header policy ≡ ok tt) ↔ IsTrusted header policy
  unfolding validate_trust_policy
  validate_trust_policy-eq-ok_iff header policy =
      let structure = validate_structure_iff header in
      let strong = validate_argon2_parameters_iff header.argon2_params _ in
      let slots = check_slot_params_iff header.recovery_slots in
      let anchor = check_anchor_iff header policy in
      let first = and_then_iff (validate_structure decoders header) _ in
      let second = and_then_iff _ _ in
      let third = and_then_iff (check_slot_params decoders header.recovery_slots) _ in
      (
        λ h.
            let (a, b) = first.0 h in
            let (c, d) = second.0 b in
            let (e, f) = third.0 d in
            let (version, (tier, digest), salt, bytes) = structure.0 a in
            record {
              version = version;
              tier = tier;
              digest = digest;
              salt = salt;
              slots = bytes;
              strong = strong.0 c;
              slots_strong = slots.0 e;
              anchored = anchor.0 f;
            },
        λ h.
            let sound = structure.1 (h.version, (h.tier, h.digest), h.salt, h.slots) in
            first.1 (
              sound,
              second.1 (strong.1 h.strong, third.1 (slots.1 h.slots_strong, anchor.1 h.anchored)),
            ),
      )
