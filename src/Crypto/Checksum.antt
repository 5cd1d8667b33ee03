-- ===== src/Crypto/Checksum.antt =====
-- src-tauri/src/crypto/checksum.rs. BLAKE3 is the crate's: a parameter `hash`.
use arx_runa.Prelude.{◌≡◌, ◌===◌, ===_iff, Result, ok, err, arith, if◌then◌else◌, Bytes}
use arx_runa.Crypto.Types.{CryptoError, checksum_mismatch}

-- A blob whose checksum has been verified; the field is private in the source.
pub record VerifiedBlob : Type 0 where
  pub inner : Bytes

unfoldable pub compute_checksum : (Bytes → Bytes) → Bytes → Bytes
compute_checksum hash encrypted_blob = hash encrypted_blob

unfoldable pub verify_checksum : (Bytes → Bytes) → Bytes → Bytes → Result CryptoError VerifiedBlob
unfolding compute_checksum
verify_checksum hash blob expected =
    if compute_checksum hash blob === expected
    then ok (record { inner = blob })
    else err checksum_mismatch

pub verify_checksum-ok :
    (hash : Bytes → Bytes) (blob expected : Bytes) (v : VerifiedBlob)
    → verify_checksum hash blob expected ≡ ok v
    → (v ≡ record { inner = blob }) × (compute_checksum hash blob ≡ expected)
unfolding verify_checksum
verify_checksum-ok hash blob expected v h = ground (arith, ===_iff (hash blob) expected)

pub verify_checksum_self :
    (hash : Bytes → Bytes) (blob : Bytes)
    → verify_checksum hash blob (compute_checksum hash blob) ≡ ok (record { inner = blob })
unfolding verify_checksum
verify_checksum_self hash blob = ground (arith, ===_iff (hash blob) (hash blob))
