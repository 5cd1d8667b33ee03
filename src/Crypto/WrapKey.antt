-- ===== src/Crypto/WrapKey.antt =====
-- src-tauri/src/crypto/wrap_key.rs and recovery_wrap.rs: 32-byte keys wrapped to 72 bytes,
-- `[24-byte nonce | 32-byte ciphertext | 16-byte tag]`. The two files differ in the associated data.
use arx_runa.Prelude.{
  ℕ, ◌+◌, ◌≡◌, refl, sym, ap, ◌∙◌, ◌↔◌, Option, none, some, ◌++◌, arith, length, take, drop, slice,
  length-append, length-take, length-drop, take-append-drop, take-append_exact, drop-append_exact,
  drop-drop, Result, ok, err, Bytes, codes,
}
use arx_runa.Crypto.Cipher.{Cipher, IsAead}
use arx_runa.Crypto.Types.{CryptoError, key_wrap_failed}
use arx_runa.Crypto.Chunk.{opened, opened_ok}

abbrev pub nonce_len : ℕ
nonce_len = 24

abbrev pub key_len : ℕ
key_len = 32

abbrev pub wrapped_len : ℕ
wrapped_len = 72

abbrev aad_prefix : Bytes
aad_prefix = codes "arx-runa recovery v1"

-- `build_aad` of recovery_wrap.rs.
unfoldable pub build_aad : Bytes → Bytes
build_aad vault_id = aad_prefix ++ vault_id

abbrev wire : Bytes → Option (Bytes × Bytes) → Result CryptoError Bytes
wire nonce none = err key_wrap_failed
wire nonce (some (ciphertext, tag)) = ok (nonce ++ (ciphertext ++ tag))

-- nonce, file key, file identifier, key-encryption key.
unfoldable pub wrap_file_key : Cipher → Bytes → Bytes → Bytes → Bytes → Result CryptoError Bytes
wrap_file_key c nonce file_key file_id kek = wire nonce (c.seal kek nonce file_id file_key)

unfoldable pub unwrap_file_key : Cipher → Bytes → Bytes → Bytes → Result CryptoError Bytes
unwrap_file_key c wrapped file_id kek = opened (
    c.unseal kek (take nonce_len wrapped) file_id (slice nonce_len (nonce_len + key_len) wrapped)
      (drop (nonce_len + key_len) wrapped))

-- nonce, master key, recovery key, vault identifier.
unfoldable pub wrap_master_key_for_recovery :
    Cipher → Bytes → Bytes → Bytes → Bytes → Result CryptoError Bytes
unfolding build_aad
wrap_master_key_for_recovery c nonce master_key recovery_key vault_id =
    wire nonce (c.seal recovery_key nonce (build_aad vault_id) master_key)

unfoldable pub unwrap_master_key_from_recovery :
    Cipher → Bytes → Bytes → Bytes → Result CryptoError Bytes
unfolding build_aad
unwrap_master_key_from_recovery c wrapped recovery_key vault_id = opened (
    c.unseal recovery_key (take nonce_len wrapped) (build_aad vault_id)
      (slice nonce_len (nonce_len + key_len) wrapped) (drop (nonce_len + key_len) wrapped))

wire_ok :
    (nonce : Bytes) (o : Option (Bytes × Bytes)) (w : Bytes)
    → wire nonce o ≡ ok w
    → (ciphertext tag : Bytes) × (o ≡ some (ciphertext, tag)) × (w ≡ nonce ++ (ciphertext ++ tag))
wire_ok nonce none w h = cc
wire_ok nonce (some (ciphertext, tag)) w h = (ciphertext, tag, refl, cc)

-- The three slices of a wrapped key make it up again.
join_slices : (w : Bytes) → take nonce_len w ++ (slice nonce_len 56 w ++ drop 56 w) ≡ w
join_slices w =
    ap (λ r. take nonce_len w ++ (slice nonce_len 56 w ++ r)) (sym (drop-drop 32 nonce_len w))
    ∙ ap (λ r. take nonce_len w ++ r) (take-append-drop 32 (drop nonce_len w))
    ∙ take-append-drop nonce_len w

module _ (c : Cipher) (aead : IsAead c) (key aad : Bytes) where
  unwrap_only :
      (w m : Bytes)
      → length w ≡ wrapped_len
      → c.unseal key (take nonce_len w) aad (slice nonce_len 56 w) (drop 56 w) ≡ some m
      → (nonce : Bytes) × (length nonce ≡ nonce_len)
        × (length m ≡ key_len)
        × (wire nonce (c.seal key nonce aad m) ≡ ok w)
  unwrap_only w m hw h =
      let sealed = aead.seal-unseal _ _ _ _ _ _ h in
      let lengths = aead.seal_length _ _ _ _ _ _ sealed in
      (
        take nonce_len w,
        omega (arith, length-take nonce_len w),
        omega (arith, length-take 32 (drop nonce_len w), length-drop nonce_len w),
        rw sealed (ap ok (join_slices w)),
      )

  unwrap_wire :
      (nonce m w : Bytes)
      → length nonce ≡ nonce_len
      → length m ≡ key_len
      → wire nonce (c.seal key nonce aad m) ≡ ok w
      → c.unseal key (take nonce_len w) aad (slice nonce_len 56 w) (drop 56 w) ≡ some m
  unwrap_wire nonce m w hn hm h =
      let (ciphertext, tag, sealed, parts) = wire_ok nonce _ w h in
      let lengths = aead.seal_length _ _ _ _ _ _ sealed in
      let body = ciphertext ++ tag in
      rw (
        parts,
        ← drop-drop 32 nonce_len (nonce ++ body),
        drop-append_exact nonce_len nonce body (omega arith),
        take-append_exact nonce_len nonce body (omega arith),
        take-append_exact 32 ciphertext tag (omega arith),
        drop-append_exact 32 ciphertext tag (omega arith),
        aead.unseal-seal _ _ _ _ _ _ sealed,
      )

  -- Both directions at once, for either file's associated data.
  unwrap_iff :
      (w m : Bytes)
      → length w ≡ wrapped_len
      → (opened (c.unseal key (take nonce_len w) aad (slice nonce_len 56 w) (drop 56 w)) ≡ ok m) ↔ (
          (nonce : Bytes) × (length nonce ≡ nonce_len)
          × (length m ≡ key_len)
          × (wire nonce (c.seal key nonce aad m) ≡ ok w))
  unwrap_iff w m hw =
      (λ h. unwrap_only w m hw (opened_ok _ m h), λ r. rw (unwrap_wire r.0 m w r.1 r.2 r.3))

module _ (c : Cipher) (aead : IsAead c) where
  -- A 72-byte value unwraps to a file key exactly when it is that key, of 32 bytes, wrapped under
  -- the same key-encryption key and file identifier with some 24-byte nonce.
  pub unwrap_file_key-eq-ok_iff :
      (wrapped file_id kek file_key : Bytes)
      → length wrapped ≡ wrapped_len
      → (unwrap_file_key c wrapped file_id kek ≡ ok file_key) ↔ (
          (nonce : Bytes) × (length nonce ≡ nonce_len)
          × (length file_key ≡ key_len)
          × (wrap_file_key c nonce file_key file_id kek ≡ ok wrapped))
  unfolding unwrap_file_key wrap_file_key
  unwrap_file_key-eq-ok_iff wrapped file_id kek file_key h =
      unwrap_iff c aead kek file_id wrapped file_key h

  -- A 72-byte recovery slot opens to a master key exactly when it is that key, of 32 bytes, wrapped
  -- under the same recovery key and vault identifier with some 24-byte nonce.
  pub unwrap_master_key-eq-ok_iff :
      (wrapped recovery_key vault_id master_key : Bytes)
      → length wrapped ≡ wrapped_len
      → (unwrap_master_key_from_recovery c wrapped recovery_key vault_id ≡ ok master_key) ↔ (
          (nonce : Bytes) × (length nonce ≡ nonce_len)
          × (length master_key ≡ key_len)
          × (wrap_master_key_for_recovery c nonce master_key recovery_key vault_id ≡ ok wrapped))
  unfolding unwrap_master_key_from_recovery wrap_master_key_for_recovery
  unwrap_master_key-eq-ok_iff wrapped recovery_key vault_id master_key h =
      unwrap_iff c aead recovery_key (build_aad vault_id) wrapped master_key h

  -- A wrapped key has 72 bytes.
  pub length-wrap_file_key :
      (nonce file_key file_id kek w : Bytes)
      → length nonce ≡ nonce_len
      → length file_key ≡ key_len
      → wrap_file_key c nonce file_key file_id kek ≡ ok w
      → length w ≡ wrapped_len
  unfolding wrap_file_key
  length-wrap_file_key nonce file_key file_id kek w hn hk h =
      let (ciphertext, tag, sealed, parts) = wire_ok nonce _ w h in
      let lengths = aead.seal_length _ _ _ _ _ _ sealed in
      omega (
        arith,
        ap length parts,
        length-append nonce (ciphertext ++ tag),
        length-append ciphertext tag,
      )
