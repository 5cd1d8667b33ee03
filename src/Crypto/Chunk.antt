-- ===== src/Crypto/Chunk.antt =====
-- src-tauri/src/crypto/encrypt_chunk.rs and decrypt_chunk.rs. The nonce that `generate_nonce`
-- draws is an argument. A blob is `[24-byte nonce | ciphertext | 16-byte tag]`.
pub mod Binding
use arx_runa.Prelude.{
  ℕ, ◌+◌, ◌-◌, ◌≤◌, ◌≡◌, refl, ap, ◌∙◌, inl, inr, ◌↔◌, Option, none, some, ◌++◌, arith, ltb,
  le→not_ltb, not_ltb→le, if◌then◌else◌, length, take, drop, length-append, length-take,
  take-append-drop, take-append_exact, drop-append_exact, Bool-cases, Result, ok, err, Bytes,
}
use arx_runa.Crypto.Cipher.{Cipher, IsAead, max_plaintext}
use arx_runa.Crypto.Types.{
  CryptoError, decryption_failed, encryption_failed, invalid_blob_format, build_chunk_aad,
}
use arx_runa.Crypto.Checksum.{VerifiedBlob}

abbrev pub nonce_len : ℕ
nonce_len = 24

abbrev pub tag_len : ℕ
tag_len = 16

abbrev pub min_blob_len : ℕ
min_blob_len = nonce_len + tag_len

abbrev pub assemble : Bytes → Option (Bytes × Bytes) → Result CryptoError Bytes
assemble nonce none = err encryption_failed
assemble nonce (some (ciphertext, tag)) = ok (nonce ++ (ciphertext ++ tag))

unfoldable pub encrypt_chunk : Cipher → Bytes → Bytes → Bytes → Bytes → ℕ → Result CryptoError Bytes
encrypt_chunk c nonce plaintext file_key file_id chunk_index =
    assemble nonce (c.seal file_key nonce (build_chunk_aad file_id chunk_index) plaintext)

abbrev pub opened : Option Bytes → Result CryptoError Bytes
opened none = err decryption_failed
opened (some m) = ok m

unfoldable pub decrypt_chunk : Cipher → VerifiedBlob → Bytes → Bytes → ℕ → Result CryptoError Bytes
decrypt_chunk c blob file_key file_id chunk_index =
    let blob_bytes = blob.inner in
    let nonce = take nonce_len blob_bytes in
    let rest = drop nonce_len blob_bytes in
    let ciphertext_len = length rest - tag_len in
    if ltb (length blob_bytes) min_blob_len
    then err (invalid_blob_format min_blob_len (length blob_bytes))
    else opened (
        c.unseal file_key nonce (build_chunk_aad file_id chunk_index) (take ciphertext_len rest)
          (drop ciphertext_len rest))

-- The three parts of a blob make it up again.
split_blob :
    (b : Bytes) (k : ℕ)
    → take nonce_len b ++ (take k (drop nonce_len b) ++ drop k (drop nonce_len b)) ≡ b
split_blob b k =
    ap (λ r. take nonce_len b ++ r) (take-append-drop k (drop nonce_len b))
    ∙ take-append-drop nonce_len b

pub opened_ok : (o : Option Bytes) (m : Bytes) → opened o ≡ ok m → o ≡ some m
opened_ok none m h = cc
opened_ok (some x) m h = cc

pub assemble_ok :
    (nonce : Bytes) (o : Option (Bytes × Bytes)) (b : Bytes)
    → assemble nonce o ≡ ok b
    → (ciphertext tag : Bytes) × (o ≡ some (ciphertext, tag)) × (b ≡ nonce ++ (ciphertext ++ tag))
assemble_ok nonce none b h = cc
assemble_ok nonce (some (ciphertext, tag)) b h = (ciphertext, tag, refl, cc)

module _ (c : Cipher) (aead : IsAead c) (file_key file_id : Bytes) (chunk_index : ℕ) where
  abbrev aad : Bytes
  aad = build_chunk_aad file_id chunk_index

  -- A blob that decrypts is what encrypting its plaintext under its nonce gives.
  decrypt_chunk_only :
      (b m : Bytes)
      → decrypt_chunk c (record { inner = b }) file_key file_id chunk_index ≡ ok m
      → (nonce : Bytes) × (length nonce ≡ nonce_len)
        × (encrypt_chunk c nonce m file_key file_id chunk_index ≡ ok b)
  unfolding decrypt_chunk encrypt_chunk
  decrypt_chunk_only b m h = elim (Bool-cases (ltb (length b) min_blob_len)) [
    | inl short ↦ absurd (ground arith)
    | inr long ↦
        let rest = drop nonce_len b in
        let k = length rest - tag_len in
        let unsealed : c.unseal file_key (take nonce_len b) aad (take k rest) (drop k rest)
            ≡ some m =
          opened_ok _ m (rw long at h) in
        let sealed = aead.seal-unseal _ _ _ _ _ _ unsealed in
        (
          take nonce_len b,
          omega (arith, length-take nonce_len b, not_ltb→le _ _ long),
          rw sealed (ap ok (split_blob b k)),
        )
  ]

  -- What `encrypt_chunk` gives decrypts to its plaintext.
  decrypt-encrypt_chunk :
      (nonce m b : Bytes)
      → length nonce ≡ nonce_len
      → encrypt_chunk c nonce m file_key file_id chunk_index ≡ ok b
      → decrypt_chunk c (record { inner = b }) file_key file_id chunk_index ≡ ok m
  unfolding decrypt_chunk encrypt_chunk
  decrypt-encrypt_chunk nonce m b hn h =
      let (ciphertext, tag, sealed, parts) = assemble_ok nonce _ b h in
      let lengths = aead.seal_length _ _ _ _ _ _ sealed in
      let body = ciphertext ++ tag in
      let size : length (nonce ++ body) ≡ 24 + (length ciphertext + 16) =
        omega (arith, length-append nonce body, length-append ciphertext tag) in
      let cut : length body - tag_len ≡ length ciphertext =
        omega (arith, length-append ciphertext tag) in
      rw (
        parts,
        le→not_ltb (length (nonce ++ body)) min_blob_len (omega arith),
        drop-append_exact nonce_len nonce body (omega arith),
        take-append_exact nonce_len nonce body (omega arith),
        cut,
        take-append_exact (length ciphertext) ciphertext tag refl,
        drop-append_exact (length ciphertext) ciphertext tag refl,
        aead.unseal-seal _ _ _ _ _ _ sealed,
      )

  -- A blob is 40 bytes longer than its plaintext.
  pub length-encrypt_chunk :
      (nonce m b : Bytes)
      → length nonce ≡ nonce_len
      → encrypt_chunk c nonce m file_key file_id chunk_index ≡ ok b
      → length b ≡ length m + min_blob_len
  unfolding encrypt_chunk
  length-encrypt_chunk nonce m b hn h =
      let (ciphertext, tag, sealed, parts) = assemble_ok nonce _ b h in
      let lengths = aead.seal_length _ _ _ _ _ _ sealed in
      omega (
        arith,
        ap length parts,
        length-append nonce (ciphertext ++ tag),
        length-append ciphertext tag,
      )

  -- Encryption succeeds on every plaintext up to the cipher's limit.
  pub encrypt_chunk_total :
      (nonce m : Bytes)
      → length m ≤ max_plaintext
      → (b : Bytes) × (encrypt_chunk c nonce m file_key file_id chunk_index ≡ ok b)
  unfolding encrypt_chunk
  encrypt_chunk_total nonce m h =
      let (r, sealed) = aead.seal_total file_key nonce aad m h in (nonce ++ (r.0 ++ r.1), rw sealed)

  -- A blob decrypts to `m` exactly when it is an encryption of `m` under the same key, file
  -- identifier and chunk index, with some 24-byte nonce.
  pub decrypt_chunk-eq-ok_iff :
      (b m : Bytes)
      → (decrypt_chunk c (record { inner = b }) file_key file_id chunk_index ≡ ok m) ↔ (
          (nonce : Bytes) × (length nonce ≡ nonce_len)
          × (encrypt_chunk c nonce m file_key file_id chunk_index ≡ ok b))
  decrypt_chunk-eq-ok_iff b m = (decrypt_chunk_only b m, λ r. decrypt-encrypt_chunk r.0 m b r.1 r.2)
