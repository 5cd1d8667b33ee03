-- ===== src/Crypto/Chunk/Binding.antt =====
-- Blobs are bound to their key, file and position (encrypt_chunk.rs, decrypt_chunk.rs): a blob
-- opens elsewhere only if the cipher itself has a collision.
use arx_runa.Prelude.{
  ℕ, ◌^◌, ◌<◌, ◌≡◌, ◌≢◌, ◌⊎◌, inl, inr, some, ok, length, Bytes, arith, ap, sym, ◌∙◌, ◌++◌,
  append_inj, length-append, Bool-cases, ◌===◌, ===_iff,
}
use arx_runa.Crypto.Cipher.{Cipher, IsAead}
use arx_runa.Crypto.Types.{build_chunk_aad, build_chunk_aad_injective}
use arx_runa.Crypto.Chunk.{
  encrypt_chunk, decrypt_chunk, decrypt_chunk-eq-ok_iff, assemble_ok, nonce_len,
}

-- One ciphertext and tag that stand for two messages under different keys or associated data.
pub record Collision (c : Cipher) : Type 0 where
  pub nonce : Bytes
  pub key : Bytes
  pub key' : Bytes
  pub aad : Bytes
  pub aad' : Bytes
  pub message : Bytes
  pub message' : Bytes
  pub sealed : Bytes × Bytes
  pub seals : c.seal key nonce aad message ≡ some sealed
  pub seals' : c.seal key' nonce aad' message' ≡ some sealed
  pub differ : (key ≢ key') ⊎ (aad ≢ aad')

Text-cases : (xs ys : Bytes) → (xs ≡ ys) ⊎ (xs ≢ ys)
Text-cases xs ys = elim (Bool-cases (xs === ys)) [
  | inl same ↦ inl ((===_iff xs ys).0 same)
  | inr other ↦ inr λ e. cc (other, (===_iff xs ys).1 e)
]

same_split :
    (nonce nonce' ciphertext ciphertext' tag tag' : Bytes)
    → nonce ++ (ciphertext ++ tag) ≡ nonce' ++ (ciphertext' ++ tag')
    → length nonce ≡ length nonce'
    → length tag ≡ length tag'
    → (nonce ≡ nonce') × (ciphertext ≡ ciphertext') × (tag ≡ tag')
same_split nonce nonce' ciphertext ciphertext' tag tag' e hn ht =
    let (same_nonce, body) = append_inj nonce nonce' _ _ e hn in
    let size : length ciphertext ≡ length ciphertext' =
      omega (arith, ap length body, length-append ciphertext tag, length-append ciphertext' tag') in
    let (same_ciphertext, same_tag) = append_inj ciphertext ciphertext' _ _ body size in
    (same_nonce, same_ciphertext, same_tag)

module _ (c : Cipher) (aead : IsAead c) where
  unseal_agrees :
      (key nonce aad m m' : Bytes) (r : Bytes × Bytes)
      → c.seal key nonce aad m ≡ some r
      → c.seal key nonce aad m' ≡ some r
      → m ≡ m'
  unseal_agrees key nonce aad m m' (ciphertext, tag) h h' =
      cc (aead.unseal-seal _ _ _ _ _ _ h, aead.unseal-seal _ _ _ _ _ _ h')

  -- The same blob from two encryptions has one nonce, ciphertext and tag.
  same_parts :
      (key key' file_id file_id' nonce nonce' m m' b : Bytes) (i i' : ℕ)
      → length nonce ≡ nonce_len
      → length nonce' ≡ nonce_len
      → encrypt_chunk c nonce m key file_id i ≡ ok b
      → encrypt_chunk c nonce' m' key' file_id' i' ≡ ok b
      → (r : Bytes × Bytes) × (c.seal key nonce (build_chunk_aad file_id i) m ≡ some r)
        × (c.seal key' nonce (build_chunk_aad file_id' i') m' ≡ some r)
  unfolding encrypt_chunk
  same_parts key key' file_id file_id' nonce nonce' m m' b i i' hn hn' e e' =
      let (ciphertext, tag, sealed, parts) = assemble_ok nonce _ b e in
      let (ciphertext', tag', sealed', parts') = assemble_ok nonce' _ b e' in
      let split =
        same_split nonce nonce' ciphertext ciphertext' tag tag' (sym parts ∙ parts') (omega arith) (
          omega
            (arith, aead.seal_length _ _ _ _ _ _ sealed, aead.seal_length _ _ _ _ _ _ sealed')) in
      ((ciphertext, tag), sealed, cc (sealed', split.0, split.1, split.2))

  -- A blob encrypted for one key, file and position, which decrypts for another key, file and
  -- position, shows a collision of the cipher. Otherwise the key, the file identifier, the position
  -- and the plaintext are the same.
  pub decrypt_chunk_binding :
      (key key' file_id file_id' nonce m m' b : Bytes) (i i' : ℕ)
      → length nonce ≡ nonce_len
      → length file_id ≡ length file_id'
      → i < 2 ^ 32
      → i' < 2 ^ 32
      → encrypt_chunk c nonce m key file_id i ≡ ok b
      → decrypt_chunk c (record { inner = b }) key' file_id' i' ≡ ok m'
      → ((key ≡ key') × (file_id ≡ file_id') × (i ≡ i') × (m ≡ m')) ⊎ Collision c
  decrypt_chunk_binding key key' file_id file_id' nonce m m' b i i' hn hf hi hi' e d =
      let (nonce', hn', e') = (decrypt_chunk-eq-ok_iff c aead key' file_id' i' b m').0 d in
      let (r, s, s') = same_parts key key' file_id file_id' nonce nonce' m m' b i i' hn hn' e e' in
      let aad = build_chunk_aad file_id i in
      let aad' = build_chunk_aad file_id' i' in
      let collide : ((key ≢ key') ⊎ (aad ≢ aad')) → Collision c = λ differ. record {
        nonce = nonce;
        key = key;
        key' = key';
        aad = aad;
        aad' = aad';
        message = m;
        message' = m';
        sealed = r;
        seals = s;
        seals' = s';
        differ = differ;
      } in
      elim (Text-cases key key') [
        | inr other ↦ inr (collide (inl other))
        | inl same_key ↦ elim (Text-cases aad aad') [
          | inr other ↦ inr (collide (inr other))
          | inl same_aad ↦
              let (same_id, same_index) =
                build_chunk_aad_injective file_id file_id' i i' hf hi hi' same_aad in
              inl (
                same_key,
                same_id,
                same_index,
                unseal_agrees key nonce aad m m' r s (cc (s', same_key, same_aad)),
              )
        ]
      ]
