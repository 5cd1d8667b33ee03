-- ===== src/Epoch/Opening.antt =====
-- A file of an epoch blob, read back: decrypt_file.rs.
use arx_runa.Prelude.{
  ℕ, ◌+◌, ◌≡◌, ◌⊎◌, ap, ◌∙◌, Bool, suc, some, Bytes, length, slice, arith, Result-cases, Bool-cases,
  inl, inr, ok, ◌===◌, ===_iff,
}
use arx_runa.World.{Env, IsLawful, World, FilePath, Fate-cases}
use arx_runa.World.Files.{read_file, report}
use arx_runa.Crypto.Chunk.{encrypt_chunk, decrypt_chunk, nonce_len, decrypt_chunk-eq-ok_iff}
use arx_runa.Crypto.WrapKey.{
  wrap_file_key, unwrap_file_key, key_len, unwrap_file_key-eq-ok_iff, length-wrap_file_key,
}
use arx_runa.Crypto.Checksum.{compute_checksum, verify_checksum, verify_checksum-ok}
use arx_runa.Manifest.Types.{ChunkRecord, EpochBlobRecord}
use arx_runa.Manifest.Store.{find_epoch_blob, get_epoch_blob}
use arx_runa.Pipeline.Decrypt.{resolve_blob_path}
use arx_runa.Pipeline.Decrypt.Integrity.{HashCollision}
use arx_runa.Epoch.{
  Entry, open_epoch_blob, bounds_of, decrypt_epoch_blob_to_slice, decrypt_epoch_file_to_memory,
}

module _ (env : Env) (kek : Bytes) where
  -- The record `b` is that of a blob that encrypts `packed`.
  pub record IsPackedBlob (b : EpochBlobRecord) (packed : Bytes) : Type 0 where
    pub file_key : Bytes
    pub key_length : length file_key ≡ key_len
    pub wrap_nonce : Bytes
    pub wrap_nonce_length : length wrap_nonce ≡ 24
    pub wrapped :
        wrap_file_key env.cipher wrap_nonce file_key (env.uuid_bytes b.epoch_blob_id) kek
        ≡ ok b.file_key_wrapped
    pub nonce : Bytes
    pub nonce_length : length nonce ≡ nonce_len
    pub blob : Bytes
    pub sealed :
        encrypt_chunk env.cipher nonce packed file_key (env.uuid_bytes b.epoch_blob_id) 0 ≡ ok blob
    pub summed : b.blake3_checksum ≡ compute_checksum env.hash blob

  -- The row `r` stands for the entry `e` in the blob of the record `b`.
  pub record IsPacked (b : EpochBlobRecord) (e : Entry) (r : ChunkRecord) : Type 0 where
    pub packed : Bytes
    pub is_blob : IsPackedBlob b packed
    pub offset : ℕ
    pub size : ℕ
    pub in_blob : r.epoch_blob_id ≡ some b.epoch_blob_id
    pub at_node : r.node_id ≡ e.0
    pub first : r.chunk_index ≡ 0
    pub at_offset : r.byte_offset ≡ some offset
    pub with_size : r.byte_length ≡ some size
    pub content : slice offset (offset + size) packed ≡ e.1

  module _ (staging_dir : FilePath) where
    -- A blob that opens has passed the checksum, the key's wrapping and the cipher.
    open_epoch_blob-ok :
        (b : EpochBlobRecord) (w w' : World) (m : Bytes)
        → open_epoch_blob env kek staging_dir b w ≡ (ok m, w')
        → (c key : Bytes) × (compute_checksum env.hash c ≡ b.blake3_checksum)
          × (unwrap_file_key env.cipher b.file_key_wrapped (env.uuid_bytes b.epoch_blob_id) kek
              ≡ ok key)
          × (decrypt_chunk env.cipher (record { inner = c }) key (env.uuid_bytes b.epoch_blob_id) 0
              ≡ ok m)
    unfolding open_epoch_blob
    open_epoch_blob-ok b w w' m h =
        let resolved = resolve_blob_path env staging_dir b.blob_name w in
        elim (Result-cases resolved.0) [
          | inr (e, k) ↦ absurd (ground (arith, k))
          | inl (path, k) ↦
              let read = read_file env path resolved.1 in
              elim (Result-cases read.0) [
                | inr (e, l) ↦ absurd (ground (arith, k, l))
                | inl (c, l) ↦ elim (Result-cases (verify_checksum env.hash c b.blake3_checksum)) [
                  | inr (e, o) ↦ absurd (ground (arith, k, l, o))
                  | inl (v, o) ↦
                      elim (Result-cases (
                        unwrap_file_key env.cipher b.file_key_wrapped
                          (env.uuid_bytes b.epoch_blob_id) kek)) [
                            | inr (e, p) ↦ absurd (ground (arith, k, l, o, p))
                            | inl (key, p) ↦
                                let (same, summed) =
                                  verify_checksum-ok env.hash c b.blake3_checksum v o in
                                elim (Result-cases (
                                  decrypt_chunk env.cipher v key (env.uuid_bytes b.epoch_blob_id)
                                    0)) [
                                      | inr (e, q) ↦ absurd (ground (arith, k, l, o, p, q))
                                      | inl (m', q) ↦
                                          (c, key, summed, p, ground (arith, k, l, o, p, q, same))
                                    ]
                          ]
                ]
              ]
        ]

    decrypt_epoch_blob-ok :
        (b : EpochBlobRecord) (offset size : ℕ) (r : ChunkRecord) (w w' : World)
        (got : Bytes × ℕ × ℕ)
        → r.epoch_blob_id ≡ some b.epoch_blob_id
        → r.byte_offset ≡ some offset
        → r.byte_length ≡ some size
        → find_epoch_blob w.manifest.epoch_blobs b.epoch_blob_id ≡ some b
        → decrypt_epoch_blob_to_slice env kek staging_dir r w ≡ (ok got, w')
        → (w₁ : World) × (open_epoch_blob env kek staging_dir b w₁ ≡ (ok got.0, w'))
          × (got.1 ≡ offset)
          × (got.2 ≡ offset + size)
    unfolding decrypt_epoch_blob_to_slice get_epoch_blob bounds_of
    decrypt_epoch_blob-ok b offset size r w w' got in_blob at_offset with_size found h =
        let fetched = record w { calls = suc w.calls } in
        let opened = open_epoch_blob env kek staging_dir b fetched in
        elim (Fate-cases (env.fate w.calls)) [
          | inr fails ↦ absurd (ground (arith, in_blob, at_offset, with_size, fails))
          | inl settled ↦ elim (Result-cases opened.0) [
            | inr (e, k) ↦ absurd (ground (arith, in_blob, at_offset, with_size, settled, found, k))
            | inl (m, k) ↦ (
              fetched,
              ground (arith, in_blob, at_offset, with_size, settled, found, k),
              ground (arith, in_blob, at_offset, with_size, settled, found, k),
              ground (arith, in_blob, at_offset, with_size, settled, found, k),
            )
          ]
        ]

    decrypt_epoch_file-ok :
        (r : ChunkRecord) (size : ℕ) (reports : Bool) (w w' : World) (out : Bytes)
        → r.byte_length ≡ some size
        → decrypt_epoch_file_to_memory env kek staging_dir r reports w ≡ (ok out, w')
        → (got : Bytes × ℕ × ℕ) × (w₁ : World) × (decrypt_epoch_blob_to_slice env kek staging_dir r
              w
            ≡ (ok got, w₁))
          × (out ≡ slice got.1 got.2 got.0)
    unfolding decrypt_epoch_file_to_memory report
    decrypt_epoch_file-ok r size reports w w' out with_size h =
        let sliced = decrypt_epoch_blob_to_slice env kek staging_dir r w in
        elim (Result-cases sliced.0) [
          | inr (e, k) ↦ absurd (ground (arith, with_size, k))
          | inl (got, k) ↦ (got, sliced.1, ap (λ x. (x, sliced.1)) k, ground (arith, with_size, k))
        ]

module _ (env : Env) (lawful : IsLawful env) (kek : Bytes) (staging_dir : FilePath) where
  -- What a blob opens to is what was packed.
  open_epoch_blob-packed :
      (b : EpochBlobRecord) (packed : Bytes) (w w' : World) (m : Bytes)
      → IsPackedBlob env kek b packed
      → open_epoch_blob env kek staging_dir b w ≡ (ok m, w')
      → (m ≡ packed) ⊎ HashCollision env.hash
  open_epoch_blob-packed b packed w w' m s h =
      let (c, key, summed, unwrapped, opened) = open_epoch_blob-ok env kek staging_dir b w w' m h in
      let id = env.uuid_bytes b.epoch_blob_id in
      let long =
        length-wrap_file_key env.cipher lawful.aead s.wrap_nonce s.file_key id kek
          b.file_key_wrapped s.wrap_nonce_length s.key_length s.wrapped in
      let original =
        (unwrap_file_key-eq-ok_iff env.cipher lawful.aead b.file_key_wrapped id kek s.file_key
            long).1
          (s.wrap_nonce, s.wrap_nonce_length, s.key_length, s.wrapped) in
      let same : key ≡ s.file_key = cc (unwrapped, original) in
      let decrypts =
        (decrypt_chunk-eq-ok_iff env.cipher lawful.aead s.file_key id 0 s.blob packed).1
          (s.nonce, s.nonce_length, s.sealed) in
      elim (Bool-cases (c === s.blob)) [
        | inl equal ↦ let e = (===_iff c s.blob).0 equal in inl (cc (e, same, opened, decrypts))
        | inr other ↦ inr (record {
          left = c;
          right = s.blob;
          differ = λ e. cc (other, (===_iff c s.blob).1 e);
          agree = summed ∙ s.summed;
        })
      ]

  -- Take a row that stands for a file in an epoch blob, and any world whose manifest has the record of
  -- that blob: the blob may have been deleted or altered, and calls may fail. If
  -- `decrypt_epoch_file_to_memory` succeeds there, it gives the file, or BLAKE3 has a collision.
  pub decrypt_epoch_file-IsPacked :
      (b : EpochBlobRecord) (e : Entry) (r : ChunkRecord) (reports : Bool) (w w' : World)
      (out : Bytes)
      → IsPacked env kek b e r
      → find_epoch_blob w.manifest.epoch_blobs b.epoch_blob_id ≡ some b
      → decrypt_epoch_file_to_memory env kek staging_dir r reports w ≡ (ok out, w')
      → (out ≡ e.1) ⊎ HashCollision env.hash
  decrypt_epoch_file-IsPacked b e r reports w w' out s found h =
      let (got, w₁, sliced, cut) =
        decrypt_epoch_file-ok env kek staging_dir r s.size reports w w' out s.with_size h in
      let (w₂, opened, start, end) =
        decrypt_epoch_blob-ok env kek staging_dir b s.offset s.size r w w₁ got s.in_blob s.at_offset
          s.with_size found sliced in
      elim (open_epoch_blob-packed b s.packed w₂ w₁ got.0 s.is_blob opened) [
        | inr collision ↦ inr collision
        | inl whole ↦ inl (
            cut
            ∙ ap (λ (x : ℕ). slice x got.2 got.0) start
            ∙ ap (λ (x : ℕ). slice s.offset x got.0) end
            ∙ ap (slice s.offset (s.offset + s.size)) whole
            ∙ s.content)
      ]
