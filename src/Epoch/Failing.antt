-- ===== src/Epoch/Failing.antt =====
-- epoch_flush.rs when a flush fails.
use arx_runa.Prelude.{
  ℕ, suc, ◌+◌, ◌≡◌, ap, ◌∙◌, Bool, ◌&&◌, not, List, [], ◌∷◌, ◌++◌, Bytes, arith, Result-cases,
  Bool-cases, inl, inr, ok, err, ltb,
}
use arx_runa.World.{Env, IsLawful, World, FilePath, join, blob_file}
use arx_runa.World.Files.{write_file, new_v4, generate_file_key, generate_nonce, report}
use arx_runa.Crypto.Chunk.{encrypt_chunk}
use arx_runa.Crypto.WrapKey.{wrap_file_key}
use arx_runa.Storage.Error.{StorageError}
use arx_runa.Storage.Validation.{usize_try_from}
use arx_runa.Manifest.Types.{Manifest, EpochBlobRecord, EpochBufferEntry}
use arx_runa.Manifest.Store.{Extent, settle-err, commit_epoch_flush}
use arx_runa.Pipeline.Pieces.{pad}
use arx_runa.Pipeline.Encrypt.{seal_chunk}
use arx_runa.Epoch.{Entry, pack, flush_one_blob, flush_and_report, flush_loop, is_empty}
use arx_runa.Epoch.Flushing.{blob_record, written-manifest, flush_one_blob-ArePacked}

module _ (env : Env) where
  commit-err :
      (b : EpochBlobRecord) (extents : List Extent) (w w' : World) (e : StorageError)
      → commit_epoch_flush env b extents w ≡ (err e, w')
      → w'.manifest ≡ w.manifest
  unfolding commit_epoch_flush
  commit-err b extents w w' e h = settle-err w.manifest _ _ w' e h

  module _ (kek : Bytes) (staging_dir : FilePath) (chunk_size_bytes : ℕ) where
    -- Where `flush_one_blob` fails, the manifest is as it was.
    pub flush_one_blob_atomic :
        (entries : List Entry) (w w' : World) (e : StorageError)
        → flush_one_blob env kek staging_dir chunk_size_bytes entries w ≡ (err e, w')
        → w'.manifest ≡ w.manifest
    unfolding flush_one_blob new_v4 generate_file_key generate_nonce seal_chunk
    flush_one_blob_atomic entries w w' e h =
        let id = env.uuid_bytes (env.uuid_at w.draws) in
        let key = env.key_at (suc w.draws) in
        let fits = usize_try_from chunk_size_bytes in
        elim (Result-cases fits) [
          | inr (x, j) ↦ ground (arith, j)
          | inl (size, j) ↦
              elim (Result-cases
                (wrap_file_key env.cipher (env.nonce_at (suc (suc w.draws))) key id kek)) [
                  | inr (x, k) ↦ ground (arith, j, k)
                  | inl (wrapped, k) ↦
                      elim (Result-cases (
                        encrypt_chunk env.cipher (env.nonce_at (suc (suc (suc w.draws))))
                          (pad size (pack 0 entries).0) key id 0)) [
                            | inr (x, l) ↦ ground (arith, j, k, l)
                            | inl (encrypted, l) ↦
                                let drawn = record w { draws = suc (suc (suc (suc w.draws))) } in
                                let p =
                                  join staging_dir
                                    (blob_file (env.hyphenated (env.uuid_at w.draws))) in
                                let written = write_file env p encrypted drawn in
                                let same = written-manifest env kek p encrypted drawn in
                                elim (Result-cases written.0) [
                                  | inr (x, o) ↦ ground (arith, j, k, l, o, same)
                                  | inl (u, o) ↦
                                      commit-err
                                        (blob_record env kek staging_dir chunk_size_bytes entries w
                                          wrapped encrypted)
                                        (pack 0 entries).1 written.1 w' e
                                        (ground (arith, j, k, l, o))
                                      ∙ same
                                ]
                          ]
                ]
        ]

module _ (env : Env) (lawful : IsLawful env) (kek : Bytes) (staging_dir : FilePath)
    (chunk_size_bytes : ℕ) (reports : Bool) (total : ℕ) where
  abbrev HasEmptyBuffer : World → Type 0
  HasEmptyBuffer w = w.manifest.epoch_buffer ≡ []

  flush_one_blob-empty :
      (current : List Entry) (w : World)
      → HasEmptyBuffer w
      → HasEmptyBuffer (flush_one_blob env kek staging_dir chunk_size_bytes current w).1
  flush_one_blob-empty current w h =
      let run = flush_one_blob env kek staging_dir chunk_size_bytes current w in
      elim (Result-cases run.0) [
        | inl (u, k) ↦
            (flush_one_blob-ArePacked env lawful kek staging_dir chunk_size_bytes current w run.1
              (ap (λ x. (x, run.1)) k)).5
        | inr (e, k) ↦
            ap (λ (m : Manifest). m.epoch_buffer)
              (flush_one_blob_atomic env kek staging_dir chunk_size_bytes current w run.1 e
                (ap (λ x. (x, run.1)) k))
            ∙ h
      ]

  flush_and_report-empty :
      (current : List Entry) (flushed : ℕ) (w : World)
      → HasEmptyBuffer w
      → HasEmptyBuffer
          (flush_and_report env kek staging_dir chunk_size_bytes reports total current flushed w).1
  unfolding flush_and_report report
  flush_and_report-empty current flushed w h =
      let run = flush_one_blob env kek staging_dir chunk_size_bytes current w in
      let kept = flush_one_blob-empty current w h in
      elim (Result-cases run.0) [
        | inl (u, k) ↦ ground (arith, k, kept)
        | inr (e, k) ↦ ground (arith, k, kept)
      ]

  -- A flush that begins with an empty buffer ends with one, however it ends.
  flush_loop-empty :
      (entries : List EpochBufferEntry) (current : List Entry) (size flushed : ℕ) (w : World)
      → HasEmptyBuffer w
      → HasEmptyBuffer
          (flush_loop env kek staging_dir chunk_size_bytes reports total entries current size
            flushed w).1
  unfolding flush_loop
  flush_loop-empty [] current size flushed w h =
      let last =
        flush_and_report env kek staging_dir chunk_size_bytes reports total current flushed w in
      let kept = flush_and_report-empty current flushed w h in
      elim (Result-cases last.0) [
        | inl (n, k) ↦ ground (arith, k, kept)
        | inr (e, k) ↦ ground (arith, k, kept)
      ]
  flush_loop-empty (e ∷ entries) current size flushed w h =
      let first =
        flush_and_report env kek staging_dir chunk_size_bytes reports total current flushed w in
      let kept = flush_and_report-empty current flushed w h in
      let more =
        flush_loop-empty entries (current ++ ((e.node_id, e.plaintext) ∷ [])) (size + e.size_bytes)
          flushed w h in
      elim (Bool-cases (ltb chunk_size_bytes (size + e.size_bytes) && not (is_empty current))) [
        | inr grow ↦ ground (arith, grow, more)
        | inl full ↦ elim (Result-cases first.0) [
          | inr (x, k) ↦ ground (arith, full, k, kept)
          | inl (n, k) ↦
              let again =
                flush_loop-empty entries ((e.node_id, e.plaintext) ∷ []) e.size_bytes n first.1
                  kept in
              ground (arith, full, k, again)
        ]
      ]

  -- Once a blob has been committed, the buffer is empty when the flush of the entries behind it ends,
  -- also where it fails and those entries are in no blob.
  pub flush_loop_forgets :
      (current : List Entry) (w w₁ : World) (entries : List EpochBufferEntry) (pending : List Entry)
      (size flushed : ℕ)
      → flush_one_blob env kek staging_dir chunk_size_bytes current w ≡ (ok tt, w₁)
      → (flush_loop env kek staging_dir chunk_size_bytes reports total entries pending size flushed
          w₁).1.manifest.epoch_buffer
        ≡ []
  flush_loop_forgets current w w₁ entries pending size flushed h =
      flush_loop-empty entries pending size flushed w₁
        (flush_one_blob-ArePacked env lawful kek staging_dir chunk_size_bytes current w w₁ h).5
