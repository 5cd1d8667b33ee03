-- ===== src/Epoch/Flushing.antt =====
-- `flush_one_blob` of epoch_flush.rs: what a flush that succeeds leaves.
use arx_runa.Prelude.{
  ℕ, suc, ◌-◌, ◌≡◌, refl, ap, ◌∙◌, some, List, [], ◌∷◌, ◌++◌, Bytes, length, replicate, arith,
  Result-cases, inl, inr, ok,
}
use arx_runa.World.{Env, IsLawful, World, FilePath, join, blob_file}
use arx_runa.World.Files.{write_file, new_v4, generate_file_key, generate_nonce}
use arx_runa.Crypto.Chunk.{encrypt_chunk}
use arx_runa.Crypto.WrapKey.{wrap_file_key}
use arx_runa.Crypto.Checksum.{compute_checksum}
use arx_runa.Manifest.Types.{Manifest, ChunkRecord, EpochBlobRecord}
use arx_runa.Manifest.Store.{Extent, find_epoch_blob, commit_epoch_flush}
use arx_runa.Pipeline.Pieces.{pad}
use arx_runa.Pipeline.Encrypt.{seal_chunk}
use arx_runa.Epoch.{Entry, pack, flush_one_blob}
use arx_runa.Epoch.Packing.{Slices, pack-Slices}
use arx_runa.Epoch.Opening.{IsPackedBlob, IsPacked}
use arx_runa.Epoch.Committing.{AreRows, commit_epoch_flush-ok, find_epoch_blob_last}

module _ (env : Env) (kek : Bytes) where
  pub written-manifest :
      (p : FilePath) (bytes : Bytes) (w : World)
      → (write_file env p bytes w).1.manifest ≡ w.manifest
  unfolding write_file
  written-manifest p bytes w = refl

  -- The rows stand for the entries, in order, in the blob of the record `b`.
  abbrev pub ArePacked : EpochBlobRecord → List Entry → List ChunkRecord → Type 0
  ArePacked b [] [] = Unit {0}
  ArePacked b (e ∷ entries) (r ∷ rows) = IsPacked env kek b e r × ArePacked b entries rows
  ArePacked b _ _ = ⊥

  rows-ArePacked :
      (b : EpochBlobRecord) (packed : Bytes) (entries : List Entry) (extents : List Extent)
      (rows : List ChunkRecord)
      → IsPackedBlob env kek b packed
      → Slices packed entries extents
      → AreRows b env extents rows
      → ArePacked b entries rows
  rows-ArePacked b packed [] [] [] is s a = tt
  rows-ArePacked b packed [] [] (r ∷ rows) is s a = elim a [ ]
  rows-ArePacked b packed [] (x ∷ extents) rows is s a = elim s [ ]
  rows-ArePacked b packed (e ∷ entries) [] rows is s a = elim s [ ]
  rows-ArePacked b packed (e ∷ entries) (x ∷ extents) [] is s a = elim a [ ]
  rows-ArePacked b packed (e ∷ entries) (x ∷ extents) (r ∷ rows) is
        (node, first, content, fits, rest) a =
      (
        record {
          packed = packed;
          is_blob = is;
          offset = x.2;
          size = x.3;
          in_blob = ap (λ (c : ChunkRecord). c.epoch_blob_id) a.0.1;
          at_node = ap (λ (c : ChunkRecord). c.node_id) a.0.1 ∙ node;
          first = ap (λ (c : ChunkRecord). c.chunk_index) a.0.1 ∙ first;
          at_offset = ap (λ (c : ChunkRecord). c.byte_offset) a.0.1;
          with_size = ap (λ (c : ChunkRecord). c.byte_length) a.0.1;
          content = content;
        },
        rows-ArePacked b packed entries extents rows is rest a.1,
      )

  module _ (staging_dir : FilePath) (chunk_size_bytes : ℕ) (entries : List Entry) where
    -- The record of the blob `encrypted`, with the identifier that the flush draws.
    abbrev pub blob_record : World → Bytes → Bytes → EpochBlobRecord
    blob_record w wrapped encrypted = record {
      epoch_blob_id = env.uuid_at w.draws;
      blob_name = env.hyphenated (env.uuid_at w.draws);
      file_key_wrapped = wrapped;
      size_padded = length encrypted;
      blake3_checksum = compute_checksum env.hash encrypted;
    }

    flush_one_blob-ok :
        (w w' : World)
        → flush_one_blob env kek staging_dir chunk_size_bytes entries w ≡ (ok tt, w')
        → (wrapped encrypted : Bytes) × (w₁ : World) × (wrap_file_key env.cipher
              (env.nonce_at (suc (suc w.draws)))
              (env.key_at (suc w.draws))
              (env.uuid_bytes (env.uuid_at w.draws))
              kek
            ≡ ok wrapped)
          × (encrypt_chunk env.cipher
                (env.nonce_at (suc (suc (suc w.draws))))
                (pad chunk_size_bytes (pack 0 entries).0)
                (env.key_at (suc w.draws))
                (env.uuid_bytes (env.uuid_at w.draws))
                0
              ≡ ok encrypted)
          × (w₁.manifest ≡ w.manifest)
          × (commit_epoch_flush env (blob_record w wrapped encrypted) (pack 0 entries).1 w₁
              ≡ (ok tt, w'))
    unfolding flush_one_blob new_v4 generate_file_key generate_nonce seal_chunk
    flush_one_blob-ok w w' h =
        let id = env.uuid_bytes (env.uuid_at w.draws) in
        let key = env.key_at (suc w.draws) in
        elim (Result-cases
          (wrap_file_key env.cipher (env.nonce_at (suc (suc w.draws))) key id kek)) [
            | inr (e, k) ↦ absurd (ground (arith, k))
            | inl (wrapped, k) ↦
                elim (Result-cases (
                  encrypt_chunk env.cipher (env.nonce_at (suc (suc (suc w.draws))))
                    (pad chunk_size_bytes (pack 0 entries).0) key id 0)) [
                      | inr (e, l) ↦ absurd (ground (arith, k, l))
                      | inl (encrypted, l) ↦
                          let drawn = record w { draws = suc (suc (suc (suc w.draws))) } in
                          let written =
                            write_file env
                              (join staging_dir (blob_file (env.hyphenated (env.uuid_at w.draws))))
                              encrypted drawn in
                          let same =
                            written-manifest
                              (join staging_dir (blob_file (env.hyphenated (env.uuid_at w.draws))))
                              encrypted drawn in
                          elim (Result-cases written.0) [
                            | inr (e, o) ↦ absurd (ground (arith, k, l, o))
                            | inl (u, o) ↦
                                (wrapped, encrypted, written.1, k, l, same, ground (arith, k, l, o))
                          ]
                    ]
          ]

module _ (env : Env) (lawful : IsLawful env) (kek : Bytes) (staging_dir : FilePath) where
  -- Where `flush_one_blob` succeeds, the manifest has a new epoch blob, and behind the old chunk rows
  -- one row for each entry, in order, that stands for the entry's plaintext in that blob. The buffer is
  -- empty.
  pub flush_one_blob-ArePacked :
      (chunk_size_bytes : ℕ) (entries : List Entry) (w w' : World)
      → flush_one_blob env kek staging_dir chunk_size_bytes entries w ≡ (ok tt, w')
      → (b : EpochBlobRecord) × (rows : List ChunkRecord) × ArePacked env kek b entries rows
        × (find_epoch_blob w'.manifest.epoch_blobs b.epoch_blob_id ≡ some b)
        × (w'.manifest.chunks ≡ w.manifest.chunks ++ rows)
        × (w'.manifest.epoch_buffer ≡ [])
  flush_one_blob-ArePacked chunk_size_bytes entries w w' h =
      let (wrapped, encrypted, w₁, wraps, seals, same, committed) =
        flush_one_blob-ok env kek staging_dir chunk_size_bytes entries w w' h in
      let b = blob_record env kek staging_dir chunk_size_bytes entries w wrapped encrypted in
      let packed = pad chunk_size_bytes (pack 0 entries).0 in
      let (fresh, rows, are, files, manifest) =
        commit_epoch_flush-ok env b (pack 0 entries).1 w₁ w' committed in
      let is_blob : IsPackedBlob env kek b packed = record {
        file_key = env.key_at (suc w.draws);
        key_length = lawful.key_length (suc w.draws);
        wrap_nonce = env.nonce_at (suc (suc w.draws));
        wrap_nonce_length = lawful.nonce_length (suc (suc w.draws));
        wrapped = wraps;
        nonce = env.nonce_at (suc (suc (suc w.draws)));
        nonce_length = lawful.nonce_length (suc (suc (suc w.draws)));
        blob = encrypted;
        sealed = seals;
        summed = refl;
      } in
      let slices : Slices packed entries (pack 0 entries).1 =
        unfold pad in
        pack-Slices entries [] (replicate (chunk_size_bytes - length (pack 0 entries).0) 0) in
      (
        b,
        rows,
        rows-ArePacked env kek b packed entries (pack 0 entries).1 rows is_blob slices are,
        ap (λ (m : Manifest). find_epoch_blob m.epoch_blobs b.epoch_blob_id) manifest
            ∙ find_epoch_blob_last b w₁.manifest.epoch_blobs fresh,
        ap (λ (m : Manifest). m.chunks) manifest ∙ ap (λ (m : Manifest). m.chunks ++ rows) same,
        ap (λ (m : Manifest). m.epoch_buffer) manifest,
      )
