-- ===== src/Epoch.antt =====
-- The epoch buffer: src-tauri/src/storage/vault_ops/epoch_flush.rs packs small files into one blob,
-- and decrypt_file.rs reads them back.
pub mod Packing
pub mod Opening
pub mod Committing
pub mod Flushing
pub mod Failing
pub mod Disk
use arx_runa.Prelude.{
  ℕ, ◌+◌, ◌-◌, ◌^◌, Bool, true, false, ◌&&◌, ◌||◌, not, Option, none, some, List, [], ◌∷◌, ◌++◌,
  Text, Bytes, length, slice, ltb, ◌==◌, if◌then◌else◌, Result, ok, err, ok_or, map_err,
}
use arx_runa.World.{Env, World, Exec, ◌>>=◌, ◌>>◌, pure, raise, lift, FilePath, join, blob_file}
use arx_runa.World.Files.{write_file, read_file, new_v4, generate_file_key, generate_nonce, report}
use arx_runa.Crypto.WrapKey.{wrap_file_key, unwrap_file_key, wrapped_len}
use arx_runa.Crypto.Chunk.{decrypt_chunk}
use arx_runa.Crypto.Checksum.{compute_checksum, verify_checksum}
use arx_runa.Storage.Error.{StorageError, database, constraint_violation, from_crypto}
use arx_runa.Storage.Validation.{usize_try_from}
use arx_runa.Manifest.Types.{ChunkRecord, EpochBlobRecord, EpochBufferEntry}
use arx_runa.Manifest.Store.{Extent, commit_epoch_flush, get_epoch_blob, get_epoch_buffer_entries}
use arx_runa.Pipeline.Pieces.{pad}
use arx_runa.Pipeline.Encrypt.{seal_chunk}
use arx_runa.Pipeline.Decrypt.{checked_add, resolve_blob_path}

-- A node and the plaintext of its file.
abbrev pub Entry : Type 0
Entry = ℕ × Bytes

-- The plaintexts one behind the other, from `offset` on, and where each of them is.
unfoldable pub pack : ℕ → List Entry → Bytes × List Extent
pack offset [] = ([], [])
pack offset ((node_id, plaintext) ∷ entries) =
    let (packed, extents) = pack (offset + length plaintext) entries in
    (plaintext ++ packed, (node_id, 0, offset, length plaintext) ∷ extents)

abbrev pub sum_sizes : List EpochBufferEntry → ℕ
sum_sizes [] = 0
sum_sizes (e ∷ entries) = e.size_bytes + sum_sizes entries

abbrev pub sum_lengths : List Entry → ℕ
sum_lengths [] = 0
sum_lengths ((node_id, plaintext) ∷ entries) = length plaintext + sum_lengths entries

abbrev pub is_empty : {A : Type 0} → List A → Bool
is_empty [] = true
is_empty (x ∷ xs) = false

-- `<[u8; 72]>::try_from`.
abbrev pub as_wrapped : Bytes → Result StorageError Bytes
as_wrapped wrapped = if length wrapped == wrapped_len then ok wrapped else err database

module _ (env : Env) (kek : Bytes) (staging_dir : FilePath) where
  module _ (chunk_size_bytes : ℕ) where
    unfoldable pub flush_one_blob : List Entry → Exec (Unit {0})
    unfolding new_v4 generate_file_key generate_nonce seal_chunk compute_checksum write_file
        commit_epoch_flush
    flush_one_blob entries = do
      let (packed, extents) = pack 0 entries
      size ← lift (usize_try_from chunk_size_bytes)
      epoch_blob_id ← new_v4 env
      file_key ← generate_file_key env
      nonce ← generate_nonce env
      wrapped ← lift (
          map_err (wrap_file_key env.cipher nonce file_key (env.uuid_bytes epoch_blob_id) kek)
            from_crypto)
      encrypted ← seal_chunk env (pad size packed) file_key (env.uuid_bytes epoch_blob_id) 0
      write_file env (join staging_dir (blob_file (env.hyphenated epoch_blob_id))) encrypted
      commit_epoch_flush env
          (record {
            epoch_blob_id = epoch_blob_id;
            blob_name = env.hyphenated epoch_blob_id;
            file_key_wrapped = wrapped;
            size_padded = length encrypted;
            blake3_checksum = compute_checksum env.hash encrypted;
          })
          extents

    module _ (reports : Bool) (total_bytes : ℕ) where
      -- Flushes one blob and reports it; gives the new count of flushed bytes.
      unfoldable pub flush_and_report : List Entry → ℕ → Exec ℕ
      flush_and_report current flushed_bytes = do
        flush_one_blob current
        report reports (flushed_bytes + sum_lengths current) total_bytes
        pure (flushed_bytes + sum_lengths current)

      -- The loop over the entries, with the blob that is being filled, and the flush of the last one.
      -- The sums of sizes are of lengths in memory, so they stay below 2^64.
      unfoldable pub flush_loop : List EpochBufferEntry → List Entry → ℕ → ℕ → Exec (Unit {0})
      flush_loop [] current current_size flushed_bytes =
          if is_empty current then pure tt else (flush_and_report current flushed_bytes >> pure tt)
      flush_loop (e ∷ entries) current current_size flushed_bytes =
          let more =
            flush_loop entries (current ++ ((e.node_id, e.plaintext) ∷ []))
              (current_size + e.size_bytes) flushed_bytes in
          let fresh = (do
            flushed ← flush_and_report current flushed_bytes
            flush_loop entries ((e.node_id, e.plaintext) ∷ []) e.size_bytes flushed) in
          if ltb chunk_size_bytes (current_size + e.size_bytes) && not (is_empty current)
          then fresh
          else more

    unfoldable pub flush_epoch_buffer : Bool → Exec (Unit {0})
    unfolding get_epoch_buffer_entries
    flush_epoch_buffer reports = do
      entries ← get_epoch_buffer_entries env
      if is_empty entries then pure tt else flush_loop reports (sum_sizes entries) entries [] 0 0

  -- The part of `decrypt_epoch_blob_to_slice` that finds, verifies and decrypts the blob.
  unfoldable pub open_epoch_blob : EpochBlobRecord → Exec Bytes
  unfolding read_file
  open_epoch_blob found = do
    blob_path ← resolve_blob_path env staging_dir found.blob_name
    encrypted_bytes ← read_file env blob_path
    verified_blob ←
        lift (map_err (verify_checksum env.hash encrypted_bytes found.blake3_checksum) from_crypto)
    wrapped ← lift (as_wrapped found.file_key_wrapped)
    file_key ← lift (
        map_err (unwrap_file_key env.cipher wrapped (env.uuid_bytes found.epoch_blob_id) kek)
          from_crypto)
    lift (
        map_err
          (decrypt_chunk env.cipher verified_blob file_key (env.uuid_bytes found.epoch_blob_id) 0)
          from_crypto)

  -- `start` and `end` of an extent in what was decrypted.
  unfoldable pub bounds_of : ℕ → ℕ → Bytes → Result StorageError (ℕ × ℕ)
  bounds_of byte_offset byte_length decrypted =
      if not (ltb byte_offset (2 ^ 64)) || not (ltb (byte_offset + byte_length) (2 ^ 64))
      then err constraint_violation
      else if ltb (length decrypted) (byte_offset + byte_length)
      then err constraint_violation
      else ok (byte_offset, byte_offset + byte_length)

  unfoldable pub decrypt_epoch_blob_to_slice : ChunkRecord → Exec (Bytes × ℕ × ℕ)
  unfolding get_epoch_blob
  decrypt_epoch_blob_to_slice chunk = do
    epoch_blob_id ← lift (ok_or chunk.epoch_blob_id constraint_violation)
    byte_offset ← lift (ok_or chunk.byte_offset constraint_violation)
    byte_length ← lift (ok_or chunk.byte_length constraint_violation)
    found ← get_epoch_blob env epoch_blob_id
    decrypted ← open_epoch_blob found
    bounds ← lift (bounds_of byte_offset byte_length decrypted)
    pure (decrypted, bounds.0, bounds.1)

  unfoldable pub decrypt_epoch_file_to_memory : ChunkRecord → Bool → Exec Bytes
  decrypt_epoch_file_to_memory chunk reports = do
    byte_length ← lift (ok_or chunk.byte_length constraint_violation)
    got ← decrypt_epoch_blob_to_slice chunk
    report reports byte_length byte_length
    pure (slice got.1 got.2 got.0)
