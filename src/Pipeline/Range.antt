-- ===== src/Pipeline/Range.antt =====
-- `decrypt_file_range_to_memory` of decrypt_file.rs.
pub mod Covering
pub mod Slicing
pub mod Integrity
pub mod Serving
use arx_runa.Prelude.{
  ℕ, ◌+◌, ◌-◌, ◌*◌, ◌/◌, ◌^◌, min, max, Bool, ◌||◌, List, [], ◌∷◌, ◌++◌, Bytes, length, take, drop,
  slice, ltb, leb, ◌==◌, if◌then◌else◌, Result, ok, err,
}
use arx_runa.World.{Env, World, Exec, ◌>>=◌, ◌>>◌, pure, raise, lift, FilePath}
use arx_runa.Storage.Error.{StorageError, constraint_violation}
use arx_runa.Storage.Validation.{usize_try_from}
use arx_runa.Manifest.Types.{ChunkRecord}
use arx_runa.Pipeline.Decrypt.{checked_sub, read_and_validate_chunks, open_chunk}

-- `real_bytes_in_chunk`, of `count` chunks.
abbrev pub real_bytes : ℕ → ℕ → ℕ → ChunkRecord → Result StorageError ℕ
real_bytes file_size chunk_size_bytes count r =
    if r.chunk_index + 1 == count
    then checked_sub file_size (r.chunk_index * chunk_size_bytes) constraint_violation
    else ok chunk_size_bytes

module _ (range_start range_end : ℕ) where
  -- The slice of a chunk at `offset` of the file that overlaps the range, empty where the source
  -- skips the chunk. `real` is positive here, so `chunk_file_end` does not wrap.
  abbrev pub overlap : ℕ → ℕ → Bytes → Result StorageError Bytes
  overlap offset real plaintext =
      let chunk_file_end = offset + real - 1 in
      let overlap_start = max range_start offset in
      let overlap_end = min range_end chunk_file_end in
      if ltb overlap_end overlap_start
      then ok []
      else if ltb (length plaintext) (overlap_end - offset + 1)
      then err constraint_violation
      else ok (slice (overlap_start - offset) (overlap_end - offset + 1) plaintext)

  module _ (env : Env) (file_id file_key : Bytes) where
    module _ (staging_dir : FilePath) (expected_blob_len file_size chunk_size_bytes count : ℕ) where
      unfoldable pub range_chunk : ChunkRecord → Exec Bytes
      range_chunk r = do
        plaintext ← open_chunk env file_id file_key staging_dir expected_blob_len r
        real ← lift (real_bytes file_size chunk_size_bytes count r)
        lift (overlap (r.chunk_index * chunk_size_bytes) real plaintext)

      unfoldable pub range_loop : List ChunkRecord → Exec Bytes
      range_loop [] = pure []
      range_loop (r ∷ rows) = do bytes ← range_chunk r; rest ← range_loop rows; pure (bytes ++ rest)

    unfoldable pub decrypt_file_range_to_memory : ℕ → List ChunkRecord → FilePath → Exec Bytes
    decrypt_file_range_to_memory file_size rows staging_dir =
        if ltb range_end range_start || leb file_size range_end
        then raise constraint_violation
        else (do
          valid ← read_and_validate_chunks env file_size rows
          let first = range_start / valid.1
          let last = range_end / valid.1
          lift (usize_try_from (range_end - range_start + 1))
          range_loop staging_dir valid.2 file_size valid.1 (length valid.0)
              (take (last - first + 1) (drop first valid.0)))
