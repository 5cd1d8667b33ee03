-- ===== src/Pipeline/Decrypt.antt =====
-- src-tauri/src/storage/pipeline/decrypt_file.rs: validation, and files back into memory.
pub mod Integrity
pub mod Sorting
use arx_runa.Prelude.{
  ℕ, zero, suc, ◌+◌, ◌-◌, ◌*◌, ◌/◌, ◌^◌, min, max, ◌≡◌, Bool, true, false, ◌||◌, not, Option, none,
  some, List, [], ◌∷◌, ◌++◌, Text, Bytes, length, take, drop, slice, ltb, leb, ◌==◌, if◌then◌else◌,
  Result, ok, err, map_err, ok_or, codes,
}
use arx_runa.World.{
  Env, Fate, World, Exec, ◌>>=◌, ◌>>◌, pure, raise, lift, ignore, on_error, FilePath, join,
  blob_file,
}
use arx_runa.World.Files.{attempt, exists_or_false, read_file, report}
use arx_runa.Crypto.Chunk.{decrypt_chunk}
use arx_runa.Crypto.Checksum.{verify_checksum}
use arx_runa.Storage.Error.{StorageError, database, io, constraint_violation, from_crypto}
use arx_runa.Storage.Validation.{
  usize_try_from, validate_blob_name_uuid_v4, validate_size_padded_matches_chunk_size,
}
use arx_runa.Manifest.Types.{ChunkRecord}
use arx_runa.Manifest.Rows.{read_chunk_size_bytes}

-- `checked_add` and `checked_sub` of `u64`.
abbrev pub checked_add : ℕ → ℕ → StorageError → Result StorageError ℕ
checked_add a b e = if ltb (a + b) (2 ^ 64) then ok (a + b) else err e

abbrev pub checked_sub : ℕ → ℕ → StorageError → Result StorageError ℕ
checked_sub a b e = if ltb a b then err e else ok (a - b)

-- `u64::div_ceil`.
abbrev pub div_ceil : ℕ → ℕ → ℕ
div_ceil a b = (a + (b - 1)) / b

-- `sort_by_key(|chunk| chunk.chunk_index)`, which is stable.
unfoldable pub insert_by_index : ChunkRecord → List ChunkRecord → List ChunkRecord
insert_by_index r [] = r ∷ []
insert_by_index r (s ∷ rows) =
    if leb r.chunk_index s.chunk_index then r ∷ s ∷ rows else s ∷ insert_by_index r rows

unfoldable pub sort_by_index : List ChunkRecord → List ChunkRecord
unfolding insert_by_index
sort_by_index [] = []
sort_by_index (r ∷ rows) = insert_by_index r (sort_by_index rows)

-- The loop of `read_and_validate_chunks`, from position `expected` on.
unfoldable pub validate_rows : ℕ → ℕ → List ChunkRecord → Result StorageError (Unit {0})
validate_rows chunk_size_bytes expected [] = ok tt
validate_rows chunk_size_bytes expected (r ∷ rows) =
    let rest = validate_rows chunk_size_bytes (expected + 1) rows in
    if not (ltb expected (2 ^ 32)) || not (r.chunk_index == expected)
    then err constraint_violation
    else elim (validate_size_padded_matches_chunk_size r.size_padded chunk_size_bytes) [
      | err e ↦ err e
      | ok _ ↦ rest
    ]

abbrev pub is_empty : List ChunkRecord → Bool
is_empty [] = true
is_empty (r ∷ rows) = false

-- How many of the chunk's bytes are the file's. `is_last` is `position + 1 == len`.
abbrev pub bytes_to_write : ℕ → ℕ → Bool → ChunkRecord → Result StorageError ℕ
bytes_to_write file_size chunk_size_bytes is_last r =
    if is_last
    then checked_sub file_size (r.chunk_index * chunk_size_bytes) constraint_violation
    else ok chunk_size_bytes

module _ (env : Env) where
  -- The sorted rows, the chunk size and the length that each blob must have.
  unfoldable pub read_and_validate_chunks : ℕ → List ChunkRecord → Exec (List ChunkRecord × ℕ × ℕ)
  read_and_validate_chunks file_size rows = do
    chunk_size_bytes ← read_chunk_size_bytes env
    expected_blob_len ← lift (checked_add chunk_size_bytes 40 database)
    count ←
        lift (usize_try_from (if file_size == 0 then 0 else div_ceil file_size chunk_size_bytes))
    if not (length rows == count) then raise constraint_violation else (do
      lift (validate_rows chunk_size_bytes 0 (sort_by_index rows))
      pure (sort_by_index rows, chunk_size_bytes, expected_blob_len))

  unfoldable pub resolve_blob_path : FilePath → Text → Exec FilePath
  unfolding exists_or_false
  resolve_blob_path staging_dir blob_name = do
    let pending = join (join staging_dir (codes "pending")) (blob_file blob_name)
    let cached = join (join staging_dir (codes "cache")) (blob_file blob_name)
    in_pending ← exists_or_false env pending
    if in_pending then pure pending else (do
      in_cache ← exists_or_false env cached
      if in_cache then pure cached else pure (join staging_dir (blob_file blob_name)))

  -- The metadata call, the test of the length, and the two calls that open and read the file.
  unfoldable pub read_encrypted_blob : FilePath → ℕ → Exec Bytes
  unfolding read_file attempt
  read_encrypted_blob blob_path expected_blob_len = do
    found ← read_file env blob_path
    if not (length found == expected_blob_len) then raise constraint_violation else (do
      lift (usize_try_from expected_blob_len)
      attempt env io
      attempt env io
      pure found)

  module _ (file_id file_key : Bytes) (staging_dir : FilePath) (expected_blob_len : ℕ) where
    -- What the three loops do for each row: validate, find, read, verify and decrypt.
    unfoldable pub open_chunk : ChunkRecord → Exec Bytes
    open_chunk r = do
      lift (validate_blob_name_uuid_v4 env r.blob_name)
      blob_path ← resolve_blob_path staging_dir r.blob_name
      encrypted_blob ← read_encrypted_blob blob_path expected_blob_len
      verified ←
          lift (map_err (verify_checksum env.hash encrypted_blob r.blake3_checksum) from_crypto)
      lift (map_err (decrypt_chunk env.cipher verified file_key file_id r.chunk_index) from_crypto)

    module _ (file_size chunk_size_bytes : ℕ) where
      -- One round of the loops of `decrypt_file` and `decrypt_file_to_memory`: the bytes to write.
      unfoldable pub next_bytes : Bool → ChunkRecord → Exec Bytes
      next_bytes is_last r = do
        plaintext ← open_chunk r
        count ← lift (bytes_to_write file_size chunk_size_bytes is_last r)
        n ← lift (usize_try_from count)
        if ltb (length plaintext) n then raise constraint_violation else pure (take n plaintext)

      -- The loop of `decrypt_file_to_memory`.
      unfoldable pub memory_loop : Bool → List ChunkRecord → ℕ → Exec Bytes
      memory_loop reports [] bytes_decrypted = pure []
      memory_loop reports (r ∷ rows) bytes_decrypted = do
        bytes ← next_bytes (is_empty rows) r
        report reports (bytes_decrypted + length bytes) file_size
        rest ← memory_loop reports rows (bytes_decrypted + length bytes)
        pure (bytes ++ rest)

  -- file identifier, file key, file size, rows, staging directory, whether there is a callback.
  unfoldable pub decrypt_file_to_memory :
      Bytes → Bytes → ℕ → List ChunkRecord → FilePath → Bool → Exec Bytes
  decrypt_file_to_memory file_id file_key file_size rows staging_dir reports = do
    valid ← read_and_validate_chunks file_size rows
    lift (usize_try_from file_size)
    memory_loop file_id file_key staging_dir valid.2 file_size valid.1 reports valid.0 0
