-- ===== src/Pipeline/Disk.antt =====
-- decrypt_file.rs, files to disk: `decrypt_file` and `replace_destination_with_temp`.
pub mod Replacing
pub mod Quiet
pub mod Calm
pub mod Writing
pub mod Integrity
use arx_runa.Prelude.{
  ℕ, ◌+◌, Bool, true, false, not, List, [], ◌∷◌, ◌++◌, Bytes, Text, length, codes, if◌then◌else◌,
  Result, ok, err,
}
use arx_runa.World.{
  Env, World, Exec, ◌>>=◌, ◌>>◌, pure, raise, lift, ignore, on_error, FilePath, join,
}
use arx_runa.World.Files.{
  attempt, create_file, append_file, remove_file, rename, try_exists, new_v4, report,
}
use arx_runa.Storage.Error.{StorageError, io}
use arx_runa.Manifest.Types.{ChunkRecord}
use arx_runa.Pipeline.Decrypt.{read_and_validate_chunks, next_bytes, is_empty}

-- `Path::parent`, of a path that has a file name.
abbrev pub parent : FilePath → FilePath
parent [] = []
parent (x ∷ []) = []
parent (x ∷ y ∷ rest) = x ∷ parent (y ∷ rest)

-- Where `temporary_destination_path` points, for the UUID that it draws.
unfoldable pub temporary_name : Env → FilePath → ℕ → FilePath
temporary_name env destination u =
    join (parent destination) (codes ".arx-runa-decrypt-" ++ (env.hyphenated u ++ codes ".tmp"))

module _ (env : Env) where
  unfoldable pub temporary_destination_path : FilePath → Exec FilePath
  temporary_destination_path destination = do
    u ← new_v4 env
    pure (temporary_name env destination u)

  -- `if let Err(error) = rename(temporary, destination)`: the backup is put back.
  unfoldable pub swap_in : FilePath → FilePath → FilePath → Exec (Unit {0})
  unfolding rename remove_file
  swap_in destination temporary backup = do
    on_error (rename env temporary destination) (ignore (rename env backup destination))
    remove_file env backup

  unfoldable pub replace_destination_with_temp : FilePath → FilePath → Exec (Unit {0})
  unfolding try_exists rename temporary_destination_path new_v4
  replace_destination_with_temp destination temporary = do
    present ← try_exists env destination
    if not present then rename env temporary destination else (do
      backup ← temporary_destination_path destination
      rename env destination backup
      swap_in destination temporary backup)

  module _ (file_id file_key : Bytes) (staging_dir temporary : FilePath) where
    module _ (expected_blob_len file_size chunk_size_bytes : ℕ) (reports : Bool) where
      -- The loop of `decrypt_file`: what `write_all` is given is appended to the temporary file.
      unfoldable pub disk_loop : List ChunkRecord → ℕ → Exec (Unit {0})
      disk_loop [] bytes_decrypted = pure tt
      disk_loop (r ∷ rows) bytes_decrypted = do
        bytes ←
            next_bytes env file_id file_key staging_dir expected_blob_len file_size chunk_size_bytes
              (is_empty rows) r
        append_file env temporary bytes
        report reports (bytes_decrypted + length bytes) file_size
        disk_loop rows (bytes_decrypted + length bytes)

      -- The block whose failure removes the temporary file: the loop, `flush`, `sync_all`, and the
      -- replacement.
      unfoldable pub fill_and_replace : FilePath → List ChunkRecord → Exec (Unit {0})
      unfolding attempt
      fill_and_replace destination rows = do
        disk_loop rows 0
        attempt env io
        attempt env io
        replace_destination_with_temp destination temporary

  unfoldable pub decrypt_file :
      FilePath → Bytes → Bytes → ℕ → List ChunkRecord → FilePath → Bool → Exec (Unit {0})
  unfolding create_file remove_file
  decrypt_file destination file_id file_key file_size rows staging_dir reports = do
    valid ← read_and_validate_chunks env file_size rows
    temporary ← temporary_destination_path destination
    create_file env temporary
    on_error
        (fill_and_replace file_id file_key staging_dir temporary valid.2 file_size valid.1 reports
          destination valid.0)
        (ignore (remove_file env temporary))
