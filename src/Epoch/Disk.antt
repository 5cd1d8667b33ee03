-- ===== src/Epoch/Disk.antt =====
-- `decrypt_epoch_file` of decrypt_file.rs, which writes a file of an epoch blob to disk.
pub mod Writing
use arx_runa.Prelude.{Bool, Bytes, slice, ok_or}
use arx_runa.World.{Env, Exec, ◌>>=◌, ◌>>◌, lift, ignore, on_error, FilePath}
use arx_runa.World.Files.{attempt, create_file, append_file, remove_file, report}
use arx_runa.Storage.Error.{io, constraint_violation}
use arx_runa.Manifest.Types.{ChunkRecord}
use arx_runa.Pipeline.Disk.{temporary_destination_path, replace_destination_with_temp}
use arx_runa.Epoch.{decrypt_epoch_blob_to_slice}

module _ (env : Env) where
  -- The temporary file is created, written, flushed and synced. It stays where one of these fails.
  unfoldable pub fill_temporary : FilePath → Bytes → Exec (Unit {0})
  unfolding create_file append_file attempt
  fill_temporary temporary bytes = do
    create_file env temporary
    append_file env temporary bytes
    attempt env io
    attempt env io

  unfoldable pub decrypt_epoch_file :
      FilePath → ChunkRecord → Bytes → FilePath → Bool → Exec (Unit {0})
  unfolding fill_temporary remove_file
  decrypt_epoch_file destination chunk kek blob_directory reports = do
    byte_length ← lift (ok_or chunk.byte_length constraint_violation)
    got ← decrypt_epoch_blob_to_slice env kek blob_directory chunk
    temporary ← temporary_destination_path env destination
    fill_temporary temporary (slice got.1 got.2 got.0)
    on_error (replace_destination_with_temp env destination temporary)
        (ignore (remove_file env temporary))
    report reports byte_length byte_length
