-- ===== src/Vault/Deleting.antt =====
-- src-tauri/src/storage/vault_ops: delete_file.rs and delete_directory.rs.
pub mod Outcome
pub mod Clearing
pub mod Success
use arx_runa.Prelude.{ℕ, zero, suc, List, [], ◌∷◌, ◌++◌, Text, codes, Result, ok, err, length}
use arx_runa.World.{
  Env, Exec, World, ◌>>=◌, ◌>>◌, pure, raise, lift, ignore, FilePath, join, blob_file,
}
use arx_runa.World.Files.{attempt, remove_file}
use arx_runa.Storage.Error.{StorageError, constraint_violation}
use arx_runa.Storage.Validation.{validate_blob_name_uuid_v4}
use arx_runa.Manifest.Types.{NodeType, file, directory, ChunkRecord}
use arx_runa.Manifest.Nodes.{get_node, get_chunks}
use arx_runa.Manifest.Hierarchy.{list_children}
use arx_runa.Manifest.Deletion.{delete_node}

-- Where a blob of the row may lie: in `pending`, in `cache`, and in the folder itself.
abbrev pub paths_of : FilePath → Text → List FilePath → List FilePath
paths_of staging_directory blob_name rest =
    join (join staging_directory (codes "pending")) (blob_file blob_name)
    ∷ join (join staging_directory (codes "cache")) (blob_file blob_name)
    ∷ join staging_directory (blob_file blob_name)
    ∷ rest

abbrev pub if_file : NodeType → Exec (Unit {0}) → Exec (Unit {0})
if_file directory m = raise constraint_violation
if_file file m = m

module _ (env : Env) where
  abbrev pub and_paths :
      FilePath
      → Text
      → Result StorageError (Unit {0})
      → Result StorageError (List FilePath)
      → Result StorageError (List FilePath)
  and_paths staging_directory blob_name (err e) rest = err e
  and_paths staging_directory blob_name (ok u) (err e) = err e
  and_paths staging_directory blob_name (ok u) (ok rest) =
      ok (paths_of staging_directory blob_name rest)

  -- The loop over the rows.
  unfoldable pub validated_blob_paths :
      FilePath → List ChunkRecord → Result StorageError (List FilePath)
  validated_blob_paths staging_directory [] = ok []
  validated_blob_paths staging_directory (chunk ∷ chunks) =
      and_paths staging_directory chunk.blob_name (validate_blob_name_uuid_v4 env chunk.blob_name)
        (validated_blob_paths staging_directory chunks)

  -- A file that cannot be removed is passed over.
  unfoldable pub remove_local : List FilePath → Exec (Unit {0})
  unfolding remove_file
  remove_local [] = pure tt
  remove_local (blob_path ∷ paths) = ignore (remove_file env blob_path) >> remove_local paths

  abbrev pub delete_rows : ℕ → FilePath → Result StorageError ℕ → Exec (Unit {0})
  delete_rows node_id staging_directory now = do
    chunks ← get_chunks env node_id
    paths ← lift (validated_blob_paths staging_directory chunks)
    delete_node env node_id now
    remove_local paths

  unfoldable pub delete_file : ℕ → FilePath → Result StorageError ℕ → Exec (Unit {0})
  unfolding validated_blob_paths remove_local
  delete_file node_id staging_directory now = do
    node ← get_node env node_id
    if_file node.node_type (delete_rows node_id staging_directory now)
