-- ===== src/Examples/Deletions.antt =====
-- A folder is deleted of which one file shares an epoch blob with a file that stays.
use arx_runa.Prelude.{
  ℕ, ◌≡◌, refl, Option, none, some, [], ◌∷◌, Text, codes, arith, ok, true, ◌===◌, ◌==◌,
  if◌then◌else◌, err,
}
use arx_runa.World.{Env, World, FilePath, path_eq, join, blob_file, done, failed}
use arx_runa.World.Files.{attempt, remove_file}
use arx_runa.Manifest.Types.{
  Manifest, Node, NodeType, file, directory, ChunkRecord, EpochBlobRecord,
}
use arx_runa.Manifest.Store.{has_node}
use arx_runa.Manifest.Hierarchy.{children, children_of, levels, exists_or}
use arx_runa.Manifest.Deletion.{
  subtree, chunk_names, blob_names_of, is_pending, enqueue, keep_nodes, keep_chunks, keep_rows,
  keep_blobs, delete_node,
}
use arx_runa.Manifest.Deletion.Counting.{uses, HaveRows}
use arx_runa.Manifest.Deletion.Accounting.{is_accounted, delete_node_accounts, delete_node_spares}
use arx_runa.Storage.Error.{database}
use arx_runa.Storage.Validation.{validate_blob_name_uuid_v4}
use arx_runa.Manifest.Nodes.{find_node, chunks_of, insert_chunk_in_order, get_node, get_chunks}
use arx_runa.Vault.Deleting.{validated_blob_paths, remove_local, delete_file}
use arx_runa.Vault.Deleting.Outcome.{delete_file_atomic}
use arx_runa.Vault.Deleting.Clearing.{IsDeleted}
use arx_runa.Vault.Deleting.Success.{delete_file-IsDone}
use arx_runa.Examples.Toy.{env, world, calm}

abbrev node : ℕ → Option ℕ → NodeType → Node
node node_id parent_id node_type = record {
  node_id = node_id;
  parent_id = parent_id;
  node_type = node_type;
  name = codes "name";
  created_at = 0;
  modified_at = 0;
  size_bytes = 0;
  file_key_wrapped = none;
}

abbrev row : ℕ → ℕ → Text → Option ℕ → ChunkRecord
row chunk_id node_id blob_name epoch_blob_id = record {
  chunk_id = chunk_id;
  node_id = node_id;
  chunk_index = chunk_id;
  blob_name = blob_name;
  size_padded = 0;
  blake3_checksum = [];
  epoch_blob_id = epoch_blob_id;
  byte_offset = none;
  byte_length = none;
}

abbrev blob : ℕ → Text → EpochBlobRecord
blob epoch_blob_id blob_name = record {
  epoch_blob_id = epoch_blob_id;
  blob_name = blob_name;
  file_key_wrapped = [];
  size_padded = 0;
  blake3_checksum = [];
}

abbrev full : World
full = record world {
  manifest = record world.manifest {
    nodes = node 1 none directory ∷ node 2 (some 1) file ∷ node 3 none file ∷ [];
    chunks =
        row 1 2 (codes "a") none
        ∷ row 2 2 (codes "b") (some 7)
        ∷ row 3 3 (codes "b") (some 7)
        ∷ row 4 2 (codes "c") (some 8)
        ∷ [];
    epoch_blobs = blob 7 (codes "b") ∷ blob 8 (codes "c") ∷ [];
  };
}

abbrev after : Manifest
after = (delete_node env 1 (ok 5) full).1.manifest

sole_queued : is_pending after.pending_deletions (codes "c") ≡ true
unfolding delete_node attempt exists_or subtree has_node levels children_of children chunk_names
    blob_names_of enqueue is_pending keep_nodes keep_chunks keep_rows keep_blobs ◌===◌
sole_queued = refl

sole_once : uses (codes "c") full.manifest ≡ 1
unfolding ◌===◌
sole_once = refl

delete_node_accounts_example :
    HaveRows after.chunks after.epoch_blobs × (is_accounted after (codes "a") ≡ true)
unfolding is_pending ◌===◌
delete_node_accounts_example =
    delete_node_accounts env 1 (ok 5) full (codes "a") (refl, (refl, tt)) refl

delete_node_spares_example : uses (codes "c") after ≡ 0
unfolding is_pending
delete_node_spares_example =
    delete_node_spares env 1 (ok 5) full (codes "c") (omega (arith, sole_once)) refl sole_queued

abbrev staging : FilePath
staging = codes "staging" ∷ []

abbrev pending_b : FilePath
pending_b = codes "staging" ∷ codes "pending" ∷ codes "b.blob" ∷ []

-- The shared epoch blob waits for its upload.
abbrev staged : World
staged = record full { files = λ p. if path_eq p pending_b then some (1 ∷ []) else none }

delete_file-IsDone_example :
    (w' : World) × (delete_file env 2 staging (ok 5) staged ≡ (ok tt, w'))
    × IsDeleted staging 2 staged w'
unfolding find_node chunks_of insert_chunk_in_order validate_blob_name_uuid_v4 ◌===◌
delete_file-IsDone_example =
    delete_file-IsDone env calm 2 staging 5 staged (node 2 (some 1) file) refl refl
      (refl, (refl, (refl, tt)))

abbrev unlucky : Env
unlucky = record env { fate = λ n. if n == 3 then failed else done }

abbrev unlucky_end : World
unlucky_end = (delete_file unlucky 2 staging (ok 5) staged).1

unlucky_run : delete_file unlucky 2 staging (ok 5) staged ≡ (err database, unlucky_end)
unfolding delete_file delete_node get_node get_chunks find_node chunks_of insert_chunk_in_order
    validated_blob_paths validate_blob_name_uuid_v4 attempt exists_or subtree has_node levels
    children_of children chunk_names blob_names_of enqueue is_pending keep_nodes keep_chunks
    keep_rows keep_blobs ◌===◌
unlucky_run = refl

delete_file_atomic_example :
    (unlucky_end.manifest ≡ staged.manifest) × (unlucky_end.files ≡ staged.files)
delete_file_atomic_example =
    delete_file_atomic unlucky 2 staging (ok 5) staged unlucky_end database unlucky_run

-- The file that stays has lost the blob that it shares.
shared_lost :
    ((delete_file env 2 staging (ok 5) staged).1.files pending_b ≡ none)
    × (uses (codes "b") (delete_file env 2 staging (ok 5) staged).1.manifest ≡ 1)
unfolding delete_file delete_node get_node get_chunks find_node chunks_of insert_chunk_in_order
    validated_blob_paths validate_blob_name_uuid_v4 attempt exists_or subtree has_node levels
    children_of children chunk_names blob_names_of enqueue is_pending keep_nodes keep_chunks
    keep_rows keep_blobs remove_local remove_file path_eq join blob_file ◌===◌
shared_lost = (refl, refl)
