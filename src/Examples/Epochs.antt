-- ===== src/Examples/Epochs.antt =====
-- Two small files packed into one blob.
use arx_runa.Prelude.{
  ℕ, ◌≡◌, ◌≢◌, ◌⊎◌, refl, List, [], ◌∷◌, ◌++◌, Bytes, none, some, codes, ok, err, true,
}
use arx_runa.World.{World, FilePath, path_eq, join, blob_file}
use arx_runa.Prelude.{replicate, if◌then◌else◌, ◌===◌}
use arx_runa.World.Files.{
  attempt, write_file, read_file, new_v4, generate_file_key, generate_nonce, exists_or_false,
  report, create_file, append_file, try_exists, rename,
}
use arx_runa.Crypto.Types.{build_chunk_aad, to_be_bytes}
use arx_runa.Crypto.Chunk.{encrypt_chunk, decrypt_chunk}
use arx_runa.Crypto.WrapKey.{wrap_file_key, unwrap_file_key}
use arx_runa.Crypto.Checksum.{compute_checksum, verify_checksum}
use arx_runa.Storage.Error.{constraint_violation}
use arx_runa.Manifest.Types.{Node, file, ChunkRecord, EpochBlobRecord, EpochBufferEntry}
use arx_runa.Manifest.Store.{
  find_epoch_blob, has_node, chunk_clashes, blob_clashes, insert_chunk_row, insert_epoch_blob_row,
  insert_extents, clear_epoch_buffer, commit_epoch_flush, get_epoch_blob,
}
use arx_runa.Pipeline.Pieces.{pad}
use arx_runa.Pipeline.Encrypt.{seal_chunk}
use arx_runa.Pipeline.Decrypt.{resolve_blob_path}
use arx_runa.Pipeline.Decrypt.Integrity.{HashCollision}
use arx_runa.Epoch.{
  Entry, pack, flush_one_blob, flush_loop, open_epoch_blob, bounds_of, decrypt_epoch_blob_to_slice,
  decrypt_epoch_file_to_memory,
}
use arx_runa.Pipeline.Disk.{
  replace_destination_with_temp, temporary_destination_path, temporary_name,
}
use arx_runa.Epoch.Disk.{fill_temporary, decrypt_epoch_file}
use arx_runa.Epoch.Disk.Writing.{decrypt_epoch_file-eq-to_memory}
use arx_runa.Epoch.Opening.{IsPacked, decrypt_epoch_file-IsPacked}
use arx_runa.Epoch.Flushing.{ArePacked, flush_one_blob-ArePacked}
use arx_runa.Epoch.Failing.{flush_one_blob_atomic, flush_loop_forgets}
use arx_runa.Examples.Toy.{env, lawful, manifest, zeros}

abbrev kek : Bytes
kek = zeros 32

abbrev staging : FilePath
staging = codes "staging" ∷ []

abbrev small_file : ℕ → Node
small_file id = record {
  node_id = id;
  parent_id = none;
  node_type = file;
  name = codes "small";
  created_at = 0;
  modified_at = 0;
  size_bytes = 2;
  file_key_wrapped = some (zeros 72);
}

abbrev with_nodes : List Node → World
with_nodes nodes = record {
  files = λ p. none;
  manifest = record manifest { nodes = nodes };
  calls = 0;
  draws = 0;
  staged = [];
  progress = [];
}

abbrev vault : World
vault = with_nodes (small_file 5 ∷ small_file 6 ∷ [])

abbrev entries : List Entry
entries = (5, 1 ∷ 2 ∷ []) ∷ (6, 3 ∷ []) ∷ []

abbrev after : World
after = (flush_one_blob env kek staging 4 entries vault).1

flushed : flush_one_blob env kek staging 4 entries vault ≡ (ok tt, after)
unfolding flush_one_blob pack pad seal_chunk encrypt_chunk build_chunk_aad to_be_bytes wrap_file_key
    compute_checksum write_file new_v4 generate_file_key generate_nonce attempt commit_epoch_flush
    insert_epoch_blob_row blob_clashes insert_extents insert_chunk_row has_node chunk_clashes
    clear_epoch_buffer
flushed = refl

flush_one_blob-ArePacked_example :
    (b : EpochBlobRecord) × (rows : List ChunkRecord) × ArePacked env kek b entries rows
    × (find_epoch_blob after.manifest.epoch_blobs b.epoch_blob_id ≡ some b)
    × (after.manifest.chunks ≡ [] ++ rows)
    × (after.manifest.epoch_buffer ≡ [])
flush_one_blob-ArePacked_example =
    flush_one_blob-ArePacked env lawful kek staging 4 entries vault after flushed

abbrev orphaned : World
orphaned = (flush_one_blob env kek staging 4 entries (with_nodes [])).1

refused :
    flush_one_blob env kek staging 4 entries (with_nodes []) ≡ (err constraint_violation, orphaned)
unfolding flush_one_blob pack pad seal_chunk encrypt_chunk build_chunk_aad to_be_bytes wrap_file_key
    compute_checksum write_file new_v4 generate_file_key generate_nonce attempt commit_epoch_flush
    insert_epoch_blob_row blob_clashes insert_extents insert_chunk_row has_node chunk_clashes
    clear_epoch_buffer
refused = refl

flush_one_blob_atomic_example : orphaned.manifest ≡ (with_nodes []).manifest
flush_one_blob_atomic_example =
    flush_one_blob_atomic env kek staging 4 entries (with_nodes []) orphaned constraint_violation
      refused

abbrev queued : List EpochBufferEntry
queued = record { entry_id = 1; node_id = 8; plaintext = 7 ∷ []; size_bytes = 1 } ∷ []

flush_loop_forgets_example :
    (flush_loop env kek staging 4 true 4 queued [] 0 3 after).1.manifest.epoch_buffer ≡ []
flush_loop_forgets_example =
    flush_loop_forgets env lawful kek staging 4 true 4 entries vault after queued [] 0 3 flushed

abbrev sealed_blob : Bytes
sealed_blob = replicate 24 3 ++ ((1 ∷ 2 ∷ 3 ∷ 0 ∷ []) ++ zeros 16)

abbrev blob : EpochBlobRecord
blob = record {
  epoch_blob_id = 0;
  blob_name = 0 ∷ [];
  file_key_wrapped = replicate 24 2 ++ (replicate 32 1 ++ zeros 16);
  size_padded = 44;
  blake3_checksum = sealed_blob;
}

abbrev row : ChunkRecord
row = record {
  chunk_id = 5;
  node_id = 6;
  chunk_index = 0;
  blob_name = 0 ∷ [];
  size_padded = 44;
  blake3_checksum = sealed_blob;
  epoch_blob_id = some 0;
  byte_offset = some 2;
  byte_length = some 1;
}

row-IsPacked : IsPacked env kek blob (6, 3 ∷ []) row
unfolding encrypt_chunk build_chunk_aad to_be_bytes wrap_file_key compute_checksum
row-IsPacked = record {
  packed = 1 ∷ 2 ∷ 3 ∷ 0 ∷ [];
  is_blob = record {
    file_key = replicate 32 1;
    key_length = refl;
    wrap_nonce = replicate 24 2;
    wrap_nonce_length = refl;
    wrapped = refl;
    nonce = replicate 24 3;
    nonce_length = refl;
    blob = sealed_blob;
    sealed = refl;
    summed = refl;
  };
  offset = 2;
  size = 1;
  in_blob = refl;
  at_node = refl;
  first = refl;
  at_offset = refl;
  with_size = refl;
  content = refl;
}

-- The vault after the flush, with what it wrote written out.
abbrev stored : World
stored = record vault {
  files = λ p. if path_eq p (join staging (blob_file (0 ∷ []))) then some sealed_blob else none;
  manifest = record vault.manifest { epoch_blobs = blob ∷ []; chunks = row ∷ [] };
}

stored-found : find_epoch_blob stored.manifest.epoch_blobs 0 ≡ some blob
unfolding find_epoch_blob
stored-found = refl

abbrev read : World
read = (decrypt_epoch_file_to_memory env kek staging row true stored).1

opened : decrypt_epoch_file_to_memory env kek staging row true stored ≡ (ok (3 ∷ []), read)
unfolding decrypt_epoch_file_to_memory decrypt_epoch_blob_to_slice open_epoch_blob bounds_of
    get_epoch_blob find_epoch_blob resolve_blob_path exists_or_false read_file attempt
    verify_checksum compute_checksum unwrap_file_key decrypt_chunk build_chunk_aad to_be_bytes
    path_eq join blob_file report ◌===◌
opened = refl

decrypt_epoch_file-IsPacked_example : (◌≡◌ {A = Bytes} (3 ∷ []) (3 ∷ [])) ⊎ HashCollision env.hash
decrypt_epoch_file-IsPacked_example =
    decrypt_epoch_file-IsPacked env lawful kek staging blob (6, 3 ∷ []) row true stored read
      (3 ∷ []) row-IsPacked stored-found opened

abbrev target : FilePath
target = codes "home" ∷ codes "small.txt" ∷ []

abbrev written : World
written = (decrypt_epoch_file env target row kek staging true stored).1

file_written : decrypt_epoch_file env target row kek staging true stored ≡ (ok tt, written)
unfolding decrypt_epoch_file fill_temporary decrypt_epoch_blob_to_slice open_epoch_blob bounds_of
    get_epoch_blob find_epoch_blob resolve_blob_path exists_or_false read_file attempt
    verify_checksum compute_checksum unwrap_file_key decrypt_chunk build_chunk_aad to_be_bytes
    create_file append_file write_file replace_destination_with_temp temporary_destination_path
    try_exists rename new_v4 temporary_name path_eq join blob_file report ◌===◌
file_written = refl

target-plain : (u : ℕ) → target ≢ temporary_name env target u
unfolding temporary_name join
target-plain u e = cc e

decrypt_epoch_file-eq-to_memory_example :
    (bytes : Bytes) × (w₂ : World) × (decrypt_epoch_file_to_memory env kek staging row true stored
      ≡ (ok bytes, w₂))
    × (written.files target ≡ some bytes)
decrypt_epoch_file-eq-to_memory_example =
    decrypt_epoch_file-eq-to_memory env lawful target kek staging true row stored written
      target-plain file_written
