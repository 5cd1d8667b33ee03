-- ===== src/Vault.antt =====
-- src-tauri/src/storage/vault_ops: upload_file.rs, routing.rs and download_file.rs.
pub mod Atomic
pub mod Deleting
use arx_runa.Prelude.{
  ℕ, ◌+◌, ◌^◌, Bool, true, false, ◌&&◌, ◌||◌, ◌≡◌, ◌⊎◌, inl, inr, refl, not, Option, none, some,
  List, [], ◌∷◌, ◌++◌, Text, Bytes, map, length, take, ltb, ◌==◌, ◌===◌, if◌then◌else◌, Result, ok,
  err, ok_or, map_err, codes, replicate,
}
use arx_runa.World.{
  Env, World, Exec, ◌>>=◌, ◌>>◌, pure, raise, lift, ignore, on_error, FilePath, join, blob_file,
  done, Fate,
}
use arx_runa.World.Files.{attempt, read_file, remove_file, generate_file_key, generate_nonce}
use arx_runa.Crypto.WrapKey.{wrap_file_key, unwrap_file_key}
use arx_runa.Storage.Error.{
  StorageError, database, constraint_violation, epoch_buffer_not_flushed, from_crypto, io,
}
use arx_runa.Manifest.Types.{Node, NodeType, file, directory, ChunkRecord}
use arx_runa.Manifest.Rows.{get_meta, read_chunk_size_bytes}
use arx_runa.Manifest.Nodes.{
  get_node, get_chunks, get_epoch_buffer_node_ids, insert_file_with_chunks,
  insert_file_node_and_stage_epoch_entry,
}
use arx_runa.Exif.{is_image_magic, strip_exif}
use arx_runa.Pipeline.Encrypt.{encrypt_bytes, encrypt_file, read_some, cleanup_staged_blobs}
use arx_runa.Pipeline.Decrypt.{decrypt_file_to_memory}
use arx_runa.Pipeline.Disk.{decrypt_file}
use arx_runa.Epoch.Disk.{decrypt_epoch_file}
use arx_runa.Pipeline.Range.{decrypt_file_range_to_memory}
use arx_runa.Epoch.{decrypt_epoch_file_to_memory}

pub data RouteDecision : Type 0 where
  immediate epoch_buffer : RouteDecision

pub RouteDecision-cases : (d : RouteDecision) → (d ≡ epoch_buffer) ⊎ (d ≡ immediate)
RouteDecision-cases epoch_buffer = inl refl
RouteDecision-cases immediate = inr refl

unfoldable pub decide : ℕ → ℕ → Bool → RouteDecision
decide file_size chunk_size_bytes epoch_enabled =
    if epoch_enabled && ltb file_size chunk_size_bytes then epoch_buffer else immediate

unfoldable pub assign_node_id : List ChunkRecord → ℕ → List ChunkRecord
assign_node_id [] node_id = []
assign_node_id (r ∷ records) node_id =
    record r { node_id = node_id } ∷ assign_node_id records node_id

abbrev pub parse_flag : Text → Result StorageError Bool
parse_flag t =
    if t === codes "true" then ok true else if t === codes "false" then ok false else err database

abbrev pub length_or : Option Bytes → ℕ → ℕ
length_or none n = n
length_or (some bytes) n = length bytes

abbrev pub is_epoch : List ChunkRecord → Option ChunkRecord
is_epoch [] = none
is_epoch (r ∷ rows) = elim r.epoch_blob_id [ none ↦ none | some _ ↦ some r ]

abbrev pub has_id : List ℕ → ℕ → Bool
has_id [] i = false
has_id (j ∷ ids) i = j == i || has_id ids i

module _ (env : Env) where
  -- `fs::metadata(source)` and its length, an error if there is no file.
  unfoldable pub metadata_len : FilePath → Exec ℕ
  unfolding read_file
  metadata_len p = do bytes ← read_file env p; pure (length bytes)

  unfoldable pub strip_exif_if_image : FilePath → ℕ → Exec (Option Bytes)
  unfolding read_file read_some
  strip_exif_if_image source source_len = if source_len == 0 then pure none else (do
    found ← read_file env source
    header ← read_some env 8 found
    if not (is_image_magic header.0)
        then pure none
        else (do bytes ← read_file env source; pure (some (strip_exif bytes))))

  unfoldable pub read_epoch_buffer_enabled : Exec Bool
  unfolding get_meta
  read_epoch_buffer_enabled = do
    found ← get_meta env (codes "epoch_buffer_enabled")
    epoch_text ← lift (ok_or found database)
    lift (parse_flag epoch_text)

  abbrev pub read_or : Option Bytes → FilePath → Exec Bytes
  read_or none source = read_file env source
  read_or (some bytes) source = pure bytes

  -- `wrap_file_key` with the nonce that it draws.
  unfoldable pub wrap_drawn : Bytes → ℕ → Bytes → Exec Bytes
  unfolding generate_nonce
  wrap_drawn file_key node_id kek = do
    nonce ← generate_nonce env
    lift
        (map_err (wrap_file_key env.cipher nonce file_key (env.uuid_bytes node_id) kek) from_crypto)

  -- The branch of `upload_file` for `EpochBuffer`: `node` has no size and no key yet.
  unfoldable pub upload_buffered : ℕ → FilePath → Option Bytes → Node → Bytes → Exec Node
  unfolding read_file
  upload_buffered now source stripped node kek = do
    plaintext ← read_or stripped source
    wrapped ← wrap_drawn (replicate 32 0) node.node_id kek
    let complete = record node {
      node_type = file;
      size_bytes = length plaintext;
      file_key_wrapped = some wrapped;
    }
    insert_file_node_and_stage_epoch_entry env now complete plaintext
    pure complete

  abbrev pub encrypt_source :
      FilePath → Option Bytes → ℕ → Bytes → FilePath → Bool → Exec (List ChunkRecord)
  encrypt_source source none node_id file_key staging_dir reports =
      encrypt_file env source (env.uuid_bytes node_id) file_key staging_dir reports
  encrypt_source source (some bytes) node_id file_key staging_dir reports =
      encrypt_bytes env bytes (env.uuid_bytes node_id) file_key staging_dir reports

  abbrev pub blob_names : List ChunkRecord → List Text
  blob_names [] = []
  blob_names (r ∷ rows) = r.blob_name ∷ blob_names rows

  -- The branch for `Immediate`.
  unfoldable pub upload_immediate :
      FilePath → Option Bytes → ℕ → Node → Bytes → FilePath → Bool → Exec Node
  unfolding generate_file_key
  upload_immediate source stripped file_size node kek staging_dir reports = do
    file_key ← generate_file_key env
    wrapped ← wrap_drawn file_key node.node_id kek
    rows ← encrypt_source source stripped node.node_id file_key staging_dir reports
    let complete = record node {
      node_type = file;
      size_bytes = file_size;
      file_key_wrapped = some wrapped;
    }
    on_error (insert_file_with_chunks env complete (assign_node_id rows node.node_id))
        (cleanup_staged_blobs env staging_dir (blob_names rows))
    pure complete

  -- `node` holds what the caller gives: identifier, parent, name and times.
  unfoldable pub upload_file : ℕ → FilePath → Node → Bytes → FilePath → Bool → Exec Node
  upload_file now source node kek staging_dir reports = do
    source_len ← metadata_len source
    stripped ← strip_exif_if_image source source_len
    chunk_size_bytes ← read_chunk_size_bytes env
    enabled ← read_epoch_buffer_enabled
    elim (decide (length_or stripped source_len) chunk_size_bytes enabled) [
      | epoch_buffer ↦ upload_buffered now source stripped node kek
      | immediate ↦
          upload_immediate source stripped (length_or stripped source_len) node kek staging_dir
            reports
    ]

  -- What the three downloads do first: the node, its rows, and the test for a file that waits in
  -- the buffer.
  unfoldable pub find_rows : ℕ → Exec (Node × List ChunkRecord)
  find_rows node_id = do
    node ← get_node env node_id
    elim node.node_type [
      | directory ↦ raise constraint_violation
      | file ↦ do
        rows ← get_chunks env node_id
        elim rows [
          | r ∷ others ↦ pure (node, r ∷ others)
          | [] ↦ do
            buffer_ids ← get_epoch_buffer_node_ids env
            if has_id buffer_ids node_id
                then raise (epoch_buffer_not_flushed node_id)
                else pure (node, [])
        ]
    ]

  unfoldable pub unwrap_node_key : Node → Bytes → Exec Bytes
  unwrap_node_key node kek = do
    wrapped ← lift (ok_or node.file_key_wrapped constraint_violation)
    lift
        (map_err (unwrap_file_key env.cipher wrapped (env.uuid_bytes node.node_id) kek) from_crypto)

  unfoldable pub download_file : FilePath → ℕ → Bytes → FilePath → Bool → Exec (Unit {0})
  download_file destination node_id kek blob_directory reports = do
    found ← find_rows node_id
    elim (is_epoch found.1) [
      | some chunk ↦ decrypt_epoch_file env destination chunk kek blob_directory reports
      | none ↦ do
        file_key ← unwrap_node_key found.0 kek
        decrypt_file env destination (env.uuid_bytes found.0.node_id) file_key found.0.size_bytes
            found.1 blob_directory reports
    ]

  unfoldable pub download_file_to_memory : ℕ → Bytes → FilePath → Bool → Exec Bytes
  download_file_to_memory node_id kek blob_directory reports = do
    found ← find_rows node_id
    elim (is_epoch found.1) [
      | some chunk ↦ decrypt_epoch_file_to_memory env kek blob_directory chunk reports
      | none ↦ do
        file_key ← unwrap_node_key found.0 kek
        decrypt_file_to_memory env (env.uuid_bytes found.0.node_id) file_key found.0.size_bytes
            found.1 blob_directory reports
    ]

  unfoldable pub download_file_range_to_memory : ℕ → Bytes → FilePath → ℕ → ℕ → Exec Bytes
  download_file_range_to_memory node_id kek blob_directory range_start range_end = do
    found ← find_rows node_id
    elim (is_epoch found.1) [
      | some chunk ↦ raise constraint_violation
      | none ↦ do
        file_key ← unwrap_node_key found.0 kek
        decrypt_file_range_to_memory range_start range_end env (env.uuid_bytes found.0.node_id)
            file_key found.0.size_bytes found.1 blob_directory
    ]
