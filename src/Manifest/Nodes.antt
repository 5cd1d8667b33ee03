-- ===== src/Manifest/Nodes.antt =====
-- Nodes of the manifest and the rows of their files: sqlcipher.rs.
use arx_runa.Prelude.{
  ℕ, Bool, true, false, ◌||◌, not, Option, none, some, List, [], ◌∷◌, ◌++◌, Text, Bytes, map,
  length, leb, ◌==◌, ◌===◌, if◌then◌else◌, Result, ok, err, ok_or, codes,
}
use arx_runa.World.{Env, Exec, ◌>>=◌, ◌>>◌, pure, raise, lift}
use arx_runa.World.Files.{attempt, new_v4}
use arx_runa.Storage.Error.{StorageError, database, not_found, constraint_violation}
use arx_runa.Storage.Validation.{
  parse_chunk_size_bytes, validate_blob_name_uuid_v4, validate_size_padded_matches_chunk_size,
  validate_chunk_target_node,
}
use arx_runa.Manifest.Types.{Node, NodeType, file, directory, ChunkRecord, BufferRow}
use arx_runa.Manifest.Store.{
  transaction, get_manifest, put_manifest, i64_try_from, has_node, chunk_clashes, sort_by_time,
}

unfoldable pub find_node : List Node → ℕ → Option Node
find_node [] node_id = none
find_node (n ∷ nodes) node_id = if n.node_id == node_id then some n else find_node nodes node_id

abbrev pub type_of : Option Node → Option NodeType
type_of none = none
type_of (some n) = some n.node_type

unfoldable pub validate_parent_type : Option NodeType → Result StorageError (Unit {0})
validate_parent_type (some directory) = ok tt
validate_parent_type (some file) = err constraint_violation
validate_parent_type none = err constraint_violation

-- The rows of a node, in the order of their indices.
unfoldable pub insert_chunk_in_order : ChunkRecord → List ChunkRecord → List ChunkRecord
insert_chunk_in_order r [] = r ∷ []
insert_chunk_in_order r (s ∷ rows) =
    if leb r.chunk_index s.chunk_index then r ∷ s ∷ rows else s ∷ insert_chunk_in_order r rows

unfoldable pub chunks_of : ℕ → List ChunkRecord → List ChunkRecord
unfolding insert_chunk_in_order
chunks_of node_id [] = []
chunks_of node_id (r ∷ rows) =
    let rest = chunks_of node_id rows in
    if r.node_id == node_id then insert_chunk_in_order r rest else rest

-- Another standalone row has the blob name.
unfoldable pub name_clashes : List ChunkRecord → Text → Bool
name_clashes [] name = false
name_clashes (c ∷ chunks) name =
    let rest = name_clashes chunks name in
    (elim c.epoch_blob_id [ none ↦ c.blob_name === name | some _ ↦ false ]) || rest

-- The constraint of `nodes`: a file has a wrapped key, a directory has none.
abbrev pub key_matches_type : NodeType → Option Bytes → Bool
key_matches_type file none = false
key_matches_type file (some k) = true
key_matches_type directory none = true
key_matches_type directory (some k) = false

abbrev pub mentions : List ChunkRecord → ℕ → Bool
mentions [] node_id = false
mentions (c ∷ chunks) node_id = c.node_id == node_id || mentions chunks node_id

module _ (env : Env) where
  unfoldable pub get_node : ℕ → Exec Node
  unfolding attempt
  get_node node_id = do
    attempt env database
    m ← get_manifest
    lift (ok_or (find_node m.nodes node_id) not_found)

  unfoldable pub get_chunks : ℕ → Exec (List ChunkRecord)
  unfolding attempt
  get_chunks node_id = do attempt env database; m ← get_manifest; pure (chunks_of node_id m.chunks)

  unfoldable pub get_epoch_buffer_node_ids : Exec (List ℕ)
  unfolding attempt
  get_epoch_buffer_node_ids = do
    attempt env database
    m ← get_manifest
    pure (map (λ (r : BufferRow). r.entry.node_id) (sort_by_time m.epoch_buffer))

  abbrev check_parent : Node → Option ℕ → Exec (Unit {0})
  check_parent node none = pure tt
  check_parent node (some parent_id) =
      if parent_id == node.node_id then raise constraint_violation else (do
        attempt env database
        m ← get_manifest
        lift (validate_parent_type (type_of (find_node m.nodes parent_id))))

  unfoldable pub ensure_parent_is_directory_for_insert : Node → Exec (Unit {0})
  unfolding attempt validate_parent_type
  ensure_parent_is_directory_for_insert node = check_parent node node.parent_id

  unfoldable pub insert_node_tx : Node → Exec (Unit {0})
  unfolding attempt ensure_parent_is_directory_for_insert
  insert_node_tx node = do
    ensure_parent_is_directory_for_insert node
    lift (i64_try_from node.size_bytes)
    attempt env database
    m ← get_manifest
    if has_node m.nodes node.node_id || not (key_matches_type node.node_type node.file_key_wrapped)
        then raise constraint_violation
        else put_manifest (record m { nodes = m.nodes ++ (node ∷ []) })

  unfoldable pub insert_node : Node → Exec (Unit {0})
  unfolding attempt insert_node_tx
  insert_node node = transaction env (insert_node_tx node)

  -- `INSERT INTO chunks` of the columns of a row with a blob of its own.
  abbrev pub insert_standalone_row : ChunkRecord → Exec (Unit {0})
  insert_standalone_row chunk = do
    attempt env database
    m ← get_manifest
    if chunk_clashes m.chunks chunk || name_clashes m.chunks chunk.blob_name
        then raise constraint_violation
        else put_manifest (record m {
          chunks =
              m.chunks
              ++ (record chunk { epoch_blob_id = none; byte_offset = none; byte_length = none }
                  ∷ []);
        })

  -- The chunk rows of `insert_file_with_chunks`.
  unfoldable pub insert_file_chunks : Node → ℕ → List ChunkRecord → Exec (Unit {0})
  unfolding attempt
  insert_file_chunks node chunk_size_bytes [] = pure tt
  insert_file_chunks node chunk_size_bytes (chunk ∷ chunks) =
      let rest = insert_file_chunks node chunk_size_bytes chunks in
      if not (chunk.node_id == node.node_id) then raise constraint_violation else (do
        lift (validate_blob_name_uuid_v4 env chunk.blob_name)
        lift (validate_size_padded_matches_chunk_size chunk.size_padded chunk_size_bytes)
        lift (validate_chunk_target_node (some node.node_type))
        lift (i64_try_from chunk.size_padded)
        insert_standalone_row chunk
        rest)

  abbrev reads_chunk_size : Exec ℕ
  reads_chunk_size = do
    attempt env database
    m ← get_manifest
    chunk_size_text ← lift (ok_or (m.meta (codes "chunk_size_bytes")) database)
    lift (parse_chunk_size_bytes chunk_size_text)

  unfoldable pub insert_file_with_chunks : Node → List ChunkRecord → Exec (Unit {0})
  unfolding attempt insert_node_tx
  insert_file_with_chunks node chunks = transaction env (do
    insert_node_tx node
    chunk_size_bytes ← reads_chunk_size
    insert_file_chunks node chunk_size_bytes chunks)

  -- The identifiers of the nodes of the rows, each once.
  abbrev pub unique_node_ids : List ChunkRecord → List ℕ
  unique_node_ids [] = []
  unique_node_ids (chunk ∷ chunks) =
      let rest = unique_node_ids chunks in
      if mentions chunks chunk.node_id then rest else chunk.node_id ∷ rest

  -- A query for the type of each node.
  abbrev pub query_types : List ℕ → Exec (Unit {0})
  query_types [] = pure tt
  query_types (id ∷ ids) = attempt env database >> query_types ids

  unfoldable pub insert_chunk_rows : ℕ → List ChunkRecord → Exec (Unit {0})
  unfolding attempt
  insert_chunk_rows chunk_size_bytes [] = pure tt
  insert_chunk_rows chunk_size_bytes (chunk ∷ chunks) = do
    lift (validate_blob_name_uuid_v4 env chunk.blob_name)
    lift (validate_size_padded_matches_chunk_size chunk.size_padded chunk_size_bytes)
    m ← get_manifest
    lift (validate_chunk_target_node (type_of (find_node m.nodes chunk.node_id)))
    lift (i64_try_from chunk.size_padded)
    insert_standalone_row chunk
    insert_chunk_rows chunk_size_bytes chunks

  -- The types are those that the nodes have: the transaction does not change the nodes.
  unfoldable pub insert_chunks : List ChunkRecord → Exec (Unit {0})
  unfolding attempt insert_chunk_rows
  insert_chunks chunks = transaction env (do
    chunk_size_bytes ← reads_chunk_size
    query_types (unique_node_ids chunks)
    insert_chunk_rows chunk_size_bytes chunks)

  unfoldable pub insert_file_node_only : Node → Exec (Unit {0})
  unfolding insert_node_tx
  insert_file_node_only node = transaction env (insert_node_tx node)

  -- `now` is what `unix_timestamp_now` gives.
  unfoldable pub insert_file_node_and_stage_epoch_entry : ℕ → Node → Bytes → Exec (Unit {0})
  unfolding attempt insert_node_tx new_v4
  insert_file_node_and_stage_epoch_entry now node plaintext = transaction env (do
    insert_node_tx node
    entry_id ← new_v4 env
    size_bytes ← lift (i64_try_from (length plaintext))
    attempt env database
    attempt env database
    m ← get_manifest
    put_manifest (record m {
      epoch_buffer =
          m.epoch_buffer
          ++ (record {
            entry = record {
              entry_id = entry_id;
              node_id = node.node_id;
              plaintext = plaintext;
              size_bytes = size_bytes;
            };
            queued_at = now;
          }
              ∷ []);
    }))
