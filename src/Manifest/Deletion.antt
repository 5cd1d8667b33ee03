-- ===== src/Manifest/Deletion.antt =====
-- `delete_node` of sqlcipher.rs, and the queue of the blobs that it leaves to be deleted in the cloud.
pub mod Counting
pub mod Accounting
use arx_runa.Prelude.{
  ℕ, zero, suc, Bool, true, false, ◌&&◌, ◌||◌, not, Option, none, some, List, [], ◌∷◌, ◌++◌, Text,
  length, map, take, leb, ltb, ◌==◌, ◌===◌, if◌then◌else◌, Result,
}
use arx_runa.World.{Env, Exec, ◌>>=◌, ◌>>◌, pure, lift}
use arx_runa.World.Files.{attempt}
use arx_runa.Storage.Error.{StorageError, database}
use arx_runa.Manifest.Types.{
  Manifest, Node, ChunkRecord, EpochBlobRecord, BufferRow, PendingDeletion,
}
use arx_runa.Manifest.Store.{transaction, get_manifest, put_manifest, has_node, i64_try_from}
use arx_runa.Manifest.Hierarchy.{levels, has_id, exists_or, name_le}

-- The recursive query from a node itself; no rows where there is no such node.
unfoldable pub subtree : List Node → ℕ → List ℕ
unfolding levels has_node
subtree nodes node_id =
    if has_node nodes node_id then levels (length nodes) nodes (node_id ∷ []) else []

-- A row with a blob of its own.
abbrev pub is_standalone : Option ℕ → Bool
is_standalone none = true
is_standalone (some epoch_blob_id) = false

abbrev pub refers_to : Option ℕ → ℕ → Bool
refers_to none epoch_blob_id = false
refers_to (some id) epoch_blob_id = id == epoch_blob_id

-- Rows of these nodes refer to the epoch blob.
abbrev pub has_row_in : List ℕ → List ChunkRecord → ℕ → Bool
has_row_in ids [] epoch_blob_id = false
has_row_in ids (c ∷ chunks) epoch_blob_id =
    let rest = has_row_in ids chunks epoch_blob_id in
    (refers_to c.epoch_blob_id epoch_blob_id && has_id ids c.node_id) || rest

-- Rows of other nodes do.
abbrev pub has_row_out : List ℕ → List ChunkRecord → ℕ → Bool
has_row_out ids [] epoch_blob_id = false
has_row_out ids (c ∷ chunks) epoch_blob_id =
    let rest = has_row_out ids chunks epoch_blob_id in
    (refers_to c.epoch_blob_id epoch_blob_id && not (has_id ids c.node_id)) || rest

abbrev pub has_row : List ChunkRecord → ℕ → Bool
has_row [] epoch_blob_id = false
has_row (c ∷ chunks) epoch_blob_id =
    let rest = has_row chunks epoch_blob_id in refers_to c.epoch_blob_id epoch_blob_id || rest

-- The two parts of the `UNION`: the rows of the nodes, and the epoch blobs of which these are all.
unfoldable pub chunk_names : List ℕ → List ChunkRecord → List Text
chunk_names ids [] = []
chunk_names ids (c ∷ chunks) =
    let rest = chunk_names ids chunks in
    if is_standalone c.epoch_blob_id && has_id ids c.node_id then c.blob_name ∷ rest else rest

unfoldable pub blob_names_of : List ℕ → List ChunkRecord → List EpochBlobRecord → List Text
blob_names_of ids chunks [] = []
blob_names_of ids chunks (b ∷ blobs) =
    let rest = blob_names_of ids chunks blobs in
    if has_row_in ids chunks b.epoch_blob_id && not (has_row_out ids chunks b.epoch_blob_id)
    then b.blob_name ∷ rest
    else rest

unfoldable pub is_pending : List PendingDeletion → Text → Bool
is_pending [] blob_name = false
is_pending (p ∷ pending) blob_name = p.blob_name === blob_name || is_pending pending blob_name

abbrev pub insert_or_ignore : List PendingDeletion → Text → ℕ → List PendingDeletion
insert_or_ignore pending blob_name queued_at =
    if is_pending pending blob_name
    then pending
    else pending ++ (record { blob_name = blob_name; queued_at = queued_at } ∷ [])

-- `INSERT OR IGNORE INTO pending_deletions`.
unfoldable pub enqueue : List PendingDeletion → List Text → ℕ → List PendingDeletion
unfolding is_pending
enqueue pending [] queued_at = pending
enqueue pending (blob_name ∷ names) queued_at =
    enqueue (insert_or_ignore pending blob_name queued_at) names queued_at

-- What the deletions leave of each table.
unfoldable pub keep_nodes : List ℕ → List Node → List Node
keep_nodes ids [] = []
keep_nodes ids (n ∷ nodes) =
    let rest = keep_nodes ids nodes in if has_id ids n.node_id then rest else n ∷ rest

unfoldable pub keep_chunks : List ℕ → List ChunkRecord → List ChunkRecord
keep_chunks ids [] = []
keep_chunks ids (c ∷ chunks) =
    let rest = keep_chunks ids chunks in if has_id ids c.node_id then rest else c ∷ rest

unfoldable pub keep_rows : List ℕ → List BufferRow → List BufferRow
keep_rows ids [] = []
keep_rows ids (r ∷ rows) =
    let rest = keep_rows ids rows in if has_id ids r.entry.node_id then rest else r ∷ rest

unfoldable pub keep_blobs : List ChunkRecord → List EpochBlobRecord → List EpochBlobRecord
keep_blobs chunks [] = []
keep_blobs chunks (b ∷ blobs) =
    let rest = keep_blobs chunks blobs in if has_row chunks b.epoch_blob_id then b ∷ rest else rest

abbrev pub queue_blobs : ℕ → ℕ → Manifest → Manifest
queue_blobs node_id queued_at m =
    let ids = subtree m.nodes node_id in
    let names = chunk_names ids m.chunks ++ blob_names_of ids m.chunks m.epoch_blobs in
    record m { pending_deletions = enqueue m.pending_deletions names queued_at }

-- `DELETE FROM nodes` with its cascades, to the nodes below, their rows and their buffer entries.
abbrev pub cascade : ℕ → Manifest → Manifest
cascade node_id m =
    let ids = subtree m.nodes node_id in
    record m {
      nodes = keep_nodes ids m.nodes;
      chunks = keep_chunks ids m.chunks;
      epoch_buffer = keep_rows ids m.epoch_buffer;
    }

abbrev pub drop_orphans : Manifest → Manifest
drop_orphans m = record m { epoch_blobs = keep_blobs m.chunks m.epoch_blobs }

-- `ORDER BY queued_at ASC, blob_name ASC`.
abbrev pub is_queued_before : PendingDeletion → PendingDeletion → Bool
is_queued_before p q =
    ltb p.queued_at q.queued_at || (p.queued_at == q.queued_at && name_le p.blob_name q.blob_name)

unfoldable pub insert_queued : PendingDeletion → List PendingDeletion → List PendingDeletion
insert_queued p [] = p ∷ []
insert_queued p (q ∷ pending) =
    if is_queued_before p q then p ∷ q ∷ pending else q ∷ insert_queued p pending

unfoldable pub sort_queued : List PendingDeletion → List PendingDeletion
unfolding insert_queued
sort_queued [] = []
sort_queued (p ∷ pending) = insert_queued p (sort_queued pending)

unfoldable pub without : List PendingDeletion → Text → List PendingDeletion
without [] blob_name = []
without (p ∷ pending) blob_name =
    let rest = without pending blob_name in if p.blob_name === blob_name then rest else p ∷ rest

module _ (env : Env) where
  -- A statement that changes the manifest.
  abbrev pub execute : (Manifest → Manifest) → Exec (Unit {0})
  execute change = do attempt env database; m ← get_manifest; put_manifest (change m)

  -- What `delete_node` does in its transaction. `now` is what `unix_timestamp_now` gives.
  abbrev pub deletes : ℕ → Result StorageError ℕ → Exec (Unit {0})
  deletes node_id now = do
    queued_at ← lift now
    execute (queue_blobs node_id queued_at)
    attempt env database
    m ← get_manifest
    lift (exists_or m.nodes node_id)
    put_manifest (cascade node_id m)
    execute drop_orphans

  unfoldable pub delete_node : ℕ → Result StorageError ℕ → Exec (Unit {0})
  unfolding attempt exists_or subtree chunk_names blob_names_of enqueue keep_nodes keep_chunks
      keep_rows keep_blobs
  delete_node node_id now = transaction env (deletes node_id now)

  unfoldable pub list_pending_deletions : ℕ → Exec (List Text)
  unfolding attempt sort_queued
  list_pending_deletions limit = do
    lift (i64_try_from limit)
    attempt env database
    m ← get_manifest
    pure (take limit (map (λ (p : PendingDeletion). p.blob_name) (sort_queued m.pending_deletions)))

  unfoldable pub mark_deletion_complete : Text → Exec (Unit {0})
  unfolding attempt without
  mark_deletion_complete blob_name =
      transaction env
        (execute λ m. record m { pending_deletions = without m.pending_deletions blob_name })
