-- ===== src/Manifest/Store.antt =====
-- Writes to the manifest that the epoch buffer makes: sqlcipher.rs. A transaction is all or nothing;
-- a statement may fail, and fails on a row that the constraints of schema.rs refuse.
pub mod Transactions
use arx_runa.Prelude.{
  ℕ, ap, sym, ◌^◌, ◌≡◌, Bool, false, ◌&&◌, ◌||◌, not, Option, none, some, List, [], ◌∷◌, ◌++◌, map,
  ltb, leb, ◌==◌, ◌===◌, if◌then◌else◌, Result, ok, err, ok_or,
}
use arx_runa.World.{Env, World, Exec, ◌>>=◌, ◌>>◌, pure, raise, lift}
use arx_runa.World.Files.{attempt, new_v4}
use arx_runa.Storage.Error.{StorageError, database, not_found, constraint_violation}
use arx_runa.Manifest.Types.{
  Manifest, Node, ChunkRecord, EpochBlobRecord, EpochBufferEntry, BufferRow,
}

-- Node, chunk index, byte offset, byte length.
abbrev pub Extent : Type 0
Extent = ℕ × ℕ × ℕ × ℕ

abbrev pub settle :
    {A : Type 0} → Manifest → Result StorageError A → World → Result StorageError A × World
settle old (ok a) w = (ok a, w)
settle old (err e) w = (err e, record w { manifest = old })

abbrev pub get_manifest : Exec Manifest
get_manifest w = (ok w.manifest, w)

abbrev pub put_manifest : Manifest → Exec (Unit {0})
put_manifest m w = (ok tt, record w { manifest = m })

-- A transaction that fails leaves the old manifest.
pub settle-err :
    {A : Type 0} (old : Manifest) (r : Result StorageError A) (w w' : World) (e : StorageError)
    → settle old r w ≡ (err e, w')
    → w'.manifest ≡ old
settle-err old (ok a) w w' e h = cc
settle-err old (err e') w w' e h = ap (λ x. x.1.manifest) (sym h)

-- `i64::try_from` of a `u64`.
abbrev pub i64_try_from : ℕ → Result StorageError ℕ
i64_try_from n = if ltb n (2 ^ 63) then ok n else err database

unfoldable pub has_node : List Node → ℕ → Bool
has_node [] node_id = false
has_node (n ∷ nodes) node_id = n.node_id == node_id || has_node nodes node_id

-- A row has the primary key, or the node and the index, of another.
unfoldable pub chunk_clashes : List ChunkRecord → ChunkRecord → Bool
chunk_clashes [] r = false
chunk_clashes (c ∷ chunks) r =
    c.chunk_id == r.chunk_id
    || (c.node_id == r.node_id && c.chunk_index == r.chunk_index)
    || chunk_clashes chunks r

unfoldable pub blob_clashes : List EpochBlobRecord → EpochBlobRecord → Bool
blob_clashes [] r = false
blob_clashes (b ∷ blobs) r =
    b.epoch_blob_id == r.epoch_blob_id || b.blob_name === r.blob_name || blob_clashes blobs r

unfoldable pub find_epoch_blob : List EpochBlobRecord → ℕ → Option EpochBlobRecord
find_epoch_blob [] epoch_blob_id = none
find_epoch_blob (b ∷ blobs) epoch_blob_id =
    if b.epoch_blob_id == epoch_blob_id then some b else find_epoch_blob blobs epoch_blob_id

module _ (env : Env) where
  -- `conn.transaction()`, the body, and `tx.commit()`; dropped uncommitted, it is rolled back.
  abbrev pub transaction : {A : Type 0} → Exec A → Exec A
  transaction m w =
      let (r, w') =
        (attempt env database >>= λ _. m >>= λ a. attempt env database >>= λ _. pure a) w in
      settle w.manifest r w'

  unfoldable pub insert_chunk_row : ChunkRecord → Exec (Unit {0})
  unfolding attempt
  insert_chunk_row r = do
    attempt env database
    m ← get_manifest
    if not (has_node m.nodes r.node_id) || chunk_clashes m.chunks r
        then raise constraint_violation
        else put_manifest (record m { chunks = m.chunks ++ (r ∷ []) })

  unfoldable pub insert_epoch_blob_row : EpochBlobRecord → Exec (Unit {0})
  unfolding attempt
  insert_epoch_blob_row r = do
    attempt env database
    m ← get_manifest
    if blob_clashes m.epoch_blobs r
        then raise constraint_violation
        else put_manifest (record m { epoch_blobs = m.epoch_blobs ++ (r ∷ []) })

  -- The row of one extent. The database holds no blob name for it; reads take the epoch blob's.
  abbrev pub extent_row : EpochBlobRecord → Extent → ℕ → ChunkRecord
  extent_row record_ extent chunk_id = record {
    chunk_id = chunk_id;
    node_id = extent.0;
    chunk_index = extent.1;
    blob_name = record_.blob_name;
    size_padded = record_.size_padded;
    blake3_checksum = record_.blake3_checksum;
    epoch_blob_id = some record_.epoch_blob_id;
    byte_offset = some extent.2;
    byte_length = some extent.3;
  }

  unfoldable pub insert_extents : EpochBlobRecord → List Extent → Exec (Unit {0})
  unfolding new_v4 insert_chunk_row
  insert_extents record_ [] = pure tt
  insert_extents record_ (extent ∷ extents) = do
    chunk_id ← new_v4 env
    lift (i64_try_from extent.2)
    lift (i64_try_from extent.3)
    insert_chunk_row (extent_row record_ extent chunk_id)
    insert_extents record_ extents

  -- `DELETE FROM epoch_buffer`.
  unfoldable pub clear_epoch_buffer : Exec (Unit {0})
  unfolding attempt
  clear_epoch_buffer = do
    attempt env database
    m ← get_manifest
    put_manifest (record m { epoch_buffer = [] })

  unfoldable pub commit_epoch_flush : EpochBlobRecord → List Extent → Exec (Unit {0})
  unfolding attempt
  commit_epoch_flush record_ extents = transaction (do
    lift (i64_try_from record_.size_padded)
    insert_epoch_blob_row record_
    insert_extents record_ extents
    clear_epoch_buffer)

  unfoldable pub get_epoch_blob : ℕ → Exec EpochBlobRecord
  unfolding attempt
  get_epoch_blob epoch_blob_id = do
    attempt env database
    m ← get_manifest
    lift (ok_or (find_epoch_blob m.epoch_blobs epoch_blob_id) not_found)

-- `ORDER BY queued_at`.
unfoldable pub insert_by_time : BufferRow → List BufferRow → List BufferRow
insert_by_time r [] = r ∷ []
insert_by_time r (s ∷ rows) =
    if leb r.queued_at s.queued_at then r ∷ s ∷ rows else s ∷ insert_by_time r rows

unfoldable pub sort_by_time : List BufferRow → List BufferRow
unfolding insert_by_time
sort_by_time [] = []
sort_by_time (r ∷ rows) = insert_by_time r (sort_by_time rows)

unfoldable pub get_epoch_buffer_entries : Env → Exec (List EpochBufferEntry)
unfolding attempt sort_by_time
get_epoch_buffer_entries env = do
  attempt env database
  m ← get_manifest
  pure (map (λ (r : BufferRow). r.entry) (sort_by_time m.epoch_buffer))
