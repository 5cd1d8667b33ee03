-- ===== src/Pipeline/Encrypt.antt =====
-- src-tauri/src/storage/pipeline/encrypt_file.rs.
pub mod Stored
pub mod Reading
pub mod Loops
pub mod Keeping
pub mod Streaming
use arx_runa.Prelude.{
  ℕ, zero, suc, ◌+◌, ◌-◌, ◌%◌, ◌^◌, min, ◌≡◌, Bool, Option, none, some, List, [], ◌∷◌, ◌++◌, Text,
  Bytes, length, take, drop, ltb, ◌==◌, if◌then◌else◌, Result, ok, err, map_err, codes, replicate,
}
use arx_runa.World.{
  Env, Fate, World, Exec, ◌>>=◌, ◌>>◌, pure, raise, lift, ignore, on_error, FilePath, join,
  blob_file,
}
use arx_runa.World.Files.{
  attempt, write_file, remove_file, generate_nonce, new_v4, report, push_staged, get_staged,
  clear_staged, read_file,
}
use arx_runa.Crypto.Chunk.{encrypt_chunk}
use arx_runa.Crypto.Checksum.{compute_checksum}
use arx_runa.Storage.Error.{StorageError, io, constraint_violation, from_crypto}
use arx_runa.Storage.Validation.{usize_try_from}
use arx_runa.Manifest.Types.{ChunkRecord}
use arx_runa.Manifest.Rows.{read_chunk_size_bytes}
use arx_runa.Exif.{is_image_magic, strip_exif}
use arx_runa.Pipeline.Pieces.{chunks, pad}

-- `chunk_index.checked_add(1)`, of a `u32`.
abbrev pub next_index : ℕ → Result StorageError ℕ
next_index i = if ltb (i + 1) (2 ^ 32) then ok (i + 1) else err constraint_violation

-- How many bytes one `read` gives: at least one, if the buffer and the source have room for it.
abbrev pub read_count : ℕ → ℕ → ℕ → ℕ
read_count space available s = if min space available == 0 then 0 else 1 + s % min space available

module _ (env : Env) where
  abbrev gives : ℕ → Bytes → Exec (Bytes × Bytes)
  gives n rest w = (ok (take n rest, drop n rest), w)

  -- One `read` into a buffer with `space` bytes left: what it gives, and the rest of the source.
  unfoldable pub read_some : ℕ → Bytes → Exec (Bytes × Bytes)
  unfolding attempt
  read_some space rest w =
      (attempt env io >> gives (read_count space (length rest) (env.short w.calls)) rest) w

  -- The loop of `read_chunk_plaintext`. Each read that is not the last gives a byte, so `space`
  -- rounds of fuel are enough.
  unfoldable pub read_loop : ℕ → ℕ → Bytes → Exec (Bytes × Bytes)
  read_loop zero space rest = pure ([], rest)
  read_loop (suc f) space rest = do
    first ← read_some space rest
    let more = (do
      others ← read_loop f (space - length first.0) first.1
      pure (first.0 ++ others.0, others.1))
    if length first.0 == 0 then pure ([], rest) else more

  unfoldable pub read_chunk_plaintext : ℕ → Bytes → Exec (Bytes × Bytes)
  unfolding read_loop read_some
  read_chunk_plaintext space rest = read_loop space space rest

  unfoldable pub write_blob_file : FilePath → Text → Bytes → Exec (Unit {0})
  unfolding write_file join blob_file
  write_blob_file dir blob_name wire_blob =
      write_file env (join dir (blob_file blob_name)) wire_blob

  unfoldable pub cleanup_staged_blobs : FilePath → List Text → Exec (Unit {0})
  cleanup_staged_blobs dir [] = pure tt
  cleanup_staged_blobs dir (blob_name ∷ names) =
      ignore (remove_file env (join dir (blob_file blob_name))) >> cleanup_staged_blobs dir names

  unfoldable pub cleanup : FilePath → Exec (Unit {0})
  unfolding get_staged
  cleanup dir = do names ← get_staged; cleanup_staged_blobs dir names

  -- `encrypt_chunk` with the nonce that it draws.
  unfoldable pub seal_chunk : Bytes → Bytes → Bytes → ℕ → Exec Bytes
  unfolding generate_nonce
  seal_chunk plaintext file_key file_id chunk_index = do
    nonce ← generate_nonce env
    lift (
        map_err (encrypt_chunk env.cipher nonce plaintext file_key file_id chunk_index) from_crypto)

  module _ (file_id file_key : Bytes) (dir : FilePath) (reports : Bool) (size total : ℕ) where
    -- The body that the two loops share: encrypts, names, writes and reports one chunk, of which
    -- `bytes_read` bytes are the file's. The row's `node_id` is nil until `assign_node_id`.
    unfoldable pub stage_chunk : Bytes → ℕ → ℕ → ℕ → Exec ChunkRecord
    unfolding seal_chunk compute_checksum new_v4 push_staged write_blob_file report
    stage_chunk plaintext bytes_read chunk_index bytes_processed = do
      wire_blob ← seal_chunk plaintext file_key file_id chunk_index
      name ← new_v4 env
      push_staged (env.hyphenated name)
      write_blob_file dir (env.hyphenated name) wire_blob
      report reports (bytes_processed + bytes_read) total
      chunk_id ← new_v4 env
      pure (record {
        chunk_id = chunk_id;
        node_id = 0;
        chunk_index = chunk_index;
        blob_name = env.hyphenated name;
        size_padded = size;
        blake3_checksum = compute_checksum env.hash wire_blob;
        epoch_blob_id = none;
        byte_offset = none;
        byte_length = none;
      })

    -- The loop of `encrypt_bytes`, over the pieces of the source.
    unfoldable pub encrypt_pieces : List Bytes → ℕ → ℕ → Exec (List ChunkRecord)
    encrypt_pieces [] chunk_index bytes_processed = pure []
    encrypt_pieces (piece ∷ rest) chunk_index bytes_processed = do
      row ←
          on_error (stage_chunk (pad size piece) (length piece) chunk_index bytes_processed)
            (cleanup dir)
      next ← lift (next_index chunk_index)
      rows ← encrypt_pieces rest next (bytes_processed + length piece)
      pure (row ∷ rows)

    -- The loop of `encrypt_file_inner`, over what is left of the source. Every round but the last
    -- reads a full chunk, so the length of the source is fuel enough for chunks of a byte or more.
    unfoldable pub encrypt_stream : ℕ → Bytes → ℕ → ℕ → Exec (List ChunkRecord)
    encrypt_stream zero source chunk_index bytes_processed = pure []
    encrypt_stream (suc f) source chunk_index bytes_processed = do
      got ← read_chunk_plaintext size source
      let bytes_read = length got.0
      let again = (λ (row : ChunkRecord). do
        next ← lift (next_index chunk_index)
        rows ← encrypt_stream f got.1 next (bytes_processed + bytes_read)
        pure (row ∷ rows))
      let staged = (do
        row ← stage_chunk (pad size got.0) bytes_read chunk_index bytes_processed
        if ltb bytes_read size then pure (row ∷ []) else again row)
      if bytes_read == 0 then pure [] else staged

  unfoldable pub encrypt_bytes : Bytes → Bytes → Bytes → FilePath → Bool → Exec (List ChunkRecord)
  encrypt_bytes [] file_id file_key dir reports = pure []
  encrypt_bytes (b ∷ bs) file_id file_key dir reports = do
    chunk_size_bytes ← read_chunk_size_bytes env
    size ← lift (usize_try_from chunk_size_bytes)
    clear_staged
    encrypt_pieces file_id file_key dir reports size (length (b ∷ bs)) (chunks size (b ∷ bs)) 0 0

  abbrev pub size_of : FilePath → Exec ℕ
  size_of p w = (
    ok (elim (env.fate w.calls) [
      | Fate.done ↦ elim (w.files p) [ none ↦ 0 | some bytes ↦ length bytes ]
      | _ ↦ 0
    ]),
    record w { calls = suc w.calls },
  )

  unfoldable pub encrypt_file_inner :
      FilePath → Bytes → Bytes → FilePath → Bool → Exec (List ChunkRecord)
  encrypt_file_inner source file_id file_key dir reports = do
    chunk_size_bytes ← read_chunk_size_bytes env
    size ← lift (usize_try_from chunk_size_bytes)
    file_size ← size_of source
    bytes ← read_file env source
    encrypt_stream file_id file_key dir reports size file_size (suc (length bytes)) bytes 0 0

  -- One read of up to eight bytes, with zeros behind what it gives.
  unfoldable pub read_magic_bytes : FilePath → Exec Bytes
  unfolding read_file read_some
  read_magic_bytes source = do
    bytes ← read_file env source
    got ← read_some 8 bytes
    pure (pad 8 got.0)

  unfoldable pub encrypt_file : FilePath → Bytes → Bytes → FilePath → Bool → Exec (List ChunkRecord)
  encrypt_file source file_id file_key dir reports = do
    magic ← read_magic_bytes source
    if is_image_magic magic
        then (do
          raw_bytes ← read_file env source
          encrypt_bytes (strip_exif raw_bytes) file_id file_key dir reports)
        else (do
          clear_staged
          on_error (encrypt_file_inner source file_id file_key dir reports) (cleanup dir))
