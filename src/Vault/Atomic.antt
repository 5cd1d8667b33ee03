-- ===== src/Vault/Atomic.antt =====
-- upload_file.rs when an upload fails.
use arx_runa.Prelude.{
  ℕ, suc, ◌≡◌, refl, ap, ◌∙◌, Bool, Option, none, some, List, Bytes, length, arith, replicate,
  Result-cases, inl, inr, err,
}
use arx_runa.World.{Env, World, FilePath, on_error}
use arx_runa.World.Files.{attempt, read_file, generate_file_key, generate_nonce}
use arx_runa.World.Keeping.{Keeps, IsAtomic, on_error-IsAtomic}
use arx_runa.Storage.Error.{StorageError}
use arx_runa.Manifest.Types.{Node, file, ChunkRecord}
use arx_runa.Manifest.Store.{settle-err}
use arx_runa.Manifest.Rows.{get_meta, read_chunk_size_bytes}
use arx_runa.Manifest.Nodes.{insert_file_with_chunks, insert_file_node_and_stage_epoch_entry}
use arx_runa.Pipeline.Encrypt.{read_some, cleanup_staged_blobs}
use arx_runa.Pipeline.Encrypt.Keeping.{
  read_file-Keeps, read_some-Keeps, read_chunk_size_bytes-Keeps, encrypt_bytes-Keeps,
  encrypt_file-Keeps, cleanup_staged_blobs-Keeps,
}
use arx_runa.Vault.{
  read_or, RouteDecision-cases, decide, assign_node_id, length_or, metadata_len,
  strip_exif_if_image, read_epoch_buffer_enabled, wrap_drawn, upload_buffered, encrypt_source,
  blob_names, upload_immediate, upload_file,
}

module _ (env : Env) where
  insert_file_with_chunks-IsAtomic :
      (node : Node) (rows : List ChunkRecord) → IsAtomic (insert_file_with_chunks env node rows)
  unfolding insert_file_with_chunks
  insert_file_with_chunks-IsAtomic node rows w w' e h = settle-err w.manifest _ _ w' e h

  stage_entry-IsAtomic :
      (now : ℕ) (node : Node) (plaintext : Bytes)
      → IsAtomic (insert_file_node_and_stage_epoch_entry env now node plaintext)
  unfolding insert_file_node_and_stage_epoch_entry
  stage_entry-IsAtomic now node plaintext w w' e h = settle-err w.manifest _ _ w' e h

  metadata_len-Keeps : (p : FilePath) → Keeps (metadata_len env p)
  unfolding metadata_len
  metadata_len-Keeps p w = let kept = read_file-Keeps env p w in ground (arith, kept)

  wrap_drawn-Keeps :
      (file_key : Bytes) (node_id : ℕ) (kek : Bytes) → Keeps (wrap_drawn env file_key node_id kek)
  unfolding wrap_drawn generate_nonce
  wrap_drawn-Keeps file_key node_id kek w = refl

  read_epoch_buffer_enabled-Keeps : Keeps (read_epoch_buffer_enabled env)
  unfolding read_epoch_buffer_enabled get_meta attempt
  read_epoch_buffer_enabled-Keeps w = ground arith

  strip_exif_if_image-Keeps : (source : FilePath) (n : ℕ) → Keeps (strip_exif_if_image env source n)
  unfolding strip_exif_if_image
  strip_exif_if_image-Keeps source n w =
      let opened = read_file env source w in
      let kept = read_file-Keeps env source w in
      elim (Result-cases opened.0) [
        | inr (e, k) ↦ ground (arith, k, kept)
        | inl (found, k) ↦
            let header = read_some env 8 found opened.1 in
            let kept' = read_some-Keeps env 8 found opened.1 in
            let again = read_file-Keeps env source header.1 in
            elim (Result-cases header.0) [
              | inr (e, l) ↦ ground (arith, k, kept, l, kept')
              | inl (got, l) ↦ ground (arith, k, kept, l, kept', again)
            ]
      ]

  encrypt_source-Keeps :
      (source : FilePath) (stripped : Option Bytes) (node_id : ℕ) (file_key : Bytes)
      (dir : FilePath) (reports : Bool)
      → Keeps (encrypt_source env source stripped node_id file_key dir reports)
  encrypt_source-Keeps source none node_id file_key dir reports =
      encrypt_file-Keeps env (env.uuid_bytes node_id) file_key dir reports source
  encrypt_source-Keeps source (some bytes) node_id file_key dir reports =
      encrypt_bytes-Keeps env (env.uuid_bytes node_id) file_key dir reports bytes

  upload_immediate-IsAtomic :
      (source : FilePath) (stripped : Option Bytes) (file_size : ℕ) (node : Node) (kek : Bytes)
      (dir : FilePath) (reports : Bool)
      → IsAtomic (upload_immediate env source stripped file_size node kek dir reports)
  unfolding upload_immediate generate_file_key
  upload_immediate-IsAtomic source stripped file_size node kek dir reports w w' e h =
      let key = env.key_at w.draws in
      let drawn = record w { draws = suc w.draws } in
      let wrap = wrap_drawn env key node.node_id kek drawn in
      let kept = wrap_drawn-Keeps key node.node_id kek drawn in
      elim (Result-cases wrap.0) [
        | inr (x, k) ↦ ground (arith, k, kept)
        | inl (wrapped, k) ↦
            let run = encrypt_source env source stripped node.node_id key dir reports wrap.1 in
            let kept' = encrypt_source-Keeps source stripped node.node_id key dir reports wrap.1 in
            elim (Result-cases run.0) [
              | inr (x, l) ↦ ground (arith, k, kept, l, kept')
              | inl (rows, l) ↦
                  let complete = record node {
                    node_type = file;
                    size_bytes = file_size;
                    file_key_wrapped = some wrapped;
                  } in
                  let insert =
                    insert_file_with_chunks env complete (assign_node_id rows node.node_id) in
                  let cleanup = cleanup_staged_blobs env dir (blob_names env rows) in
                  let inserted = on_error insert cleanup run.1 in
                  elim (Result-cases inserted.0) [
                    | inl (u, o) ↦ absurd (ground (arith, k, l, o))
                    | inr (x, o) ↦
                        let atomic =
                          on_error-IsAtomic insert cleanup
                            (insert_file_with_chunks-IsAtomic complete
                              (assign_node_id rows node.node_id))
                            (cleanup_staged_blobs-Keeps env dir (blob_names env rows)) run.1
                            inserted.1 x (ap (λ r. (r, inserted.1)) o) in
                        ground (arith, k, kept, l, kept', o, atomic)
                  ]
            ]
      ]

  read_or-Keeps :
      (stripped : Option Bytes) (source : FilePath) → Keeps (read_or env stripped source)
  read_or-Keeps none source = read_file-Keeps env source
  read_or-Keeps (some bytes) source = λ w. refl

  upload_buffered-IsAtomic :
      (now : ℕ) (source : FilePath) (stripped : Option Bytes) (node : Node) (kek : Bytes)
      → IsAtomic (upload_buffered env now source stripped node kek)
  unfolding upload_buffered
  upload_buffered-IsAtomic now source stripped node kek w w' e h =
      let read = read_or env stripped source w in
      let kept = read_or-Keeps stripped source w in
      elim (Result-cases read.0) [
        | inr (x, k) ↦ ground (arith, k, kept)
        | inl (plaintext, k) ↦
            let wrap = wrap_drawn env (replicate 32 0) node.node_id kek read.1 in
            let kept' = wrap_drawn-Keeps (replicate 32 0) node.node_id kek read.1 in
            elim (Result-cases wrap.0) [
              | inr (x, l) ↦ ground (arith, k, kept, l, kept')
              | inl (wrapped, l) ↦
                  let complete = record node {
                    node_type = file;
                    size_bytes = length plaintext;
                    file_key_wrapped = some wrapped;
                  } in
                  let inserted =
                    insert_file_node_and_stage_epoch_entry env now complete plaintext wrap.1 in
                  elim (Result-cases inserted.0) [
                    | inl (u, o) ↦ absurd (ground (arith, k, l, o))
                    | inr (x, o) ↦
                        let atomic =
                          stage_entry-IsAtomic now complete plaintext wrap.1 inserted.1 x
                            (ap (λ r. (r, inserted.1)) o) in
                        ground (arith, k, kept, l, kept', o, atomic)
                  ]
            ]
      ]

  -- An upload that fails, at whatever call and on either route, leaves the manifest as it was.
  pub upload_file_atomic :
      (now : ℕ) (source : FilePath) (node : Node) (kek : Bytes) (staging_dir : FilePath)
      (reports : Bool) (w w' : World) (e : StorageError)
      → upload_file env now source node kek staging_dir reports w ≡ (err e, w')
      → w'.manifest ≡ w.manifest
  unfolding upload_file
  upload_file_atomic now source node kek staging_dir reports w w' e h =
      let measured = metadata_len env source w in
      let kept = metadata_len-Keeps source w in
      elim (Result-cases measured.0) [
        | inr (x, k) ↦ ground (arith, k, kept)
        | inl (n, k) ↦
            let image = strip_exif_if_image env source n measured.1 in
            let kept' = strip_exif_if_image-Keeps source n measured.1 in
            elim (Result-cases image.0) [
              | inr (x, l) ↦ ground (arith, k, kept, l, kept')
              | inl (stripped, l) ↦
                  let read = read_chunk_size_bytes env image.1 in
                  let kept'' = read_chunk_size_bytes-Keeps env image.1 in
                  elim (Result-cases read.0) [
                    | inr (x, o) ↦ ground (arith, k, kept, l, kept', o, kept'')
                    | inl (size, o) ↦
                        let flag = read_epoch_buffer_enabled env read.1 in
                        let kept_flag = read_epoch_buffer_enabled-Keeps read.1 in
                        elim (Result-cases flag.0) [
                          | inr (x, p) ↦ ground (arith, k, kept, l, kept', o, kept'', p, kept_flag)
                          | inl (enabled, p) ↦
                              let before : flag.1.manifest ≡ w.manifest =
                                kept_flag ∙ kept'' ∙ kept' ∙ kept in
                              elim (RouteDecision-cases
                                (decide (length_or stripped n) size enabled)) [
                                  | inl buffered ↦
                                      upload_buffered-IsAtomic now source stripped node kek flag.1
                                        w' e (ground (arith, k, l, o, p, buffered))
                                      ∙ before
                                  | inr at_once ↦
                                      upload_immediate-IsAtomic source stripped
                                        (length_or stripped n) node kek staging_dir reports flag.1
                                        w' e (ground (arith, k, l, o, p, at_once))
                                      ∙ before
                                ]
                        ]
                  ]
            ]
      ]
