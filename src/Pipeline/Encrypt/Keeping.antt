-- ===== src/Pipeline/Encrypt/Keeping.antt =====
-- encrypt_file.rs never changes the manifest.
use arx_runa.Prelude.{
  ℕ, zero, suc, ◌+◌, ◌-◌, refl, ◌∙◌, Bool, List, [], ◌∷◌, Bytes, Text, length, arith, Result-cases,
  Bool-cases, inl, inr,
}
use arx_runa.World.{Env, FilePath, on_error, join, blob_file}
use arx_runa.World.Files.{attempt, remove_file, get_staged, clear_staged, read_file}
use arx_runa.World.Keeping.{Keeps, bind-Keeps, on_error-Keeps}
use arx_runa.Manifest.Rows.{get_meta, read_chunk_size_bytes}
use arx_runa.Exif.{is_image_magic, strip_exif}
use arx_runa.Pipeline.Pieces.{chunks, pad}
use arx_runa.Pipeline.Encrypt.{
  next_index, read_some, read_loop, read_chunk_plaintext, cleanup_staged_blobs, cleanup,
  stage_chunk, encrypt_pieces, encrypt_stream, encrypt_bytes, size_of, encrypt_file_inner,
  read_magic_bytes, encrypt_file,
}

module _ (env : Env) where
  pub read_file-Keeps : (p : FilePath) → Keeps (read_file env p)
  unfolding read_file attempt
  read_file-Keeps p w = ground arith

  remove_file-Keeps : (p : FilePath) → Keeps (remove_file env p)
  unfolding remove_file
  remove_file-Keeps p w = ground arith

  pub cleanup_staged_blobs-Keeps :
      (dir : FilePath) (names : List Text) → Keeps (cleanup_staged_blobs env dir names)
  unfolding cleanup_staged_blobs
  cleanup_staged_blobs-Keeps dir [] w = refl
  cleanup_staged_blobs-Keeps dir (name ∷ names) w =
      cleanup_staged_blobs-Keeps dir names (remove_file env (join dir (blob_file name)) w).1
      ∙ remove_file-Keeps (join dir (blob_file name)) w

  cleanup-Keeps : (dir : FilePath) → Keeps (cleanup env dir)
  unfolding cleanup get_staged
  cleanup-Keeps dir w = cleanup_staged_blobs-Keeps dir w.staged w

  pub read_some-Keeps : (space : ℕ) (rest : Bytes) → Keeps (read_some env space rest)
  unfolding read_some attempt
  read_some-Keeps space rest w = ground arith

  read_loop-Keeps : (f space : ℕ) (rest : Bytes) → Keeps (read_loop env f space rest)
  unfolding read_loop
  read_loop-Keeps zero space rest = λ w. refl
  read_loop-Keeps (suc f) space rest =
      bind-Keeps (read_some env space rest) _ (read_some-Keeps space rest) (λ first w.
        let more = read_loop-Keeps f (space - length first.0) first.1 w in ground (arith, more))

  read_chunk_plaintext-Keeps :
      (size : ℕ) (source : Bytes) → Keeps (read_chunk_plaintext env size source)
  unfolding read_chunk_plaintext
  read_chunk_plaintext-Keeps size source w = read_loop-Keeps size size source w

  read_magic_bytes-Keeps : (source : FilePath) → Keeps (read_magic_bytes env source)
  unfolding read_magic_bytes
  read_magic_bytes-Keeps source w =
      let opened = read_file env source w in
      let kept = read_file-Keeps source w in
      elim (Result-cases opened.0) [
        | inr (e, k) ↦ ground (arith, k, kept)
        | inl (bytes, k) ↦
            let more = read_some-Keeps 8 bytes opened.1 in ground (arith, k, kept, more)
      ]

  pub read_chunk_size_bytes-Keeps : Keeps (read_chunk_size_bytes env)
  unfolding read_chunk_size_bytes get_meta attempt
  read_chunk_size_bytes-Keeps w = ground arith

  size_of-Keeps : (p : FilePath) → Keeps (size_of env p)
  size_of-Keeps p w = refl

  module _ (file_id file_key : Bytes) (dir : FilePath) (reports : Bool) (size total : ℕ) where
    stage_chunk-Keeps :
        (plaintext : Bytes) (n i so_far : ℕ)
        → Keeps (stage_chunk env file_id file_key dir reports size total plaintext n i so_far)
    unfolding stage_chunk
    stage_chunk-Keeps plaintext n i so_far w = ground arith

    encrypt_pieces-Keeps :
        (ps : List Bytes) (i so_far : ℕ)
        → Keeps (encrypt_pieces env file_id file_key dir reports size total ps i so_far)
    unfolding encrypt_pieces
    encrypt_pieces-Keeps [] i so_far w = refl
    encrypt_pieces-Keeps (p ∷ ps) i so_far w =
        let stage =
          stage_chunk env file_id file_key dir reports size total (pad size p) (length p) i
            so_far in
        let first = on_error stage (cleanup env dir) w in
        let kept =
          on_error-Keeps stage (cleanup env dir)
            (stage_chunk-Keeps (pad size p) (length p) i so_far) (cleanup-Keeps dir) w in
        elim (Result-cases first.0) [
          | inr (e, k) ↦ ground (arith, k, kept)
          | inl (row, k) ↦ elim (Result-cases (next_index i)) [
            | inr (e, l) ↦ ground (arith, k, kept, l)
            | inl (next, l) ↦
                let more = encrypt_pieces-Keeps ps next (so_far + length p) first.1 in
                ground (arith, k, kept, l, more)
          ]
        ]

    encrypt_stream-Keeps :
        (f : ℕ) (source : Bytes) (i so_far : ℕ)
        → Keeps (encrypt_stream env file_id file_key dir reports size total f source i so_far)
    unfolding encrypt_stream
    encrypt_stream-Keeps zero source i so_far w = refl
    encrypt_stream-Keeps (suc f) source i so_far w =
        let read = read_chunk_plaintext env size source w in
        let kept = read_chunk_plaintext-Keeps size source w in
        elim (Result-cases read.0) [
          | inr (e, k) ↦ ground (arith, k, kept)
          | inl (got, k) ↦
              let staged =
                stage_chunk env file_id file_key dir reports size total (pad size got.0)
                  (length got.0) i so_far read.1 in
              let kept' = stage_chunk-Keeps (pad size got.0) (length got.0) i so_far read.1 in
              elim (Result-cases staged.0) [
                | inr (e, l) ↦ ground (arith, k, kept, l, kept')
                | inl (row, l) ↦ elim (Result-cases (next_index i)) [
                  | inr (e, o) ↦ ground (arith, k, kept, l, kept', o)
                  | inl (next, o) ↦
                      let more =
                        encrypt_stream-Keeps f got.1 next (so_far + length got.0) staged.1 in
                      ground (arith, k, kept, l, kept', o, more)
                ]
              ]
        ]

  module _ (file_id file_key : Bytes) (dir : FilePath) (reports : Bool) where
    pub encrypt_bytes-Keeps :
        (source : Bytes) → Keeps (encrypt_bytes env source file_id file_key dir reports)
    unfolding encrypt_bytes clear_staged
    encrypt_bytes-Keeps [] w = refl
    encrypt_bytes-Keeps (b ∷ bs) w =
        let read = read_chunk_size_bytes env w in
        let kept = read_chunk_size_bytes-Keeps w in
        elim (Result-cases read.0) [
          | inr (e, k) ↦ ground (arith, k, kept)
          | inl (n, k) ↦
              let more =
                encrypt_pieces-Keeps file_id file_key dir reports n (length (b ∷ bs))
                  (chunks n (b ∷ bs)) 0 0 (record read.1 { staged = [] }) in
              ground (arith, k, kept, more)
        ]

    encrypt_file_inner-Keeps :
        (source : FilePath) → Keeps (encrypt_file_inner env source file_id file_key dir reports)
    unfolding encrypt_file_inner
    encrypt_file_inner-Keeps source w =
        let read = read_chunk_size_bytes env w in
        let kept = read_chunk_size_bytes-Keeps w in
        elim (Result-cases read.0) [
          | inr (e, k) ↦ ground (arith, k, kept)
          | inl (n, k) ↦
              let measured = size_of env source read.1 in
              let opened = read_file env source measured.1 in
              let kept' = read_file-Keeps source measured.1 in
              elim (Result-cases measured.0) [
                | inr (e, l) ↦ ground (arith, k, kept, l)
                | inl (total, l) ↦ elim (Result-cases opened.0) [
                  | inr (e, o) ↦ ground (arith, k, kept, l, kept', o)
                  | inl (bytes, o) ↦
                      let more =
                        encrypt_stream-Keeps file_id file_key dir reports n total
                          (suc (length bytes)) bytes 0 0 opened.1 in
                      ground (arith, k, kept, l, kept', o, more)
                ]
              ]
        ]

    pub encrypt_file-Keeps :
        (source : FilePath) → Keeps (encrypt_file env source file_id file_key dir reports)
    unfolding encrypt_file clear_staged
    encrypt_file-Keeps source w =
        let first = read_magic_bytes env source w in
        let kept = read_magic_bytes-Keeps source w in
        elim (Result-cases first.0) [
          | inr (e, k) ↦ ground (arith, k, kept)
          | inl (magic, k) ↦
              let again = read_file env source first.1 in
              let kept' = read_file-Keeps source first.1 in
              let inner =
                on_error-Keeps (encrypt_file_inner env source file_id file_key dir reports)
                  (cleanup env dir) (encrypt_file_inner-Keeps source) (cleanup-Keeps dir)
                  (record first.1 { staged = [] }) in
              elim (Bool-cases (is_image_magic magic)) [
                | inr other ↦ ground (arith, k, kept, other, inner)
                | inl image ↦ elim (Result-cases again.0) [
                  | inr (e, l) ↦ ground (arith, k, kept, image, l, kept')
                  | inl (raw, l) ↦
                      let more = encrypt_bytes-Keeps (strip_exif raw) again.1 in
                      ground (arith, k, kept, image, l, kept', more)
                ]
              ]
        ]
