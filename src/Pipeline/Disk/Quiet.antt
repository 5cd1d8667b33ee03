-- ===== src/Pipeline/Disk/Quiet.antt =====
-- The decryption of a chunk only reads: it changes nothing but how many calls were made.
use arx_runa.Prelude.{ℕ, ◌≡◌, Bool, List, Bytes, arith, Result-cases, inl, inr}
use arx_runa.World.{Env, World, FilePath}
use arx_runa.Manifest.Types.{ChunkRecord}
use arx_runa.Manifest.Rows.{get_meta, read_chunk_size_bytes}
use arx_runa.Pipeline.Decrypt.{
  read_and_validate_chunks, resolve_blob_path, read_encrypted_blob, open_chunk, next_bytes,
}

module _ (env : Env) where
  -- `w'` is `w` after some calls.
  abbrev pub After : World → World → Type 0
  After w w' = w' ≡ record w { calls = w'.calls }

  pub resolve_blob_path-After :
      (staging_dir : FilePath) (name : List ℕ) (w : World)
      → After w (resolve_blob_path env staging_dir name w).1
  unfolding resolve_blob_path
  resolve_blob_path-After staging_dir name w = ground arith

  read_encrypted_blob-After :
      (p : FilePath) (n : ℕ) (w : World) → After w (read_encrypted_blob env p n w).1
  unfolding read_encrypted_blob
  read_encrypted_blob-After p n w = ground arith

  pub read_and_validate_chunks-After :
      (file_size : ℕ) (rows : List ChunkRecord) (w : World)
      → After w (read_and_validate_chunks env file_size rows w).1
  unfolding read_and_validate_chunks read_chunk_size_bytes get_meta
  read_and_validate_chunks-After file_size rows w = ground arith

  module _ (file_id file_key : Bytes) (staging_dir : FilePath) (blob_len : ℕ) where
    open_chunk-After :
        (r : ChunkRecord) (w : World)
        → After w (open_chunk env file_id file_key staging_dir blob_len r w).1
    unfolding open_chunk
    open_chunk-After r w =
        let resolved = resolve_blob_path env staging_dir r.blob_name w in
        let first = resolve_blob_path-After staging_dir r.blob_name w in
        elim (Result-cases resolved.0) [
          | inr (e, k) ↦ ground (arith, k, first)
          | inl (path, k) ↦
              let second = read_encrypted_blob-After path blob_len resolved.1 in
              ground (arith, k, first, second)
        ]

    pub next_bytes-After :
        (file_size size : ℕ) (is_last : Bool) (r : ChunkRecord) (w : World)
        → After w
            (next_bytes env file_id file_key staging_dir blob_len file_size size is_last r w).1
    unfolding next_bytes
    next_bytes-After file_size size is_last r w =
        let opened = open_chunk-After r w in ground (arith, opened)
