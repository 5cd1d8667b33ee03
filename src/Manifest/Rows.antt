-- ===== src/Manifest/Rows.antt =====
-- Reads of the manifest that the file pipelines make: `get_meta` of sqlcipher.rs, and
-- `read_chunk_size_bytes` of src-tauri/src/storage/pipeline/chunk_size.rs.
use arx_runa.Prelude.{ℕ, ◌≡◌, Option, some, Text, codes, ok, ok_or}
use arx_runa.Prelude.{suc, arith}
use arx_runa.Manifest.Types.{Manifest}
use arx_runa.World.{done, Env, World, Exec, ◌>>=◌, ◌>>◌, lift}
use arx_runa.World.Files.{attempt}
use arx_runa.Storage.Error.{database}
use arx_runa.Storage.Validation.{parse_chunk_size_bytes}

module _ (env : Env) where
  abbrev reads_meta : Text → Exec (Option Text)
  reads_meta key w = (ok (w.manifest.meta key), w)

  unfoldable pub get_meta : Text → Exec (Option Text)
  unfolding attempt
  get_meta key = attempt env database >> reads_meta key

  unfoldable pub read_chunk_size_bytes : Exec ℕ
  unfolding get_meta
  read_chunk_size_bytes = do
    found ← get_meta (codes "chunk_size_bytes")
    chunk_size_text ← lift (ok_or found database)
    lift (parse_chunk_size_bytes chunk_size_text)

-- The manifest holds a valid chunk size, `size`.
abbrev pub Configured : Manifest → ℕ → Type 0
Configured m size =
    (t : Text) × (m.meta (codes "chunk_size_bytes") ≡ some t) × (parse_chunk_size_bytes t ≡ ok size)

module _ (env : Env) (w : World) where
  -- A successful read gives the configured size.
  pub read_chunk_size_bytes-ok :
      (w' : World) (n size : ℕ)
      → Configured w.manifest size
      → read_chunk_size_bytes env w ≡ (ok n, w')
      → (n ≡ size) × (w' ≡ record w { calls = suc w.calls })
  unfolding read_chunk_size_bytes
  read_chunk_size_bytes-ok w' n size c h =
      let found = c.1 in
      let parsed = c.2 in (ground (arith, found, parsed), ground (arith, found, parsed))

  -- The read succeeds when its call does.
  pub read_chunk_size_bytes-done :
      (size : ℕ)
      → Configured w.manifest size
      → env.fate w.calls ≡ done
      → read_chunk_size_bytes env w ≡ (ok size, record w { calls = suc w.calls })
  unfolding read_chunk_size_bytes
  read_chunk_size_bytes-done size c h =
      let found = c.1 in let parsed = c.2 in ground (arith, found, parsed)
