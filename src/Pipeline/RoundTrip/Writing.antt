-- ===== src/Pipeline/RoundTrip/Writing.antt =====
-- encrypt_file.rs when no call fails.
use arx_runa.Prelude.{
  ℕ, suc, ◌+◌, ◌^◌, ◌≤◌, ◌<◌, ◌≡◌, refl, ap, Bool, List, [], ◌∷◌, Bytes, length, ok, arith,
  Result-cases, inl, inr,
}
use arx_runa.World.{Env, IsLawful, World, FilePath, done}
use arx_runa.World.Files.{clear_staged}
use arx_runa.Crypto.Cipher.{max_plaintext}
use arx_runa.Crypto.Chunk.{encrypt_chunk_total}
use arx_runa.Storage.Validation.{parse_chunk_size_bytes_range}
use arx_runa.Manifest.Types.{ChunkRecord}
use arx_runa.Manifest.Rows.{Configured, read_chunk_size_bytes-done}
use arx_runa.Pipeline.Pieces.{
  chunks, pad, length-pad, ArePieces, chunks-ArePieces, first_length, ArePieces-rest,
}
use arx_runa.Pipeline.Encrypt.{stage_chunk, encrypt_pieces, encrypt_bytes}

module _ (env : Env) (lawful : IsLawful env) (calm : (n : ℕ) → env.fate n ≡ done)
    (file_id file_key : Bytes) (dir : FilePath) (reports : Bool) (size : ℕ) where
  module _ (total : ℕ) where
    pub stage_chunk-done :
        (plaintext : Bytes) (n i so_far : ℕ) (w : World)
        → length plaintext ≤ max_plaintext
        → (row : ChunkRecord) × (w' : World) × (stage_chunk env file_id file_key dir reports size
              total plaintext n i so_far w
            ≡ (ok row, w'))
    unfolding stage_chunk
    stage_chunk-done plaintext n i so_far w h =
        let (blob, sealed) =
          encrypt_chunk_total env.cipher lawful.aead file_key file_id i (env.nonce_at w.draws)
            plaintext h in
        let result =
          stage_chunk env file_id file_key dir reports size total plaintext n i so_far w in
        let settled = calm w.calls in
        elim (Result-cases result.0) [
          | inl (row, k) ↦ (row, result.1, ap (λ r. (r, result.1)) k)
          | inr (e, k) ↦ absurd (ground (arith, sealed, settled, k))
        ]

    encrypt_pieces-done :
        (ps : List Bytes) (i so_far : ℕ) (w : World)
        → size ≤ max_plaintext
        → ArePieces size ps
        → i + length ps < 2 ^ 32
        → (rows : List ChunkRecord) × (w' : World) × (encrypt_pieces env file_id file_key dir
              reports size total ps i so_far w
            ≡ (ok rows, w'))
    unfolding encrypt_pieces
    encrypt_pieces-done [] i so_far w fits a few = ([], w, refl)
    encrypt_pieces-done (p ∷ ps) i so_far w fits a few =
        let (row, w₁, staged) =
          stage_chunk-done (pad size p) (length p) i so_far w
            (omega (arith, length-pad size p (first_length size p ps a))) in
        let (rows, w₂, looped) =
          encrypt_pieces-done ps (i + 1) (so_far + length p) w₁ fits (ArePieces-rest size p ps a)
            (omega arith) in
        (row ∷ rows, w₂, ground (arith, staged, looped))

  -- When no call fails, `encrypt_bytes` succeeds on a source of fewer than 2^32 chunks.
  pub encrypt_bytes-done :
      (source : Bytes) (w : World)
      → Configured w.manifest size
      → length (chunks size source) < 2 ^ 32
      → (rows : List ChunkRecord) × (w' : World) × (encrypt_bytes env source file_id file_key dir
            reports w
          ≡ (ok rows, w'))
  unfolding encrypt_bytes clear_staged
  encrypt_bytes-done [] w c few = ([], w, refl)
  encrypt_bytes-done (b ∷ bs) w c few =
      let range = parse_chunk_size_bytes_range c.0 size c.2 in
      let read = read_chunk_size_bytes-done env w size c (calm w.calls) in
      let (rows, w', looped) =
        encrypt_pieces-done (length (b ∷ bs)) (chunks size (b ∷ bs)) 0 0
          (record w { calls = suc w.calls; staged = [] }) (omega (arith, range))
          (chunks-ArePieces size (b ∷ bs) (omega (arith, range))) (omega (arith, few)) in
      (rows, w', ground (arith, read, looped, range))
