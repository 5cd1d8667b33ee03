-- ===== src/Pipeline/Tampering.antt =====
-- encrypt_file.rs and decrypt_file.rs together: what a download can give after an upload, whatever
-- happened to the staging directory in between.
use arx_runa.Prelude.{
  ℕ, Option, ◌<◌, ◌≡◌, ◌⊎◌, inl, inr, ap, ◌∙◌, Bool, List, [], ◌∷◌, Bytes, length, ok, arith,
  Result-cases,
}
use arx_runa.World.{Env, IsLawful, World, FilePath}
use arx_runa.World.Files.{clear_staged}
use arx_runa.Storage.Validation.{parse_chunk_size_bytes_range}
use arx_runa.Manifest.Types.{ChunkRecord}
use arx_runa.Manifest.Rows.{Configured, read_chunk_size_bytes, read_chunk_size_bytes-ok}
use arx_runa.Pipeline.Pieces.{
  chunks, chunks-nil, chunks-cons, concat, concat-chunks, chunks-ArePieces,
}
use arx_runa.Pipeline.Encrypt.{encrypt_bytes, encrypt_pieces}
use arx_runa.Pipeline.Encrypt.Stored.{AreStored, Extends, Extends-refl, Extends-from}
use arx_runa.Pipeline.Encrypt.Loops.{encrypt_pieces-Stores}
use arx_runa.Pipeline.Decrypt.{decrypt_file_to_memory, read_and_validate_chunks, memory_loop}
use arx_runa.Pipeline.Decrypt.Sorting.{
  read_and_validate_chunks-ok, sort_by_index-Consecutive, AreStored-Consecutive,
}
use arx_runa.Pipeline.Decrypt.Integrity.{HashCollision, memory_loop-concat, Remaining}

pub size_positive : (w : World) (size : ℕ) → Configured w.manifest size → 0 < size
size_positive w size c = omega (arith, parse_chunk_size_bytes_range c.0 size c.2)

module _ (env : Env) (file_id file_key : Bytes) (dir : FilePath) (reports : Bool) (size : ℕ) where
  encrypt_bytes_nil :
      (w w' : World) (rows : List ChunkRecord)
      → encrypt_bytes env [] file_id file_key dir reports w ≡ (ok rows, w')
      → rows ≡ []
  unfolding encrypt_bytes
  encrypt_bytes_nil w w' rows h = cc

  -- A successful `encrypt_bytes` is a successful run of its loop, from the same files and draws.
  encrypt_bytes-ok :
      (b : ℕ) (bs : Bytes) (w w' : World) (rows : List ChunkRecord)
      → Configured w.manifest size
      → encrypt_bytes env (b ∷ bs) file_id file_key dir reports w ≡ (ok rows, w')
      → (w₁ : World) × (w₁.files ≡ w.files)
        × (w₁.draws ≡ w.draws)
        × (w₁.manifest ≡ w.manifest)
        × (encrypt_pieces env file_id file_key dir reports size
              (length (b ∷ bs))
              (chunks size (b ∷ bs))
              0
              0
              w₁
            ≡ (ok rows, w'))
  unfolding encrypt_bytes clear_staged
  encrypt_bytes-ok b bs w w' rows c h =
      let read = read_chunk_size_bytes env w in
      elim (Result-cases read.0) [
        | inr (e, k) ↦ absurd (ground (arith, k))
        | inl (found, k) ↦
            let (same, world) = read_chunk_size_bytes-ok env w read.1 found size c (cc k) in
            (
              record read.1 { staged = [] },
              ap (λ (x : World). x.files) world,
              ap (λ (x : World). x.draws) world,
              ap (λ (x : World). x.manifest) world,
              ground (arith, k, same),
            )
      ]

pub whole-Remaining :
    (size : ℕ) (source : Bytes) → 0 < size → Remaining (length source) size 0 (chunks size source)
whole-Remaining size [] h = rw (chunks-nil size) tt
whole-Remaining size (b ∷ bs) h = rw (chunks-cons size b bs h) (
    omega (
      arith,
      ap length (ap concat (chunks-cons size b bs h)),
      ap length (concat-chunks size (b ∷ bs) h),
    ))

module _ (env : Env) (lawful : IsLawful env) (file_id file_key : Bytes) where
  -- Where `encrypt_bytes` succeeds, its rows stand for the pieces of the source.
  pub encrypt_bytes-AreStored :
      (dir : FilePath) (reports : Bool) (size : ℕ) (source : Bytes) (w w' : World)
      (rows : List ChunkRecord)
      → Configured w.manifest size
      → encrypt_bytes env source file_id file_key dir reports w ≡ (ok rows, w')
      → AreStored env file_id file_key dir size w'.files w'.draws 0 (chunks size source) rows
  encrypt_bytes-AreStored dir reports size [] w w' rows c h =
      rw (encrypt_bytes_nil env file_id file_key dir reports size w w' rows h, chunks-nil size) tt
  encrypt_bytes-AreStored dir reports size (b ∷ bs) w w' rows c h =
      let (w₁, files, draws, manifest, looped) =
        encrypt_bytes-ok env file_id file_key dir reports size b bs w w' rows c h in
      (encrypt_pieces-Stores env lawful file_id file_key dir reports size (length (b ∷ bs))
        (chunks size (b ∷ bs)) 0 0 w₁ w' rows (omega arith) looped).0

  -- A successful `encrypt_bytes` leaves the manifest as it was, and every file but the blobs that it
  -- names by UUIDs drawn meanwhile.
  pub encrypt_bytes-Extends :
      (dir : FilePath) (reports : Bool) (size : ℕ) (source : Bytes) (w w' : World)
      (rows : List ChunkRecord)
      → Configured w.manifest size
      → encrypt_bytes env source file_id file_key dir reports w ≡ (ok rows, w')
      → Extends env dir w w'
  encrypt_bytes-Extends dir reports size [] w w' rows c h =
      unfold encrypt_bytes in Extends-refl env dir w w' (cc)
  encrypt_bytes-Extends dir reports size (b ∷ bs) w w' rows c h =
      let (w₁, files, draws, manifest, looped) =
        encrypt_bytes-ok env file_id file_key dir reports size b bs w w' rows c h in
      Extends-from env dir files draws manifest
        (encrypt_pieces-Stores env lawful file_id file_key dir reports size (length (b ∷ bs))
          (chunks size (b ∷ bs)) 0 0 w₁ w' rows (omega arith) looped).1

  module _ (staging_dir : FilePath) (reports : Bool) where
    -- Where `decrypt_file_to_memory` succeeds, its loop ran over the sorted rows.
    decrypt_file_to_memory-ok :
        (file_size size : ℕ) (rows : List ChunkRecord) (w w' : World) (out : Bytes)
        → Configured w.manifest size
        → decrypt_file_to_memory env file_id file_key file_size rows staging_dir reports w
          ≡ (ok out, w')
        → (v : List ChunkRecord × ℕ × ℕ) × (w₁ : World) × (read_and_validate_chunks env file_size
              rows w
            ≡ (ok v, w₁))
          × (memory_loop env file_id file_key staging_dir v.2 file_size v.1 reports v.0 0 w₁
              ≡ (ok out, w'))
    unfolding decrypt_file_to_memory
    decrypt_file_to_memory-ok file_size size rows w w' out c h =
        let read = read_and_validate_chunks env file_size rows w in
        elim (Result-cases read.0) [
          | inr (e, k) ↦ absurd (ground (arith, k))
          | inl (v, k) ↦ (v, read.1, cc k, ground (arith, k))
        ]

  -- The rows that stand for a source decrypt to it, or the hash has a collision.
  pub AreStored-source :
      (dir staging_dir : FilePath) (reports : Bool) (size bound : ℕ)
      (files : FilePath → Option Bytes) (source : Bytes) (rows : List ChunkRecord) (w w' : World)
      (out : Bytes)
      → Configured w.manifest size
      → AreStored env file_id file_key dir size files bound 0 (chunks size source) rows
      → decrypt_file_to_memory env file_id file_key (length source) rows staging_dir reports w
        ≡ (ok out, w')
      → (out ≡ source) ⊎ HashCollision env.hash
  AreStored-source dir staging_dir reports size bound files source rows w w' out c s h =
      let positive = size_positive w size c in
      let (v, w₁, valid, looped) =
        decrypt_file_to_memory-ok staging_dir reports (length source) size rows w w' out c h in
      let (sorted, sized) =
        read_and_validate_chunks-ok env (length source) size rows w w₁ v c valid in
      let ordered = sort_by_index-Consecutive 0 rows (
        AreStored-Consecutive env file_id file_key dir size bound 0 files (chunks size source) rows
          s) in
      let joined = concat-chunks size source positive in
      elim (memory_loop-concat env lawful file_id file_key dir files bound size staging_dir v.2
        (length source) reports (chunks size source) rows 0 0 w₁ w' out s
        (chunks-ArePieces size source positive) (whole-Remaining size source positive)
        (cc (looped, sorted, sized, ordered))) [
          | inr collision ↦ inr collision
          | inl pieces ↦ inl (pieces ∙ joined)
        ]

  -- Take the rows of a successful `encrypt_bytes`, and any later world with the same chunk size: its
  -- files may have been deleted, exchanged or altered, and its calls may fail in any way. If
  -- `decrypt_file_to_memory` succeeds there, it gives the source, or BLAKE3 has a collision.
  pub decrypt-encrypt_bytes_integrity :
      (dir staging_dir : FilePath) (reports reports' : Bool) (size : ℕ) (source out : Bytes)
      (rows : List ChunkRecord) (w₀ w₁ w w' : World)
      → Configured w₀.manifest size
      → encrypt_bytes env source file_id file_key dir reports w₀ ≡ (ok rows, w₁)
      → Configured w.manifest size
      → decrypt_file_to_memory env file_id file_key (length source) rows staging_dir reports' w
        ≡ (ok out, w')
      → (out ≡ source) ⊎ HashCollision env.hash
  decrypt-encrypt_bytes_integrity dir staging_dir reports reports' size source out rows w₀ w₁ w w' c
        e c' d =
      AreStored-source dir staging_dir reports' size w₁.draws w₁.files source rows w w' out c'
        (encrypt_bytes-AreStored dir reports size source w₀ w₁ rows c e) d
