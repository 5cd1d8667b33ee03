-- ===== src/Pipeline/RoundTrip.antt =====
-- encrypt_file.rs and decrypt_file.rs when no call fails: an upload succeeds, and the download gives
-- the source back.
pub mod Writing
pub mod Reading
pub mod Validating
pub mod Streaming
use arx_runa.Prelude.{
  ℕ, zero, suc, ◌+◌, ◌^◌, ◌≤◌, ◌<◌, ◌≡◌, refl, ap, ◌∙◌, Bool, List, [], ◌∷◌, Bytes, length, ok,
  arith, Result-cases, inl, inr, codes, subst, sym,
}
use arx_runa.World.{Env, IsLawful, World, FilePath, Fate, join}
use arx_runa.Manifest.Types.{ChunkRecord}
use arx_runa.Manifest.Rows.{Configured}
use arx_runa.Pipeline.Pieces.{chunks}
use arx_runa.Prelude.{◌+◌, ltb, if◌then◌else◌}
use arx_runa.World.{done, ◌>>=◌}
use arx_runa.Storage.Validation.{usize_try_from, parse_chunk_size_bytes_range}
use arx_runa.Pipeline.Pieces.{concat, concat-chunks, chunks-ArePieces}
use arx_runa.Pipeline.Encrypt.{encrypt_bytes}
use arx_runa.Pipeline.Encrypt.Stored.{AreStored}
use arx_runa.Pipeline.Decrypt.{decrypt_file_to_memory, read_and_validate_chunks, memory_loop}
use arx_runa.Pipeline.Tampering.{
  encrypt_bytes-AreStored, encrypt_bytes-Extends, size_positive, whole-Remaining,
}
use arx_runa.Prelude.{take, false, some}
use arx_runa.Exif.{is_image_magic, strip_exif}
use arx_runa.Pipeline.Pieces.{pad}
use arx_runa.Pipeline.Encrypt.{encrypt_file}
use arx_runa.Pipeline.Files.{first_read, encrypt_file-AreStored}
use Streaming.{encrypt_file-done}
use Writing.{encrypt_bytes-done}
use Reading.{memory_loop-done}
use Validating.{read_and_validate_chunks-done}

module _ (env : Env) (lawful : IsLawful env) (calm : (n : ℕ) → env.fate n ≡ done) where
  module _ (file_id file_key : Bytes) (staging_dir : FilePath) (reports : Bool) (size : ℕ) where
    abbrev pending : FilePath
    pending = join staging_dir (codes "pending")

    pub AreStored-read :
        (bound : ℕ) (source : Bytes) (rows : List ChunkRecord) (w : World)
        → Configured w.manifest size
        → length source < 2 ^ 64
        → length (chunks size source) < 2 ^ 32
        → AreStored env file_id file_key pending size w.files bound 0 (chunks size source) rows
        → (w' : World) × (decrypt_file_to_memory env file_id file_key
              (length source)
              rows
              staging_dir
              reports
              w
            ≡ (ok source, w'))
    unfolding decrypt_file_to_memory
    AreStored-read bound source rows w c long few s =
        let positive = size_positive w size c in
        let fits : size + 40 < 2 ^ 64 = omega (arith, parse_chunk_size_bytes_range c.0 size c.2) in
        let joined = concat-chunks size source positive in
        let valid =
          ap (λ b. read_and_validate_chunks env (length b) rows w) (sym joined)
          ∙ read_and_validate_chunks-done env file_id file_key pending size bound w.files calm
              (chunks size source) rows w c positive fits (chunks-ArePieces size source positive)
              (omega (arith, few)) s in
        let (w', looped) =
          memory_loop-done env lawful calm file_id file_key staging_dir size bound (length source)
            reports (chunks size source) rows 0 0 (record w { calls = suc w.calls }) s
            (chunks-ArePieces size source positive) (whole-Remaining size source positive) fits in
        (w', ground (arith, valid, long, looped, joined))

    -- When no call fails, a source of less than 2^64 bytes and of fewer than 2^32 chunks that is
    -- encrypted to the `pending` directory of the staging directory is stored, and
    -- `decrypt_file_to_memory`, run on the rows in the world that this leaves, gives it back.
    pub decrypt-encrypt_bytes_round :
        (source : Bytes) (w : World)
        → Configured w.manifest size
        → length source < 2 ^ 64
        → length (chunks size source) < 2 ^ 32
        → (rows : List ChunkRecord) × (w₁ w₂ : World) × (encrypt_bytes env source file_id file_key
              pending reports w
            ≡ (ok rows, w₁))
          × (decrypt_file_to_memory env file_id file_key (length source) rows staging_dir reports w₁
              ≡ (ok source, w₂))
    decrypt-encrypt_bytes_round source w c long few =
        let (rows, w₁, done_writing) =
          encrypt_bytes-done env lawful calm file_id file_key pending reports size source w c few in
        let stored =
          encrypt_bytes-AreStored env lawful file_id file_key pending reports size source w w₁ rows
            c done_writing in
        let kept =
          (encrypt_bytes-Extends env lawful file_id file_key pending reports size source w w₁ rows c
            done_writing).manifest in
        let (w₂, done_reading) =
          AreStored-read w₁.draws source rows w₁ (subst (λ m. Configured m size) (sym kept) c) long
            few stored in
        (rows, w₁, w₂, done_writing, done_reading)

    -- When no call fails, however short the reads come, a file that is no image, of less than 2^64
    -- bytes and of fewer than 2^32 chunks, is stored by `encrypt_file` in the `pending` directory, and
    -- `decrypt_file_to_memory` gives its content back.
    pub decrypt-encrypt_file_round :
        (source : FilePath) (bytes : Bytes) (w : World)
        → Configured w.manifest size
        → w.files source ≡ some bytes
        → ((n : ℕ) → n ≤ 8 → is_image_magic (pad 8 (take n bytes)) ≡ false)
        → length bytes < 2 ^ 64
        → length (chunks size bytes) < 2 ^ 32
        → (rows : List ChunkRecord) × (w₁ w₂ : World) × (encrypt_file env source file_id file_key
              pending reports w
            ≡ (ok rows, w₁))
          × (decrypt_file_to_memory env file_id file_key (length bytes) rows staging_dir reports w₁
              ≡ (ok bytes, w₂))
    decrypt-encrypt_file_round source bytes w c e plain long few =
        let (rows, w₁, done_writing) =
          encrypt_file-done env lawful calm file_id file_key pending reports size source bytes w c e
            plain few in
        let (few_read, within, positive, stored, kept) =
          encrypt_file-AreStored env lawful file_id file_key pending source bytes reports size w w₁
            rows c e done_writing in
        let same =
          ap (λ image. if image then strip_exif bytes else bytes)
            (plain (first_read env w bytes) few_read) in
        let (w₂, done_reading) =
          AreStored-read w₁.draws bytes rows w₁ (subst (λ m. Configured m size) (sym kept) c) long
            few
            (subst
              (λ p.
                AreStored env file_id file_key pending size w₁.files w₁.draws 0 (chunks size p)
                  rows)
              same stored) in
        (rows, w₁, w₂, done_writing, done_reading)
