-- ===== src/Pipeline/Range/Integrity.antt =====
-- `decrypt_file_range_to_memory` of decrypt_file.rs on an encrypted file.
use arx_runa.Prelude.{
  ℕ, suc, ◌+◌, ◌-◌, ◌*◌, ◌/◌, ◌≤◌, ◌<◌, ◌≡◌, ◌⊎◌, inl, inr, sym, ap, ◌∙◌, Bool, List, [], ◌∷◌,
  Bytes, arith, length, take, drop, slice, ok, Result-cases,
}
use native.Mathlib.Nat.{le-div_iff_mul-le, div-mul-le_self, lt-div-mul-add}
use arx_runa.World.{Env, IsLawful, World, FilePath}
use arx_runa.Manifest.Types.{ChunkRecord}
use arx_runa.Manifest.Rows.{Configured}
use arx_runa.Pipeline.Pieces.{concat, chunks, concat-chunks, chunks-ArePieces}
use arx_runa.Pipeline.Encrypt.{encrypt_bytes}
use arx_runa.Pipeline.Decrypt.{read_and_validate_chunks}
use arx_runa.Pipeline.Decrypt.Integrity.{HashCollision}
use arx_runa.Pipeline.Decrypt.Sorting.{
  read_and_validate_chunks-ok, sort_by_index-Consecutive, AreStored-Consecutive,
}
use arx_runa.Pipeline.RoundTrip.Validating.{AreStored-length}
use arx_runa.Pipeline.Tampering.{size_positive, encrypt_bytes-AreStored}
use arx_runa.Pipeline.Range.{range_loop, decrypt_file_range_to_memory}
use arx_runa.Pipeline.Range.Covering.{Fits, range_loop-window, skip}
use arx_runa.Pipeline.Range.Slicing.{window, window_whole}

pub whole-Fits :
    (size file_size count : ℕ) (ps : List Bytes)
    → length ps ≡ count
    → length (concat ps) ≡ file_size
    → Fits size file_size count 0 ps
whole-Fits size file_size count [] n e = tt
whole-Fits size file_size count (p ∷ ps) n e = (omega arith, omega arith)

-- The last chunk that is read holds the end of the range.
pub reaches :
    (range_start range_end size : ℕ)
    → range_start ≤ range_end
    → 0 < size
    → suc range_end ≤ (0 + range_start / size + (range_end / size - range_start / size + 1)) * size
reaches range_start range_end size h positive =
    let last = lt-div-mul-add {a = range_end} {b = size} positive in
    let below = div-mul-le_self range_start size in
    let mono =
      (le-div_iff_mul-le {x = range_start / size} {y = range_end} positive).1
        (omega (arith, below)) in
    let count : 0 + range_start / size + (range_end / size - range_start / size + 1)
        ≡ range_end / size + 1 =
      omega (arith, mono) in
    rw count (omega (arith, last))

module _ (env : Env) (lawful : IsLawful env) (file_id file_key : Bytes) where
  -- The parts of a run that succeeds.
  decrypt_file_range-ok :
      (range_start range_end file_size : ℕ) (rows : List ChunkRecord) (staging_dir : FilePath)
      (w w' : World) (out : Bytes)
      → decrypt_file_range_to_memory range_start range_end env file_id file_key file_size rows
          staging_dir w
        ≡ (ok out, w')
      → (v : List ChunkRecord × ℕ × ℕ) × (w₁ : World) × (range_start ≤ range_end)
        × (range_end < file_size)
        × (read_and_validate_chunks env file_size rows w ≡ (ok v, w₁))
        × (range_loop range_start range_end env file_id file_key staging_dir v.2 file_size v.1
              (length v.0)
              (take (range_end / v.1 - range_start / v.1 + 1) (drop (range_start / v.1) v.0))
              w₁
            ≡ (ok out, w'))
  unfolding decrypt_file_range_to_memory
  decrypt_file_range-ok range_start range_end file_size rows staging_dir w w' out h =
      let read = read_and_validate_chunks env file_size rows w in
      elim (Result-cases read.0) [
        | inr (e, k) ↦ absurd (ground (arith, k))
        | inl (v, k) ↦ (
          v,
          read.1,
          ground (arith, k),
          ground (arith, k),
          ap (λ x. (x, read.1)) k,
          ground (arith, k),
        )
      ]

  -- Take the rows of a successful `encrypt_bytes`, and any later world with the same chunk size. If
  -- `decrypt_file_range_to_memory` succeeds there, the range lies in the source, and what it gives is
  -- that part of the source, both ends included, or BLAKE3 has a collision.
  pub decrypt_range-encrypt_bytes_integrity :
      (dir staging_dir : FilePath) (reports : Bool) (size range_start range_end : ℕ)
      (source out : Bytes) (rows : List ChunkRecord) (w₀ w₁ w w' : World)
      → Configured w₀.manifest size
      → encrypt_bytes env source file_id file_key dir reports w₀ ≡ (ok rows, w₁)
      → Configured w.manifest size
      → decrypt_file_range_to_memory range_start range_end env file_id file_key
          (length source)
          rows
          staging_dir
          w
        ≡ (ok out, w')
      → (range_start ≤ range_end)
        × (range_end < length source)
        × ((out ≡ slice range_start (suc range_end) source) ⊎ HashCollision env.hash)
  decrypt_range-encrypt_bytes_integrity dir staging_dir reports size range_start range_end source
        out rows w₀ w₁ w w' c e c' h =
      let positive = size_positive w size c' in
      let s =
        encrypt_bytes-AreStored env lawful file_id file_key dir reports size source w₀ w₁ rows c
          e in
      let (v, w₂, ordered, inside, valid, looped) =
        decrypt_file_range-ok range_start range_end (length source) rows staging_dir w w' out h in
      let (sorted, sized) =
        read_and_validate_chunks-ok env (length source) size rows w w₂ v c' valid in
      let same =
        sorted
        ∙ sort_by_index-Consecutive 0 rows (
            AreStored-Consecutive env file_id file_key dir size w₁.draws 0 w₁.files
              (chunks size source) rows s) in
      let joined = concat-chunks size source positive in
      let count = sym (
        AreStored-length env file_id file_key dir size w₁.draws w₁.files 0 (chunks size source) rows
          s) in
      let first = range_start / size in
      let start : 0 * size ≡ 0 = omega arith in
      let n = range_end / size - range_start / size + 1 in
      let (s', a', f', skipped) =
        skip env lawful file_id file_key dir w₁.files w₁.draws size staging_dir v.2 (length source)
          (length rows) range_start range_end first (chunks size source) rows 0 s
          (chunks-ArePieces size source positive)
          (whole-Fits size (length source) (length rows) (chunks size source) count
            (ap length joined))
          (omega (arith, div-mul-le_self range_start size)) in
      (
        ordered,
        inside,
        elim (range_loop-window env lawful file_id file_key dir w₁.files w₁.draws size staging_dir
            v.2 (length source) (length rows) range_start range_end
            (drop first (chunks size source)) (drop first rows) (0 + first) n w₂ w' out positive s'
            a' f' (reaches range_start range_end size ordered positive)
            (cc (looped, same, sized))) [
              | inr collision ↦ inr collision
              | inl given ↦ inl (
                  given
                  ∙ skipped
                  ∙ ap (window range_start (suc range_end) (0 * size)) joined
                  ∙ ap (λ (x : ℕ). window range_start (suc range_end) x source) start
                  ∙ window_whole range_start (suc range_end) source)
            ],
      )
