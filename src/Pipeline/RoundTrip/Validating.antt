-- ===== src/Pipeline/RoundTrip/Validating.antt =====
-- `read_and_validate_chunks` of decrypt_file.rs when no call fails, on the rows of an encrypted file.
use arx_runa.Prelude.{
  ℕ, suc, ◌+◌, ◌^◌, ◌<◌, ◌≡◌, refl, ap, ◌∙◌, List, [], ◌∷◌, Option, Bytes, length, ok, arith, ◌==◌,
  if◌then◌else◌,
}
use native.Mathlib.Nat.{div-eq_of_lt-le}
use arx_runa.World.{Env, World, FilePath, done}
use arx_runa.Storage.Validation.{validate_size_padded_matches_chunk_size}
use arx_runa.Manifest.Types.{ChunkRecord}
use arx_runa.Manifest.Rows.{Configured, read_chunk_size_bytes-done}
use arx_runa.Pipeline.Pieces.{concat, ArePieces, ArePieces-count}
use arx_runa.Pipeline.Encrypt.Stored.{AreStored}
use arx_runa.Pipeline.Decrypt.{validate_rows, div_ceil, read_and_validate_chunks}
use arx_runa.Pipeline.Decrypt.Sorting.{sort_by_index-Consecutive, AreStored-Consecutive}

-- The number of rows that validation wants.
abbrev pub wanted : ℕ → ℕ → ℕ
wanted file_size size = if file_size == 0 then 0 else div_ceil file_size size

pub wanted-pieces :
    (size : ℕ) (ps : List Bytes)
    → 0 < size
    → ArePieces size ps
    → wanted (length (concat ps)) size ≡ length ps
unfolding concat
wanted-pieces size [] h a = refl
wanted-pieces size (p ∷ ps) h a =
    let (more, fits) = ArePieces-count size p ps a in
    let quotient : div_ceil (length (concat (p ∷ ps))) size ≡ suc (length ps) =
      div-eq_of_lt-le {k = suc (length ps)} size (omega arith) (omega arith) in
    ground (arith, more, quotient)

module _ (env : Env) (file_id file_key : Bytes) (dir : FilePath) (size bound : ℕ)
    (files : FilePath → Option Bytes) where
  pub AreStored-length :
      (i : ℕ) (ps : List Bytes) (rows : List ChunkRecord)
      → AreStored env file_id file_key dir size files bound i ps rows
      → length rows ≡ length ps
  AreStored-length i [] [] s = refl
  AreStored-length i (p ∷ ps) [] s = elim s [ ]
  AreStored-length i [] (r ∷ rows) s = elim s [ ]
  AreStored-length i (p ∷ ps) (r ∷ rows) s = ap suc (AreStored-length (i + 1) ps rows s.1)

  validate_rows-AreStored :
      (i : ℕ) (ps : List Bytes) (rows : List ChunkRecord)
      → AreStored env file_id file_key dir size files bound i ps rows
      → validate_rows size i rows ≡ ok tt
  unfolding validate_rows validate_size_padded_matches_chunk_size
  validate_rows-AreStored i [] [] s = refl
  validate_rows-AreStored i (p ∷ ps) [] s = elim s [ ]
  validate_rows-AreStored i [] (r ∷ rows) s = elim s [ ]
  validate_rows-AreStored i (p ∷ ps) (r ∷ rows) s =
      let rest = validate_rows-AreStored (i + 1) ps rows s.1 in
      let indexed = s.0.indexed in
      let padded = s.0.padded in
      let fits = s.0.index_fits in ground (arith, rest, indexed, padded, fits)

  module _ (calm : (n : ℕ) → env.fate n ≡ done) where
    pub read_and_validate_chunks-done :
        (ps : List Bytes) (rows : List ChunkRecord) (w : World)
        → Configured w.manifest size
        → 0 < size
        → size + 40 < 2 ^ 64
        → ArePieces size ps
        → length ps < 2 ^ 64
        → AreStored env file_id file_key dir size files bound 0 ps rows
        → read_and_validate_chunks env (length (concat ps)) rows w
          ≡ (ok (rows, size, size + 40), record w { calls = suc w.calls })
    unfolding read_and_validate_chunks
    read_and_validate_chunks-done ps rows w c positive fits a few s =
        let read = read_chunk_size_bytes-done env w size c (calm w.calls) in
        let sorted =
          sort_by_index-Consecutive 0 rows
            (AreStored-Consecutive env file_id file_key dir size bound 0 files ps rows s) in
        let valid = ap (validate_rows size 0) sorted ∙ validate_rows-AreStored 0 ps rows s in
        let count = wanted-pieces size ps positive a in
        let same = AreStored-length 0 ps rows s in ground (arith, read, sorted, valid, count, same)
