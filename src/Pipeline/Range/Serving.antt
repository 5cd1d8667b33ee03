-- ===== src/Pipeline/Range/Serving.antt =====
-- `decrypt_file_range_to_memory` of decrypt_file.rs when no call fails, on blobs that are in place.
use arx_runa.Prelude.{
  ℕ, zero, suc, ◌+◌, ◌-◌, ◌*◌, ◌/◌, ◌^◌, ◌≤◌, ◌<◌, ◌≡◌, refl, sym, ap, ◌∙◌, List, [], ◌∷◌, Bytes,
  arith, length, take, drop, slice, ok, Result-cases, inl, inr, codes,
}
use native.Mathlib.Nat.{div-mul-le_self}
use arx_runa.World.{Env, IsLawful, World, FilePath, done, join}
use arx_runa.Storage.Validation.{parse_chunk_size_bytes_range}
use arx_runa.Manifest.Types.{ChunkRecord}
use arx_runa.Manifest.Rows.{Configured}
use arx_runa.Pipeline.Pieces.{
  pad, length-pad, concat, ArePieces, ArePieces-rest, first_length, chunks, concat-chunks,
  chunks-ArePieces,
}
use arx_runa.Pipeline.Encrypt.Stored.{IsStored, AreStored}
use arx_runa.Pipeline.Decrypt.{read_and_validate_chunks}
use arx_runa.Pipeline.Decrypt.Integrity.{take-pad}
use arx_runa.Pipeline.RoundTrip.Reading.{open_chunk-done}
use arx_runa.Pipeline.RoundTrip.Validating.{AreStored-length, read_and_validate_chunks-done}
use arx_runa.Pipeline.Tampering.{size_positive}
use arx_runa.Pipeline.Range.{
  real_bytes, overlap, range_chunk, range_loop, decrypt_file_range_to_memory,
}
use arx_runa.Pipeline.Range.Covering.{
  overlap-window, real_bytes-piece, Fits, Fits-rest, first_positive, from_pieces-cons, skip,
}
use arx_runa.Pipeline.Range.Integrity.{whole-Fits, reaches}
use arx_runa.Pipeline.Range.Slicing.{window, window_empty, window_whole}

overlap-done :
    (from last offset n : ℕ) (plaintext : Bytes)
    → 0 < n
    → n ≤ length plaintext
    → overlap from last offset n plaintext ≡ ok (window from (suc last) offset (take n plaintext))
overlap-done from last offset n plaintext positive fits =
    elim (Result-cases (overlap from last offset n plaintext)) [
      | inl (out, k) ↦ k ∙ ap ok (overlap-window from last offset n plaintext out positive fits k)
      | inr (e, k) ↦ absurd (ground arith)
    ]

module _ (env : Env) (lawful : IsLawful env) (calm : (n : ℕ) → env.fate n ≡ done)
    (file_id file_key : Bytes) (staging_dir : FilePath) where
  module _ (bound size file_size count range_start range_end : ℕ) (fits : size + 40 < 2 ^ 64) where
    abbrev pending : FilePath
    pending = join staging_dir (codes "pending")

    abbrev Stored : World → ℕ → List Bytes → List ChunkRecord → Type 0
    Stored w i ps rows = AreStored env file_id file_key pending size w.files bound i ps rows

    abbrev part : ℕ → Bytes → Bytes
    part i p = window range_start (suc range_end) (i * size) p

    real_bytes-done :
        (i : ℕ) (p : Bytes) (ps : List Bytes) (r : ChunkRecord) (w : World)
        → r.chunk_index ≡ i
        → ArePieces size (p ∷ ps)
        → Fits size file_size count i (p ∷ ps)
        → real_bytes file_size size count r ≡ ok (length p)
    real_bytes-done i p ps r w indexed a f =
        elim (Result-cases (real_bytes file_size size count r)) [
          | inl (n, k) ↦
              k
              ∙ ap ok (
                  real_bytes-piece env lawful file_id file_key pending w.files bound size
                    staging_dir 0 file_size count i n p ps r indexed a f.0 f.1 k)
          | inr (e, k) ↦
              let product : r.chunk_index * size ≡ i * size = ap (λ (x : ℕ). x * size) indexed in
              absurd (ground (arith, f.1, product))
        ]

    range_chunk-done :
        (i : ℕ) (p : Bytes) (ps : List Bytes) (r : ChunkRecord) (w : World)
        → IsStored env file_id file_key pending size w.files bound i p r
        → 0 < size
        → ArePieces size (p ∷ ps)
        → Fits size file_size count i (p ∷ ps)
        → range_chunk range_start range_end env file_id file_key staging_dir
            (size + 40)
            file_size
            size
            count
            r
            w
          ≡ (ok (part i p), record w { calls = suc (suc (suc (suc w.calls))) })
    unfolding range_chunk
    range_chunk-done i p ps r w s positive a f =
        let short = first_length size p ps a in
        let opened =
          open_chunk-done env lawful calm file_id file_key staging_dir size bound i p r w s short
            fits in
        let real = real_bytes-done i p ps r w s.indexed a f in
        let some_left =
          first_positive env lawful file_id file_key pending w.files bound size staging_dir 0
            file_size count p ps positive a in
        let cut =
          overlap-done range_start range_end (r.chunk_index * size) (length p) (pad size p)
            some_left (omega (arith, length-pad size p short))
          ∙ ap
              (λ (x : ℕ).
                ok (window range_start (suc range_end) (x * size) (take (length p) (pad size p))))
              s.indexed
          ∙ ap (λ b. ok (part i b))
              (take-pad env lawful file_id file_key pending w.files bound size (length p) p refl) in
        ground (arith, opened, real, cut)

    abbrev parts : ℕ → List Bytes → Bytes
    parts i ps = window range_start (suc range_end) (i * size) (concat ps)

    range_loop-done :
        (ps : List Bytes) (rows : List ChunkRecord) (i n : ℕ) (w : World)
        → 0 < size
        → Stored w i ps rows
        → ArePieces size ps
        → Fits size file_size count i ps
        → suc range_end ≤ (i + n) * size
        → (w' : World) × (range_loop range_start range_end env file_id file_key staging_dir
              (size + 40)
              file_size
              size
              count
              (take n rows)
              w
            ≡ (ok (parts i ps), w'))
    unfolding range_loop
    range_loop-done ps rows i zero w positive s a f reach = (
      w,
      ap (λ b. (ok b, w))
          (sym (window_empty range_start (suc range_end) (i * size) (concat ps) (omega arith))),
    )
    range_loop-done [] [] i (suc n) w positive s a f reach = (
      w,
      unfold concat in
          ap (λ b. (ok b, w))
            (sym (window_empty range_start (suc range_end) (i * size) [] (omega arith))),
    )
    range_loop-done [] (r ∷ rows) i (suc n) w positive s a f reach = elim s [ ]
    range_loop-done (p ∷ ps) [] i (suc n) w positive s a f reach = elim s [ ]
    range_loop-done (p ∷ ps) (r ∷ rows) i (suc n) w positive s a f reach =
        let first = range_chunk-done i p ps r w s.0 positive a f in
        let f' =
          Fits-rest env lawful file_id file_key pending w.files bound size staging_dir 0 file_size
            count i p ps a f in
        let (w', looped) =
          range_loop-done ps rows (i + 1) n (record w { calls = suc (suc (suc (suc w.calls))) })
            positive s.1 (ArePieces-rest size p ps a) f' (omega arith) in
        let joined =
          from_pieces-cons env lawful file_id file_key pending w.files bound size staging_dir 0
            file_size count range_start range_end i p ps a in
        (w', ground (arith, first, looped, joined))

  -- When no call fails, a range of a source of less than 2^64 bytes and fewer than 2^32 chunks, both
  -- ends included, is served from its blobs in `pending`.
  pub decrypt_range-AreStored :
      (bound size range_start range_end : ℕ) (source : Bytes) (rows : List ChunkRecord) (w : World)
      → Configured w.manifest size
      → range_start ≤ range_end
      → range_end < length source
      → length source < 2 ^ 64
      → length (chunks size source) < 2 ^ 32
      → AreStored env file_id file_key
          (join staging_dir (codes "pending"))
          size
          w.files
          bound
          0
          (chunks size source)
          rows
      → (w' : World) × (decrypt_file_range_to_memory range_start range_end env file_id file_key
            (length source)
            rows
            staging_dir
            w
          ≡ (ok (slice range_start (suc range_end) source), w'))
  unfolding decrypt_file_range_to_memory
  decrypt_range-AreStored bound size range_start range_end source rows w c ordered inside long few
        s =
      let positive = size_positive w size c in
      let fits : size + 40 < 2 ^ 64 = omega (arith, parse_chunk_size_bytes_range c.0 size c.2) in
      let dir = join staging_dir (codes "pending") in
      let ps = chunks size source in
      let joined = concat-chunks size source positive in
      let pieces = chunks-ArePieces size source positive in
      let valid =
        ap (λ b. read_and_validate_chunks env (length b) rows w) (sym joined)
        ∙ read_and_validate_chunks-done env file_id file_key dir size bound w.files calm ps rows w c
            positive fits pieces (omega (arith, few)) s in
      let count = sym (AreStored-length env file_id file_key dir size bound w.files 0 ps rows s) in
      let first = range_start / size in
      let n = range_end / size - range_start / size + 1 in
      let (s', a', f', skipped) =
        skip env lawful file_id file_key dir w.files bound size staging_dir 0 (length source)
          (length rows) range_start range_end first ps rows 0 s pieces
          (whole-Fits size (length source) (length rows) ps count (ap length joined))
          (omega (arith, div-mul-le_self range_start size)) in
      let (w', looped) =
        range_loop-done bound size (length source) (length rows) range_start range_end fits
          (drop first ps) (drop first rows) (0 + first) n (record w { calls = suc w.calls })
          positive s' a' f' (reaches range_start range_end size ordered positive) in
      let start : 0 * size ≡ 0 = omega arith in
      let whole =
        skipped
        ∙ ap (window range_start (suc range_end) (0 * size)) joined
        ∙ ap (λ (x : ℕ). window range_start (suc range_end) x source) start
        ∙ window_whole range_start (suc range_end) source in
      (w', ground (arith, valid, looped, whole, ordered, inside, long))
