-- ===== src/Pipeline/RoundTrip/Streaming.antt =====
-- `encrypt_file` of encrypt_file.rs when no call fails, however short the reads come.
use arx_runa.Prelude.{
  ℕ, zero, suc, ◌+◌, ◌-◌, ◌^◌, ◌≤◌, ◌<◌, ◌≡◌, refl, ap, ◌∙◌, Bool, false, List, [], ◌∷◌, ◌++◌, some,
  Bytes, length, take, drop, ok, arith, Bool-cases, inl, inr, ltb, ◌==◌, length-take, subst, sym,
}
use arx_runa.World.{Env, IsLawful, World, FilePath, done}
use arx_runa.World.Files.{clear_staged, read_file, attempt}
use arx_runa.World.Inversion.{on_error-done}
use arx_runa.Crypto.Cipher.{max_plaintext}
use arx_runa.Storage.Validation.{parse_chunk_size_bytes_range}
use arx_runa.Manifest.Types.{ChunkRecord}
use arx_runa.Manifest.Rows.{Configured, read_chunk_size_bytes-done}
use arx_runa.Exif.{is_image_magic}
use arx_runa.Pipeline.Pieces.{chunks, pad, length-pad, chunks_step}
use arx_runa.Pipeline.Encrypt.{
  cleanup, encrypt_stream, encrypt_file_inner, encrypt_file, read_some, read_count, read_loop,
  read_chunk_plaintext, read_magic_bytes,
}
use arx_runa.Pipeline.Encrypt.Reading.{read_chunk_plaintext-ok, read_some-ok}
use arx_runa.Pipeline.RoundTrip.Writing.{stage_chunk-done}

module _ (env : Env) (calm : (n : ℕ) → env.fate n ≡ done) where
  read_some-done :
      (space : ℕ) (rest : Bytes) (w : World)
      → (g : Bytes × Bytes) × (w' : World) × (read_some env space rest w ≡ (ok g, w'))
  unfolding read_some attempt
  read_some-done space rest w =
      let settled = calm w.calls in
      let n = read_count space (length rest) (env.short w.calls) in
      ((take n rest, drop n rest), record w { calls = suc w.calls }, ground (arith, settled))

  read_loop-done :
      (f space : ℕ) (rest : Bytes) (w : World)
      → (g : Bytes × Bytes) × (w' : World) × (read_loop env f space rest w ≡ (ok g, w'))
  unfolding read_loop
  read_loop-done zero space rest w = (_, _, refl)
  read_loop-done (suc f) space rest w =
      let (first, w₁, read) = read_some-done space rest w in
      elim (Bool-cases (length first.0 == 0)) [
        | inl stop ↦ (([], rest), w₁, ground (arith, read, stop))
        | inr more ↦
            let (others, w₂, looped) = read_loop-done f (space - length first.0) first.1 w₁ in
            ((first.0 ++ others.0, others.1), w₂, ground (arith, read, more, looped))
      ]

  read_chunk_plaintext-done :
      (space : ℕ) (rest : Bytes) (w : World)
      → (w' : World) × (read_chunk_plaintext env space rest w
          ≡ (ok (take space rest, drop space rest), w'))
  read_chunk_plaintext-done space rest w =
      let (g, w', looped) = read_loop-done space space rest w in
      let read : read_chunk_plaintext env space rest w ≡ (ok g, w') =
        unfold read_chunk_plaintext in looped in
      let (same, world) = read_chunk_plaintext-ok env space rest w w' g read in
      (w', read ∙ ap (λ x. (ok x, w')) same)

module _ (env : Env) (lawful : IsLawful env) (calm : (n : ℕ) → env.fate n ≡ done)
    (file_id file_key : Bytes) (dir : FilePath) (reports : Bool) (size : ℕ) where
  module _ (total : ℕ) where
    encrypt_stream-done :
        (f : ℕ) (source : Bytes) (i so_far : ℕ) (w : World)
        → 0 < size
        → size ≤ max_plaintext
        → i + length (chunks size source) < 2 ^ 32
        → (rows : List ChunkRecord) × (w' : World) × (encrypt_stream env file_id file_key dir
              reports size total f source i so_far w
            ≡ (ok rows, w'))
    unfolding encrypt_stream
    encrypt_stream-done zero source i so_far w positive fits few = ([], w, refl)
    encrypt_stream-done (suc f) source i so_far w positive fits few =
        let (w₁, read) = read_chunk_plaintext-done env calm size source w in
        let got = take size source in
        let size_got = length-take size source in
        elim (Bool-cases (length got == 0)) [
          | inl stop ↦ ([], w₁, ground (arith, read, stop))
          | inr some_left ↦
              let left : 0 < length source = ground (arith, some_left, size_got) in
              let count = ap length (chunks_step size source positive left) in
              let (row, w₂, staged) =
                stage_chunk-done env lawful calm file_id file_key dir reports size total
                  (pad size got) (length got) i so_far w₁
                  (omega (arith, length-pad size got (omega arith))) in
              elim (Bool-cases (ltb (length got) size)) [
                | inl short ↦ (row ∷ [], w₂, ground (arith, read, some_left, staged, short))
                | inr full ↦
                    let (rows, w₃, looped) =
                      encrypt_stream-done f (drop size source) (i + 1) (so_far + length got) w₂
                        positive fits (omega (arith, count)) in
                    let next : i + 1 < 2 ^ 32 = omega (arith, count) in
                    (row ∷ rows, w₃, ground (arith, read, some_left, staged, full, next, looped))
              ]
        ]

  module _ (source : FilePath) (bytes : Bytes) where
    read_file-done :
        (w : World)
        → w.files source ≡ some bytes
        → read_file env source w ≡ (ok bytes, record w { calls = suc w.calls })
    unfolding read_file attempt
    read_file-done w e = let settled = calm w.calls in ground (arith, e, settled)

    read_magic_bytes-done :
        (w : World)
        → w.files source ≡ some bytes
        → (n : ℕ) × (n ≤ 8)
          × (w' : World) × (read_magic_bytes env source w ≡ (ok (pad 8 (take n bytes)), w'))
          × (w'.files ≡ w.files)
          × (w'.manifest ≡ w.manifest)
    unfolding read_magic_bytes
    read_magic_bytes-done w e =
        let opened = read_file-done w e in
        let w₁ = record w { calls = suc w.calls } in
        let (g, w₂, read) = read_some-done env calm 8 bytes w₁ in
        let (n, given, world, fits, available, stuck) = read_some-ok env 8 bytes w₁ w₂ g read in
        (
          n,
          fits,
          w₂,
          ground (arith, opened, read, given),
          ap (λ (x : World). x.files) world,
          ap (λ (x : World). x.manifest) world,
        )

    encrypt_file_inner-done :
        (w : World)
        → Configured w.manifest size
        → w.files source ≡ some bytes
        → length (chunks size bytes) < 2 ^ 32
        → (rows : List ChunkRecord) × (w' : World) × (encrypt_file_inner env source file_id file_key
              dir reports w
            ≡ (ok rows, w'))
    unfolding encrypt_file_inner
    encrypt_file_inner-done w c e few =
        let range = parse_chunk_size_bytes_range c.0 size c.2 in
        let read = read_chunk_size_bytes-done env w size c (calm w.calls) in
        let settled = calm (suc w.calls) in
        let opened = read_file-done (record w { calls = suc (suc w.calls) }) e in
        let (rows, w', looped) =
          encrypt_stream-done (length bytes) (suc (length bytes)) bytes 0 0
            (record w { calls = suc (suc (suc w.calls)) }) (omega (arith, range))
            (omega (arith, range)) (omega (arith, few)) in
        (rows, w', ground (arith, read, settled, e, opened, range, looped))

    -- When no call fails, `encrypt_file` succeeds on a file that is no image.
    pub encrypt_file-done :
        (w : World)
        → Configured w.manifest size
        → w.files source ≡ some bytes
        → ((n : ℕ) → n ≤ 8 → is_image_magic (pad 8 (take n bytes)) ≡ false)
        → length (chunks size bytes) < 2 ^ 32
        → (rows : List ChunkRecord) × (w' : World) × (encrypt_file env source file_id file_key dir
              reports w
            ≡ (ok rows, w'))
    unfolding encrypt_file clear_staged
    encrypt_file-done w c e plain few =
        let (n, few_read, w₁, first, files, manifest) = read_magic_bytes-done w e in
        let (rows, w', inner) =
          encrypt_file_inner-done (record w₁ { staged = [] })
            (subst (λ m. Configured m size) (sym manifest) c) (ap (λ f. f source) files ∙ e) few in
        let other = plain n few_read in
        let done_all =
          on_error-done (encrypt_file_inner env source file_id file_key dir reports)
            (cleanup env dir) (record w₁ { staged = [] }) inner in
        (rows, w', ground (arith, first, other, done_all))
