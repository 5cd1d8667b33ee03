-- ===== src/Pipeline/Files.antt =====
-- `encrypt_file` of encrypt_file.rs: the file that it reads, with its metadata stripped if its first
-- bytes are those of an image.
use arx_runa.Prelude.{
  ℕ, suc, ◌≤◌, ◌<◌, min, dec_le, ◌≡◌, ◌⊎◌, inl, inr, ap, sym, ◌∙◌, Bool, false, List, [], Bytes,
  length, take, ok, subst, some, arith, Result-cases, Bool-cases, if◌then◌else◌,
}
use arx_runa.World.{Env, IsLawful, World, FilePath, Fate-cases}
use arx_runa.World.Files.{clear_staged, read_file, attempt}
use arx_runa.World.Inversion.{on_error-ok}
use arx_runa.Manifest.Types.{ChunkRecord}
use arx_runa.Manifest.Rows.{Configured, read_chunk_size_bytes, read_chunk_size_bytes-ok}
use arx_runa.Exif.{is_image_magic, strip_exif}
use arx_runa.Pipeline.Pieces.{chunks, pad}
use arx_runa.Pipeline.Encrypt.{
  cleanup, read_magic_bytes, encrypt_bytes, encrypt_file_inner, encrypt_file, size_of, read_some,
  read_count,
}
use arx_runa.Pipeline.Encrypt.Stored.{AreStored}
use arx_runa.Pipeline.Encrypt.Reading.{read_count_bounds}
use arx_runa.Pipeline.Encrypt.Streaming.{encrypt_stream-Stores}
use arx_runa.Pipeline.Decrypt.{decrypt_file_to_memory}
use arx_runa.Pipeline.Decrypt.Integrity.{HashCollision}
use arx_runa.Pipeline.Tampering.{
  size_positive, encrypt_bytes-AreStored, encrypt_bytes-Extends, AreStored-source,
}

-- How many bytes the first read gives, whose call is the second: the file is opened before.
abbrev pub first_read : Env → World → Bytes → ℕ
first_read env w bytes = read_count 8 (length bytes) (env.short (suc w.calls))

-- The bytes that are encrypted for a file with contents `bytes`, when the first read gave `n` bytes.
abbrev pub plaintext_of : Bytes → ℕ → Bytes
plaintext_of bytes n = if is_image_magic (pad 8 (take n bytes)) then strip_exif bytes else bytes

module _ (env : Env) (source : FilePath) (bytes : Bytes) where
  read_file-ok :
      (w w' : World) (found : Bytes)
      → w.files source ≡ some bytes
      → read_file env source w ≡ (ok found, w')
      → (found ≡ bytes) × (w' ≡ record w { calls = suc w.calls })
  unfolding read_file
  read_file-ok w w' found e h = (ground (arith, e), ground (arith, e))

  read_magic_bytes-ok :
      (w w' : World) (magic : Bytes)
      → w.files source ≡ some bytes
      → read_magic_bytes env source w ≡ (ok magic, w')
      → (magic ≡ pad 8 (take (first_read env w bytes) bytes))
        × (w'.files ≡ w.files)
        × (w'.manifest ≡ w.manifest)
  unfolding read_magic_bytes read_some attempt
  read_magic_bytes-ok w w' magic e h =
      let opened = read_file env source w in
      elim (Result-cases opened.0) [
        | inr (x, k) ↦ absurd (ground (arith, k))
        | inl (found, k) ↦
            let (same, world) = read_file-ok w opened.1 found e (cc k) in
            elim (Fate-cases (env.fate (suc w.calls))) [
              | inr fails ↦ absurd (ground (arith, k, world, fails))
              | inl settled ↦ (
                ground (arith, k, same, world, settled),
                ground (arith, k, same, world, settled),
                ground (arith, k, same, world, settled),
              )
            ]
      ]

first_positive : (available n : ℕ) → 0 < available → (n ≡ 0 → min 8 available ≡ 0) → 0 < n
first_positive available n some_byte h = elim (dec_le n 0) [
  | yes none ↦ absurd (omega (arith, h (omega arith)))
  | no more ↦ omega arith
]

module _ (env : Env) (lawful : IsLawful env) (file_id file_key : Bytes) where
  module _ (dir source : FilePath) (bytes : Bytes) (reports : Bool) (size : ℕ) where
    encrypt_file_inner-AreStored :
        (w w' : World) (rows : List ChunkRecord)
        → Configured w.manifest size
        → w.files source ≡ some bytes
        → encrypt_file_inner env source file_id file_key dir reports w ≡ (ok rows, w')
        → AreStored env file_id file_key dir size w'.files w'.draws 0 (chunks size bytes) rows
          × (w'.manifest ≡ w.manifest)
    unfolding encrypt_file_inner
    encrypt_file_inner-AreStored w w' rows c e h =
        let read = read_chunk_size_bytes env w in
        elim (Result-cases read.0) [
          | inr (x, k) ↦ absurd (ground (arith, k))
          | inl (found, k) ↦
              let (same, world) = read_chunk_size_bytes-ok env w read.1 found size c (cc k) in
              let measured = size_of env source read.1 in
              elim (Result-cases measured.0) [
                | inr (x, l) ↦ absurd (ground (arith, k, l))
                | inl (total, l) ↦
                    let opened = read_file env source measured.1 in
                    elim (Result-cases opened.0) [
                      | inr (x, m) ↦ absurd (ground (arith, k, l, m))
                      | inl (contents, m) ↦
                          let (given, world') =
                            read_file-ok env source bytes measured.1 opened.1 contents
                              (ap (λ (x : World). x.files source) world ∙ e) (cc m) in
                          let (stored, extends) =
                            encrypt_stream-Stores env lawful file_id file_key dir reports size total
                              (size_positive w size c) (suc (length bytes)) bytes 0 0 opened.1 w'
                              rows (omega arith) (omega arith)
                              (ground (arith, k, l, m, same, given)) in
                          (
                            stored,
                            extends.manifest
                                ∙ ap (λ (x : World). x.manifest)
                                    (world'
                                      ∙ ap (λ (x : World). record x { calls = suc (suc x.calls) })
                                          world),
                          )
                    ]
              ]
        ]

  -- Where `encrypt_file` succeeds, its rows stand for the pieces of the file, stripped of its metadata
  -- if what its first read gives, with zeros behind it, begins like an image. That read gives eight
  -- bytes at most, as many as the environment says, and one at least of a file that is not empty. The
  -- manifest is as it was.
  pub encrypt_file-AreStored :
      (dir source : FilePath) (bytes : Bytes) (reports : Bool) (size : ℕ) (w w' : World)
      (rows : List ChunkRecord)
      → Configured w.manifest size
      → w.files source ≡ some bytes
      → encrypt_file env source file_id file_key dir reports w ≡ (ok rows, w')
      → (first_read env w bytes ≤ 8)
        × (first_read env w bytes ≤ length bytes)
        × (0 < length bytes → 0 < first_read env w bytes)
        × AreStored env file_id file_key dir size w'.files w'.draws 0
            (chunks size (plaintext_of bytes (first_read env w bytes)))
            rows
        × (w'.manifest ≡ w.manifest)
  unfolding encrypt_file clear_staged
  encrypt_file-AreStored dir source bytes reports size w w' rows c e h =
      let first = read_magic_bytes env source w in
      elim (Result-cases first.0) [
        | inr (x, k) ↦ absurd (ground (arith, k))
        | inl (magic, k) ↦
            let n = first_read env w bytes in
            let bounds = read_count_bounds 8 (length bytes) (env.short (suc w.calls)) in
            let (given, files, manifest) =
              read_magic_bytes-ok env source bytes w first.1 magic e (cc k) in
            let c' = subst (λ m. Configured m size) (sym manifest) c in
            let e' = ap (λ f. f source) files ∙ e in
            let tail : AreStored env file_id file_key dir size w'.files w'.draws 0
                  (chunks size (plaintext_of bytes n)) rows
                × (w'.manifest ≡ w.manifest) =
              elim (Bool-cases (is_image_magic magic)) [
                | inl image ↦
                    let again = read_file env source first.1 in
                    elim (Result-cases again.0) [
                      | inr (x, l) ↦ absurd (ground (arith, k, l, image))
                      | inl (found, l) ↦
                          let (same, world) =
                            read_file-ok env source bytes first.1 again.1 found e' (cc l) in
                          let c'' =
                            subst (λ (x : World). Configured x.manifest size) (sym world) c' in
                          let run : encrypt_bytes env (strip_exif bytes) file_id file_key dir
                                reports again.1
                              ≡ (ok rows, w') =
                            ground (arith, k, l, image, same) in
                          (
                            rw (sym given, image)
                                (encrypt_bytes-AreStored env lawful file_id file_key dir reports
                                  size (strip_exif bytes) again.1 w' rows c'' run),
                            (encrypt_bytes-Extends env lawful file_id file_key dir reports size
                                  (strip_exif bytes) again.1 w' rows c'' run).manifest
                                ∙ ap (λ (x : World). x.manifest) world
                                ∙ manifest,
                          )
                    ]
                | inr other ↦
                    let (stored, kept) =
                      (encrypt_file_inner-AreStored dir source bytes reports size
                        (record first.1 { staged = [] }) w' rows c' e'
                        (on_error-ok (encrypt_file_inner env source file_id file_key dir reports)
                          (cleanup env dir) (record first.1 { staged = [] })
                          (ground (arith, k, other)))) in
                    (rw (sym given, other) stored, kept ∙ manifest)
              ] in
            (
              bounds.0,
              bounds.1,
              λ some_byte. first_positive (length bytes) n some_byte bounds.2,
              tail.0,
              tail.1,
            )
      ]

  -- Take the rows of a successful `encrypt_file` on a file that is no image, however much of it the
  -- first read gives, and any later world with the same chunk size: its files may have been deleted,
  -- exchanged or altered, and its calls may fail in any way. If `decrypt_file_to_memory` succeeds
  -- there, it gives the content of the file, or BLAKE3 has a collision.
  pub decrypt-encrypt_file_integrity :
      (dir staging_dir source : FilePath) (reports reports' : Bool) (size : ℕ) (bytes out : Bytes)
      (rows : List ChunkRecord) (w₀ w₁ w w' : World)
      → Configured w₀.manifest size
      → w₀.files source ≡ some bytes
      → ((n : ℕ) → n ≤ 8 → is_image_magic (pad 8 (take n bytes)) ≡ false)
      → encrypt_file env source file_id file_key dir reports w₀ ≡ (ok rows, w₁)
      → Configured w.manifest size
      → decrypt_file_to_memory env file_id file_key (length bytes) rows staging_dir reports' w
        ≡ (ok out, w')
      → (out ≡ bytes) ⊎ HashCollision env.hash
  decrypt-encrypt_file_integrity dir staging_dir source reports reports' size bytes out rows w₀ w₁ w
        w' c e plain h c' d =
      let n = first_read env w₀ bytes in
      let (few, within, positive, s, kept) =
        encrypt_file-AreStored dir source bytes reports size w₀ w₁ rows c e h in
      let same = ap (λ image. if image then strip_exif bytes else bytes) (plain n few) in
      AreStored-source env lawful file_id file_key dir staging_dir reports' size w₁.draws w₁.files
        bytes rows w w' out c'
        (subst
          (λ p. AreStored env file_id file_key dir size w₁.files w₁.draws 0 (chunks size p) rows)
          same s)
        d
