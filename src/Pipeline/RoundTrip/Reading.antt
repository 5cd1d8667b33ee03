-- ===== src/Pipeline/RoundTrip/Reading.antt =====
-- decrypt_file.rs when no call fails, on blobs that are in place.
use arx_runa.Prelude.{
  ℕ, suc, ◌+◌, ◌*◌, ◌^◌, ◌≤◌, ◌<◌, ◌≡◌, refl, ap, sym, subst, ◌∙◌, Bool, true, false, List, [], ◌∷◌,
  some, Bytes, length, ok, arith, Result-cases, inl, inr, codes, ===_iff,
}
use arx_runa.World.{Env, IsLawful, World, FilePath, done, join, blob_file}
use arx_runa.World.Files.{report}
use arx_runa.Crypto.Chunk.{decrypt_chunk, decrypt_chunk-eq-ok_iff, length-encrypt_chunk}
use arx_runa.Crypto.Checksum.{verify_checksum, verify_checksum_self}
use arx_runa.Storage.Validation.{validate_blob_name_uuid_v4}
use arx_runa.Manifest.Types.{ChunkRecord}
use arx_runa.Pipeline.Pieces.{pad, length-pad, concat, ArePieces, first_length}
use arx_runa.Pipeline.Encrypt.Stored.{IsStored, AreStored}
use arx_runa.Pipeline.Decrypt.{
  resolve_blob_path, read_encrypted_blob, open_chunk, next_bytes, memory_loop, bytes_to_write,
  is_empty,
}
use arx_runa.Pipeline.Decrypt.Integrity.{take-pad, piece_length, Remaining}

module _ (env : Env) (lawful : IsLawful env) (calm : (n : ℕ) → env.fate n ≡ done) where
  validate_drawn : (d : ℕ) → validate_blob_name_uuid_v4 env (env.hyphenated (env.uuid_at d)) ≡ ok tt
  unfolding validate_blob_name_uuid_v4
  validate_drawn d =
      let parsed = lawful.parse-hyphenated (env.uuid_at d) in
      let version = lawful.version_at d in
      let spelled =
        (===_iff (env.hyphenated (env.uuid_at d)) (env.hyphenated (env.uuid_at d))).1 refl in
      ground (arith, parsed, version, spelled)

  -- A blob in `pending/` is found and read.
  resolve-pending :
      (staging_dir : FilePath) (name blob : List ℕ) (w : World)
      → w.files (join (join staging_dir (codes "pending")) (blob_file name)) ≡ some blob
      → resolve_blob_path env staging_dir name w ≡ (
        ok (join (join staging_dir (codes "pending")) (blob_file name)),
        record w { calls = suc w.calls },
      )
  unfolding resolve_blob_path
  resolve-pending staging_dir name blob w h =
      let settled = calm w.calls in ground (arith, h, settled)

  read-found :
      (p : FilePath) (blob : Bytes) (n : ℕ) (w : World)
      → w.files p ≡ some blob
      → length blob ≡ n
      → n < 2 ^ 64
      → read_encrypted_blob env p n w ≡ (ok blob, record w { calls = suc (suc (suc w.calls)) })
  unfolding read_encrypted_blob
  read-found p blob n w h e fits =
      let now = calm w.calls in
      let next = calm (suc w.calls) in
      let last = calm (suc (suc w.calls)) in ground (arith, h, e, fits, now, next, last)

  module _ (file_id file_key : Bytes) (staging_dir : FilePath) (size bound : ℕ) where
    abbrev dir : FilePath
    dir = join staging_dir (codes "pending")

    abbrev Stored : World → ℕ → Bytes → ChunkRecord → Type 0
    Stored w i p r = IsStored env file_id file_key dir size w.files bound i p r

    pub open_chunk-done :
        (i : ℕ) (p : Bytes) (r : ChunkRecord) (w : World)
        → Stored w i p r
        → length p ≤ size
        → size + 40 < 2 ^ 64
        → open_chunk env file_id file_key staging_dir (size + 40) r w
          ≡ (ok (pad size p), record w { calls = suc (suc (suc (suc w.calls))) })
    unfolding open_chunk
    open_chunk-done i p r w s short fits =
        let named = ap (validate_blob_name_uuid_v4 env) s.named ∙ validate_drawn s.draw in
        let found = resolve-pending staging_dir r.blob_name s.blob w s.in_place in
        let long =
          length-encrypt_chunk env.cipher lawful.aead file_key file_id i s.nonce (pad size p) s.blob
            s.nonce_length s.sealed in
        let read =
          read-found (join dir (blob_file r.blob_name)) s.blob (size + 40)
            (record w { calls = suc w.calls }) s.in_place
            (omega (arith, long, length-pad size p short)) fits in
        let summed =
          ap (verify_checksum env.hash s.blob) s.summed ∙ verify_checksum_self env.hash s.blob in
        let opened =
          ap (λ (x : ℕ). decrypt_chunk env.cipher (record { inner = s.blob }) file_key file_id x)
            s.indexed
          ∙ (decrypt_chunk-eq-ok_iff env.cipher lawful.aead file_key file_id i s.blob
                (pad size p)).1
              (s.nonce, s.nonce_length, s.sealed) in
        ground (arith, named, found, read, summed, opened)

    pub counted :
        (file_size i : ℕ) (is_last : Bool) (p : Bytes) (r : ChunkRecord) (rest : ℕ)
        → r.chunk_index ≡ i
        → file_size ≡ i * size + rest
        → ((n : ℕ) → bytes_to_write file_size size is_last r ≡ ok n → n ≡ length p)
        → bytes_to_write file_size size is_last r ≡ ok (length p)
    counted file_size i is_last p r rest indexed total only =
        let product : r.chunk_index * size ≡ i * size = ap (λ (x : ℕ). x * size) indexed in
        elim (Result-cases (bytes_to_write file_size size is_last r)) [
          | inl (n, k) ↦ k ∙ ap ok (only n k)
          | inr (e, k) ↦ absurd (ground (arith, k, product, total))
        ]

    pub next_bytes-done :
        (file_size i : ℕ) (is_last : Bool) (p : Bytes) (r : ChunkRecord) (w : World)
        → Stored w i p r
        → length p ≤ size
        → size + 40 < 2 ^ 64
        → bytes_to_write file_size size is_last r ≡ ok (length p)
        → next_bytes env file_id file_key staging_dir (size + 40) file_size size is_last r w
          ≡ (ok p, record w { calls = suc (suc (suc (suc w.calls))) })
    unfolding next_bytes
    next_bytes-done file_size i is_last p r w s short fits count =
        let opened = open_chunk-done i p r w s short fits in
        let long = length-pad size p short in
        let cut = take-pad env lawful file_id file_key dir w.files bound size (length p) p refl in
        ground (arith, opened, count, long, cut)

    report_files :
        (reports : Bool) (so_far total : ℕ) (w : World)
        → (report reports so_far total w).1.files ≡ w.files
    unfolding report
    report_files false so_far total w = refl
    report_files true so_far total w = refl

    pub memory_loop-done :
        (file_size : ℕ) (reports : Bool) (ps : List Bytes) (rows : List ChunkRecord) (i so_far : ℕ)
        (w : World)
        → AreStored env file_id file_key dir size w.files bound i ps rows
        → ArePieces size ps
        → Remaining file_size size i ps
        → size + 40 < 2 ^ 64
        → (w' : World) × (memory_loop env file_id file_key staging_dir
              (size + 40)
              file_size
              size
              reports
              rows
              so_far
              w
            ≡ (ok (concat ps), w'))
    unfolding memory_loop concat report
    memory_loop-done file_size reports [] [] i so_far w s a e fits = (w, refl)
    memory_loop-done file_size reports [] (r ∷ rows) i so_far w s a e fits = elim s [ ]
    memory_loop-done file_size reports (p ∷ ps) [] i so_far w s a e fits = elim s [ ]
    memory_loop-done file_size reports (p ∷ ps) (r ∷ rows) i so_far w s a e fits =
        let (only, after) =
          piece_length env lawful file_id file_key dir w.files bound size file_size i p ps r rows s
            a e in
        let count = counted file_size i (is_empty rows) p r _ s.0.indexed e only in
        let first =
          next_bytes-done file_size i (is_empty rows) p r w s.0 (first_length size p ps a) fits
            count in
        let w₁ =
          (report reports (so_far + length p) file_size
            (record w { calls = suc (suc (suc (suc w.calls))) })).1 in
        let (w', looped) =
          memory_loop-done file_size reports ps rows (i + 1) (so_far + length p) w₁
            (subst (λ f. AreStored env file_id file_key dir size f bound (i + 1) ps rows)
              (sym (report_files reports (so_far + length p) file_size _)) s.1)
            after.0 after.1 fits in
        (w', ground (arith, first, looped))
