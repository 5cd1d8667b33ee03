-- ===== src/Pipeline/Disk/Calm.antt =====
-- `decrypt_file` of decrypt_file.rs when no call fails and there is no file at the destination.
use arx_runa.Prelude.{
  ℕ, suc, ◌+◌, ◌^◌, ◌<◌, ◌≡◌, ◌≢◌, refl, ap, ◌∙◌, sym, Bool, Option, none, some, List, [], ◌∷◌,
  ◌++◌, Bytes, Text, length, arith, ok, append_assoc, append-nil, codes, subst,
}
use arx_runa.World.{Env, IsLawful, World, FilePath, done, join, blob_file}
use arx_runa.World.Files.{
  update, update_self, update_ne, write_file, append_file, create_file, report, report_keeps,
  rename, try_exists, attempt, new_v4,
}
use arx_runa.Manifest.Types.{ChunkRecord}
use arx_runa.Manifest.Rows.{Configured}
use arx_runa.Storage.Validation.{parse_chunk_size_bytes_range}
use arx_runa.Pipeline.Pieces.{
  chunks, concat, ArePieces, concat-chunks, chunks-ArePieces, first_length,
}
use arx_runa.Pipeline.Encrypt.Stored.{AreStored}
use arx_runa.Pipeline.Decrypt.{read_and_validate_chunks, is_empty}
use arx_runa.Pipeline.Decrypt.Integrity.{Remaining, piece_length}
use arx_runa.Pipeline.RoundTrip.Reading.{next_bytes-done, counted}
use arx_runa.Pipeline.RoundTrip.Validating.{read_and_validate_chunks-done}
use arx_runa.Pipeline.Tampering.{size_positive, whole-Remaining}
use arx_runa.Pipeline.Disk.{
  temporary_name, temporary_destination_path, disk_loop, fill_and_replace,
  replace_destination_with_temp, decrypt_file,
}

module _ (env : Env) (lawful : IsLawful env) (calm : (n : ℕ) → env.fate n ≡ done)
    (file_id file_key : Bytes) (staging_dir : FilePath) (size bound : ℕ) (reports : Bool) where
  abbrev pending : FilePath
  pending = join staging_dir (codes "pending")

  module _ (temporary : FilePath)
      (apart : (name : Text) → join pending (blob_file name) ≢ temporary) where
    -- A temporary file is none of the blobs.
    AreStored-update :
        (files : FilePath → Option Bytes) (content : Option Bytes) (i : ℕ) (ps : List Bytes)
        (rows : List ChunkRecord)
        → AreStored env file_id file_key pending size files bound i ps rows
        → AreStored env file_id file_key pending size
            (update files temporary content)
            bound
            i
            ps
            rows
    AreStored-update files content i [] [] s = tt
    AreStored-update files content i (p ∷ ps) [] s = s
    AreStored-update files content i [] (r ∷ rows) s = s
    AreStored-update files content i (p ∷ ps) (r ∷ rows) (s, rest) = (
      record {
        draw = s.draw;
        before = s.before;
        nonce = s.nonce;
        nonce_length = s.nonce_length;
        blob = s.blob;
        sealed = s.sealed;
        named = s.named;
        summed = s.summed;
        indexed = s.indexed;
        index_fits = s.index_fits;
        padded = s.padded;
        standalone = s.standalone;
        in_place =
            update_ne files temporary (join pending (blob_file r.blob_name)) content
              (apart r.blob_name)
            ∙ s.in_place;
      },
      AreStored-update files content (i + 1) ps rows rest,
    )

    append_file-done :
        (old bytes : Bytes) (w : World)
        → w.files temporary ≡ some old
        → append_file env temporary bytes w ≡ (
          ok tt,
          record w { files = update w.files temporary (some (old ++ bytes)); calls = suc w.calls },
        )
    unfolding append_file write_file
    append_file-done old bytes w found = let now = calm w.calls in ground (arith, found, now)

    disk_loop-done :
        (file_size : ℕ) (ps : List Bytes) (rows : List ChunkRecord) (i so_far : ℕ) (acc : Bytes)
        (w : World)
        → AreStored env file_id file_key pending size w.files bound i ps rows
        → ArePieces size ps
        → Remaining file_size size i ps
        → size + 40 < 2 ^ 64
        → w.files temporary ≡ some acc
        → (w' : World) × (disk_loop env file_id file_key staging_dir temporary
              (size + 40)
              file_size
              size
              reports
              rows
              so_far
              w
            ≡ (ok tt, w'))
          × (w'.files temporary ≡ some (acc ++ concat ps))
          × ((q : FilePath) → q ≢ temporary → w'.files q ≡ w.files q)
    unfolding disk_loop concat report
    disk_loop-done file_size [] [] i so_far acc w s a e fits found =
        (w, refl, found ∙ ap some (sym (append-nil acc)), λ q other. refl)
    disk_loop-done file_size [] (r ∷ rows) i so_far acc w s a e fits found = elim s [ ]
    disk_loop-done file_size (p ∷ ps) [] i so_far acc w s a e fits found = elim s [ ]
    disk_loop-done file_size (p ∷ ps) (r ∷ rows) i so_far acc w s a e fits found =
        let (only, after) =
          piece_length env lawful file_id file_key pending w.files bound size file_size i p ps r
            rows s a e in
        let count =
          counted env lawful calm file_id file_key staging_dir size bound file_size i
            (is_empty rows) p r _ s.0.indexed e only in
        let first =
          next_bytes-done env lawful calm file_id file_key staging_dir size bound file_size i
            (is_empty rows) p r w s.0 (first_length size p ps a) fits count in
        let w₁ = record w { calls = suc (suc (suc (suc w.calls))) } in
        let appended = append_file-done acc p w₁ found in
        let w₂ = record w₁ {
          files = update w.files temporary (some (acc ++ p));
          calls = suc w₁.calls;
        } in
        let w₃ = (report reports (so_far + length p) file_size w₂).1 in
        let kept = (report_keeps reports (so_far + length p) file_size w₂).0 in
        let (w', looped, full, others) =
          disk_loop-done file_size ps rows (i + 1) (so_far + length p) (acc ++ p) w₃
            (subst (λ f. AreStored env file_id file_key pending size f bound (i + 1) ps rows)
              (sym kept) (AreStored-update w.files (some (acc ++ p)) (i + 1) ps rows s.1))
            after.0 after.1 fits
            (ap (λ f. f temporary) kept ∙ update_self w.files temporary (some (acc ++ p))) in
        (
          w',
          ground (arith, first, appended, looped),
          full ∙ ap some (append_assoc acc p (concat ps)),
          λ q other.
              others q other
              ∙ ap (λ f. f q) kept
              ∙ update_ne w.files temporary q (some (acc ++ p)) other,
        )

    -- The temporary file is moved to a destination that is free.
    fill_and_replace-done :
        (destination : FilePath) (file_size : ℕ) (ps : List Bytes) (rows : List ChunkRecord)
        (w : World)
        → destination ≢ temporary
        → w.files destination ≡ none
        → AreStored env file_id file_key pending size w.files bound 0 ps rows
        → ArePieces size ps
        → Remaining file_size size 0 ps
        → size + 40 < 2 ^ 64
        → w.files temporary ≡ some []
        → (w' : World) × (fill_and_replace env file_id file_key staging_dir temporary
              (size + 40)
              file_size
              size
              reports
              destination
              rows
              w
            ≡ (ok tt, w'))
          × (w'.files destination ≡ some (concat ps))
    unfolding fill_and_replace replace_destination_with_temp try_exists rename attempt
    fill_and_replace-done destination file_size ps rows w other free s a e fits found =
        let (w₁, looped, full, kept) = disk_loop-done file_size ps rows 0 0 [] w s a e fits found in
        let missing = kept destination other ∙ free in
        let flushed = calm w₁.calls in
        let synced = calm (suc w₁.calls) in
        let looked = calm (suc (suc w₁.calls)) in
        let moved = calm (suc (suc (suc w₁.calls))) in
        (
          record w₁ {
            files = update (update w₁.files temporary none) destination (some (concat ps));
            calls = suc (suc (suc (suc w₁.calls)));
          },
          ground (arith, looped, flushed, synced, looked, missing, moved, full),
          update_self (update w₁.files temporary none) destination (some (concat ps)),
        )

  -- Rows that stand for a source in `pending` are decrypted to a destination where there is no file.
  pub decrypt_file-done :
      (destination : FilePath) (source : Bytes) (rows : List ChunkRecord) (w : World)
      → Configured w.manifest size
      → length (chunks size source) < 2 ^ 64
      → AreStored env file_id file_key pending size w.files bound 0 (chunks size source) rows
      → w.files destination ≡ none
      → ((u : ℕ) → destination ≢ temporary_name env destination u)
      → ((u : ℕ) (name : Text) → join pending (blob_file name) ≢ temporary_name env destination u)
      → (w' : World) × (decrypt_file env destination file_id file_key
            (length source)
            rows
            staging_dir
            reports
            w
          ≡ (ok tt, w'))
        × (w'.files destination ≡ some source)
  unfolding decrypt_file temporary_destination_path new_v4 create_file write_file
  decrypt_file-done destination source rows w c few s free plain apart =
      let positive = size_positive w size c in
      let fits : size + 40 < 2 ^ 64 = omega (arith, parse_chunk_size_bytes_range c.0 size c.2) in
      let pieces = chunks-ArePieces size source positive in
      let joined = concat-chunks size source positive in
      let valid =
        ap (λ b. read_and_validate_chunks env (length b) rows w) (sym joined)
        ∙ read_and_validate_chunks-done env file_id file_key pending size bound w.files calm
            (chunks size source) rows w c positive fits pieces few s in
      let temporary = temporary_name env destination (env.uuid_at w.draws) in
      let w₁ = record w {
        files = update w.files temporary (some []);
        calls = suc (suc w.calls);
        draws = suc w.draws;
      } in
      let created = calm (suc w.calls) in
      let other = plain (env.uuid_at w.draws) in
      let (w', filled, there) =
        fill_and_replace-done temporary (apart (env.uuid_at w.draws)) destination (length source)
          (chunks size source) rows w₁ other
          (update_ne w.files temporary destination (some []) other ∙ free)
          (AreStored-update temporary (apart (env.uuid_at w.draws)) w.files (some []) 0
            (chunks size source) rows s)
          pieces (whole-Remaining size source positive) fits
          (update_self w.files temporary (some [])) in
      (w', ground (arith, valid, created, filled), there ∙ ap some joined)
