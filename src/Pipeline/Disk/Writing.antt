-- ===== src/Pipeline/Disk/Writing.antt =====
-- `decrypt_file` of decrypt_file.rs: where it succeeds, the file is at the destination.
use arx_runa.Prelude.{
  ℕ, suc, ◌+◌, ◌≡◌, ◌≢◌, ◌⊎◌, ap, ◌∙◌, sym, Bool, Option, some, List, [], ◌∷◌, ◌++◌, Bytes, length,
  arith, Result-cases, inl, inr, ok, append_assoc, append-nil,
}
use arx_runa.World.{Env, IsLawful, World, FilePath, Fate-cases}
use arx_runa.World.Files.{
  update, update_self, update_ne, write_file, append_file, create_file, report, report_keeps,
}
use arx_runa.Manifest.Types.{ChunkRecord}
use arx_runa.Pipeline.Pieces.{concat, ArePieces}
use arx_runa.Pipeline.Encrypt.Stored.{AreStored}
use arx_runa.Pipeline.Decrypt.{next_bytes, is_empty}
use arx_runa.Pipeline.Decrypt.Integrity.{HashCollision, Remaining, piece_length, next_bytes-piece}
use arx_runa.Pipeline.Disk.{disk_loop}
use arx_runa.Pipeline.Disk.Quiet.{next_bytes-After}

module _ (env : Env) (p : FilePath) where
  pub append_file-ok :
      (old bytes : Bytes) (w w' : World)
      → w.files p ≡ some old
      → append_file env p bytes w ≡ (ok tt, w')
      → w' ≡ record w { files = update w.files p (some (old ++ bytes)); calls = suc w.calls }
  unfolding append_file write_file
  append_file-ok old bytes w w' found h = elim (Fate-cases (env.fate w.calls)) [
    | inl settled ↦ ground (arith, found, settled)
    | inr fails ↦ absurd (ground (arith, found, fails))
  ]

  pub create_file-ok :
      (w w' : World)
      → create_file env p w ≡ (ok tt, w')
      → w' ≡ record w { files = update w.files p (some []); calls = suc w.calls }
  unfolding create_file write_file
  create_file-ok w w' h = elim (Fate-cases (env.fate w.calls)) [
    | inl settled ↦ ground (arith, settled)
    | inr fails ↦ absurd (ground (arith, fails))
  ]

module _ (env : Env) (file_id file_key : Bytes) (staging_dir temporary : FilePath)
    (blob_len file_size size : ℕ) (reports : Bool) where
  -- The parts of a round of the loop that succeeds.
  disk_loop-ok :
      (r : ChunkRecord) (rows : List ChunkRecord) (so_far : ℕ) (acc : Bytes) (w w' : World)
      → w.files temporary ≡ some acc
      → disk_loop env file_id file_key staging_dir temporary blob_len file_size size reports
          (r ∷ rows)
          so_far
          w
        ≡ (ok tt, w')
      → (bytes : Bytes) × (w₁ w₂ : World) × (next_bytes env file_id file_key staging_dir blob_len
            file_size size
            (is_empty rows)
            r
            w
          ≡ (ok bytes, w₁))
        × (w₂.files ≡ update w.files temporary (some (acc ++ bytes)))
        × (w₂.draws ≡ w.draws)
        × (disk_loop env file_id file_key staging_dir temporary blob_len file_size size reports rows
              (so_far + length bytes)
              w₂
            ≡ (ok tt, w'))
  unfolding disk_loop report
  disk_loop-ok r rows so_far acc w w' found h =
      let first =
        next_bytes env file_id file_key staging_dir blob_len file_size size (is_empty rows) r w in
      let quiet =
        next_bytes-After env file_id file_key staging_dir blob_len file_size size (is_empty rows) r
          w in
      elim (Result-cases first.0) [
        | inr (e, k) ↦ absurd (ground (arith, k))
        | inl (bytes, k) ↦
            let written = append_file env temporary bytes first.1 in
            let found' : first.1.files temporary ≡ some acc =
              ap (λ (x : World). x.files temporary) quiet ∙ found in
            elim (Result-cases written.0) [
              | inr (e, l) ↦ absurd (ground (arith, k, l))
              | inl (u, l) ↦
                  let appended =
                    append_file-ok env temporary acc bytes first.1 written.1 found'
                      (ap (λ x. (x, written.1)) l) in
                  let reported = (report reports (so_far + length bytes) file_size written.1).1 in
                  (
                    bytes,
                    first.1,
                    reported,
                    ap (λ x. (x, first.1)) k,
                    (report_keeps reports (so_far + length bytes) file_size written.1).0
                        ∙ ap (λ (x : World). x.files) appended
                        ∙ ap (λ (x : World). update x.files temporary (some (acc ++ bytes))) quiet,
                    (report_keeps reports (so_far + length bytes) file_size written.1).1
                        ∙ ap (λ (x : World). x.draws) appended
                        ∙ ap (λ (x : World). x.draws) quiet,
                    ground (arith, k, l),
                  )
            ]
      ]

module _ (env : Env) (lawful : IsLawful env) (file_id file_key : Bytes)
    (dir staging_dir temporary : FilePath) where
  module _ (files : FilePath → Option Bytes) (bound blob_len file_size size : ℕ)
      (reports : Bool) where
    -- The temporary file has the pieces behind `acc`, and no other file was touched.
    abbrev pub Holds : Bytes → World → World → Type 0
    Holds content w w' =
        (w'.files temporary ≡ some content)
        × (w'.draws ≡ w.draws)
        × ((q : FilePath) → q ≢ temporary → w'.files q ≡ w.files q)

    pub disk_loop-Holds :
        (ps : List Bytes) (rows : List ChunkRecord) (i so_far : ℕ) (acc : Bytes) (w w' : World)
        → AreStored env file_id file_key dir size files bound i ps rows
        → ArePieces size ps
        → Remaining file_size size i ps
        → w.files temporary ≡ some acc
        → disk_loop env file_id file_key staging_dir temporary blob_len file_size size reports rows
            so_far w
          ≡ (ok tt, w')
        → Holds (acc ++ concat ps) w w' ⊎ HashCollision env.hash
    disk_loop-Holds [] [] i so_far acc w w' s a e found h =
        let stopped : w ≡ w' = unfold disk_loop in ap (λ x. x.1) h in
        inl (
          unfold concat in
              (ap (λ (x : World). x.files temporary) (sym stopped)
                ∙ found
                ∙ ap some (sym (append-nil acc))),
          ap (λ (x : World). x.draws) (sym stopped),
          λ q other. ap (λ (x : World). x.files q) (sym stopped),
        )
    disk_loop-Holds [] (r ∷ rows) i so_far acc w w' s a e found h = elim s [ ]
    disk_loop-Holds (p ∷ ps) [] i so_far acc w w' s a e found h = elim s [ ]
    disk_loop-Holds (p ∷ ps) (r ∷ rows) i so_far acc w w' s a e found h =
        let (bytes, w₁, w₂, first, written, draws, looped) =
          disk_loop-ok env file_id file_key staging_dir temporary blob_len file_size size reports r
            rows so_far acc w w' found h in
        let (full, after) =
          piece_length env lawful file_id file_key dir files bound size file_size i p ps r rows s a
            e in
        let found' : w₂.files temporary ≡ some (acc ++ bytes) =
          ap (λ f. f temporary) written ∙ update_self w.files temporary (some (acc ++ bytes)) in
        elim (next_bytes-piece env lawful file_id file_key dir files bound size staging_dir blob_len
          file_size i (is_empty rows) p r w w₁ bytes s.0 full first) [
            | inr collision ↦ inr collision
            | inl piece ↦
                elim (disk_loop-Holds ps rows (i + 1) (so_far + length bytes) (acc ++ bytes) w₂ w'
                  s.1 after.0 after.1 found' looped) [
                    | inr collision ↦ inr collision
                    | inl (content, draws', others) ↦
                        let joined : (acc ++ bytes) ++ concat ps ≡ acc ++ concat (p ∷ ps) =
                          unfold concat in
                          (ap (λ b. (acc ++ b) ++ concat ps) piece
                            ∙ append_assoc acc p (concat ps)) in
                        inl (
                          content ∙ ap some joined,
                          draws' ∙ draws,
                          λ q other.
                              others q other
                              ∙ ap (λ f. f q) written
                              ∙ update_ne w.files temporary q (some (acc ++ bytes)) other,
                        )
                  ]
          ]
