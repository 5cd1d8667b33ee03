-- ===== src/Pipeline/Disk/Integrity.antt =====
-- `decrypt_file` of decrypt_file.rs: where it succeeds, the file is at the destination.
use arx_runa.Prelude.{
  ℕ, suc, ◌≡◌, ◌≢◌, ◌⊎◌, ap, ◌∙◌, sym, Bool, some, List, [], ◌++◌, Bytes, length, arith,
  Result-cases, inl, inr, ok, codes,
}
use mathlib.Core.List.{append_cancel_left, append_cancel_right}
use arx_runa.World.{Env, IsLawful, World, FilePath, Fate-cases, join, ignore}
use arx_runa.World.Files.{update_self, attempt, create_file, remove_file, new_v4}
use arx_runa.World.Inversion.{on_error-ok}
use arx_runa.Manifest.Types.{ChunkRecord}
use arx_runa.Manifest.Rows.{Configured}
use arx_runa.Pipeline.Pieces.{chunks, concat-chunks, chunks-ArePieces}
use arx_runa.Pipeline.Encrypt.{encrypt_bytes}
use arx_runa.Pipeline.Decrypt.{read_and_validate_chunks}
use arx_runa.Pipeline.Decrypt.Integrity.{HashCollision}
use arx_runa.Pipeline.Decrypt.Sorting.{
  read_and_validate_chunks-ok, sort_by_index-Consecutive, AreStored-Consecutive,
}
use arx_runa.Pipeline.Tampering.{size_positive, whole-Remaining, encrypt_bytes-AreStored}
use arx_runa.Pipeline.Disk.{
  parent, temporary_name, temporary_destination_path, disk_loop, fill_and_replace,
  replace_destination_with_temp, decrypt_file,
}
use arx_runa.Pipeline.Disk.Replacing.{replace_destination_with_temp_keeps}
use arx_runa.Pipeline.Disk.Writing.{create_file-ok, disk_loop-Holds}

module _ (env : Env) (lawful : IsLawful env) (destination : FilePath) where
  -- Temporary paths of different draws differ.
  pub temporary_name_injective :
      (m n : ℕ)
      → temporary_name env destination (env.uuid_at m)
        ≡ temporary_name env destination (env.uuid_at n)
      → m ≡ n
  unfolding temporary_name join
  temporary_name_injective m n e =
      let file = append_cancel_left (parent destination) _ _ e in
      let name : env.hyphenated (env.uuid_at m) ++ codes ".tmp"
          ≡ env.hyphenated (env.uuid_at n) ++ codes ".tmp" =
        append_cancel_left (codes ".arx-runa-decrypt-") _ _ (cc file) in
      let uuid =
        append_cancel_right (env.hyphenated (env.uuid_at m)) (env.hyphenated (env.uuid_at n))
          (codes ".tmp") name in
      lawful.uuid_distinct m n (
        cc (lawful.parse-hyphenated (env.uuid_at m), uuid, lawful.parse-hyphenated (env.uuid_at n)))

  module _ (file_id file_key : Bytes) (staging_dir : FilePath) (reports : Bool) where
    fill_and_replace-ok :
        (temporary : FilePath) (blob_len file_size size : ℕ) (rows : List ChunkRecord)
        (w w' : World)
        → fill_and_replace env file_id file_key staging_dir temporary blob_len file_size size
            reports destination rows w
          ≡ (ok tt, w')
        → (w₁ : World) × (disk_loop env file_id file_key staging_dir temporary blob_len file_size
              size reports rows 0 w
            ≡ (ok tt, w₁))
          × (replace_destination_with_temp env destination temporary
                (record w₁ { calls = suc (suc w₁.calls) })
              ≡ (ok tt, w'))
    unfolding fill_and_replace attempt
    fill_and_replace-ok temporary blob_len file_size size rows w w' h =
        let looped =
          disk_loop env file_id file_key staging_dir temporary blob_len file_size size reports rows
            0 w in
        elim (Result-cases looped.0) [
          | inr (e, k) ↦ absurd (ground (arith, k))
          | inl (u, k) ↦ elim (Fate-cases (env.fate looped.1.calls)) [
            | inr fails ↦ absurd (ground (arith, k, fails))
            | inl flushed ↦ elim (Fate-cases (env.fate (suc looped.1.calls))) [
              | inr fails ↦ absurd (ground (arith, k, flushed, fails))
              | inl synced ↦
                  (looped.1, ap (λ x. (x, looped.1)) k, ground (arith, k, flushed, synced))
            ]
          ]
        ]

    decrypt_file-ok :
        (file_size : ℕ) (rows : List ChunkRecord) (w w' : World)
        → decrypt_file env destination file_id file_key file_size rows staging_dir reports w
          ≡ (ok tt, w')
        → (v : List ChunkRecord × ℕ × ℕ) × (w₁ w₂ : World) × (read_and_validate_chunks env file_size
              rows w
            ≡ (ok v, w₁))
          × (create_file env
                (temporary_name env destination (env.uuid_at w₁.draws))
                (record w₁ { draws = suc w₁.draws })
              ≡ (ok tt, w₂))
          × (fill_and_replace env file_id file_key staging_dir
                (temporary_name env destination (env.uuid_at w₁.draws))
                v.2
                file_size
                v.1
                reports
                destination
                v.0
                w₂
              ≡ (ok tt, w'))
    unfolding decrypt_file temporary_destination_path new_v4
    decrypt_file-ok file_size rows w w' h =
        let read = read_and_validate_chunks env file_size rows w in
        elim (Result-cases read.0) [
          | inr (e, k) ↦ absurd (ground (arith, k))
          | inl (v, k) ↦
              let temporary = temporary_name env destination (env.uuid_at read.1.draws) in
              let created =
                create_file env temporary (record read.1 { draws = suc read.1.draws }) in
              elim (Result-cases created.0) [
                | inr (e, l) ↦ absurd (ground (arith, k, l))
                | inl (u, l) ↦ (
                  v,
                  read.1,
                  created.1,
                  ap (λ x. (x, read.1)) k,
                  ap (λ x. (x, created.1)) l,
                  on_error-ok
                      (fill_and_replace env file_id file_key staging_dir temporary v.2 file_size v.1
                        reports destination v.0)
                      (ignore (remove_file env temporary)) created.1 (ground (arith, k, l)),
                )
              ]
        ]

    -- Take the rows of a successful `encrypt_bytes`, and any later world with the same chunk size, and a
    -- destination that is not named like a temporary file. If `decrypt_file` succeeds there, the
    -- destination holds the source, or BLAKE3 has a collision.
    pub decrypt_file-encrypt_bytes_integrity :
        (dir : FilePath) (reports' : Bool) (size : ℕ) (source : Bytes) (rows : List ChunkRecord)
        (w₀ w₁ w w' : World)
        → Configured w₀.manifest size
        → encrypt_bytes env source file_id file_key dir reports' w₀ ≡ (ok rows, w₁)
        → Configured w.manifest size
        → ((u : ℕ) → destination ≢ temporary_name env destination u)
        → decrypt_file env destination file_id file_key (length source) rows staging_dir reports w
          ≡ (ok tt, w')
        → (w'.files destination ≡ some source) ⊎ HashCollision env.hash
    decrypt_file-encrypt_bytes_integrity dir reports' size source rows w₀ w₁ w w' c e c' plain h =
        let positive = size_positive w size c' in
        let s =
          encrypt_bytes-AreStored env lawful file_id file_key dir reports' size source w₀ w₁ rows c
            e in
        let (v, w₂, w₃, valid, created, filled) = decrypt_file-ok (length source) rows w w' h in
        let (sorted, sized) =
          read_and_validate_chunks-ok env (length source) size rows w w₂ v c' valid in
        let same : v.0 ≡ rows =
          sorted
          ∙ sort_by_index-Consecutive 0 rows (
              AreStored-Consecutive env file_id file_key dir size w₁.draws 0 w₁.files
                (chunks size source) rows s) in
        let temporary = temporary_name env destination (env.uuid_at w₂.draws) in
        let made = create_file-ok env temporary (record w₂ { draws = suc w₂.draws }) w₃ created in
        let (w₄, looped, replaced) =
          fill_and_replace-ok temporary v.2 (length source) v.1 v.0 w₃ w' filled in
        elim (disk_loop-Holds env lawful file_id file_key dir staging_dir temporary w₁.files
          w₁.draws v.2 (length source) size reports (chunks size source) rows 0 0 [] w₃ w₄ s
          (chunks-ArePieces size source positive) (whole-Remaining size source positive)
          (ap (λ (x : World). x.files temporary) made ∙ update_self w₂.files temporary (some []))
          (cc (looped, same, sized))) [
            | inr collision ↦ inr collision
            | inl (content, draws, others) ↦
                let whole = content ∙ ap some (concat-chunks size source positive) in
                let drawn : w₄.draws ≡ suc w₂.draws = draws ∙ ap (λ (x : World). x.draws) made in
                let w₅ = record w₄ { calls = suc (suc w₄.calls) } in
                elim (replace_destination_with_temp_keeps env destination temporary w₅ source whole
                  (plain (env.uuid_at w₂.draws)) (plain (env.uuid_at w₄.draws))
                  (λ k.
                    absurd (omega (arith, drawn, temporary_name_injective w₂.draws w₄.draws k)))) [
                      | inl there ↦
                          inl (ap (λ (x : _ × World). x.1.files destination) (sym replaced) ∙ there)
                      | inr (fails, old) ↦ absurd (fails (ap (λ x. x.0) replaced))
                    ]
          ]
