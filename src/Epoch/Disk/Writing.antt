-- ===== src/Epoch/Disk/Writing.antt =====
-- What `decrypt_epoch_file` writes: decrypt_file.rs.
use arx_runa.Prelude.{
  ℕ, suc, ◌≡◌, ◌≢◌, sym, ap, ◌∙◌, inl, inr, Bool, some, Bytes, [], slice, arith, ok, ok_or,
}
use arx_runa.World.{Env, IsLawful, World, FilePath, lift, ignore, on_error}
use arx_runa.World.Inversion.{bind-ok, lift-ok, on_error-ok}
use arx_runa.World.Files.{
  attempt, create_file, append_file, remove_file, report, report_keeps, update_self, new_v4,
}
use arx_runa.Pipeline.Disk.Writing.{create_file-ok, append_file-ok}
use arx_runa.Pipeline.Disk.Integrity.{temporary_name_injective}
use arx_runa.Storage.Error.{io, StorageError, constraint_violation}
use arx_runa.Manifest.Types.{ChunkRecord}
use arx_runa.Pipeline.Disk.{
  temporary_name, temporary_destination_path, replace_destination_with_temp,
}
use arx_runa.Pipeline.Disk.Replacing.{replace_destination_with_temp_keeps}
use arx_runa.Epoch.{decrypt_epoch_blob_to_slice, decrypt_epoch_file_to_memory}
use arx_runa.Epoch.Disk.{fill_temporary, decrypt_epoch_file}

module _ (env : Env) where
  attempt-same :
      (e : StorageError) (w w' : World)
      → attempt env e w ≡ (ok tt, w')
      → (w'.files ≡ w.files) × (w'.draws ≡ w.draws)
  unfolding attempt
  attempt-same e w w' h = (ap (λ x. x.1.files) (sym h), ap (λ x. x.1.draws) (sym h))

  fill_temporary-ok :
      (temporary : FilePath) (bytes : Bytes) (w w' : World)
      → fill_temporary env temporary bytes w ≡ (ok tt, w')
      → (w'.files temporary ≡ some bytes) × (w'.draws ≡ w.draws)
  unfolding fill_temporary
  fill_temporary-ok temporary bytes w w' h =
      let (_, w₁, created, rest₁) = bind-ok (create_file env temporary) _ w h in
      let (_, w₂, written, rest₂) = bind-ok (append_file env temporary bytes) _ w₁ rest₁ in
      let (_, w₃, flushed, synced) = bind-ok (attempt env io) _ w₂ rest₂ in
      let made = create_file-ok env temporary w w₁ created in
      let empty : w₁.files temporary ≡ some [] =
        ap (λ (x : World). x.files temporary) made ∙ update_self w.files temporary (some []) in
      let full = append_file-ok env temporary [] bytes w₁ w₂ empty written in
      let (files₃, draws₃) = attempt-same io w₂ w₃ flushed in
      let (files₄, draws₄) = attempt-same io w₃ w' synced in
      (
        ap (λ f. f temporary) (files₄ ∙ files₃)
            ∙ ap (λ (x : World). x.files temporary) full
            ∙ update_self w₁.files temporary (some bytes),
        draws₄ ∙ draws₃ ∙ ap (λ (x : World). x.draws) full ∙ ap (λ (x : World). x.draws) made,
      )

  to_memory-done :
      (kek : Bytes) (blob_directory : FilePath) (reports : Bool) (chunk : ChunkRecord)
      (w w₁ : World) (size : ℕ) (got : Bytes × ℕ × ℕ)
      → ok_or chunk.byte_length constraint_violation ≡ ok size
      → decrypt_epoch_blob_to_slice env kek blob_directory chunk w ≡ (ok got, w₁)
      → (w₂ : World) × (decrypt_epoch_file_to_memory env kek blob_directory chunk reports w
          ≡ (ok (slice got.1 got.2 got.0), w₂))
  unfolding decrypt_epoch_file_to_memory report
  to_memory-done kek blob_directory reports chunk w w₁ size got sized opened =
      ((report reports size size w₁).1, ground (arith, sized, opened))

module _ (env : Env) (lawful : IsLawful env) (destination : FilePath) where
  -- Where `decrypt_epoch_file` succeeds, and the destination is not named like a temporary file,
  -- `decrypt_epoch_file_to_memory` succeeds on the same row in the same world, and the destination
  -- holds the bytes that it gives.
  pub decrypt_epoch_file-eq-to_memory :
      (kek : Bytes) (blob_directory : FilePath) (reports : Bool) (chunk : ChunkRecord)
      (w w' : World)
      → ((u : ℕ) → destination ≢ temporary_name env destination u)
      → decrypt_epoch_file env destination chunk kek blob_directory reports w ≡ (ok tt, w')
      → (bytes : Bytes) × (w₂ : World) × (decrypt_epoch_file_to_memory env kek blob_directory chunk
            reports w
          ≡ (ok bytes, w₂))
        × (w'.files destination ≡ some bytes)
  unfolding decrypt_epoch_file temporary_destination_path new_v4
  decrypt_epoch_file-eq-to_memory kek blob_directory reports chunk w w' plain h =
      let (size, v, sized, rest) =
        bind-ok (lift (ok_or chunk.byte_length constraint_violation)) _ w h in
      let (parsed, still) = lift-ok (ok_or chunk.byte_length constraint_violation) w sized in
      let (got, w₁, opened, rest₁) =
        bind-ok (decrypt_epoch_blob_to_slice env kek blob_directory chunk) _ v rest in
      let opened' = ap (decrypt_epoch_blob_to_slice env kek blob_directory chunk) still ∙ opened in
      let (w₂, in_memory) =
        to_memory-done env kek blob_directory reports chunk w w₁ size got parsed opened' in
      let bytes = slice got.1 got.2 got.0 in
      let temporary = temporary_name env destination (env.uuid_at w₁.draws) in
      let drawn = record w₁ { draws = suc w₁.draws } in
      let (_, w₃, filled, rest₂) = bind-ok (fill_temporary env temporary bytes) _ drawn rest₁ in
      let replacing =
        on_error (replace_destination_with_temp env destination temporary)
          (ignore (remove_file env temporary)) in
      let (_, w₄, replaced, reported) =
        bind-ok replacing (λ _. report reports size size) w₃ rest₂ in
      let done_ =
        on_error-ok (replace_destination_with_temp env destination temporary)
          (ignore (remove_file env temporary)) w₃ replaced in
      let (whole, draws) = fill_temporary-ok env temporary bytes drawn w₃ filled in
      let last : w'.files destination ≡ w₄.files destination =
        ap (λ x. x.1.files destination) (sym reported)
        ∙ ap (λ f. f destination) (report_keeps reports size size w₄).0 in
      elim (replace_destination_with_temp_keeps env destination temporary w₃ bytes whole
        (plain (env.uuid_at w₁.draws)) (plain (env.uuid_at w₃.draws))
        (λ k. absurd (
          omega
            (arith, draws, temporary_name_injective env lawful destination w₁.draws w₃.draws k)))) [
              | inl there ↦ (
                bytes,
                w₂,
                in_memory,
                last ∙ ap (λ (x : _ × World). x.1.files destination) (sym done_) ∙ there,
              )
              | inr (fails, old) ↦ absurd (fails (ap (λ x. x.0) done_))
            ]
