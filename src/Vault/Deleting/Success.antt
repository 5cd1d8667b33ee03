-- ===== src/Vault/Deleting/Success.antt =====
-- When a `delete_file` succeeds: delete_file.rs.
use arx_runa.Prelude.{ℕ, suc, ◌≡◌, refl, ap, ◌∙◌, true, some, List, [], ◌∷◌, arith, Result, ok}
use arx_runa.World.{Env, World, Exec, ◌>>=◌, continue, lift, FilePath, done}
use arx_runa.World.Files.{attempt}
use arx_runa.Storage.Error.{StorageError}
use arx_runa.Storage.Validation.{validate_blob_name_uuid_v4}
use arx_runa.Manifest.Types.{Node, file, ChunkRecord}
use arx_runa.Manifest.Store.{has_node}
use arx_runa.Manifest.Nodes.{find_node, get_node, get_chunks, chunks_of}
use arx_runa.Manifest.Hierarchy.{exists_or}
use arx_runa.Manifest.Hierarchy.Depth.{find_node-has_node}
use arx_runa.Manifest.Deletion.{delete_node}
use arx_runa.Vault.Deleting.{validated_blob_paths, remove_local, delete_rows, if_file, delete_file}
use arx_runa.Vault.Deleting.Outcome.{remove_local_total}
use arx_runa.Vault.Deleting.Clearing.{IsDeleted, local_paths, delete_file-IsDeleted}

-- Every row has a blob name that is a version 4 UUID.
abbrev pub HaveNames : Env → List ChunkRecord → Type 0
HaveNames env [] = Unit
HaveNames env (r ∷ rows) = (validate_blob_name_uuid_v4 env r.blob_name ≡ ok tt) × HaveNames env rows

module _ {A B : Type 0} where
  bind-done :
      (m : Exec A) (f : A → Exec B) (w w₁ : World) (a : A) → m w ≡ (ok a, w₁) → (m >>= f) w ≡ f a w₁
  bind-done m f w w₁ a h = ap (λ (x : Result StorageError A × World). continue x.0 f x.1) h

module _ (env : Env) (calm : (n : ℕ) → env.fate n ≡ done) where
  validated_blob_paths-HaveNames :
      (staging_directory : FilePath) (rows : List ChunkRecord)
      → HaveNames env rows
      → validated_blob_paths env staging_directory rows ≡ ok (local_paths staging_directory rows)
  unfolding validated_blob_paths
  validated_blob_paths-HaveNames staging_directory [] h = refl
  validated_blob_paths-HaveNames staging_directory (r ∷ rows) h =
      rw (h.0) (rw (validated_blob_paths-HaveNames staging_directory rows h.1) refl)

  delete_node_total :
      (node_id queued_at : ℕ) (w : World)
      → has_node w.manifest.nodes node_id ≡ true
      → (w' : World) × (delete_node env node_id (ok queued_at) w ≡ (ok tt, w'))
  unfolding delete_node attempt exists_or
  delete_node_total node_id queued_at w h = (
    (delete_node env node_id (ok queued_at) w).1,
    ground (
      arith,
      h,
      calm w.calls,
      calm (suc w.calls),
      calm (suc (suc w.calls)),
      calm (suc (suc (suc w.calls))),
      calm (suc (suc (suc (suc w.calls)))),
    ),
  )

  delete_rows_total :
      (node_id : ℕ) (staging_directory : FilePath) (queued_at : ℕ) (w : World)
      → has_node w.manifest.nodes node_id ≡ true
      → HaveNames env (chunks_of node_id w.manifest.chunks)
      → (w' : World) × (delete_rows env node_id staging_directory (ok queued_at) w ≡ (ok tt, w'))
  unfolding get_chunks attempt
  delete_rows_total node_id staging_directory queued_at w exists named =
      let rows = chunks_of node_id w.manifest.chunks in
      let paths = local_paths staging_directory rows in
      let w₁ = record w { calls = suc w.calls } in
      let read : get_chunks env node_id w ≡ (ok rows, w₁) = ground (arith, calm w.calls) in
      let valid = validated_blob_paths-HaveNames staging_directory rows named in
      let (w₂, dropped) = delete_node_total node_id queued_at w₁ exists in
      let (_, removed) = remove_local_total env paths w₂ in
      (
        (remove_local env paths w₂).1,
        bind-done (get_chunks env node_id) _ w w₁ rows read
            ∙ bind-done (lift (validated_blob_paths env staging_directory rows)) _ w₁ w₁ paths
                (ap (λ r. (r, w₁)) valid)
            ∙ bind-done (delete_node env node_id (ok queued_at)) _ w₁ w₂ tt dropped
            ∙ ap (λ r. (r, (remove_local env paths w₂).1)) removed,
      )

  -- Where no call fails and the clock is right, a file of the manifest is deleted, if the rows have
  -- names of the right form: the manifest is then what `delete_node` leaves, no blob of a row of the
  -- file is left in `pending`, in `cache` or in the folder itself, not even an epoch blob, and no other
  -- file has changed.
  pub delete_file-IsDone :
      (node_id : ℕ) (staging_directory : FilePath) (queued_at : ℕ) (w : World) (node : Node)
      → find_node w.manifest.nodes node_id ≡ some node
      → node.node_type ≡ file
      → HaveNames env (chunks_of node_id w.manifest.chunks)
      → (w' : World) × (delete_file env node_id staging_directory (ok queued_at) w ≡ (ok tt, w'))
        × IsDeleted staging_directory node_id w w'
  unfolding delete_file get_node attempt
  delete_file-IsDone node_id staging_directory queued_at w node found typed named =
      let w₁ = record w { calls = suc w.calls } in
      let rows = delete_rows env node_id staging_directory (ok queued_at) in
      let read : get_node env node_id w ≡ (ok node, w₁) = ground (arith, calm w.calls, found) in
      let exists = find_node-has_node w.manifest.nodes node_id node found in
      let (w', did) = delete_rows_total node_id staging_directory queued_at w₁ exists named in
      let whole : delete_file env node_id staging_directory (ok queued_at) w ≡ (ok tt, w') =
        bind-done (get_node env node_id) _ w w₁ node read
        ∙ ap (λ t. if_file t rows w₁) typed
        ∙ did in
      (
        w',
        whole,
        delete_file-IsDeleted env calm node_id staging_directory (ok queued_at) w w' whole,
      )
