-- ===== src/Vault/Deleting/Clearing.antt =====
-- What a `delete_file` that succeeds does to the manifest and to the local files: delete_file.rs.
use arx_runa.Prelude.{
  Bytes, Option, ℕ, ◌≡◌, ◌≢◌, refl, sym, ap, ◌∙◌, inl, inr, Bool, Bool-cases, false, none, List, [],
  ◌∷◌, codes, arith, Result, Result-cases, ok, ◌||◌, if◌then◌else◌,
}
use arx_runa.World.{
  Env, World, Exec, lift, FilePath, path_eq, path_eq_iff, join, blob_file, done, Fate-cases,
}
use arx_runa.World.Inversion.{bind-ok, lift-ok}
use arx_runa.World.Files.{attempt, remove_file, update_self, update_ne}
use arx_runa.Storage.Error.{StorageError}
use arx_runa.Storage.Validation.{validate_blob_name_uuid_v4}
use arx_runa.Manifest.Types.{Manifest, NodeType, file, directory, ChunkRecord}
use arx_runa.Manifest.Nodes.{get_node, get_chunks, chunks_of}
use arx_runa.Manifest.Deletion.{delete_node}
use arx_runa.Manifest.Deletion.Accounting.{deleted, delete_node-ok}
use arx_runa.Vault.Deleting.{validated_blob_paths, remove_local, delete_rows, if_file, delete_file}
use arx_runa.Vault.Deleting.Outcome.{
  Files, delete_node-LeavesFiles, get_node-Reads, get_chunks-Reads,
}

-- Where blobs of the rows may lie: in `pending`, in `cache`, and in the folder itself.
abbrev pub local_paths : FilePath → List ChunkRecord → List FilePath
local_paths staging_directory [] = []
local_paths staging_directory (chunk ∷ chunks) =
    let blob = blob_file chunk.blob_name in
    join (join staging_directory (codes "pending")) blob
    ∷ join (join staging_directory (codes "cache")) blob
    ∷ join staging_directory blob
    ∷ local_paths staging_directory chunks

abbrev pub has_path : List FilePath → FilePath → Bool
has_path [] q = false
has_path (p ∷ paths) q = path_eq q p || has_path paths q

-- The manifest is what `delete_node` leaves, no blob of a row of the file is left where blobs are
-- staged, and no other file has changed.
pub record IsDeleted (staging_directory : FilePath) (node_id : ℕ) (w w' : World) : Type 0 where
  pub manifest : (queued_at : ℕ) × (w'.manifest ≡ deleted node_id queued_at w.manifest)
  pub files :
      (q : FilePath)
      → w'.files q ≡ (
          if has_path (local_paths staging_directory (chunks_of node_id w.manifest.chunks)) q
          then none
          else w.files q)

module _ (env : Env) where
  validated_blob_paths-ok :
      (staging_directory : FilePath) (rows : List ChunkRecord) (paths : List FilePath)
      → validated_blob_paths env staging_directory rows ≡ ok paths
      → paths ≡ local_paths staging_directory rows
  unfolding validated_blob_paths
  validated_blob_paths-ok staging_directory [] paths h = cc
  validated_blob_paths-ok staging_directory (r ∷ rows) paths h =
      let rest = validated_blob_paths env staging_directory rows in
      elim (Result-cases (validate_blob_name_uuid_v4 env r.blob_name)) [
        | inr (e, k) ↦ absurd (ground (arith, k))
        | inl (u, k) ↦ elim (Result-cases rest) [
          | inr (e, l) ↦ absurd (ground (arith, k, l))
          | inl (ps, l) ↦
              let ih = validated_blob_paths-ok staging_directory rows ps l in
              ground (arith, k, l, ih)
        ]
      ]

  remove_file-files :
      (p q : FilePath) (v : World) → q ≢ p → (remove_file env p v).1.files q ≡ v.files q
  unfolding remove_file
  remove_file-files p q v ne = ground (arith, update_ne v.files p q none ne)

  remove_file-manifest : (p : FilePath) (v : World) → (remove_file env p v).1.manifest ≡ v.manifest
  unfolding remove_file
  remove_file-manifest p v = ground arith

  remove_local-manifest :
      (paths : List FilePath) (v : World) → (remove_local env paths v).1.manifest ≡ v.manifest
  unfolding remove_local
  remove_local-manifest [] v = refl
  remove_local-manifest (p ∷ paths) v =
      remove_local-manifest paths (remove_file env p v).1 ∙ remove_file-manifest p v

  remove_file-none :
      (p q : FilePath) (v : World) → v.files q ≡ none → (remove_file env p v).1.files q ≡ none
  unfolding remove_file
  remove_file-none p q v h = elim (Bool-cases (path_eq q p)) [
    | inl same ↦
        let e = (path_eq_iff q p).0 same in ground (arith, h, update_self v.files p none, same)
    | inr other ↦ remove_file-files p q v (λ e. absurd (cc ((path_eq_iff q p).1 e, other))) ∙ h
  ]

  remove_local-none :
      (paths : List FilePath) (q : FilePath) (v : World)
      → v.files q ≡ none
      → (remove_local env paths v).1.files q ≡ none
  unfolding remove_local
  remove_local-none [] q v h = h
  remove_local-none (p ∷ paths) q v h =
      remove_local-none paths q (remove_file env p v).1 (remove_file-none p q v h)

  module _ (calm : (n : ℕ) → env.fate n ≡ done) where
    remove_file-gone : (p : FilePath) (v : World) → (remove_file env p v).1.files p ≡ none
    unfolding remove_file
    remove_file-gone p v = ground (arith, calm v.calls, update_self v.files p none)

    remove_local-files :
        (paths : List FilePath) (q : FilePath) (v : World)
        → (remove_local env paths v).1.files q ≡ (if has_path paths q then none else v.files q)
    unfolding remove_local
    remove_local-files [] q v = refl
    remove_local-files (p ∷ paths) q v =
        let v' = (remove_file env p v).1 in
        elim (Bool-cases (path_eq q p)) [
          | inl same ↦
              let e = (path_eq_iff q p).0 same in
              let gone : v'.files q ≡ none = ap v'.files e ∙ remove_file-gone p v in
              rw same (remove_local-none paths q v' gone)
          | inr other ↦
              let before =
                remove_file-files p q v (λ e. absurd (cc ((path_eq_iff q p).1 e, other))) in
              rw other (
                remove_local-files paths q v'
                ∙ ap (λ (f : Option Bytes). if has_path paths q then none else f) before)
        ]

    if_file-ok :
        (t : NodeType) (m : Exec (Unit {0})) (w w' : World)
        → if_file t m w ≡ (ok tt, w')
        → m w ≡ (ok tt, w')
    if_file-ok directory m w w' h = absurd (cc (h))
    if_file-ok file m w w' h = h

    get_chunks-ok :
        (node_id : ℕ) (w w' : World) (rows : List ChunkRecord)
        → get_chunks env node_id w ≡ (ok rows, w')
        → rows ≡ chunks_of node_id w.manifest.chunks
    unfolding get_chunks attempt
    get_chunks-ok node_id w w' rows h = elim (Fate-cases (env.fate w.calls)) [
      | inr fails ↦ absurd (ground (arith, fails))
      | inl asked ↦ ground (arith, asked)
    ]

    delete_rows-IsDeleted :
        (node_id : ℕ) (staging_directory : FilePath) (now : Result StorageError ℕ) (w w' : World)
        → delete_rows env node_id staging_directory now w ≡ (ok tt, w')
        → IsDeleted staging_directory node_id w w'
    delete_rows-IsDeleted node_id staging_directory now w w' h =
        let (rows, w₁, read, rest) = bind-ok (get_chunks env node_id) _ w h in
        let (paths, w₂, valid, rest₂) =
          bind-ok (lift (validated_blob_paths env staging_directory rows)) _ w₁ rest in
        let (_, w₃, dropped, removed) =
          bind-ok (delete_node env node_id now) (λ _. remove_local env paths) w₂ rest₂ in
        let (parsed, still) = lift-ok (validated_blob_paths env staging_directory rows) w₁ valid in
        let unread : w₁.manifest ≡ w.manifest =
          ap (λ x. x.1.manifest) (sym read) ∙ (get_chunks-Reads env node_id w).0 in
        let unread_files : w₁.files ≡ w.files =
          ap (λ x. x.1.files) (sym read) ∙ (get_chunks-Reads env node_id w).1 in
        let local : paths ≡ local_paths staging_directory (chunks_of node_id w.manifest.chunks) =
          validated_blob_paths-ok staging_directory rows paths parsed
          ∙ ap (local_paths staging_directory) (get_chunks-ok node_id w w₁ rows read) in
        let expected = local_paths staging_directory (chunks_of node_id w.manifest.chunks) in
        let (queued_at, left) = delete_node-ok env node_id now w₂ w₃ dropped in
        let files₃ : w₃.files ≡ w.files =
          ap (λ x. x.1.files) (sym dropped)
          ∙ delete_node-LeavesFiles env node_id now w₂
          ∙ ap (λ (x : World). x.files) (sym still)
          ∙ unread_files in
        let last : (remove_local env paths w₃).1 ≡ w' = ap (λ x. x.1) removed in
        record {
          manifest = (
            queued_at,
            ap (λ (x : World). x.manifest) (sym last)
                ∙ remove_local-manifest paths w₃
                ∙ left
                ∙ ap (λ (x : World). deleted node_id queued_at x.manifest) (sym still)
                ∙ ap (deleted node_id queued_at) unread,
          );
          files = λ q.
              ap (λ (x : World). x.files q) (sym last)
              ∙ remove_local-files paths q w₃
              ∙ ap (λ ps. if has_path ps q then none else w₃.files q) local
              ∙ ap (λ (f : Files). if has_path expected q then none else f q) files₃;
        }

    pub delete_file-IsDeleted :
        (node_id : ℕ) (staging_directory : FilePath) (now : Result StorageError ℕ) (w w' : World)
        → delete_file env node_id staging_directory now w ≡ (ok tt, w')
        → IsDeleted staging_directory node_id w w'
    unfolding delete_file
    delete_file-IsDeleted node_id staging_directory now w w' h =
        let (node, w₁, read, rest) = bind-ok (get_node env node_id) _ w h in
        let rows = delete_rows env node_id staging_directory now in
        let found =
          delete_rows-IsDeleted node_id staging_directory now w₁ w'
            (if_file-ok node.node_type rows w₁ w' rest) in
        let manifest : w₁.manifest ≡ w.manifest =
          ap (λ x. x.1.manifest) (sym read) ∙ (get_node-Reads env node_id w).0 in
        let files : w₁.files ≡ w.files =
          ap (λ x. x.1.files) (sym read) ∙ (get_node-Reads env node_id w).1 in
        let paths =
          ap (λ (m : Manifest). local_paths staging_directory (chunks_of node_id m.chunks))
            manifest in
        let expected = local_paths staging_directory (chunks_of node_id w.manifest.chunks) in
        let (queued_at, left) = found.manifest in
        record {
          manifest = (queued_at, left ∙ ap (deleted node_id queued_at) manifest);
          files = λ q.
              found.files q
              ∙ ap (λ ps. if has_path ps q then none else w₁.files q) paths
              ∙ ap (λ (f : Files). if has_path expected q then none else f q) files;
        }
