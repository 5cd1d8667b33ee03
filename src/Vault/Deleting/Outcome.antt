-- ===== src/Vault/Deleting/Outcome.antt =====
-- What a `delete_file` that fails leaves: delete_file.rs.
use arx_runa.Prelude.{
  ℕ, ◌≡◌, refl, sym, ap, ◌∙◌, Option, List, [], ◌∷◌, Bytes, arith, Result, ok, err,
}
use arx_runa.World.{Env, World, Exec, ◌>>=◌, continue, pure, lift, FilePath}
use arx_runa.World.Files.{attempt, remove_file}
use arx_runa.Storage.Error.{StorageError, database}
use arx_runa.Manifest.Types.{Manifest, NodeType, file, directory}
use arx_runa.Manifest.Store.{settle, settle-err, transaction}
use arx_runa.Manifest.Nodes.{get_node, get_chunks}
use arx_runa.Manifest.Deletion.{deletes, delete_node}
use arx_runa.Vault.Deleting.{validated_blob_paths, remove_local, delete_rows, if_file, delete_file}

abbrev pub Files : Type 0
Files = FilePath → Option Bytes

-- The same manifest and files.
abbrev pub IsSame : World → World → Type 0
IsSame w w' = (w'.manifest ≡ w.manifest) × (w'.files ≡ w.files)

IsSame-trans : (u v w : World) → IsSame u v → IsSame v w → IsSame u w
IsSame-trans u v w a b = (b.0 ∙ a.0, b.1 ∙ a.1)

module _ {A : Type 0} where
  -- It changes neither, however it ends; it changes neither where it fails; it leaves the files.
  abbrev pub Reads : Exec A → Type 0
  Reads m = (w : World) → IsSame w (m w).1

  abbrev IsUndone : Exec A → Type 0
  IsUndone m = (w w' : World) (e : StorageError) → m w ≡ (err e, w') → IsSame w w'

  abbrev pub LeavesFiles : Exec A → Type 0
  LeavesFiles m = (w : World) → (m w).1.files ≡ w.files

module _ {A B : Type 0} where
  continue_files :
      (r : Result StorageError A) (f : A → Exec B) (w : World)
      → ((a : A) → LeavesFiles (f a))
      → (continue r f w).1.files ≡ w.files
  continue_files (ok a) f w l = l a w
  continue_files (err e) f w l = refl

  bind-LeavesFiles :
      (m : Exec A) (f : A → Exec B)
      → LeavesFiles m
      → ((a : A) → LeavesFiles (f a))
      → LeavesFiles (m >>= f)
  bind-LeavesFiles m f k l w = continue_files (m w).0 f (m w).1 l ∙ k w

  continue_reads :
      (r : Result StorageError A) (f : A → Exec B) (w w' : World) (e : StorageError)
      → ((a : A) → IsUndone (f a))
      → continue r f w ≡ (err e, w')
      → IsSame w w'
  continue_reads (ok a) f w w' e l h = l a w w' e h
  continue_reads (err e') f w w' e l h = (cc (h), cc (h))

  bind-IsUndone :
      (m : Exec A) (f : A → Exec B) → Reads m → ((a : A) → IsUndone (f a)) → IsUndone (m >>= f)
  bind-IsUndone m f k l w w' e h =
      IsSame-trans w (m w).1 w' (k w) (continue_reads (m w).0 f (m w).1 w' e l h)

  continue_total :
      (r : Result StorageError A) (f : A → Exec B) (w w' : World) (e : StorageError)
      → ((a : A) (v : World) → (b : B) × ((f a v).0 ≡ ok b))
      → continue r f w ≡ (err e, w')
      → ((e' : StorageError) × (r ≡ err e')) × (w ≡ w')
  continue_total (ok a) f w w' e l h = let (b, k) = l a w in absurd (cc (h, k))
  continue_total (err e') f w w' e l h = ((e', refl), cc (h))

  -- What cannot fail may change what it will.
  bind-total-IsUndone :
      (m : Exec A) (f : A → Exec B)
      → IsUndone m
      → ((a : A) (v : World) → (b : B) × ((f a v).0 ≡ ok b))
      → IsUndone (m >>= f)
  bind-total-IsUndone m f k l w w' e h =
      let ((e', failed), same) = continue_total (m w).0 f (m w).1 w' e l h in
      k w w' e' (ap (λ r. (r, (m w).1)) failed ∙ ap (λ v. (err e', v)) same)

module _ {A : Type 0} where
  settle_files :
      (old : Manifest) (r : Result StorageError A) (w : World) → (settle old r w).1.files ≡ w.files
  settle_files old (ok a) w = refl
  settle_files old (err e) w = refl

module _ (env : Env) where
  attempt-Reads : (e : StorageError) → Reads (attempt env e)
  unfolding attempt
  attempt-Reads e w = (refl, refl)

  module _ {A : Type 0} where
    transaction-LeavesFiles : (m : Exec A) → LeavesFiles m → LeavesFiles (transaction env m)
    transaction-LeavesFiles m l w =
        let begin = attempt env database in
        let end : A → Exec A = λ a. begin >>= λ _. pure a in
        let ended : LeavesFiles (m >>= end) = bind-LeavesFiles m end l (λ a.
          bind-LeavesFiles begin (λ _. pure a) (λ v. (attempt-Reads database v).1) (λ _ v. refl)) in
        let whole : LeavesFiles (begin >>= λ _. m >>= end) =
          bind-LeavesFiles begin (λ _. m >>= end) (λ v. (attempt-Reads database v).1)
            (λ _. ended) in
        settle_files w.manifest _ _ ∙ whole w

  pub get_node-Reads : (node_id : ℕ) → Reads (get_node env node_id)
  unfolding get_node attempt
  get_node-Reads node_id w = ground arith

  pub get_chunks-Reads : (node_id : ℕ) → Reads (get_chunks env node_id)
  unfolding get_chunks attempt
  get_chunks-Reads node_id w = ground arith

  deletes-LeavesFiles :
      (node_id : ℕ) (now : Result StorageError ℕ) → LeavesFiles (deletes env node_id now)
  unfolding attempt
  deletes-LeavesFiles node_id now w = ground arith

  pub delete_node-LeavesFiles :
      (node_id : ℕ) (now : Result StorageError ℕ) → LeavesFiles (delete_node env node_id now)
  unfolding delete_node
  delete_node-LeavesFiles node_id now =
      transaction-LeavesFiles (deletes env node_id now) (deletes-LeavesFiles node_id now)

  pub remove_local_total :
      (paths : List FilePath) (v : World) → (u : Unit {0}) × ((remove_local env paths v).0 ≡ ok u)
  unfolding remove_local
  remove_local_total [] v = (tt, refl)
  remove_local_total (p ∷ paths) v = remove_local_total paths (remove_file env p v).1

  delete_node-IsUndone :
      (node_id : ℕ) (now : Result StorageError ℕ) → IsUndone (delete_node env node_id now)
  unfolding delete_node
  delete_node-IsUndone node_id now w w' e h = (
    settle-err w.manifest _ _ w' e h,
    sym (ap (λ (x : Result StorageError (Unit {0}) × World). x.1.files) h)
        ∙ delete_node-LeavesFiles node_id now w,
  )

  if_file-IsUndone : (t : NodeType) (m : Exec (Unit {0})) → IsUndone m → IsUndone (if_file t m)
  if_file-IsUndone directory m k w w' e h = (cc (h), cc (h))
  if_file-IsUndone file m k w w' e h = k w w' e h

  delete_rows-IsUndone :
      (node_id : ℕ) (staging_directory : FilePath) (now : Result StorageError ℕ)
      → IsUndone (delete_rows env node_id staging_directory now)
  delete_rows-IsUndone node_id staging_directory now =
      bind-IsUndone (get_chunks env node_id) _ (get_chunks-Reads node_id) λ chunks.
        bind-IsUndone (lift (validated_blob_paths env staging_directory chunks)) _
          (λ v. (refl, refl))
          λ paths.
            bind-total-IsUndone (delete_node env node_id now) (λ _. remove_local env paths)
              (delete_node-IsUndone node_id now) (λ _ v. remove_local_total paths v)

  -- A deletion of a file that fails, at whatever call, leaves the manifest and the files as they were.
  pub delete_file_atomic :
      (node_id : ℕ) (staging_directory : FilePath) (now : Result StorageError ℕ) (w w' : World)
      (e : StorageError)
      → delete_file env node_id staging_directory now w ≡ (err e, w')
      → (w'.manifest ≡ w.manifest) × (w'.files ≡ w.files)
  unfolding delete_file
  delete_file_atomic node_id staging_directory now w w' e h =
      let undone =
        bind-IsUndone (get_node env node_id)
          (λ node. if_file node.node_type (delete_rows env node_id staging_directory now))
          (get_node-Reads node_id)
          (λ node.
            if_file-IsUndone node.node_type (delete_rows env node_id staging_directory now)
              (delete_rows-IsUndone node_id staging_directory now)) in
      undone w w' e h
