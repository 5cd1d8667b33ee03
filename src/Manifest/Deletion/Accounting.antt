-- ===== src/Manifest/Deletion/Accounting.antt =====
-- No blob name gets lost in a `delete_node`, and none is queued that is still in use.
use arx_runa.Prelude.{
  ℕ, suc, ◌+◌, ◌≤◌, ◌≡◌, sym, ap, ◌∙◌, subst, ◌⊎◌, inl, inr, Bool, Bool-cases, true, false, ◌||◌,
  List, ◌++◌, Text, ltb, arith, Result, Result-cases, ok,
}
use arx_runa.World.{Env, World, Fate-cases}
use arx_runa.World.Files.{attempt}
use arx_runa.Storage.Error.{StorageError}
use arx_runa.Manifest.Types.{Manifest}
use arx_runa.Manifest.Store.{settle-err, has_node}
use arx_runa.Manifest.Store.Transactions.{transaction-ok}
use arx_runa.Manifest.Hierarchy.{exists_or}
use arx_runa.Manifest.Deletion.{
  subtree, chunk_names, blob_names_of, is_pending, queue_blobs, cascade, drop_orphans, deletes,
  delete_node,
}
use arx_runa.Manifest.Deletion.Counting.{
  occurs, occurs-append, uses, HaveRows, chunk_uses_split, blob_uses_split, blob_uses_le,
  HaveRows-keep_blobs, is_pending-enqueue,
}

-- What is left of a manifest.
abbrev pub deleted : ℕ → ℕ → Manifest → Manifest
deleted node_id queued_at m = drop_orphans (cascade node_id (queue_blobs node_id queued_at m))

module _ (env : Env) (node_id : ℕ) (now : Result StorageError ℕ) where
  deletes-ok :
      (w w' : World)
      → deletes env node_id now w ≡ (ok tt, w')
      → (queued_at : ℕ) × (w'.manifest ≡ deleted node_id queued_at w.manifest)
  unfolding attempt exists_or
  deletes-ok w w' h = elim (Result-cases now) [
    | inr (e, k) ↦ absurd (ground (arith, k))
    | inl (queued_at, k) ↦ elim (Fate-cases (env.fate w.calls)) [
      | inr fails ↦ absurd (ground (arith, k, fails))
      | inl queued ↦ elim (Fate-cases (env.fate (suc w.calls))) [
        | inr fails ↦ absurd (ground (arith, k, queued, fails))
        | inl asked ↦ elim (Bool-cases (has_node w.manifest.nodes node_id)) [
          | inr missing ↦ absurd (ground (arith, k, queued, asked, missing))
          | inl exists ↦ elim (Fate-cases (env.fate (suc (suc w.calls)))) [
            | inr fails ↦ absurd (ground (arith, k, queued, asked, exists, fails))
            | inl swept ↦ (queued_at, ground (arith, k, queued, asked, exists, swept))
          ]
        ]
      ]
    ]
  ]

  pub delete_node-ok :
      (w w' : World)
      → delete_node env node_id now w ≡ (ok tt, w')
      → (queued_at : ℕ) × (w'.manifest ≡ deleted node_id queued_at w.manifest)
  unfolding delete_node
  delete_node-ok w w' h =
      let (w₁, w₂, started, did, ended) = transaction-ok env (deletes env node_id now) w w' tt h in
      let (queued_at, left) = deletes-ok w₁ w₂ did in
      (queued_at, ended ∙ left ∙ ap (deleted node_id queued_at) started)

  -- A deletion that fails leaves the manifest.
  delete_node-cases :
      (w : World)
      → ((delete_node env node_id now w).1.manifest ≡ w.manifest)
        ⊎ ((queued_at : ℕ) × ((delete_node env node_id now w).1.manifest
              ≡ deleted node_id queued_at w.manifest))
  unfolding delete_node
  delete_node-cases w =
      let run = delete_node env node_id now w in
      elim (Result-cases run.0) [
        | inr (e, k) ↦ inl (settle-err w.manifest _ _ run.1 e (ap (λ r. (r, run.1)) k))
        | inl (u, k) ↦ inr (delete_node-ok w run.1 (ap (λ r. (r, run.1)) k))
      ]

-- It is the name of a blob of the manifest, or queued.
abbrev pub is_accounted : Manifest → Text → Bool
is_accounted m name = ltb 0 (uses name m) || is_pending m.pending_deletions name

module _ (node_id queued_at : ℕ) (m : Manifest) where
  abbrev names : List Text
  names =
      let ids = subtree m.nodes node_id in
      chunk_names ids m.chunks ++ blob_names_of ids m.chunks m.epoch_blobs

  queued :
      (name : Text)
      → is_pending (deleted node_id queued_at m).pending_deletions name
        ≡ (is_pending m.pending_deletions name || ltb 0 (occurs name names))
  queued name = is_pending-enqueue m.pending_deletions names queued_at name

  uses_split :
      (name : Text)
      → HaveRows m.chunks m.epoch_blobs
      → occurs name names + uses name (deleted node_id queued_at m) ≡ uses name m
  uses_split name rows =
      let ids = subtree m.nodes node_id in
      omega (
        arith,
        occurs-append name (chunk_names ids m.chunks) (blob_names_of ids m.chunks m.epoch_blobs),
        chunk_uses_split name ids m.chunks,
        blob_uses_split name ids m.chunks m.epoch_blobs rows,
      )

  uses_le :
      (name : Text) → occurs name names + uses name (deleted node_id queued_at m) ≤ uses name m
  uses_le name =
      let ids = subtree m.nodes node_id in
      omega (
        arith,
        occurs-append name (chunk_names ids m.chunks) (blob_names_of ids m.chunks m.epoch_blobs),
        chunk_uses_split name ids m.chunks,
        blob_uses_le name ids m.chunks m.epoch_blobs,
      )

  deleted_accounted :
      (name : Text)
      → HaveRows m.chunks m.epoch_blobs
      → is_accounted m name ≡ true
      → is_accounted (deleted node_id queued_at m) name ≡ true
  deleted_accounted name rows h = ground (arith, queued name, uses_split name rows)

module _ (env : Env) (node_id : ℕ) (now : Result StorageError ℕ) (w : World) where
  -- Whatever comes of a deletion, in a manifest in which every epoch blob has a row every epoch blob
  -- has one behind it, and a blob name that was in use or queued is in use or queued.
  pub delete_node_accounts :
      (name : Text)
      → HaveRows w.manifest.chunks w.manifest.epoch_blobs
      → is_accounted w.manifest name ≡ true
      → HaveRows
          (delete_node env node_id now w).1.manifest.chunks
          (delete_node env node_id now w).1.manifest.epoch_blobs
        × (is_accounted (delete_node env node_id now w).1.manifest name ≡ true)
  delete_node_accounts name rows h = elim (delete_node-cases env node_id now w) [
    | inl same ↦
        subst (λ (m : Manifest). HaveRows m.chunks m.epoch_blobs × (is_accounted m name ≡ true))
          (sym same) (rows, h)
    | inr (queued_at, left) ↦
        subst (λ (m : Manifest). HaveRows m.chunks m.epoch_blobs × (is_accounted m name ≡ true))
          (sym left)
          (
            HaveRows-keep_blobs (cascade node_id w.manifest).chunks w.manifest.epoch_blobs,
            deleted_accounted node_id queued_at w.manifest name rows h,
          )
  ]

  -- Where a blob name is that of one blob of the manifest at most, and was not queued, it is not in
  -- use if it is queued behind a deletion, however that ends.
  pub delete_node_spares :
      (name : Text)
      → uses name w.manifest ≤ 1
      → is_pending w.manifest.pending_deletions name ≡ false
      → is_pending (delete_node env node_id now w).1.manifest.pending_deletions name ≡ true
      → uses name (delete_node env node_id now w).1.manifest ≡ 0
  delete_node_spares name once absent h = elim (delete_node-cases env node_id now w) [
    | inl same ↦ absurd (cc (same, absent, h))
    | inr (queued_at, left) ↦
        let m' = deleted node_id queued_at w.manifest in
        let h' : is_pending m'.pending_deletions name ≡ true =
          subst (λ (z : Manifest). is_pending z.pending_deletions name ≡ true) left h in
        let none_left : uses name m' ≡ 0 = ground (
          arith,
          queued node_id queued_at w.manifest name,
          uses_le node_id queued_at w.manifest name,
        ) in
        subst (λ (z : Manifest). uses name z ≡ 0) (sym left) none_left
  ]
