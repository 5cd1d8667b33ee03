-- ===== src/Epoch/Committing.antt =====
-- `commit_epoch_flush` of sqlcipher.rs: what a commit that succeeds has written.
use arx_runa.Prelude.{
  ℕ, suc, ◌≡◌, refl, ap, sym, ◌∙◌, false, some, List, [], ◌∷◌, ◌++◌, arith, Result-cases, inl, inr,
  ok, ==_iff, append_assoc, append-nil,
}
use arx_runa.World.{Env, World, Fate-cases}
use arx_runa.World.Files.{attempt, new_v4}
use arx_runa.Manifest.Types.{Manifest, ChunkRecord, EpochBlobRecord}
use arx_runa.Manifest.Store.{
  Extent, blob_clashes, find_epoch_blob, insert_chunk_row, insert_epoch_blob_row, extent_row,
  insert_extents, clear_epoch_buffer, commit_epoch_flush,
}

module _ (b : EpochBlobRecord) where
  -- A new record is found, if its identifier is new.
  pub find_epoch_blob_last :
      (blobs : List EpochBlobRecord)
      → blob_clashes blobs b ≡ false
      → find_epoch_blob (blobs ++ (b ∷ [])) b.epoch_blob_id ≡ some b
  unfolding blob_clashes find_epoch_blob
  find_epoch_blob_last [] h = let here = (==_iff b.epoch_blob_id b.epoch_blob_id).1 refl in rw here
  find_epoch_blob_last (c ∷ blobs) h =
      let rest = find_epoch_blob_last blobs (ground arith) in ground (arith, rest)

  -- The rows of the extents, in order.
  abbrev pub AreRows : Env → List Extent → List ChunkRecord → Type 0
  AreRows env [] [] = Unit {0}
  AreRows env (x ∷ extents) (r ∷ rows) =
      ((chunk_id : ℕ) × (r ≡ extent_row env b x chunk_id)) × AreRows env extents rows
  AreRows env _ _ = ⊥

module _ (env : Env) where
  -- From `w` to `w'` only the chunk rows `rows` were added.
  abbrev Adds : List ChunkRecord → World → World → Type 0
  Adds rows w w' =
      (w'.files ≡ w.files)
      × (w'.manifest ≡ record w.manifest { chunks = w.manifest.chunks ++ rows })

  insert_chunk_row-ok :
      (r : ChunkRecord) (w w' : World) → insert_chunk_row env r w ≡ (ok tt, w') → Adds (r ∷ []) w w'
  unfolding insert_chunk_row attempt
  insert_chunk_row-ok r w w' h = elim (Fate-cases (env.fate w.calls)) [
    | inr fails ↦ absurd (ground (arith, fails))
    | inl settled ↦ (ground (arith, settled), ground (arith, settled))
  ]

  -- The parts of a step of `insert_extents` that succeeds.
  extents_step :
      (b : EpochBlobRecord) (x : Extent) (extents : List Extent) (w w' : World)
      → insert_extents env b (x ∷ extents) w ≡ (ok tt, w')
      → (chunk_id : ℕ) × (w₁ : World) × (insert_chunk_row env
            (extent_row env b x chunk_id)
            (record w { draws = suc w.draws })
          ≡ (ok tt, w₁))
        × (insert_extents env b extents w₁ ≡ (ok tt, w'))
  unfolding insert_extents new_v4
  extents_step b x extents w w' h =
      let chunk_id = env.uuid_at w.draws in
      let inserted =
        insert_chunk_row env (extent_row env b x chunk_id) (record w { draws = suc w.draws }) in
      elim (Result-cases inserted.0) [
        | inr (e, k) ↦ absurd (ground (arith, k))
        | inl (u, k) ↦ (chunk_id, inserted.1, ap (λ y. (y, inserted.1)) k, ground (arith, k))
      ]

  insert_extents-ok :
      (b : EpochBlobRecord) (extents : List Extent) (w w' : World)
      → insert_extents env b extents w ≡ (ok tt, w')
      → (rows : List ChunkRecord) × AreRows b env extents rows × Adds rows w w'
  insert_extents-ok b [] w w' h =
      unfold insert_extents in
      let stopped : w ≡ w' = ap (λ x. x.1) h in
      (
        [],
        tt,
        (
          ap (λ (x : World). x.files) (sym stopped),
          ap (λ (x : World). x.manifest) (sym stopped)
              ∙ ap (λ c. record w.manifest { chunks = c }) (sym (append-nil w.manifest.chunks)),
        ),
      )
  insert_extents-ok b (x ∷ extents) w w' h =
      let (chunk_id, w₁, inserted, rest) = extents_step b x extents w w' h in
      let (files, manifest) =
        insert_chunk_row-ok (extent_row env b x chunk_id) (record w { draws = suc w.draws }) w₁
          inserted in
      let (rows, are, (files', manifest')) = insert_extents-ok b extents w₁ w' rest in
      (
        extent_row env b x chunk_id ∷ rows,
        ((chunk_id, refl), are),
        (
          files' ∙ files,
          manifest'
              ∙ ap (λ (m : Manifest). record m { chunks = m.chunks ++ rows }) manifest
              ∙ ap (λ c. record w.manifest { chunks = c })
                  (append_assoc w.manifest.chunks (extent_row env b x chunk_id ∷ []) rows),
        ),
      )

  -- A commit that succeeds adds the record and the rows, and clears the buffer: all of it, whatever
  -- entries the rows are for.
  pub commit_epoch_flush-ok :
      (b : EpochBlobRecord) (extents : List Extent) (w w' : World)
      → commit_epoch_flush env b extents w ≡ (ok tt, w')
      → (blob_clashes w.manifest.epoch_blobs b ≡ false)
        × (rows : List ChunkRecord) × AreRows b env extents rows
        × (w'.files ≡ w.files)
        × (w'.manifest ≡ record w.manifest {
          chunks = w.manifest.chunks ++ rows;
          epoch_blobs = w.manifest.epoch_blobs ++ (b ∷ []);
          epoch_buffer = [];
        })
  unfolding commit_epoch_flush insert_epoch_blob_row clear_epoch_buffer attempt
  commit_epoch_flush-ok b extents w w' h = elim (Fate-cases (env.fate w.calls)) [
    | inr fails ↦ absurd (ground (arith, fails))
    | inl begun ↦ elim (Fate-cases (env.fate (suc w.calls))) [
      | inr fails ↦ absurd (ground (arith, begun, fails))
      | inl inserted ↦
          let w₁ = record w {
            calls = suc (suc w.calls);
            manifest = record w.manifest { epoch_blobs = w.manifest.epoch_blobs ++ (b ∷ []) };
          } in
          let run = insert_extents env b extents w₁ in
          elim (Result-cases run.0) [
            | inr (e, k) ↦ absurd (ground (arith, begun, inserted, k))
            | inl (u, k) ↦
                let (rows, are, (files, manifest)) =
                  insert_extents-ok b extents w₁ run.1 (ap (λ x. (x, run.1)) k) in
                elim (Fate-cases (env.fate run.1.calls)) [
                  | inr fails ↦ absurd (ground (arith, begun, inserted, k, fails))
                  | inl cleared ↦ elim (Fate-cases (env.fate (suc run.1.calls))) [
                    | inr fails ↦ absurd (ground (arith, begun, inserted, k, cleared, fails))
                    | inl committed ↦ (
                      ground (arith, begun, inserted, k),
                      rows,
                      are,
                      ground (arith, begun, inserted, k, cleared, committed, files),
                      ground (arith, begun, inserted, k, cleared, committed, manifest),
                    )
                  ]
                ]
          ]
    ]
  ]
