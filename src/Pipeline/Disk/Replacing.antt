-- ===== src/Pipeline/Disk/Replacing.antt =====
-- `replace_destination_with_temp` of decrypt_file.rs: what is at the destination, however its calls end.
use arx_runa.Prelude.{
  suc, ◌≡◌, ◌≢◌, ◌⊎◌, refl, sym, true, false, Option-cases, none, some, Bytes, arith, Bool-cases,
  inl, inr, Result, ok, err,
}
use arx_runa.World.{Env, World, FilePath, Fate-cases, path_eq, path_eq_iff}
use arx_runa.Storage.Error.{StorageError, io}
use arx_runa.World.Files.{update, attempt, rename, remove_file, try_exists, new_v4}
use arx_runa.Pipeline.Disk.{
  temporary_name, temporary_destination_path, swap_in, replace_destination_with_temp,
}

-- Different paths test as different.
pub path_eq-ne : (p q : FilePath) → p ≢ q → path_eq p q ≡ false
path_eq-ne p q h = elim (Bool-cases (path_eq p q)) [
  | inl same ↦ absurd (h ((path_eq_iff p q).0 same))
  | inr other ↦ other
]

module _ (env : Env) where
  rename-cases :
      (from to : FilePath) (w : World)
      → ((b : Bytes) × (w.files from ≡ some b)
          × (rename env from to w ≡ (
            ok tt,
            record w { files = update (update w.files from none) to (some b); calls = suc w.calls },
          )))
        ⊎ (rename env from to w ≡ (err io, record w { calls = suc w.calls }))
  unfolding rename
  rename-cases from to w = elim (Fate-cases (env.fate w.calls)) [
    | inr fails ↦ inr (ground (arith, fails))
    | inl settled ↦ elim (Option-cases (w.files from)) [
      | inl missing ↦ inr (ground (arith, settled, missing))
      | inr (b, found) ↦ inl (b, found, ground (arith, settled, found))
    ]
  ]

  remove_file-cases :
      (p : FilePath) (w : World)
      → (remove_file env p w
          ≡ (ok tt, record w { files = update w.files p none; calls = suc w.calls }))
        ⊎ (remove_file env p w ≡ (err io, record w { calls = suc w.calls }))
  unfolding remove_file
  remove_file-cases p w = elim (Fate-cases (env.fate w.calls)) [
    | inr fails ↦ inr (ground (arith, fails))
    | inl settled ↦ elim (Option-cases (w.files p)) [
      | inl missing ↦ inr (ground (arith, settled, missing))
      | inr (b, found) ↦ inl (ground (arith, settled, found))
    ]
  ]

  try_exists-cases :
      (p : FilePath) (w : World)
      → ((w.files p ≡ none) × (try_exists env p w ≡ (ok false, record w { calls = suc w.calls })))
        ⊎ (((b : Bytes) × (w.files p ≡ some b)
              × (try_exists env p w ≡ (ok true, record w { calls = suc w.calls })))
            ⊎ (try_exists env p w ≡ (err io, record w { calls = suc w.calls })))
  unfolding try_exists attempt
  try_exists-cases p w = elim (Fate-cases (env.fate w.calls)) [
    | inr fails ↦ inr (inr (ground (arith, fails)))
    | inl settled ↦ elim (Option-cases (w.files p)) [
      | inl missing ↦ inl (missing, ground (arith, settled, missing))
      | inr (b, found) ↦ inr (inl (b, found, ground (arith, settled, found)))
    ]
  ]

module _ (env : Env) (destination temporary : FilePath) (w : World) (new : Bytes) where
  abbrev pub backup : FilePath
  backup = temporary_name env destination (env.uuid_at w.draws)

  abbrev pub run : Result StorageError (Unit {0}) × World
  run = replace_destination_with_temp env destination temporary w

  module _ (filled : w.files temporary ≡ some new) (dt : path_eq destination temporary ≡ false)
      (td : path_eq temporary destination ≡ false) (db : path_eq destination backup ≡ false)
      (tb : path_eq temporary backup ≡ false) (bd : path_eq backup destination ≡ false)
      (bt : path_eq backup temporary ≡ false) where
    abbrev Kept : Type 0
    Kept =
        (run.1.files destination ≡ some new)
        ⊎ ((¬ (run.0 ≡ ok tt))
            × ((run.1.files destination ≡ w.files destination)
                ⊎ (run.1.files backup ≡ w.files destination)))

    self : (p : FilePath) → path_eq p p ≡ true
    self p = (path_eq_iff p p).1 refl

    -- There was no file at the destination.
    fresh : try_exists env destination w ≡ (ok false, record w { calls = suc w.calls }) → Kept
    unfolding replace_destination_with_temp
    fresh looked =
        let here = self destination in
        elim (rename-cases env temporary destination (record w { calls = suc w.calls })) [
          | inl (b, found, moved) ↦ inl (ground (arith, looked, moved, filled, found, here))
          | inr failed ↦
              inr (λ e. ground (arith, looked, failed, e), inl (ground (arith, looked, failed)))
        ]

    -- The file at the destination has been moved to the backup.
    moved_away : Bytes → World
    moved_away old = record w {
      files = update (update w.files destination none) backup (some old);
      calls = suc (suc w.calls);
      draws = suc w.draws;
    }

    swapped :
        (old : Bytes)
        → w.files destination ≡ some old
        → ((swap_in env destination temporary backup (moved_away old)).1.files destination
            ≡ some new)
          ⊎ ((¬ ((swap_in env destination temporary backup (moved_away old)).0 ≡ ok tt))
              × (((swap_in env destination temporary backup (moved_away old)).1.files destination
                    ≡ w.files destination)
                  ⊎ ((swap_in env destination temporary backup (moved_away old)).1.files backup
                      ≡ w.files destination)))
    unfolding swap_in moved_away
    swapped old present =
        let here = self destination in
        let there = self backup in
        elim (rename-cases env temporary destination (moved_away old)) [
          | inl (b, found, moved) ↦
              let w₃ = record w {
                files = update (update (moved_away old).files temporary none) destination (some b);
                calls = suc (suc (suc w.calls));
                draws = suc w.draws;
              } in
              elim (remove_file-cases env backup w₃) [
                | inl removed ↦ inl (ground (arith, moved, removed, filled, found, here))
                | inr failed ↦ inl (ground (arith, moved, failed, filled, found, here))
              ]
          | inr failed ↦
              let w₃ = record w {
                files = (moved_away old).files;
                calls = suc (suc (suc w.calls));
                draws = suc w.draws;
              } in
              elim (rename-cases env backup destination w₃) [
                | inl (b, found, back) ↦ inr (
                  λ e. ground (arith, failed, back, e),
                  inl (ground (arith, failed, back, found, present, here, there)),
                )
                | inr lost ↦ inr (
                  λ e. ground (arith, failed, lost, e),
                  inr (ground (arith, failed, lost, present, here, there)),
                )
              ]
        ]

    replaces :
        (old : Bytes)
        → w.files destination ≡ some old
        → try_exists env destination w ≡ (ok true, record w { calls = suc w.calls })
        → Kept
    unfolding replace_destination_with_temp temporary_destination_path new_v4 moved_away
    replaces old present looked =
        elim (rename-cases env destination backup
          (record w { calls = suc w.calls; draws = suc w.draws })) [
            | inr failed ↦
                inr (λ e. ground (arith, looked, failed, e), inl (ground (arith, looked, failed)))
            | inl (b, found, moved) ↦
                let same : b ≡ old = cc (found, present) in
                elim (swapped old present) [
                  | inl new_there ↦ inl (ground (arith, looked, moved, same, new_there))
                  | inr (fails, old_there) ↦ inr (
                    λ e. fails (ground (arith, looked, moved, same, e)),
                    elim old_there [
                      | inl back ↦ inl (ground (arith, looked, moved, same, back))
                      | inr kept ↦ inr (ground (arith, looked, moved, same, kept))
                    ],
                  )
                ]
          ]

    kept : Kept
    unfolding replace_destination_with_temp
    kept = elim (try_exists-cases env destination w) [
      | inl (missing, looked) ↦ fresh looked
      | inr (inl (old, present, looked)) ↦ replaces old present looked
      | inr (inr failed) ↦ inr (λ e. ground (arith, failed, e), inl (ground (arith, failed)))
    ]

-- Take a complete temporary file with content `new`, and paths of the destination, the temporary file
-- and the backup that differ. However the calls end, `replace_destination_with_temp` leaves `new` at
-- the destination; or it fails, and what was at the destination is still there, or at the backup's path.
pub replace_destination_with_temp_keeps :
    (env : Env) (destination temporary : FilePath) (w : World) (new : Bytes)
    → w.files temporary ≡ some new
    → destination ≢ temporary
    → destination ≢ temporary_name env destination (env.uuid_at w.draws)
    → temporary ≢ temporary_name env destination (env.uuid_at w.draws)
    → ((replace_destination_with_temp env destination temporary w).1.files destination ≡ some new)
      ⊎ ((¬ ((replace_destination_with_temp env destination temporary w).0 ≡ ok tt))
          × (((replace_destination_with_temp env destination temporary w).1.files destination
                ≡ w.files destination)
              ⊎ ((replace_destination_with_temp env destination temporary w).1.files
                    (temporary_name env destination (env.uuid_at w.draws))
                  ≡ w.files destination)))
replace_destination_with_temp_keeps env destination temporary w new filled dt db tb =
    kept env destination temporary w new filled (path_eq-ne _ _ dt) (path_eq-ne _ _ λ e. dt (sym e))
      (path_eq-ne _ _ db) (path_eq-ne _ _ tb) (path_eq-ne _ _ λ e. db (sym e))
      (path_eq-ne _ _ λ e. tb (sym e))
