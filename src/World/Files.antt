-- ===== src/World/Files.antt =====
-- The calls that the storage code makes: the file system, the random generator, the callback.
use arx_runa.Prelude.{
  ℕ, suc, ◌≡◌, Option, none, some, List, [], ◌∷◌, ◌++◌, Text, Bytes, Bool, if◌then◌else◌, Result,
  ok, err,
}
use arx_runa.World.Outside.{Env, Fate, done, failed, torn}
use arx_runa.Prelude.{refl, ◌≢◌, Bool-cases, inl, inr}
use arx_runa.World.Paths.{FilePath, path_eq, path_eq_iff}
use arx_runa.World.Actions.{World, Exec, ◌>>◌}
use arx_runa.Storage.Error.{StorageError, io}

abbrev pub update : (FilePath → Option Bytes) → FilePath → Option Bytes → FilePath → Option Bytes
update files p v q = if path_eq q p then v else files q

pub update_self :
    (files : FilePath → Option Bytes) (p : FilePath) (v : Option Bytes) → update files p v p ≡ v
update_self files p v = rw ((path_eq_iff p p).1 refl)

pub update_ne :
    (files : FilePath → Option Bytes) (p q : FilePath) (v : Option Bytes)
    → q ≢ p
    → update files p v q ≡ files q
update_ne files p q v h = elim (Bool-cases (path_eq q p)) [
  | inl same ↦ absurd (h ((path_eq_iff q p).0 same))
  | inr other ↦ rw other
]

abbrev ended : Fate → StorageError → Result StorageError (Unit {0})
ended done e = ok tt
ended _ e = err e

abbrev written : Fate → (FilePath → Option Bytes) → FilePath → Bytes → FilePath → Option Bytes
written done files p bytes = update files p (some bytes)
written failed files p bytes = files
written (torn rubbish) files p bytes = update files p (some rubbish)

module _ (env : Env) where
  -- A call that may fail, with error `e`.
  unfoldable pub attempt : StorageError → Exec (Unit {0})
  attempt e w = (ended (env.fate w.calls) e, record w { calls = suc w.calls })

  -- `staging::write_owner_only`, and `tokio::fs::write`.
  unfoldable pub write_file : FilePath → Bytes → Exec (Unit {0})
  write_file p bytes w = (
    ended (env.fate w.calls) io,
    record w { files = written (env.fate w.calls) w.files p bytes; calls = suc w.calls },
  )

  abbrev removed : Fate → Option Bytes → FilePath → Exec (Unit {0})
  removed done none p w = (err io, w)
  removed done (some b) p w = (ok tt, record w { files = update w.files p none })
  removed _ o p w = (err io, w)

  -- `tokio::fs::remove_file`, which fails on a missing file.
  unfoldable pub remove_file : FilePath → Exec (Unit {0})
  remove_file p w = removed (env.fate w.calls) (w.files p) p (record w { calls = suc w.calls })

  -- `tokio::fs::try_exists(p).unwrap_or(false)`.
  unfoldable pub exists_or_false : FilePath → Exec Bool
  exists_or_false p w = (
    ok (elim (env.fate w.calls) [
      | done ↦ elim (w.files p) [ none ↦ Bool.false | some _ ↦ Bool.true ]
      | _ ↦ Bool.false
    ]),
    record w { calls = suc w.calls },
  )

  abbrev contents : FilePath → Exec Bytes
  contents p w = elim (w.files p) [ none ↦ (err io, w) | some bytes ↦ (ok bytes, w) ]

  -- `File::open` and `tokio::fs::read`; a file does not change while it is read.
  unfoldable pub read_file : FilePath → Exec Bytes
  unfolding attempt
  read_file p = attempt io >> contents p

  -- `File::create`, and a `write_all` to the file.
  unfoldable pub create_file : FilePath → Exec (Unit {0})
  unfolding write_file
  create_file p = write_file p []

  abbrev appended : Option Bytes → FilePath → Bytes → Exec (Unit {0})
  appended none p bytes w = (err io, w)
  appended (some old) p bytes w = write_file p (old ++ bytes) w

  unfoldable pub append_file : FilePath → Bytes → Exec (Unit {0})
  unfolding write_file
  append_file p bytes w = appended (w.files p) p bytes w

  abbrev renamed : Fate → Option Bytes → FilePath → FilePath → Exec (Unit {0})
  renamed done none from to w = (err io, w)
  renamed done (some b) from to w =
      (ok tt, record w { files = update (update w.files from none) to (some b) })
  renamed _ o from to w = (err io, w)

  -- `tokio::fs::rename`.
  unfoldable pub rename : FilePath → FilePath → Exec (Unit {0})
  rename from to w =
      renamed (env.fate w.calls) (w.files from) from to (record w { calls = suc w.calls })

  -- `tokio::fs::try_exists`.
  unfoldable pub try_exists : FilePath → Exec Bool
  unfolding attempt
  try_exists p =
      attempt io >> (λ w. (ok (elim (w.files p) [ none ↦ Bool.false | some _ ↦ Bool.true ]), w))

  unfoldable pub generate_nonce : Exec Bytes
  generate_nonce w = (ok (env.nonce_at w.draws), record w { draws = suc w.draws })

  unfoldable pub generate_file_key : Exec Bytes
  generate_file_key w = (ok (env.key_at w.draws), record w { draws = suc w.draws })

  -- `Uuid::new_v4`.
  unfoldable pub new_v4 : Exec ℕ
  new_v4 w = (ok (env.uuid_at w.draws), record w { draws = suc w.draws })

-- `if let Some(cb) = progress { cb(done, total) }`; `reports` says that there is a callback.
unfoldable pub report : Bool → ℕ → ℕ → Exec (Unit {0})
report reports so_far total w =
    (ok tt, if reports then record w { progress = w.progress ++ ((so_far, total) ∷ []) } else w)

pub report_keeps :
    (reports : Bool) (so_far total : ℕ) (w : World)
    → ((report reports so_far total w).1.files ≡ w.files)
      × ((report reports so_far total w).1.draws ≡ w.draws)
unfolding report
report_keeps Bool.false so_far total w = (refl, refl)
report_keeps Bool.true so_far total w = (refl, refl)

-- `staged_blob_names.push(name)`.
unfoldable pub push_staged : Text → Exec (Unit {0})
push_staged name w = (ok tt, record w { staged = w.staged ++ (name ∷ []) })

-- `vec.clone()` of the names pushed so far, and `Vec::new()`.
unfoldable pub get_staged : Exec (List Text)
get_staged w = (ok w.staged, w)

unfoldable pub clear_staged : Exec (Unit {0})
clear_staged w = (ok tt, record w { staged = [] })
