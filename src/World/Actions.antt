-- ===== src/World/Actions.antt =====
-- The world and the actions on it.
use arx_runa.Prelude.{ℕ, Option, List, Result, ok, err, Text, Bytes}
use arx_runa.World.Paths.{FilePath}
use arx_runa.Storage.Error.{StorageError}
use arx_runa.Manifest.Types.{Manifest}

pub record World : Type 0 where
  pub files : FilePath → Option Bytes
  pub manifest : Manifest
  -- How many calls have been made, and how many random values have been drawn.
  pub calls : ℕ
  pub draws : ℕ
  -- The caller's `staged_blob_names`, and the calls of the progress callback, newest last.
  pub staged : List Text
  pub progress : List (ℕ × ℕ)

abbrev pub Exec : Type 0 → Type 0
Exec A = World → Result StorageError A × World

abbrev pub continue : {A B : Type 0} → Result StorageError A → (A → Exec B) → Exec B
continue (ok a) f w = f a w
continue (err e) f w = (err e, w)

infixl 10 ◌>>=◌ ◌>>◌
abbrev pub ◌>>=◌ : {A B : Type 0} → Exec A → (A → Exec B) → Exec B
◌>>=◌ m f w = let (r, w') = m w in continue r f w'

abbrev pub ◌>>◌ : {A B : Type 0} → Exec A → Exec B → Exec B
m >> n = m >>= λ _. n

abbrev pub pure : {A : Type 0} → A → Exec A
pure a w = (ok a, w)

abbrev pub raise : {A : Type 0} → StorageError → Exec A
raise e w = (err e, w)

abbrev pub lift : {A : Type 0} → Result StorageError A → Exec A
lift r w = (r, w)

-- Runs `handler` when the action fails, and fails all the same.
abbrev pub recover : {A : Type 0} → Result StorageError A → Exec (Unit {0}) → Exec A
recover (ok a) handler w = (ok a, w)
recover (err e) handler w = (err e, (handler w).1)

abbrev pub on_error : {A : Type 0} → Exec A → Exec (Unit {0}) → Exec A
on_error m handler w = let (r, w') = m w in recover r handler w'

-- `let _ = m`: the result is dropped.
abbrev pub ignore : {A : Type 0} → Exec A → Exec (Unit {0})
ignore m w = (ok tt, (m w).1)
