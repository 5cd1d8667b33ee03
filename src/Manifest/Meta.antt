-- ===== src/Manifest/Meta.antt =====
-- Writes to `manifest_meta`: `set_meta` and `increment_snapshot_counter` of sqlcipher.rs.
pub mod Decimal
pub mod Counting
use arx_runa.Prelude.{
  ℕ, zero, suc, ◌+◌, ◌*◌, ◌/◌, ◌%◌, ◌^◌, Option, some, List, [], ◌∷◌, Text, codes, ltb, ◌===◌,
  if◌then◌else◌, Result, ok, err, ok_or,
}
use arx_runa.World.{Env, Exec, ◌>>=◌, ◌>>◌, pure, raise, lift}
use arx_runa.World.Files.{attempt}
use arx_runa.Storage.Error.{StorageError, database, not_found, constraint_violation}
use arx_runa.Storage.Validation.{parse_u64, is_immutable_manifest_meta_key}
use arx_runa.Manifest.Types.{Manifest}
use arx_runa.Manifest.Store.{transaction, get_manifest, put_manifest}

-- The decimal digits of a number, put before `out`.
unfoldable pub print_digits : ℕ → ℕ → Text → Text
print_digits zero n out = out
print_digits (suc fuel) n out =
    let rest = print_digits fuel (n / 10) ((b'0' + n % 10) ∷ out) in
    if ltb n 10 then (b'0' + n % 10) ∷ out else rest

-- `u64::to_string`: 2^64 has 20 digits.
unfoldable pub to_string : ℕ → Text
unfolding print_digits
to_string n = print_digits 20 n []

abbrev pub put_meta : Text → Text → Manifest → Manifest
put_meta key value m = record m {
  meta = λ other. if other === key then some value else m.meta other;
}

-- `u64::checked_add(1)`.
abbrev pub checked_succ : ℕ → Result StorageError ℕ
checked_succ n = if ltb (n + 1) (2 ^ 64) then ok (n + 1) else err database

module _ (env : Env) where
  unfoldable pub set_meta : Text → Text → Exec (Unit {0})
  unfolding attempt is_immutable_manifest_meta_key
  set_meta key value =
      if is_immutable_manifest_meta_key key
      then raise constraint_violation
      else transaction env
          (do attempt env database; m ← get_manifest; put_manifest (put_meta key value m))

  -- What `increment_snapshot_counter` does in its transaction.
  abbrev pub increments : Exec ℕ
  increments = do
    attempt env database
    m ← get_manifest
    current_value ← lift (ok_or (m.meta (codes "snapshot_counter")) not_found)
    current_parsed ← lift (ok_or (parse_u64 current_value) database)
    next_value ← lift (checked_succ current_parsed)
    attempt env database
    m' ← get_manifest
    put_manifest (put_meta (codes "snapshot_counter") (to_string next_value) m')
    pure next_value

  unfoldable pub increment_snapshot_counter : Exec ℕ
  unfolding attempt parse_u64 to_string
  increment_snapshot_counter = transaction env increments
