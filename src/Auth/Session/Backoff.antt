-- ===== src/Auth/Session/Backoff.antt =====
-- How long the session manager makes the next attempt wait: `record_failed_attempt` and
-- `authenticate` of manager.rs.
use arx_runa.Prelude.{
  ℕ, zero, suc, ◌+◌, ◌*◌, ◌^◌, ◌≤◌, ◌<◌, ◌-◌, ◌%◌, min, ◌≡◌, refl, true, false, Option, none, some,
  Text, Bytes, arith, Result, ok, err,
}
use arx_runa.Auth.Errors.{KeySourceError, invalid_credentials}
use arx_runa.Auth.Keys.{Argon2Params, Platform, SessionKeys, derive, derived_keys_are_initialized}
use arx_runa.Auth.Session.{
  SessionManager, delay, record_failed_attempt, is_active, wait_until, authenticate, vault_db_path,
  open_database,
}

pow_pos : (n : ℕ) → 1 ≤ 2 ^ n
pow_pos zero = omega arith
pow_pos (suc n) = omega (arith, pow_pos n)

-- From the sixth attempt on the cap decides.
capped : (n : ℕ) → min 30_000 (1_000 * 2 ^ min n 5) ≡ min 30_000 (1_000 * 2 ^ n)
capped zero = refl
capped (suc zero) = refl
capped (suc (suc zero)) = refl
capped (suc (suc (suc zero))) = refl
capped (suc (suc (suc (suc zero)))) = refl
capped (suc (suc (suc (suc (suc n))))) =
    let e : min (suc (suc (suc (suc (suc n))))) 5 ≡ 5 = omega arith in
    rw e (omega (arith, pow_pos n))

delay-suc : (n : ℕ) → n + 1 < 2 ^ 32 → delay (n + 1) ≡ min 30_000 (1_000 * 2 ^ n)
unfolding delay
delay-suc n h = let e : (n + 1 + 2 ^ 32 - 1) % 2 ^ 32 ≡ n = omega arith in rw e (capped n)

-- A number of failures in a row.
abbrev pub failures : ℕ → SessionManager → SessionManager
failures zero m = m
failures (suc n) m = record_failed_attempt (failures n m)

failures_count :
    (n : ℕ) (m : SessionManager)
    → m.failed_attempts ≡ 0
    → n < 2 ^ 32
    → ((failures n m).failed_attempts ≡ n) × ((failures n m).now ≡ m.now)
unfolding record_failed_attempt
failures_count zero m h k = (h, refl)
failures_count (suc n) m h k = let ih = failures_count n m h (omega arith) in omega arith

-- After n + 1 failures in a row the next attempt waits for 2^n seconds, or for 30 where that is
-- less.
pub failures_backoff :
    (n : ℕ) (m : SessionManager)
    → m.failed_attempts ≡ 0
    → n + 1 < 2 ^ 32
    → (failures (suc n) m).backoff_deadline ≡ some (m.now + min 30_000 (1_000 * 2 ^ n))
unfolding record_failed_attempt
failures_backoff n m h k =
    let (c, t) = failures_count n m h (omega arith) in
    let d = delay-suc n k in
    let e : ((failures n m).failed_attempts + 1) % 2 ^ 32 ≡ n + 1 = omega arith in rw (e, t, d)

abbrev pub supplied : Option Bytes → Option (Result KeySourceError Bytes)
supplied none = none
supplied (some bytes) = some (ok bytes)

-- The database refuses the keys: a wrong password, or a wrong key file. Whatever has failed before,
-- the attempt leaves one failed attempt, and the next waits for a second.
pub authenticate_refused :
    (p : Platform) (password : Bytes) (key_file : Option Bytes) (salt : Bytes)
    (parameters : Argon2Params) (vault : Text) (m : SessionManager) (keys : SessionKeys)
    → is_active m.lifecycle ≡ false
    → p.task_joins ≡ true
    → derive p password key_file salt parameters ≡ ok keys
    → derived_keys_are_initialized keys ≡ true
    → p.exists (vault_db_path p vault) ≡ true
    → p.open_store (vault_db_path p vault) keys.sqlcipher_key ≡ none
    → let (r, m') = authenticate p password (supplied key_file) salt parameters vault m in
      (r ≡ err invalid_credentials)
      × (m'.failed_attempts ≡ 1)
      × (m'.backoff_deadline ≡ some (wait_until m.backoff_deadline m.now + 1_000))
unfolding authenticate open_database record_failed_attempt
authenticate_refused p password none salt parameters vault m keys idle joins derives init found
      refused =
    ground arith
authenticate_refused p password (some k) salt parameters vault m keys idle joins derives init found
      refused =
    ground arith
