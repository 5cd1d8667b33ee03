-- ===== src/Auth/Session.antt =====
-- src-tauri/src/auth/session/manager.rs: the state of the session manager, and what each call does
-- to it. Instants and durations are in milliseconds. The calls that wait for operations to end are
-- in Session/Locking, with the timeout task.
pub mod Locking
pub mod Gate
pub mod Backoff
pub mod Soundness
pub mod Guards
pub mod Overflow
pub mod Ending
use arx_runa.Prelude.{
  ℕ, ◌+◌, ◌-◌, ◌*◌, ◌/◌, ◌%◌, ◌^◌, min, max, Bool, true, false, not, ◌&&◌, Option, none, some, List,
  [], ◌∷◌, ◌++◌, Text, Bytes, codes, ltb, leb, ◌==◌, if◌then◌else◌, Result, ok, err,
}
use arx_runa.World.{FilePath, join}
use arx_runa.Auth.Errors.{
  KeySourceError, not_found, invalid_size, io_failed, AuthenticationError, invalid_credentials,
  key_file_not_found, memory_lock_failed, session_already_active, session_not_active,
}
use arx_runa.Auth.Keys.{Argon2Params, Platform, SessionKeys, derive, derived_keys_are_initialized}

pub data LifecycleState : Type 0 where
  no_session active expired : LifecycleState

pub data SessionEvent : Type 0 where
  timeout_warning : ℕ → SessionEvent
  locked : SessionEvent

-- Where the timeout task is: asleep until the warning or the timeout, or past it and waiting for
-- operations to end.
pub data Timer : Type 0 where
  to_warning to_timeout : ℕ → Timer
  draining : Timer

pub record SessionManager : Type 0 where
  pub session : Option SessionKeys
  pub lifecycle : LifecycleState
  pub timeout : ℕ
  pub pre_warning_duration : ℕ
  pub timer : Option Timer
  pub operation_counter : ℕ
  pub gate_and_counter : ℕ
  pub failed_attempts : ℕ
  pub backoff_deadline : Option ℕ
  -- What was sent on the channel, newest last.
  pub events : List SessionEvent
  pub timer_deadline : Option ℕ
  pub vault_id : Option Text
  pub vault_db_path : Option FilePath
  pub rclone_conf_path : Option FilePath
  -- The files that `destroy_session_rclone_conf` was called on, newest last, and the clock.
  pub destroyed : List FilePath
  pub now : ℕ

abbrev pub pre_warning_seconds : ℕ
pre_warning_seconds = 60

abbrev pub gate_closed_flag : ℕ
gate_closed_flag = 2 ^ 31

-- The flag is the highest bit of 32: `state & GATE_CLOSED_FLAG` and `state & COUNTER_MASK`.
abbrev pub gate_is_closed : ℕ → Bool
gate_is_closed state = leb gate_closed_flag state

abbrev pub counter_of : ℕ → ℕ
counter_of state = state % gate_closed_flag

-- `fetch_or(GATE_CLOSED_FLAG)` and `fetch_and(!GATE_CLOSED_FLAG)`.
abbrev pub close : ℕ → ℕ
close state = counter_of state + gate_closed_flag

abbrev pub reopen : ℕ → ℕ
reopen state = counter_of state

abbrev pub is_active : LifecycleState → Bool
is_active no_session = false
is_active active = true
is_active expired = false

unfoldable pub with_timeout : ℕ → SessionManager
with_timeout timeout = record {
  session = none;
  lifecycle = no_session;
  timeout = timeout;
  pre_warning_duration = pre_warning_seconds * 1000;
  timer = none;
  operation_counter = 0;
  gate_and_counter = gate_closed_flag;
  failed_attempts = 0;
  backoff_deadline = none;
  events = [];
  timer_deadline = none;
  vault_id = none;
  vault_db_path = none;
  rclone_conf_path = none;
  destroyed = [];
  now = 0;
}

abbrev pub Auth : Type 0 → Type 0
Auth A = SessionManager → Result AuthenticationError A × SessionManager

abbrev pub after :
    {A B : Type 0}
    → Result AuthenticationError A × SessionManager
    → (A → Auth B)
    → Result AuthenticationError B × SessionManager
after (ok a, m) f = f a m
after (err e, m) f = (err e, m)

infixl 10 ◌>>=◌ ◌>>◌
abbrev pub ◌>>=◌ : {A B : Type 0} → Auth A → (A → Auth B) → Auth B
◌>>=◌ a f m = after (a m) f

abbrev pub ◌>>◌ : {A B : Type 0} → Auth A → Auth B → Auth B
a >> b = a >>= λ _. b

abbrev pub change : (SessionManager → SessionManager) → Auth (Unit {0})
change f m = (ok tt, f m)

abbrev pub wait_until : Option ℕ → ℕ → ℕ
wait_until none now = now
wait_until (some deadline) now = max deadline now

-- min(30 s, 2^(attempts - 1) s), with the arithmetic of `u32`.
unfoldable pub delay : ℕ → ℕ
delay attempts = min 30_000 (1_000 * 2 ^ min ((attempts + 2 ^ 32 - 1) % 2 ^ 32) 5)

unfoldable pub record_failed_attempt : SessionManager → SessionManager
unfolding delay
record_failed_attempt m =
    let attempts = (m.failed_attempts + 1) % 2 ^ 32 in
    record m { failed_attempts = attempts; backoff_deadline = some (m.now + delay attempts) }

unfoldable pub cancel_timer : SessionManager → SessionManager
cancel_timer m = record m { timer = none; timer_deadline = none }

-- What the task sleeps for first.
abbrev pub first_sleep : ℕ → ℕ → ℕ → Timer
first_sleep timeout pre_warning_duration now =
    if ltb 0 pre_warning_duration && ltb pre_warning_duration timeout
    then to_warning (now + (timeout - pre_warning_duration))
    else to_timeout (now + timeout)

unfoldable pub restart_timer : SessionManager → SessionManager
unfolding cancel_timer
restart_timer m = record (cancel_timer m) {
  timer = some (first_sleep m.timeout m.pre_warning_duration m.now);
  timer_deadline = some (m.now + m.timeout);
}

unfoldable pub reset_timer : SessionManager → SessionManager
unfolding restart_timer
reset_timer m = if is_active m.lifecycle then restart_timer m else m

unfoldable pub set_rclone_conf_path : FilePath → SessionManager → SessionManager
set_rclone_conf_path path m = record m { rclone_conf_path = some path }

abbrev pub none_active : Auth (Unit {0})
none_active m = if is_active m.lifecycle then (err session_already_active, m) else (ok tt, m)

abbrev pub wait_backoff : Auth (Unit {0})
wait_backoff = change λ m. record m { now = wait_until m.backoff_deadline m.now }

-- What the key source gives, and whether its failure counts as an attempt.
abbrev pub read_key_file : Option (Result KeySourceError Bytes) → Auth (Option Bytes)
read_key_file none m = (ok none, m)
read_key_file (some (ok bytes)) m = (ok (some bytes), m)
read_key_file (some (err not_found)) m = (err key_file_not_found, m)
read_key_file (some (err (invalid_size actual))) m = (err key_file_not_found, m)
read_key_file (some (err io_failed)) m = (err invalid_credentials, record_failed_attempt m)

-- A failed derivation is an attempt, but for a failure to lock memory.
abbrev pub derived : Result AuthenticationError SessionKeys → Auth SessionKeys
derived (ok keys) m = (ok keys, m)
derived (err memory_lock_failed) m = (err memory_lock_failed, m)
derived (err e) m = (err e, record_failed_attempt m)

abbrev pub attempt_failed : {A : Type 0} → Auth A
attempt_failed m = (err invalid_credentials, record_failed_attempt m)

abbrev pub check_initialized : SessionKeys → Auth (Unit {0})
check_initialized keys m =
    if derived_keys_are_initialized keys
    then (ok tt, m)
    else (err invalid_credentials, record_failed_attempt m)

abbrev pub reset_failures : SessionManager → SessionManager
reset_failures m = record m { failed_attempts = 0; backoff_deadline = none }

abbrev pub store_or : Option ℕ → Result AuthenticationError (Option ℕ)
store_or none = err invalid_credentials
store_or (some store) = ok (some store)

-- The keys are resident, the state is active, and the gate is open.
unfoldable pub install : SessionKeys → Text → FilePath → SessionManager → SessionManager
unfolding restart_timer
install keys vault_id db_path m = restart_timer (record m {
  session = some keys;
  lifecycle = active;
  gate_and_counter = reopen m.gate_and_counter;
  vault_id = some vault_id;
  vault_db_path = some db_path;
})

abbrev pub path_or : Option FilePath → Auth FilePath
path_or none m = (err session_not_active, m)
path_or (some path) m = (ok path, m)

abbrev pub keys_or : Option SessionKeys → Auth SessionKeys
keys_or none m = (err session_not_active, m)
keys_or (some keys) m = (ok keys, m)

module _ (p : Platform) where
  unfoldable pub vault_db_path : Text → FilePath
  unfolding join
  vault_db_path vault_id =
      join (join (join (join p.data_dir (codes "arx-runa")) (codes "vaults")) vault_id)
        (codes "vault.db")

  -- The handle if there is a database, none if there is no file.
  unfoldable pub open_database : FilePath → Bytes → Result AuthenticationError (Option ℕ)
  open_database db_path sqlcipher_key =
      if p.exists db_path then store_or (p.open_store db_path sqlcipher_key) else ok none

  abbrev pub opened_or_failed : {A : Type 0} → Result AuthenticationError A → Auth A
  opened_or_failed (ok store) m = (ok store, m)
  opened_or_failed (err e) m = (err e, record_failed_attempt m)

  abbrev pub opened_or : {A : Type 0} → Result AuthenticationError A → Auth A
  opened_or r m = (r, m)

  -- `authenticate` from the check of the database on.
  abbrev pub open_session : Text → SessionKeys → Auth (Unit {0})
  open_session vault keys = do
    store ← opened_or_failed (open_database (vault_db_path vault) keys.sqlcipher_key)
    change (install (record keys { metadata_store = store }) vault (vault_db_path vault))

  abbrev pub accept_keys : Text → SessionKeys → Auth (Unit {0})
  accept_keys vault keys = do check_initialized keys; change reset_failures; open_session vault keys

  abbrev pub derive_keys : Bytes → Bytes → Argon2Params → Option Bytes → Auth SessionKeys
  derive_keys password salt parameters key_file =
      if p.task_joins then derived (derive p password key_file salt parameters) else attempt_failed

  abbrev pub use_key_file : Bytes → Bytes → Argon2Params → Text → Option Bytes → Auth (Unit {0})
  use_key_file password salt parameters vault key_file =
      derive_keys password salt parameters key_file >>= accept_keys vault

  unfoldable pub authenticate :
      Bytes → Option (Result KeySourceError Bytes) → Bytes → Argon2Params → Text → Auth (Unit {0})
  unfolding open_database install record_failed_attempt
  authenticate password source salt parameters vault = do
    none_active
    wait_backoff
    read_key_file source >>= use_key_file password salt parameters vault

  -- The reservation is the permit of `authenticate_gate`, which one caller holds at a time.
  unfoldable pub reserve_session_install : Auth (Unit {0})
  reserve_session_install = do none_active; wait_backoff

  abbrev pub refuse_unless : Bool → AuthenticationError → Auth (Unit {0})
  refuse_unless test e m = if test then (ok tt, m) else (err e, m)

  abbrev pub finalize : SessionKeys → Text → FilePath → Option ℕ → Auth (Unit {0})
  finalize keys vault db_path store =
      change λ m. install (record keys { metadata_store = store }) vault db_path (reset_failures m)

  unfoldable pub finalize_session_install : SessionKeys → Text → FilePath → Auth (Unit {0})
  unfolding open_database install
  finalize_session_install keys vault db_path = do
    refuse_unless (derived_keys_are_initialized keys) invalid_credentials
    none_active
    opened_or (open_database db_path keys.sqlcipher_key) >>= finalize keys vault db_path

  abbrev pub none_inactive : Auth (Unit {0})
  none_inactive m = refuse_unless (is_active m.lifecycle) session_not_active m

  abbrev pub swapped : SessionKeys → Text → Option ℕ → SessionManager → SessionManager
  swapped new_keys vault store m =
      let with_keys = record m { session = some (record new_keys { metadata_store = store }) } in
      record (restart_timer with_keys) { vault_id = some vault }

  abbrev pub swap_in : SessionKeys → Text → FilePath → Auth (Unit {0})
  swap_in new_keys vault db_path =
      opened_or (open_database db_path new_keys.sqlcipher_key) >>= λ store.
      change (swapped new_keys vault store)

  unfoldable pub swap_active_session : SessionKeys → Text → Auth (Unit {0})
  unfolding open_database restart_timer
  swap_active_session new_keys vault = do
    refuse_unless (derived_keys_are_initialized new_keys) invalid_credentials
    none_inactive
    (λ m. path_or m.vault_db_path m) >>= swap_in new_keys vault

unfoldable pub with_key_encryption_key : {R : Type 0} → (Bytes → R) → Auth R
with_key_encryption_key callback = do
  keys ← (λ m. keys_or m.session m)
  (λ m. (ok (callback keys.key_encryption_key), m))

unfoldable pub with_sqlcipher_key : {R : Type 0} → (Bytes → R) → Auth R
with_sqlcipher_key callback = do
  keys ← (λ m. keys_or m.session m)
  (λ m. (ok (callback keys.sqlcipher_key), m))

unfoldable pub with_manifest_key : {R : Type 0} → (Bytes → R) → Auth R
with_manifest_key callback = do
  keys ← (λ m. keys_or m.session m)
  (λ m. (ok (callback keys.manifest_key), m))

abbrev pub store_of : Option SessionKeys → Option ℕ
store_of none = none
store_of (some keys) = keys.metadata_store

unfoldable pub get_metadata_store : SessionManager → Option ℕ
get_metadata_store m = store_of m.session

abbrev pub replaced : Option ℕ → SessionKeys → Auth (Unit {0})
replaced store keys =
    change λ m. record m { session = some (record keys { metadata_store = store }) }

unfoldable pub replace_metadata_store : Option ℕ → Auth (Unit {0})
replace_metadata_store store = (λ m. keys_or m.session m) >>= replaced store

unfoldable pub active_vault_id : SessionManager → Option Text
active_vault_id m = m.vault_id

abbrev pub seconds_left : ℕ → Option ℕ → Option ℕ
seconds_left now none = none
seconds_left now (some deadline) = some (if ltb now deadline then (deadline - now) / 1000 else 0)

unfoldable pub remaining_seconds : SessionManager → Option ℕ
remaining_seconds m = if is_active m.lifecycle then seconds_left m.now m.timer_deadline else none
