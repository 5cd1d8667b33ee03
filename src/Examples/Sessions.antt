-- ===== src/Examples/Sessions.antt =====
-- Runs of the theorems on sessions, on a platform whose functions keep their input.
use arx_runa.Prelude.{
  ◌+◌, ◌≤◌, ◌*◌, ◌-◌, ◌^◌, min, ◌≡◌, refl, true, false, none, some, [], ◌∷◌, ◌++◌, Bytes, codes,
  replicate, take, arith, ok, err,
}
use arx_runa.Auth.Errors.{invalid_credentials}
use arx_runa.Auth.Keys.{
  Argon2Params, Platform, SessionKeys, derive, derived_keys_are_initialized, is_initialized,
}
use arx_runa.Auth.Session.{
  SessionManager, to_timeout, active, is_active, gate_is_closed, with_timeout, authenticate,
  active_vault_id, wait_until, finalize_session_install,
}
use arx_runa.Auth.Session.Locking.{lock, run_timer, lock_begin}
use arx_runa.Auth.Session.Gate.{reserve, count, recheck, release, begin_operation}
use arx_runa.Auth.Session.Backoff.{failures, failures_backoff, authenticate_refused}
use arx_runa.Auth.Session.Overflow.{ended, begin_operation_closes}
use arx_runa.Auth.Session.Ending.{timeout_forgets_vault}
use arx_runa.Auth.Session.Soundness.{is_some}
use arx_runa.Auth.Session.Guards.{
  System, start, perform, finalizes, Step, Reach, here, next, calls, reserves, counts, rechecks,
  releases, lock_begins,
}
use arx_runa.Auth.Session.Guards.Safety.{
  IsDown, guard_keeps_keys, locking_grants_none, lock_completes,
}

abbrev platform : Platform
platform = record {
  params_valid = λ parameters. true;
  argon2id = λ parameters input salt. some (take 32 (input ++ replicate 32 7));
  hkdf_sha256 = λ salt key info. some (take 32 (info ++ key));
  memory_locks = λ n. true;
  task_joins = true;
  data_dir = codes "data" ∷ [];
  exists = λ path. true;
  open_store = λ path key. none;
}

abbrev parameters : Argon2Params
parameters = record { memory_cost_kib = 65_536; time_cost = 3; parallelism = 4 }

abbrev password : Bytes
password = codes "hunter2"

abbrev salt : Bytes
salt = replicate 32 1

abbrev keys : SessionKeys
keys = record {
  key_encryption_key = take 32 (codes "arx-runa-key-encryption" ++ password ++ replicate 32 7);
  sqlcipher_key = take 32 (codes "arx-runa-sqlcipher" ++ password ++ replicate 32 7);
  manifest_key = take 32 (codes "arx-runa-manifest-backup" ++ password ++ replicate 32 7);
  metadata_store = none;
}

derived_keys : derive platform password none salt parameters ≡ ok keys
unfolding derive
derived_keys = refl

initialized_keys : derived_keys_are_initialized keys ≡ true
unfolding derived_keys_are_initialized is_initialized
initialized_keys = refl

authenticate_refused_example :
    let (r, m') =
      authenticate platform password none salt parameters (codes "v") (with_timeout 900_000) in
    (r ≡ err invalid_credentials)
    × (m'.failed_attempts ≡ 1)
    × (m'.backoff_deadline ≡ some (wait_until none 0 + 1_000))
unfolding with_timeout
authenticate_refused_example =
    authenticate_refused platform password none salt parameters (codes "v") (with_timeout 900_000)
      keys refl refl derived_keys initialized_keys refl refl

failures_backoff_example :
    (failures 7 (with_timeout 900_000)).backoff_deadline
    ≡ some ((with_timeout 900_000).now + min 30_000 (1_000 * 2 ^ 6))
unfolding with_timeout
failures_backoff_example = failures_backoff 6 (with_timeout 900_000) refl (omega arith)

-- An installed session, and an operation that has begun in it.
abbrev vault_platform : Platform
vault_platform = record platform { exists = λ path. false }

abbrev installed : System
installed = record (start 900_000) {
  manager =
      perform vault_platform (finalizes keys (codes "v") (codes "v.db" ∷ []))
        (start 900_000).manager;
}

abbrev reserved : System
reserved = record installed {
  manager = record installed.manager { gate_and_counter = 1 };
  reserved = 1;
}

abbrev counted : System
counted = record reserved { manager = count reserved.manager; reserved = 0; counted = 1 }

abbrev granted : System
granted = record counted { counted = 0; granted = 1 }

abbrev locking : System
locking = record granted { manager = lock_begin granted.manager; locking = true }

abbrev waiting : System
waiting = record locking { manager = release locking.manager; granted = 0 }

installed_opens : reserve installed.manager ≡ some reserved.manager
unfolding with_timeout finalize_session_install derived_keys_are_initialized is_initialized reserve
installed_opens = refl

recheck_grants : recheck counted.manager ≡ (true, counted.manager)
unfolding count recheck
recheck_grants = refl

granted-Reach : Reach vault_platform 900_000 granted
unfolding recheck count
granted-Reach =
    next
      (next
        (next
          (next here (calls (start 900_000) (finalizes keys (codes "v") (codes "v.db" ∷ [])) refl))
          (reserves installed reserved.manager installed_opens (omega arith)))
        (counts reserved (omega arith)))
      (rechecks counted (omega arith))

locking-Reach : Reach vault_platform 900_000 locking
unfolding count finalize_session_install with_timeout derived_keys_are_initialized is_initialized
locking-Reach = next granted-Reach (lock_begins granted refl refl)

waiting-Reach : Reach vault_platform 900_000 waiting
waiting-Reach = next locking-Reach (releases locking (omega arith))

guard_keeps_keys_example :
    (is_active granted.manager.lifecycle ≡ true) × (is_some granted.manager.session ≡ true)
guard_keeps_keys_example = guard_keeps_keys vault_platform granted-Reach (omega arith)

locking_grants_none_example : waiting.granted ≤ locking.granted
locking_grants_none_example =
    locking_grants_none vault_platform locking-Reach refl (releases locking (omega arith))

lock_completes_example :
    (t : System) × Step vault_platform waiting t × IsDown waiting.manager t.manager
lock_completes_example = lock_completes vault_platform waiting-Reach refl (omega arith)

-- A session with an open gate, at its timeout.
abbrev late : SessionManager
late = record (with_timeout 900_000) {
  session = some keys;
  lifecycle = active;
  timer = some (to_timeout 900_000);
  timer_deadline = some 900_000;
  gate_and_counter = 0;
  vault_id = some (codes "v");
  vault_db_path = some (codes "v.db" ∷ []);
  now = 900_500;
}

begin_operation_closes_example :
    let (holds, m') = begin_operation (ended (2 ^ 31 - 1) late) in
    (holds ≡ false) × (gate_is_closed m'.gate_and_counter ≡ true) × (m'.lifecycle ≡ late.lifecycle)
unfolding with_timeout
begin_operation_closes_example = begin_operation_closes (2 ^ 31 - 1) late refl refl (omega arith)

timeout_forgets_vault_example :
    (run_timer (run_timer late) ≡ record (lock late) {
      vault_id = late.vault_id;
      vault_db_path = late.vault_db_path;
      timer_deadline = late.timer_deadline;
    })
    × (active_vault_id (run_timer (run_timer late)) ≡ late.vault_id)
    × (active_vault_id (lock late) ≡ none)
unfolding with_timeout
timeout_forgets_vault_example = timeout_forgets_vault late 900_000 refl refl (omega arith) refl
