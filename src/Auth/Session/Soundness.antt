-- ===== src/Auth/Session/Soundness.antt =====
-- What every call of the session manager keeps: manager.rs.
use arx_runa.Prelude.{
  ℕ, ◌<◌, ◌^◌, ◌≡◌, refl, ◌∙◌, if◌then◌else◌, Bool, true, false, inl, inr, Option, none, some, Text,
  Bytes, arith, Result, Result-cases, ok, err,
}
use arx_runa.World.{FilePath}
use arx_runa.Auth.Errors.{
  KeySourceError, AuthenticationError, invalid_credentials, session_not_active, not_found,
  invalid_size, io_failed, memory_lock_failed,
}
use arx_runa.Auth.Keys.{Argon2Params, Platform, SessionKeys, derive, derived_keys_are_initialized}
use arx_runa.Auth.Session.{
  SessionManager, draining, gate_is_closed, is_active, Auth, after, ◌>>=◌, ◌>>◌, change,
  refuse_unless, open_session, accept_keys, derive_keys, use_key_file, finalize, swapped, replaced,
  swap_in, none_inactive, restart_timer, reset_timer, install, with_timeout, record_failed_attempt,
  set_rclone_conf_path, authenticate, finalize_session_install, swap_active_session,
  replace_metadata_store, read_key_file, derived, opened_or_failed, open_database, vault_db_path,
  none_active, wait_backoff, check_initialized, reset_failures, attempt_failed, opened_or, path_or,
  keys_or,
}

abbrev pub is_some {ℓ} : {A : Type ℓ} → Option A → Bool
is_some none = false
is_some (some a) = true

-- The gate is open in an active session only, and the keys are resident exactly in an active
-- session.
pub record IsSound (m : SessionManager) : Type 0 where
  pub fits : m.gate_and_counter < 2 ^ 32
  pub open_active : gate_is_closed m.gate_and_counter ≡ false → is_active m.lifecycle ≡ true
  pub resident : is_some m.session ≡ is_active m.lifecycle
  pub drains_closed : m.timer ≡ some draining → gate_is_closed m.gate_and_counter ≡ true

-- A call leaves the count of operations alone, does not end an active session, and keeps what
-- `IsSound` says.
abbrev pub Kept : SessionManager → SessionManager → Type 0
Kept m m' =
    IsSound m'
    × (m'.operation_counter ≡ m.operation_counter)
    × (is_active m.lifecycle ≡ true → is_active m'.lifecycle ≡ true)

abbrev pub Keeps : (SessionManager → SessionManager) → Type 0
Keeps f = (m : SessionManager) → IsSound m → Kept m (f m)

abbrev pub Keeping : {A : Type 0} → Auth A → Type 0
Keeping a = Keeps (λ m. (a m).1)

unchanged : {m : SessionManager} → IsSound m → Kept m m
unchanged s = (s, refl, λ h. h)

Kept_trans : (m m' m'' : SessionManager) → Kept m m' → Kept m' m'' → Kept m m''
Kept_trans m m' m'' k l = (l.0, l.1 ∙ k.1, λ h. l.2 (k.2 h))

pub with_timeout-IsSound : (timeout : ℕ) → IsSound (with_timeout timeout)
unfolding with_timeout
with_timeout-IsSound timeout = ground arith

restart_timer-Keeps : Keeps restart_timer
unfolding restart_timer
restart_timer-Keeps m s = ground arith

record_failed_attempt-Keeps : Keeps record_failed_attempt
unfolding record_failed_attempt
record_failed_attempt-Keeps m s = ground arith

install-Keeps :
    (keys : SessionKeys) (vault : Text) (path : FilePath) → Keeps (install keys vault path)
unfolding install
install-Keeps keys vault path m s = ground arith

module _ {A B : Type 0} where
  after-Keeps :
      (r : Result AuthenticationError A × SessionManager) (f : A → Auth B) (m : SessionManager)
      → ((a : A) → Keeping (f a))
      → Kept m r.1
      → Kept m (after r f).1
  after-Keeps (ok a, m') f m k s = Kept_trans m m' (f a m').1 s (k a m' s.0)
  after-Keeps (err e, m') f m k s = s

  bind-Keeping :
      (a : Auth A) (f : A → Auth B) → Keeping a → ((x : A) → Keeping (f x)) → Keeping (a >>= f)
  bind-Keeping a f k l m s = after-Keeps (a m) f m l (k m s)

  then-Keeping : (a : Auth A) (b : Auth B) → Keeping a → Keeping b → Keeping (a >> b)
  then-Keeping a b k l = bind-Keeping a (λ _. b) k (λ _. l)

none_active-Keeps : Keeping none_active
none_active-Keeps m s = ground arith

wait_backoff-Keeps : Keeping wait_backoff
wait_backoff-Keeps m s = ground arith

read_key_file-Keeps :
    (source : Option (Result KeySourceError Bytes)) → Keeping (read_key_file source)
read_key_file-Keeps none m s = unchanged s
read_key_file-Keeps (some (ok bytes)) m s = unchanged s
read_key_file-Keeps (some (err not_found)) m s = unchanged s
read_key_file-Keeps (some (err (invalid_size n))) m s = unchanged s
read_key_file-Keeps (some (err io_failed)) m s = record_failed_attempt-Keeps m s

derived-Keeps : (r : Result AuthenticationError SessionKeys) → Keeping (derived r)
derived-Keeps (ok keys) m s = unchanged s
derived-Keeps (err memory_lock_failed) m s = unchanged s
derived-Keeps (err _) m s = record_failed_attempt-Keeps m s

check_initialized-Keeps : (keys : SessionKeys) → Keeping (check_initialized keys)
check_initialized-Keeps keys m s = ground (arith, record_failed_attempt-Keeps m s)

derive_or_fail-Keeps :
    (joins : Bool) (r : Result AuthenticationError SessionKeys)
    → Keeping (if joins then derived r else attempt_failed)
derive_or_fail-Keeps true r = derived-Keeps r
derive_or_fail-Keeps false r = record_failed_attempt-Keeps

opened_or_failed-Keeps :
    (p : Platform) (r : Result AuthenticationError (Option ℕ)) → Keeping (opened_or_failed p r)
opened_or_failed-Keeps p (ok store) m s = unchanged s
opened_or_failed-Keeps p (err e) m s = record_failed_attempt-Keeps m s

reset_failures-Keeps : Keeps reset_failures
reset_failures-Keeps m s = ground arith

module _ (p : Platform) where
  refuse_unless-Keeps : (test : Bool) (e : AuthenticationError) → Keeping (refuse_unless p test e)
  refuse_unless-Keeps true e m s = unchanged s
  refuse_unless-Keeps false e m s = unchanged s

  open_session-Keeps : (vault : Text) (keys : SessionKeys) → Keeping (open_session p vault keys)
  open_session-Keeps vault keys =
      let r = open_database p (vault_db_path p vault) keys.sqlcipher_key in
      bind-Keeping (opened_or_failed p r)
        (λ store.
          change (install (record keys { metadata_store = store }) vault (vault_db_path p vault)))
        (opened_or_failed-Keeps p r)
        (λ store.
          install-Keeps (record keys { metadata_store = store }) vault (vault_db_path p vault))

  accept_keys-Keeps : (vault : Text) (keys : SessionKeys) → Keeping (accept_keys p vault keys)
  accept_keys-Keeps vault keys =
      then-Keeping (check_initialized keys)
        (change reset_failures >>= λ _. open_session p vault keys) (check_initialized-Keeps keys)
        (then-Keeping (change reset_failures) (open_session p vault keys) reset_failures-Keeps
          (open_session-Keeps vault keys))

  pub authenticate-Keeps :
      (password : Bytes) (source : Option (Result KeySourceError Bytes)) (salt : Bytes)
      (parameters : Argon2Params) (vault : Text)
      → Keeping (authenticate p password source salt parameters vault)
  unfolding authenticate
  authenticate-Keeps password source salt parameters vault =
      let rest = read_key_file source >>= use_key_file p password salt parameters vault in
      then-Keeping none_active (wait_backoff >>= λ _. rest) none_active-Keeps (
        then-Keeping wait_backoff rest wait_backoff-Keeps (
          bind-Keeping (read_key_file source) (use_key_file p password salt parameters vault)
            (read_key_file-Keeps source)
            (λ key_file.
              bind-Keeping (derive_keys p password salt parameters key_file) (accept_keys p vault)
                (derive_or_fail-Keeps p.task_joins (derive p password key_file salt parameters))
                (accept_keys-Keeps vault))))

  opened_or-Keeps : {A : Type 0} (r : Result AuthenticationError A) → Keeping (opened_or p r)
  opened_or-Keeps r m s = unchanged s

  finalize-Keeps :
      (keys : SessionKeys) (vault : Text) (path : FilePath) (store : Option ℕ)
      → Keeping (finalize p keys vault path store)
  finalize-Keeps keys vault path store m s =
      let t = reset_failures-Keeps m s in
      let whole = record keys { metadata_store = store } in
      let failed_none = reset_failures m in
      Kept_trans m failed_none (install whole vault path failed_none) t
        (install-Keeps whole vault path failed_none t.0)

  pub finalize_session_install-Keeps :
      (keys : SessionKeys) (vault : Text) (path : FilePath)
      → Keeping (finalize_session_install p keys vault path)
  unfolding finalize_session_install
  finalize_session_install-Keeps keys vault path =
      let r = open_database p path keys.sqlcipher_key in
      let initialized = refuse_unless p (derived_keys_are_initialized keys) invalid_credentials in
      let rest = opened_or p r >>= finalize p keys vault path in
      then-Keeping initialized (none_active >>= λ _. rest)
        (refuse_unless-Keeps (derived_keys_are_initialized keys) invalid_credentials)
        (then-Keeping none_active rest none_active-Keeps (
          bind-Keeping (opened_or p r) (finalize p keys vault path) (opened_or-Keeps r)
            (finalize-Keeps keys vault path)))

  swapped-Keeps :
      (keys : SessionKeys) (vault : Text) (store : Option ℕ) (m : SessionManager)
      → is_active m.lifecycle ≡ true
      → IsSound m
      → Kept m (swapped p keys vault store m)
  unfolding restart_timer
  swapped-Keeps keys vault store m active s = ground arith

  -- What runs in an active session.
  swap_in-Keeps :
      (keys : SessionKeys) (vault : Text) (path : FilePath) (m : SessionManager)
      → is_active m.lifecycle ≡ true
      → IsSound m
      → Kept m (swap_in p keys vault path m).1
  swap_in-Keeps keys vault path m active s =
      elim (Result-cases (open_database p path keys.sqlcipher_key)) [
        | inl (store, e) ↦ rw e (swapped-Keeps keys vault store m active s)
        | inr (error, e) ↦ rw e (unchanged s)
      ]

  path_or-Keeps :
      (keys : SessionKeys) (vault : Text) (path : Option FilePath) (m : SessionManager)
      → is_active m.lifecycle ≡ true
      → IsSound m
      → Kept m (after (path_or path m) (swap_in p keys vault)).1
  path_or-Keeps keys vault none m active s = unchanged s
  path_or-Keeps keys vault (some path) m active s = swap_in-Keeps keys vault path m active s

  refuse_then-Keeps :
      (test : Bool) (e : AuthenticationError) (a : Auth (Unit {0})) (m : SessionManager)
      → IsSound m
      → (test ≡ true → Kept m (a m).1)
      → Kept m (after (refuse_unless p test e m) (λ _. a)).1
  refuse_then-Keeps true e a m s k = k refl
  refuse_then-Keeps false e a m s k = unchanged s

  pub swap_active_session-Keeps :
      (keys : SessionKeys) (vault : Text) → Keeping (swap_active_session p keys vault)
  unfolding swap_active_session
  swap_active_session-Keeps keys vault m s =
      let rest : Auth (Unit {0}) = (λ m'. path_or m'.vault_db_path m') >>= swap_in p keys vault in
      refuse_then-Keeps (derived_keys_are_initialized keys) invalid_credentials
        (none_inactive p >>= λ _. rest) m s
        λ _.
          refuse_then-Keeps (is_active m.lifecycle) session_not_active rest m s
            λ active. path_or-Keeps keys vault m.vault_db_path m active s

replace-Keeps :
    (keys : Option SessionKeys) (store : Option ℕ) (m : SessionManager)
    → is_some keys ≡ is_active m.lifecycle
    → IsSound m
    → Kept m (after (keys_or keys m) (replaced store)).1
replace-Keeps none store m e s = unchanged s
replace-Keeps (some keys) store m e s = ground arith

pub replace_metadata_store-Keeps : (store : Option ℕ) → Keeping (replace_metadata_store store)
unfolding replace_metadata_store
replace_metadata_store-Keeps store m s = replace-Keeps m.session store m s.resident s

pub reset_timer-Keeps : Keeps reset_timer
unfolding reset_timer restart_timer
reset_timer-Keeps m s = ground arith

pub set_rclone_conf_path-Keeps : (path : FilePath) → Keeps (set_rclone_conf_path path)
unfolding set_rclone_conf_path
set_rclone_conf_path-Keeps path m s = ground arith
