-- ===== src/Auth/Session/Guards.antt =====
-- Operations, locks, the timeout task and the calls of manager.rs, interleaved in any order. What
-- `lock` or the task does behind its wait is one step. Operations are anonymous, so the state has how
-- many stand at each point of `begin_operation`.
pub mod Safety
use arx_runa.Prelude.{
  ℕ, ◌+◌, ◌-◌, ◌<◌, ◌≤◌, ◌^◌, ◌≡◌, refl, sym, ◌∙◌, Bool, true, false, Option, none, some, List, [],
  ◌∷◌, ◌++◌, Text, Bytes, arith, Result,
}
use arx_runa.World.{FilePath}
use arx_runa.Auth.Errors.{KeySourceError}
use arx_runa.Auth.Keys.{Argon2Params, Platform, SessionKeys}
use arx_runa.Auth.Session.{
  SessionManager, active, expired, locked, gate_is_closed, is_active, with_timeout, reset_timer,
  set_rclone_conf_path, authenticate, finalize_session_install, swap_active_session,
  replace_metadata_store, Timer, to_warning, to_timeout, draining,
}
use arx_runa.Auth.Session.Locking.{lock_begin, lock_end, timeout_end, run_phase, run_timer}
use arx_runa.Auth.Session.Gate.{reserve, count, release, recheck}
use arx_runa.Auth.Session.Soundness.{
  IsSound, is_some, with_timeout-IsSound, authenticate-Keeps, finalize_session_install-Keeps,
  swap_active_session-Keeps, replace_metadata_store-Keeps, reset_timer-Keeps,
  set_rclone_conf_path-Keeps,
}

-- The calls that no operation waits in.
pub data Call : Type 0 where
  authenticates : Bytes → Option (Result KeySourceError Bytes) → Bytes → Argon2Params → Text → Call
  finalizes : SessionKeys → Text → FilePath → Call
  swaps : SessionKeys → Text → Call
  replaces : Option ℕ → Call
  resets_timer : Call
  sets_rclone_conf_path : FilePath → Call

abbrev pub perform : Platform → Call → SessionManager → SessionManager
perform p (authenticates password source salt parameters vault) m =
    (authenticate p password source salt parameters vault m).1
perform p (finalizes keys vault path) m = (finalize_session_install p keys vault path m).1
perform p (swaps keys vault) m = (swap_active_session p keys vault m).1
perform p (replaces store) m = (replace_metadata_store store m).1
perform p resets_timer m = reset_timer m
perform p (sets_rclone_conf_path path) m = set_rclone_conf_path path m

-- How many operations have reserved, have counted, and hold a guard that counts; and whether a
-- `lock` waits.
pub record System : Type 0 where
  pub manager : SessionManager
  pub reserved : ℕ
  pub counted : ℕ
  pub granted : ℕ
  pub locking : Bool

abbrev pub start : ℕ → System
start timeout = record {
  manager = with_timeout timeout;
  reserved = 0;
  counted = 0;
  granted = 0;
  locking = false;
}

abbrev pub one : Bool → ℕ
one true = 1
one false = 0

-- Neither a second lock nor another call begins while a lock waits; there are fewer than 2^32
-- operations at once.
pub data Step (p : Platform) : System → System → Type 0 where
  tick :
      (s : System) (n : ℕ)
      → Step p s (record s { manager = record s.manager { now = s.manager.now + n } })
  reserves :
      (s : System) (m : SessionManager)
      → reserve s.manager ≡ some m
      → s.reserved + s.counted + s.granted + 1 < 2 ^ 32
      → Step p s (record s { manager = m; reserved = s.reserved + 1 })
  counts :
      (s : System)
      → 0 < s.reserved
      → Step p s (record s {
        manager = count s.manager;
        reserved = s.reserved - 1;
        counted = s.counted + 1;
      })
  rechecks :
      (s : System)
      → 0 < s.counted
      → Step p s (record s {
        manager = (recheck s.manager).1;
        counted = s.counted - 1;
        granted = s.granted + one (recheck s.manager).0;
      })
  releases :
      (s : System)
      → 0 < s.granted
      → Step p s (record s { manager = release s.manager; granted = s.granted - 1 })
  calls :
      (s : System) (c : Call)
      → s.locking ≡ false
      → Step p s (record s { manager = perform p c s.manager })
  lock_begins :
      (s : System)
      → s.locking ≡ false
      → is_active s.manager.lifecycle ≡ true
      → Step p s (record s { manager = lock_begin s.manager; locking = true })
  lock_ends :
      (s : System)
      → s.locking ≡ true
      → s.manager.operation_counter ≡ 0
      → Step p s (record s { manager = lock_end s.manager; locking = false })
  timer_runs : (s : System) → Step p s (record s { manager = run_timer s.manager })

pub data Reach (p : Platform) (timeout : ℕ) : System → Type 0 where
  here : Reach p timeout (start timeout)
  next : {s t : System} → Reach p timeout s → Step p s t → Reach p timeout t
