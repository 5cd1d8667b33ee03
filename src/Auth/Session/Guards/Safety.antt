-- ===== src/Auth/Session/Guards/Safety.antt =====
-- Keys stay resident while a guard that counts is held, and locks end: manager.rs.
use arx_runa.Prelude.{
  ℕ, ◌+◌, ◌<◌, ◌≤◌, ◌^◌, ◌≡◌, refl, ◌⊎◌, sym, ◌∙◌, true, false, Option, none, some, [], ◌∷◌, ◌++◌,
  arith,
}
use arx_runa.Auth.Keys.{Platform}
use arx_runa.Auth.Session.{
  SessionManager, expired, locked, gate_is_closed, is_active, with_timeout, Timer, to_warning,
  to_timeout, draining,
}
use arx_runa.Auth.Session.Locking.{added, lock_begin, lock_end, timeout_end, run_phase, run_timer}
use arx_runa.Auth.Session.Gate.{reserve, count, release, recheck}
use arx_runa.Auth.Session.Soundness.{
  IsSound, Keeps, is_some, authenticate-Keeps, finalize_session_install-Keeps,
  swap_active_session-Keeps, replace_metadata_store-Keeps, reset_timer-Keeps,
  set_rclone_conf_path-Keeps,
}
use arx_runa.Auth.Session.Guards.{
  Call, perform, System, start, Step, Reach, authenticates, finalizes, swaps, replaces,
  resets_timer, sets_rclone_conf_path, tick, reserves, counts, rechecks, releases, calls,
  lock_begins, lock_ends, timer_runs, here, next,
}

pub record Inv (s : System) : Type 0 where
  pub sound : IsSound s.manager
  pub balance : s.manager.operation_counter ≡ s.counted + s.granted
  pub few : s.reserved + s.counted + s.granted < 2 ^ 32
  pub held : 0 < s.granted → is_some s.manager.session ≡ true
  pub lock_closed : s.locking ≡ true → gate_is_closed s.manager.gate_and_counter ≡ true
  pub lock_alone : s.locking ≡ true → s.manager.timer ≡ none
  pub lock_active : s.locking ≡ true → is_active s.manager.lifecycle ≡ true

-- What a lock leaves of a session.
pub record IsDown (m m' : SessionManager) : Type 0 where
  pub no_keys : m'.session ≡ none
  pub over : m'.lifecycle ≡ expired
  pub shut : gate_is_closed m'.gate_and_counter ≡ true
  pub no_timer : m'.timer ≡ none
  pub no_vault : m'.vault_id ≡ none
  pub no_path : m'.vault_db_path ≡ none
  pub no_conf : m'.rclone_conf_path ≡ none
  pub conf_destroyed : m'.destroyed ≡ added m.destroyed m.rclone_conf_path
  pub told : m'.events ≡ m.events ++ (locked ∷ [])

perform-Keeps : (p : Platform) (c : Call) → Keeps (perform p c)
perform-Keeps p (authenticates password source salt parameters vault) =
    authenticate-Keeps p password source salt parameters vault
perform-Keeps p (finalizes keys vault path) = finalize_session_install-Keeps p keys vault path
perform-Keeps p (swaps keys vault) = swap_active_session-Keeps p keys vault
perform-Keeps p (replaces store) = replace_metadata_store-Keeps store
perform-Keeps p resets_timer = reset_timer-Keeps
perform-Keeps p (sets_rclone_conf_path path) = set_rclone_conf_path-Keeps path

start-Inv : (timeout : ℕ) → Inv (start timeout)
unfolding with_timeout
start-Inv timeout = ground arith

-- The timeout task, at each of its points.
run_phase-Inv :
    (s : System) (timer : Option Timer)
    → s.manager.timer ≡ timer
    → Inv s
    → Inv (record s { manager = run_phase timer s.manager })
unfolding timeout_end
run_phase-Inv s none e i = i
run_phase-Inv s (some (to_warning until)) e i = ground arith
run_phase-Inv s (some (to_timeout until)) e i = ground arith
run_phase-Inv s (some draining) e i = ground arith

module _ (p : Platform) where
  Step-Inv : {s t : System} → Step p s t → Inv s → Inv t
  unfolding reserve count recheck release lock_begin lock_end run_timer
  Step-Inv (tick s n) i = ground arith
  Step-Inv (reserves s m e few) i = ground arith
  Step-Inv (counts s h) i = ground arith
  Step-Inv (rechecks s h) i = ground arith
  Step-Inv (releases s h) i = ground arith
  Step-Inv (calls s c h) i = let k = perform-Keeps p c s.manager i.sound in ground arith
  Step-Inv (lock_begins s h is_on) i = ground arith
  Step-Inv (lock_ends s h none_counted) i = ground arith
  Step-Inv (timer_runs s) i = run_phase-Inv s s.manager.timer refl i

  Reach-Inv : {timeout : ℕ} {s : System} → Reach p timeout s → Inv s
  Reach-Inv {timeout} here = start-Inv timeout
  Reach-Inv (next r st) = Step-Inv st (Reach-Inv r)

  -- While an operation holds a guard that counts, the session is active and its keys are resident.
  pub guard_keeps_keys :
      {timeout : ℕ} {s : System}
      → Reach p timeout s
      → 0 < s.granted
      → (is_active s.manager.lifecycle ≡ true) × (is_some s.manager.session ≡ true)
  guard_keeps_keys {timeout} {s} r h =
      let i = Reach-Inv r in (sym i.sound.resident ∙ i.held h, i.held h)

  -- In every reachable state the keys are resident exactly if the session is active, and the gate is
  -- closed unless it is.
  pub resident_iff_active :
      {timeout : ℕ} {s : System}
      → Reach p timeout s
      → (is_some s.manager.session ≡ is_active s.manager.lifecycle)
        × ((is_active s.manager.lifecycle ≡ true)
            ⊎ (gate_is_closed s.manager.gate_and_counter ≡ true))
  resident_iff_active {timeout} {s} r = let i = Reach-Inv r in (i.sound.resident, ground arith)

  -- While a lock waits no step grants a guard that counts.
  pub locking_grants_none :
      {timeout : ℕ} {s t : System}
      → Reach p timeout s
      → s.locking ≡ true
      → Step p s t
      → t.granted ≤ s.granted
  unfolding recheck
  locking_grants_none r l (tick s n) = omega arith
  locking_grants_none r l (reserves s m e few) = omega arith
  locking_grants_none r l (counts s h) = omega arith
  locking_grants_none r l (rechecks s h) = let c = (Reach-Inv r).lock_closed l in ground arith
  locking_grants_none r l (releases s h) = omega arith
  locking_grants_none r l (calls s c h) = omega arith
  locking_grants_none r l (lock_begins s h is_on) = omega arith
  locking_grants_none r l (lock_ends s h none_counted) = omega arith
  locking_grants_none r l (timer_runs s) = omega arith

  -- A lock that waits, in a system that can be reached, can end as soon as no operation is counted. It
  -- leaves no keys, an expired session, a closed gate, no vault and the event `locked`. The deletion of
  -- the session's configuration file has then been tried, and its path is forgotten; that the file is
  -- gone is not stated, since its deletion may fail.
  pub lock_completes :
      {timeout : ℕ} {s : System}
      → Reach p timeout s
      → s.locking ≡ true
      → s.counted + s.granted ≡ 0
      → (t : System) × Step p s t × IsDown s.manager t.manager
  unfolding lock_end
  lock_completes {timeout} {s} r l none_left =
      let i = Reach-Inv r in
      (
        record s { manager = lock_end s.manager; locking = false },
        lock_ends s l (omega arith),
        ground arith,
      )
