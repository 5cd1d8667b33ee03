-- ===== src/Auth/Session/Locking.antt =====
-- The two ways in which a session ends: `lock`, and the timeout task `run_timer` of manager.rs. Both
-- close the gate, wait until no operation is counted, and take the session down.
use arx_runa.Prelude.{◌+◌, Option, none, some, List, [], ◌∷◌, ◌++◌, leb, ◌==◌, if◌then◌else◌}
use arx_runa.World.{FilePath}
use arx_runa.Auth.Session.{
  SessionManager, expired, timeout_warning, locked, Timer, to_warning, to_timeout, draining,
  pre_warning_seconds, close, is_active, cancel_timer,
}

abbrev pub added : List FilePath → Option FilePath → List FilePath
added paths none = paths
added paths (some path) = paths ++ (path ∷ [])

-- `take_rclone_conf_path`, and the deletion of the file if there was a path.
unfoldable pub destroy_rclone_conf : SessionManager → SessionManager
destroy_rclone_conf m = record m {
  rclone_conf_path = none;
  destroyed = added m.destroyed m.rclone_conf_path;
}

-- `lock` up to its wait.
unfoldable pub lock_begin : SessionManager → SessionManager
unfolding cancel_timer
lock_begin m = cancel_timer (record m { gate_and_counter = close m.gate_and_counter })

-- `lock` behind its wait.
unfoldable pub lock_end : SessionManager → SessionManager
unfolding destroy_rclone_conf
lock_end m =
    let closed = record (destroy_rclone_conf m) { session = none } in
    if is_active m.lifecycle
    then record closed {
      lifecycle = expired;
      vault_id = none;
      vault_db_path = none;
      events = m.events ++ (locked ∷ []);
    }
    else closed

-- `lock` when it is let through at once; where operations are in progress, as far as its wait.
unfoldable pub lock : SessionManager → SessionManager
unfolding lock_begin lock_end
lock m =
    if is_active m.lifecycle
    then (if m.operation_counter == 0 then lock_end (lock_begin m) else lock_begin m)
    else m

-- The timeout task behind its wait. It has ended then.
unfoldable pub timeout_end : SessionManager → SessionManager
unfolding destroy_rclone_conf
timeout_end m =
    let closed = record (destroy_rclone_conf m) { session = none; timer = none } in
    if is_active m.lifecycle
    then record closed { lifecycle = expired; events = m.events ++ (locked ∷ []) }
    else closed

-- What the task does next, if its sleep or its wait is over.
abbrev pub run_phase : Option Timer → SessionManager → SessionManager
run_phase none m = m
run_phase (some (to_warning until)) m =
    if leb until m.now
    then record m {
      events = m.events ++ (timeout_warning pre_warning_seconds ∷ []);
      timer = some (to_timeout (m.now + m.pre_warning_duration));
    }
    else m
run_phase (some (to_timeout until)) m =
    if leb until m.now
    then record m { gate_and_counter = close m.gate_and_counter; timer = some draining }
    else m
run_phase (some draining) m = if m.operation_counter == 0 then timeout_end m else m

unfoldable pub run_timer : SessionManager → SessionManager
unfolding timeout_end
run_timer m = run_phase m.timer m
