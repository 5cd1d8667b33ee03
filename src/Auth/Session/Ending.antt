-- ===== src/Auth/Session/Ending.antt =====
-- What is left of a session that has ended: `lock` against the timeout task of manager.rs.
use arx_runa.Prelude.{ℕ, ◌≤◌, ◌≡◌, true, none, some, arith}
use arx_runa.Auth.Session.{SessionManager, is_active, active_vault_id, to_timeout}
use arx_runa.Auth.Session.Locking.{run_timer, lock}

-- A session that times out while no operation is counted ends as `lock` ends it, but for the
-- vault's identifier, the database path and the deadline, which stay: `active_vault_id` still
-- gives the vault that is locked.
pub timeout_forgets_vault :
    (m : SessionManager) (until : ℕ)
    → is_active m.lifecycle ≡ true
    → m.timer ≡ some (to_timeout until)
    → until ≤ m.now
    → m.operation_counter ≡ 0
    → (run_timer (run_timer m) ≡ record (lock m) {
      vault_id = m.vault_id;
      vault_db_path = m.vault_db_path;
      timer_deadline = m.timer_deadline;
    })
      × (active_vault_id (run_timer (run_timer m)) ≡ m.vault_id)
      × (active_vault_id (lock m) ≡ none)
unfolding run_timer lock active_vault_id
timeout_forgets_vault m until on_ t due idle = ground arith
