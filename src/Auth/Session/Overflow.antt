-- ===== src/Auth/Session/Overflow.antt =====
-- The counter in `gate_and_counter`: manager.rs counts the operations that begin, and nothing counts
-- them down.
use arx_runa.Prelude.{ℕ, zero, suc, ◌+◌, ◌<◌, ◌^◌, ◌≡◌, refl, true, false, arith}
use arx_runa.Auth.Session.{SessionManager, gate_is_closed}
use arx_runa.Auth.Session.Gate.{release, begin_operation}

-- A number of operations, each of which begins and ends.
unfoldable pub ended : ℕ → SessionManager → SessionManager
ended zero m = m
ended (suc n) m = release (begin_operation (ended n m)).1

ended_count :
    (n : ℕ) (m : SessionManager)
    → m.gate_and_counter ≡ 0
    → m.operation_counter ≡ 0
    → n < 2 ^ 31
    → ((ended n m).gate_and_counter ≡ n)
      × ((ended n m).operation_counter ≡ 0)
      × ((ended n m).lifecycle ≡ m.lifecycle)
unfolding ended begin_operation release
ended_count zero m g c h = (g, c, refl)
ended_count (suc n) m g c h = let ih = ended_count n m g c (omega arith) in ground arith

-- Up to 2^31 - 1 operations, each gets a guard that counts.
pub begin_operation_granted :
    (n : ℕ) (m : SessionManager)
    → m.gate_and_counter ≡ 0
    → m.operation_counter ≡ 0
    → n + 1 < 2 ^ 31
    → (begin_operation (ended n m)).0 ≡ true
unfolding begin_operation
begin_operation_granted n m g c h = let ih = ended_count n m g c (omega arith) in ground arith

-- The operation that makes 2^31 closes the gate of a session that stays active: its guard does not
-- count, though every operation before it has ended.
pub begin_operation_closes :
    (n : ℕ) (m : SessionManager)
    → m.gate_and_counter ≡ 0
    → m.operation_counter ≡ 0
    → n + 1 ≡ 2 ^ 31
    → let (holds, m') = begin_operation (ended n m) in
      (holds ≡ false) × (gate_is_closed m'.gate_and_counter ≡ true) × (m'.lifecycle ≡ m.lifecycle)
unfolding begin_operation
begin_operation_closes n m g c h = let ih = ended_count n m g c (omega arith) in ground arith
