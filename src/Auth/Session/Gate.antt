-- ===== src/Auth/Session/Gate.antt =====
-- `begin_operation` and the drop of its guard: manager.rs. A `begin_operation` is three steps on
-- shared state, and other calls may come between them.
use arx_runa.Prelude.{ℕ, ◌+◌, ◌-◌, ◌^◌, min, Bool, true, false, Option, none, some, if◌then◌else◌}
use arx_runa.Auth.Session.{SessionManager, gate_is_closed, counter_of}

-- `u32::saturating_add(1)`.
abbrev pub saturating_succ : ℕ → ℕ
saturating_succ n = min (2 ^ 32 - 1) (n + 1)

-- The exchange that succeeds; none if the gate is closed.
unfoldable pub reserve : SessionManager → Option SessionManager
reserve m =
    if gate_is_closed m.gate_and_counter
    then none
    else some (record m { gate_and_counter = saturating_succ (counter_of m.gate_and_counter) })

unfoldable pub count : SessionManager → SessionManager
count m = record m { operation_counter = saturating_succ m.operation_counter }

-- The drop of a guard that counts; also the undoing of `count`.
unfoldable pub release : SessionManager → SessionManager
release m = record m { operation_counter = m.operation_counter - 1 }

-- The check of the gate after `count`: whether the guard counts.
unfoldable pub recheck : SessionManager → Bool × SessionManager
unfolding release
recheck m = if gate_is_closed m.gate_and_counter then (false, release m) else (true, m)

abbrev pub after_reserve : SessionManager → Option SessionManager → Bool × SessionManager
after_reserve m none = (false, m)
after_reserve m (some m') = recheck (count m')

-- `begin_operation` with nothing in between.
unfoldable pub begin_operation : SessionManager → Bool × SessionManager
unfolding reserve count recheck
begin_operation m = after_reserve m (reserve m)
