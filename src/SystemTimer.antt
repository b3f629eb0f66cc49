-- ===== src/SystemTimer.antt =====
-- source/system_timer/system_timer.hpp: the time in milliseconds and the round-robin interval.
pub mod Laws
use cortex_m3_rtos.Prelude.{
  ℕ, ◌+◌, ◌-◌, ◌%◌, Bool, true, false, ltb, if◌then◌else◌, add32, sub32, arith,
}
use cortex_m3_rtos.Config.{context_switch_interval_ms}

pub record Context : Type 0 where
  pub m_old_time : ℕ
  pub m_current_time : ℕ

unfoldable pub get : Context → ℕ
get c = c.m_current_time

unfoldable pub increment : Context → Context
increment c = record c { m_current_time = add32 c.m_current_time 1 }

unfoldable pub is_interval_elapsed : Context → Bool × Context
is_interval_elapsed c =
    let diff_ms = sub32 c.m_current_time c.m_old_time in
    if ltb context_switch_interval_ms diff_ms
    then (true, record c { m_old_time = c.m_current_time })
    else (false, c)
