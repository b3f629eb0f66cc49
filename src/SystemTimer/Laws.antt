-- ===== src/SystemTimer/Laws.antt =====
-- The round-robin interval: source/system_timer/system_timer.hpp.
use cortex_m3_rtos.Prelude.{ℕ, zero, suc, ◌+◌, ◌%◌, ◌<◌, ◌≡◌, true, false, ◌↔◌, u32_mod, arith}
use cortex_m3_rtos.Config.{context_switch_interval_ms}
use cortex_m3_rtos.SystemTimer.{Context, get, increment, is_interval_elapsed}

-- `n` ticks of a millisecond.
abbrev pub increments : ℕ → Context → Context
increments zero c = c
increments (suc n) c = increment (increments n c)

increments_lem :
    (n : ℕ) (c : Context)
    → c.m_current_time < u32_mod
    → ((increments n c).m_current_time ≡ (c.m_current_time + n) % u32_mod)
      × ((increments n c).m_old_time ≡ c.m_old_time)
unfolding increment
increments_lem zero c h = omega arith
increments_lem (suc n) c h = omega (arith, increments_lem n c h)

-- When n milliseconds, fewer than 2 ^ 32, have passed since the last time stamp, isIntervalElapsed
-- returns true exactly if n exceeds the interval, also when the clock has wrapped round; it then takes
-- a new time stamp, and changes nothing otherwise.
pub is_interval_elapsed_lem :
    (c : Context) (n : ℕ)
    → c.m_current_time < u32_mod
    → c.m_old_time ≡ c.m_current_time
    → n < u32_mod
    → let c' = increments n c in
      let r = is_interval_elapsed c' in
      ((r.0 ≡ true) ↔ (context_switch_interval_ms < n))
      × (r.0 ≡ true → r.1 ≡ record c' { m_old_time = get c' })
      × (r.0 ≡ false → r.1 ≡ c')
unfolding is_interval_elapsed get
is_interval_elapsed_lem c n h e lt = ground (arith, increments_lem n c h)
