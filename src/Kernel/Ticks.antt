-- ===== src/Kernel/Ticks.antt =====
-- The tick while an API function holds the kernel lock: source/kernel.cpp, tick.
use cortex_m3_rtos.Prelude.{
  ℕ, zero, suc, ◌+◌, ◌%◌, ◌<◌, ◌≡◌, ◌≢◌, false, Outcome, done, ◌>>=◌, arith, u32_mod,
}
use cortex_m3_rtos.Api.{WaitResult}
use cortex_m3_rtos.Lock.{is_locked}
use cortex_m3_rtos.SystemTimer.{increment}
use cortex_m3_rtos.Kernel.{Kernel, tick, tail_chain, sys_tick_handler}

-- `n` interrupts of the system timer.
unfoldable pub ticks : ℕ → Kernel → WaitResult → Outcome Kernel
ticks zero k r = done k
ticks (suc n) k r = do k' ← sys_tick_handler k r; ticks n k' r

-- The kernel at time `t`.
abbrev pub at_time : Kernel → ℕ → Kernel
at_time k t = record k { m_system_timer = record k.m_system_timer { m_current_time = t } }

pub locked_tick :
    (k : Kernel) (r : WaitResult)
    → k.m_lock.m_interlock ≢ 0
    → k.cpu.pend_sv ≡ false
    → sys_tick_handler k r ≡ done (at_time k ((k.m_system_timer.m_current_time + 1) % u32_mod))
unfolding sys_tick_handler tick tail_chain is_locked increment
locked_tick k r locked clear = ground arith

-- While the kernel lock is held and no PendSV is pending, n interrupts of the system timer do not stop
-- and do not switch the context: they move the clock on by n milliseconds, with wrap-around, and
-- change nothing else, so that the lists the lock protects stay as they are.
pub locked_ticks :
    (n : ℕ) (k : Kernel) (r : WaitResult)
    → k.m_lock.m_interlock ≢ 0
    → k.cpu.pend_sv ≡ false
    → k.m_system_timer.m_current_time < u32_mod
    → ticks n k r ≡ done (at_time k ((k.m_system_timer.m_current_time + n) % u32_mod))
unfolding ticks
locked_ticks zero k r locked clear h = ground arith
locked_ticks (suc n) k r locked clear h =
    let t = (k.m_system_timer.m_current_time + 1) % u32_mod in
    let e : (t + n) % u32_mod ≡ (k.m_system_timer.m_current_time + suc n) % u32_mod = omega arith in
    rw (locked_tick k r locked clear, locked_ticks n (at_time k t) r locked clear (omega arith), e)
