-- ===== src/Kernel/SectionApi/Examples.antt =====
-- A section that task 7 enters, with an interrupt of the timer between the test and the increment.
use cortex_m3_rtos.Prelude.{ℕ, ◌+◌, ◌%◌, ◌≡◌, refl, update, arith, u32_mod}
use cortex_m3_rtos.Api.{WaitResult}
use cortex_m3_rtos.Kernel.{Kernel, lock_enter, lock_leave}
use cortex_m3_rtos.Kernel.Ticks.{at_time, locked_tick}
use cortex_m3_rtos.Kernel.SectionApi.{Section}
use cortex_m3_rtos.Kernel.SectionApi.Steps.{
  Place, outside, locks, tests, loads, stores, returns, inside, step,
}
use cortex_m3_rtos.Kernel.SectionApi.Places.{Run, begin, acts, interrupts}
use cortex_m3_rtos.Kernel.SectionApi.Exclusion.{mutual_exclusion}
use cortex_m3_rtos.Kernel.Invariant.{lock_enter-Locked}
use cortex_m3_rtos.Kernel.Invariant.Examples.{seven_nine, calm, calm-Well}

abbrev free : Section
free = record { m_lock_count = 0; m_spin_lock = 100; m_event = 0x2_0000; m_owner_task = 7 }

abbrev taken : Section
taken = record free { m_lock_count = 1 }

-- The kernel behind the interrupt.
abbrev ticked : Kernel
ticked = at_time (lock_enter calm) (((lock_enter calm).m_system_timer.m_current_time + 1) % u32_mod)

-- Task 7 takes the lock and finds the section free.
abbrev finds_free : ℕ → Place
finds_free = update (update (update (λ _. outside) 7 (locks 0)) 7 (tests 0)) 7 loads

tested : Run free free (lock_enter calm) finds_free
unfolding step lock_enter
tested = acts (acts (acts (begin calm seven_nine calm-Well) refl refl) refl refl) refl refl

interrupted : Run free free ticked finds_free
unfolding lock_enter
interrupted = interrupts tested refl WaitResult.wait_failed (
    locked_tick (lock_enter calm) WaitResult.wait_failed
      (λ z. absurd (omega (arith, z, (lock_enter-Locked calm-Well).locked))) refl)

-- It goes on, counts itself and releases the lock.
abbrev goes_inside : ℕ → Place
goes_inside = update (update (update finds_free 7 (stores 1)) 7 returns) 7 inside

entered : Run free taken (lock_leave ticked) goes_inside
unfolding step lock_enter
entered = acts (acts (acts interrupted refl refl) refl refl) refl refl

mutual_exclusion_example : (◌≡◌ {A = ℕ} 7 7) × (taken.m_lock_count ≡ 1)
mutual_exclusion_example = mutual_exclusion 7 7 refl entered refl refl
