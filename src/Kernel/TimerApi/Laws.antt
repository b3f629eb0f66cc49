-- ===== src/Kernel/TimerApi/Laws.antt =====
-- The kernel lock in the functions on timers: source/kernel.cpp, namespace kernel::timer.
use cortex_m3_rtos.Prelude.{
  ℕ, ◌<◌, ◌≡◌, inl, inr, done, Outcome, if◌then◌else◌, arith, u32_mod, Bool-cases, Outcome-cases,
}
use cortex_m3_rtos.Lock
use cortex_m3_rtos.Timer
use cortex_m3_rtos.Handle
use cortex_m3_rtos.Kernel.{Kernel, lock_enter, lock_leave}
use cortex_m3_rtos.Kernel.TimerApi.{is_timer, put_timers, on_timer}

-- A function on the timer of a handle (destroy, start, restart and stop, by the function f of
-- internal::timer) that returns changes the timers only, so that it has released the kernel lock as
-- often as it has taken it; with the handle of an object of another type it changes nothing.
pub on_timer_lem :
    (f : Timer.Context → ℕ → Outcome Timer.Context) (k k' : Kernel) (handle : ℕ)
    → k.m_lock.m_interlock < u32_mod
    → on_timer f k handle ≡ done k'
    → k'
      ≡ (if is_timer (Handle.get_object_type handle) then put_timers k k'.m_objects.timers else k)
unfolding lock_enter lock_leave Lock.enter Lock.leave
on_timer_lem f k k' handle h e = elim (Bool-cases (is_timer (Handle.get_object_type handle))) [
  | inr other ↦ ground (arith, other, e)
  | inl timer ↦ elim (Outcome-cases (f k.m_objects.timers (Handle.get_id handle))) [
    | inl stops ↦ ground (arith, timer, stops, e)
    | inr (timers, r) ↦ ground (arith, timer, r, e)
  ]
]
