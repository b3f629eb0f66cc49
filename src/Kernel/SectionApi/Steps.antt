-- ===== src/Kernel/SectionApi/Steps.antt =====
-- source/kernel.cpp, critical_section::enter and leave in single steps, between which the timer can
-- interrupt and other tasks can run: every call of another function and every access to m_lockCount is a step.
use cortex_m3_rtos.Prelude.{
  ℕ, true, none, some, leb, ◌==◌, if◌then◌else◌, Outcome, done, halted, ◌>>=◌, add32, sub32,
}
use cortex_m3_rtos.Api.{object_set}
use cortex_m3_rtos.Event
use cortex_m3_rtos.Handle
use cortex_m3_rtos.Kernel.{Kernel, lock_enter, lock_leave}
use cortex_m3_rtos.Kernel.EventApi.{put_events}
use cortex_m3_rtos.Kernel.SyncApi.{wait_single_begin, wait_end}
use cortex_m3_rtos.Kernel.SectionApi.{Section}

-- What a task does next: nothing with the section, or a step of `enter` with the counter `i`, or it is
-- inside, or a step of `leave`. The value to be stored in m_lockCount is in a register.
pub data Place : Type 0 where
  outside : Place
  locks tests : ℕ → Place
  loads : Place
  stores : ℕ → Place
  returns : Place
  unlocks spins : ℕ → Place
  waits : Place
  inside : Place
  leave_locks leave_loads : Place
  leave_stores : ℕ → Place
  leave_tests leave_unlocks : Place

-- The wait of `enter`, up to its system call; a wait that fails ends in a breakpoint.
unfoldable pub start_wait : Section → Kernel → Outcome (Place × Section × Kernel)
start_wait s k = do
  (returned, k') ← wait_single_begin k s.m_event true 0
  elim returned [ none ↦ done (waits, s, k') | some r ↦ halted ]

-- The wait, when the task runs again; the counter is 0.
unfoldable pub end_wait : Section → Kernel → Outcome (Place × Section × Kernel)
end_wait s k = do
  (result, index, k') ← wait_end k
  elim result [ object_set ↦ done (locks 0, s, k') | _ ↦ halted ]

-- The event of a section that is free is set.
unfoldable pub signal : Section → Kernel → Outcome (Place × Section × Kernel)
signal s k = do
  events ← Event.set_event k.m_objects.events (Handle.get_id s.m_event)
  done (leave_unlocks, s, put_events k events)

-- A step of the task that runs. From `outside` it calls `enter`, from `inside` it calls `leave`.
unfoldable pub step : Place → Section → Kernel → Outcome (Place × Section × Kernel)
step outside s k = done (locks 0, s, k)
step (locks i) s k = done (tests i, s, lock_enter k)
step (tests i) s k = done (if 0 == s.m_lock_count then loads else unlocks i, s, k)
step loads s k = done (stores (add32 s.m_lock_count 1), s, k)
step (stores n) s k = done (returns, record s { m_lock_count = n }, k)
step returns s k = done (inside, s, lock_leave k)
step (unlocks i) s k = done (spins i, s, lock_leave k)
step (spins i) s k = if leb s.m_spin_lock i then start_wait s k else done (locks (add32 i 1), s, k)
step waits s k = end_wait s k
step inside s k = done (leave_locks, s, k)
step leave_locks s k = done (leave_loads, s, lock_enter k)
step leave_loads s k = done (leave_stores (sub32 s.m_lock_count 1), s, k)
step (leave_stores n) s k = done (leave_tests, record s { m_lock_count = n }, k)
step leave_tests s k = if 0 == s.m_lock_count then signal s k else done (leave_unlocks, s, k)
step leave_unlocks s k = done (outside, s, lock_leave k)
