-- ===== src/Kernel/SectionApi.antt =====
-- source/kernel.cpp, namespace kernel::critical_section. Messages are left out.
pub mod Steps
pub mod Places
pub mod Consistent
pub mod Moves
pub mod Uninterrupted
pub mod Exclusion
mod Examples
use cortex_m3_rtos.Prelude.{
  ℕ, true, false, Option, none, some, leb, ◌==◌, if◌then◌else◌, Outcome, done, ◌>>=◌, add32, sub32,
}
use cortex_m3_rtos.Api.{WaitResult}
use cortex_m3_rtos.Event
use cortex_m3_rtos.Handle
use cortex_m3_rtos.Handle.{ObjectType}
use cortex_m3_rtos.Scheduler
use cortex_m3_rtos.Kernel.{Kernel, lock_enter, lock_leave}
use cortex_m3_rtos.Kernel.EventApi
use cortex_m3_rtos.Kernel.EventApi.{put_events}
use cortex_m3_rtos.Kernel.SyncApi

-- critical_section::Context
pub record Section : Type 0 where
  pub m_lock_count : ℕ
  pub m_spin_lock : ℕ
  pub m_event : ℕ
  pub m_owner_task : ℕ

-- `none` is the result false; `some section` is true, with the context that it has set up.
unfoldable pub init : Kernel → ℕ → Outcome (Option Section × Kernel)
init k spin_lock = do
  let k1 = lock_enter k
  (created, events) ← Event.create k1.m_objects.events false 0
  elim created [
    | none ↦ done (none, lock_leave (put_events k1 events))
    | some id ↦ do
      events' ← Event.set_event events id
      let current = Scheduler.get_current_task_id k1.m_scheduler
      let section : Section = record {
        m_lock_count = 0;
        m_spin_lock = spin_lock;
        m_event = Handle.create ObjectType.event id;
        m_owner_task = Handle.create ObjectType.task current;
      }
      done (some section, lock_leave (put_events k1 events'))
  ]

unfoldable pub deinit : Kernel → Section → Outcome Kernel
deinit k s = do k' ← EventApi.destroy (lock_enter k) s.m_event; done (lock_leave k')

-- Where a task stands after a round of the loop of `enter`.
pub data Progress : Type 0 where
  entered : Progress
  spins : ℕ → Progress
  waits : Progress
  failed : WaitResult → Progress

-- A round of the loop of `enter` that nothing interrupts, with the counter `i`; Steps has its single
-- steps. After `waits` the task goes on when it has
-- been woken, with the counter 0; `failed` is a wait that returned at once.
unfoldable pub enter_round : Kernel → Section → ℕ → Outcome (Progress × Section × Kernel)
enter_round k s i =
    let k1 = lock_leave (lock_enter k) in
    if 0 == s.m_lock_count
    then done (entered, record s { m_lock_count = add32 s.m_lock_count 1 }, k1)
    else if leb s.m_spin_lock i
    then (do
      (returned, k2) ← SyncApi.wait_single_begin k1 s.m_event true 0
      done (elim returned [ none ↦ (waits, s, k2) | some r ↦ (failed r, s, k2) ]))
    else done (spins (add32 i 1), s, k1)

unfoldable pub leave : Kernel → Section → Outcome (Section × Kernel)
leave k s = do
  let k1 = lock_enter k
  let count = sub32 s.m_lock_count 1
  k2 ←
      if 0 == count
      then (do
        events ← Event.set_event k1.m_objects.events (Handle.get_id s.m_event)
        done (put_events k1 events))
      else done k1
  done (record s { m_lock_count = count }, lock_leave k2)
