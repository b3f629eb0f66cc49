-- ===== src/Kernel/TimerApi.antt =====
-- source/kernel.cpp, namespace kernel::timer. Messages are left out.
mod Laws
use cortex_m3_rtos.Prelude.{
  ℕ, Bool, true, false, Option, none, some, if◌then◌else◌, Outcome, done, ◌>>=◌,
}
use cortex_m3_rtos.SystemTimer
use cortex_m3_rtos.Timer
use cortex_m3_rtos.Handle
use cortex_m3_rtos.Handle.{ObjectType, Objects}
use cortex_m3_rtos.Kernel.{Kernel, lock_enter, lock_leave}

abbrev pub is_timer : ObjectType → Bool
is_timer ObjectType.timer = true
is_timer _ = false

abbrev pub put_timers : Kernel → Timer.Context → Kernel
put_timers k c = record k { m_objects = record k.m_objects { timers = c } }

-- `none` is the result false; `some handle` is true, with the handle in `a_handle`.
unfoldable pub create : Kernel → ℕ → Outcome (Option ℕ × Kernel)
create k interval = do
  let k1 = lock_enter k
  let current_time = SystemTimer.get k1.m_system_timer
  (created, timers) ← Timer.create k1.m_objects.timers current_time interval
  let k2 = put_timers k1 timers
  done (elim created [
    | none ↦ (none, lock_leave k2)
    | some id ↦ (some (Handle.create ObjectType.timer id), lock_leave k2)
  ])

-- What `destroy`, `start`, `restart` and `stop` share: `f` is the function of internal::timer.
abbrev pub on_timer : (Timer.Context → ℕ → Outcome Timer.Context) → Kernel → ℕ → Outcome Kernel
on_timer f k handle =
    if is_timer (Handle.get_object_type handle)
    then (do
      let k1 = lock_enter k
      timers ← f k1.m_objects.timers (Handle.get_id handle)
      done (lock_leave (put_timers k1 timers)))
    else done k

unfoldable pub destroy : Kernel → ℕ → Outcome Kernel
destroy k handle = on_timer Timer.destroy k handle

unfoldable pub start : Kernel → ℕ → Outcome Kernel
start k handle = on_timer Timer.start k handle

unfoldable pub restart : Kernel → ℕ → Outcome Kernel
restart k handle = on_timer Timer.restart k handle

unfoldable pub stop : Kernel → ℕ → Outcome Kernel
stop k handle = on_timer Timer.stop k handle
