-- ===== src/Kernel/EventApi.antt =====
-- source/kernel.cpp, namespace kernel::event. Messages are left out.
use cortex_m3_rtos.Prelude.{
  ℕ, Bool, true, false, Option, none, some, ◌==◌, if◌then◌else◌, Outcome, done, ◌>>=◌,
}
use cortex_m3_rtos.Event
use cortex_m3_rtos.Handle
use cortex_m3_rtos.Handle.{ObjectType, Objects}
use cortex_m3_rtos.Kernel.{Kernel}

abbrev pub is_event : ObjectType → Bool
is_event ObjectType.event = true
is_event _ = false

abbrev pub put_events : Kernel → Event.Context → Kernel
put_events k c = record k { m_objects = record k.m_objects { events = c } }

-- `none` is the result false; `some handle` is true, with the handle in `a_handle`.
unfoldable pub create : Kernel → Bool → ℕ → Outcome (Option ℕ × Kernel)
create k manual_reset name = do
  (created, events) ← Event.create k.m_objects.events manual_reset name
  let k' = put_events k events
  done (elim created [
    | none ↦ (none, k')
    | some id ↦ (some (Handle.create ObjectType.event id), k')
  ])

-- `open`. `none` is the result false; `some handle` is true, with the handle in `a_handle`.
unfoldable pub open_event : Kernel → ℕ → Outcome (Option ℕ)
open_event k name = if name == 0 then done none else (do
  opened ← Event.open_event k.m_objects.events name
  done (elim opened [ none ↦ none | some id ↦ some (Handle.create ObjectType.event id) ]))

-- What `destroy`, `set` and `reset` share: `f` is the function of internal::event.
abbrev pub on_event : (Event.Context → ℕ → Outcome Event.Context) → Kernel → ℕ → Outcome Kernel
on_event f k handle =
    if is_event (Handle.get_object_type handle)
    then (do events ← f k.m_objects.events (Handle.get_id handle); done (put_events k events))
    else done k

unfoldable pub destroy : Kernel → ℕ → Outcome Kernel
destroy k handle = on_event Event.destroy k handle

-- `set`
unfoldable pub set_event : Kernel → ℕ → Outcome Kernel
set_event k handle = on_event Event.set_event k handle

-- `reset`
unfoldable pub reset_event : Kernel → ℕ → Outcome Kernel
reset_event k handle = on_event Event.reset_event k handle
