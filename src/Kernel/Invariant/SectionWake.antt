-- ===== src/Kernel/Invariant/SectionWake.antt =====
-- A task that waits for a critical section gets ready when the section is left: source/kernel.cpp,
-- critical_section::leave, and source/scheduler/scheduler.hpp, checkWaitConditions.
use cortex_m3_rtos.Prelude.{ℕ, ◌≡◌, refl, Bool, true, update, done, arith}
use cortex_m3_rtos.Config.{max_events}
use cortex_m3_rtos.Api.{WaitResult, object_set}
use cortex_m3_rtos.Event
use cortex_m3_rtos.Handle
use cortex_m3_rtos.Handle.{ObjectType, Objects, test_condition, reset_state}
use cortex_m3_rtos.Handle.Alive.{InUse, SameSlots}
use cortex_m3_rtos.Task.Laws.{task_at}
use cortex_m3_rtos.Scheduler.{State, check_wait_conditions}
use cortex_m3_rtos.Scheduler.Invariant.Total.{ObjectsExist, ObjectsExist-kept}
use cortex_m3_rtos.Scheduler.Wake.{item_at}
use cortex_m3_rtos.Scheduler.Invariant.{WellFormed}
use cortex_m3_rtos.Kernel.{Kernel, lock_enter, lock_leave}
use cortex_m3_rtos.Kernel.EventApi.{put_events}
use cortex_m3_rtos.Kernel.SectionApi.{Section, leave}
use cortex_m3_rtos.Kernel.Invariant.{Well, lock_enter-Locked, lock_leave-Well}
use cortex_m3_rtos.Kernel.Invariant.Objects.{Locked-objects}
use cortex_m3_rtos.Kernel.Invariant.Signaled.{FirstWaiter, check_wait_conditions-signaled}

-- The events when `id` is set.
abbrev set_at_id : Event.Context → ℕ → Event.Context
set_at_id c id =
    let b = c.m_data in
    record {
      m_data = record b {
        m_data = update b.m_data id (record (b.m_data id) { m_state = Event.State.set_state });
      };
    }

set_event-eq :
    (c : Event.Context) (id : ℕ)
    → InUse max_events c.m_data id
    → Event.set_event c id ≡ done (set_at_id c id)
unfolding Event.set_event
set_event-eq c id h = ground arith

leave-eq :
    (k : Kernel) (section : Section)
    → section.m_lock_count ≡ 1
    → InUse max_events k.m_objects.events.m_data (Handle.get_id section.m_event)
    → leave k section
      ≡ done (
        record section { m_lock_count = 0 },
        lock_leave (
            put_events
              (lock_enter k)
              (set_at_id k.m_objects.events (Handle.get_id section.m_event))),
      )
unfolding leave lock_enter
leave-eq k section count used =
    rw (leave, count, set_event-eq k.m_objects.events (Handle.get_id section.m_event) used) refl

-- The contexts that checkWaitConditions looks at.
abbrev pub contexts_of : Kernel → State
contexts_of k = record { scheduler = k.m_scheduler; tasks = k.m_tasks; objects = k.m_objects }

-- In a state with the invariant of the kernel, where the objects that are waited for exist, a critical
-- section that is taken once, whose event exists, is left while the task in slot i of the wait list
-- waits for that event alone and for ever, and no earlier slot is for that event: leaving never stops
-- at an assertion, keeps the invariant and frees the section. The next time that all wait conditions
-- are checked never stops at an assertion either, and leaves the scheduler well-formed: behind it that task is ready,
-- with the result ObjectSet, and so is every task that was ready.
pub leave_wakes :
    (k : Kernel) (s : ℕ → Bool) (section : Section) (r : WaitResult) (now i : ℕ)
    → Well k s
    → section.m_lock_count ≡ 1
    → Handle.get_object_type section.m_event ≡ ObjectType.event
    → InUse max_events k.m_objects.events.m_data (Handle.get_id section.m_event)
    → ObjectsExist k.m_scheduler.m_wait_list k.m_objects
    → FirstWaiter (contexts_of k) section.m_event i
    → let id = (item_at (contexts_of k) i).m_id in
      (k' : Kernel) × (leave k section ≡ done (record section { m_lock_count = 0 }, k'))
      × Well k' s
      × (st' : State) × (s' : ℕ → Bool) × (check_wait_conditions (contexts_of k') r now ≡ done st')
      × WellFormed st'.scheduler st'.tasks s'
      × (s' id ≡ true)
      × ((task_at st'.tasks id).m_result ≡ object_set)
      × ((j : ℕ) → s j ≡ true → s' j ≡ true)
unfolding lock_enter lock_leave
leave_wakes k s section r now i h count type used exist w =
    let events = set_at_id k.m_objects.events (Handle.get_id section.m_event) in
    let o : Objects = record k.m_objects { events = events } in
    let k' = lock_leave (put_events (lock_enter k) events) in
    let ok : Well k' s = lock_leave-Well (Locked-objects o (lock_enter-Locked h)) h.runs_ready in
    let same : SameSlots k.m_objects o = record {
      events = λ j. refl;
      timers = λ j. refl;
      queues = λ j. refl;
    } in
    let exist' = ObjectsExist-kept k.m_scheduler.m_wait_list same exist in
    let event = Handle.get_id section.m_event in
    let st = contexts_of k' in
    let first : FirstWaiter st section.m_event i = record {
      inside = w.inside;
      taken = w.taken;
      waits = w.waits;
      first = w.first;
    } in
    let set : (o.events.m_data.m_data event).m_state ≡ Event.State.set_state = ground arith in
    let (st', s', checked, fine, ready, result, more) =
      check_wait_conditions-signaled st s r now section.m_event i ok.scheduled exist' type set
        first in
    (k', leave-eq k section count used, ok, st', s', checked, fine, ready, result, more)
