-- ===== src/Kernel/Invariant/Objects.antt =====
-- The functions on timers, events and queues leave the invariant of the kernel.
use cortex_m3_rtos.Prelude.{
  ℕ, Bool, not, ◌||◌, inl, inr, none, some, ◌==◌, Outcome, Bool-cases, Outcome-cases,
}
use cortex_m3_rtos.Memory.{Memory}
use cortex_m3_rtos.Event
use cortex_m3_rtos.Timer
use cortex_m3_rtos.Queue
use cortex_m3_rtos.SystemTimer
use cortex_m3_rtos.Handle
use cortex_m3_rtos.Handle.{Objects}
use cortex_m3_rtos.Kernel.{Kernel, lock_enter, lock_leave}
use cortex_m3_rtos.Kernel.EventApi
use cortex_m3_rtos.Kernel.EventApi.{is_event, put_events, on_event}
use cortex_m3_rtos.Kernel.TimerApi
use cortex_m3_rtos.Kernel.TimerApi.{is_timer, put_timers, on_timer}
use cortex_m3_rtos.Kernel.QueueApi
use cortex_m3_rtos.Kernel.QueueApi.{is_queue, put_queues}
use cortex_m3_rtos.Kernel.Calls.{kernel_second, kernel_third}
use cortex_m3_rtos.Kernel.Invariant.{
  Well, Locked, Leaves, Sound, stops, leaves, lock_enter-Locked, lock_leave-Well,
}

-- The invariant does not depend on the objects and on the memory.
pub Well-objects :
    {k : Kernel} {s : ℕ → Bool} (o : Objects) (m : Memory)
    → Well k s
    → Well (record k { m_objects = o; memory = m }) s
Well-objects o m h = record {
  scheduled = h.scheduled;
  runs_ready = h.runs_ready;
  unlocked = h.unlocked;
  no_switch = h.no_switch;
}

pub Locked-objects :
    {k : Kernel} {s : ℕ → Bool} (o : Objects) → Locked k s → Locked (record k { m_objects = o }) s
Locked-objects o h = record { scheduled = h.scheduled; locked = h.locked; no_switch = h.no_switch }

module _ (k : Kernel) (s : ℕ → Bool) (h : Well k s) where
  pub on_event-Sound :
      (f : Event.Context → ℕ → Outcome Event.Context) (handle : ℕ) → Sound (on_event f k handle)
  on_event-Sound f handle = elim (Bool-cases (is_event (Handle.get_object_type handle))) [
    | inr e ↦ rw e (leaves k s h)
    | inl e ↦ elim (Outcome-cases (f k.m_objects.events (Handle.get_id handle))) [
      | inl r ↦ rw (e, r) stops
      | inr (c, r) ↦
          rw (e, r) (leaves _ s (Well-objects (record k.m_objects { events = c }) k.memory h))
    ]
  ]

  pub create_event-Leaves :
      (manual_reset : Bool) (name : ℕ) → Leaves kernel_second (EventApi.create k manual_reset name)
  unfolding EventApi.create
  create_event-Leaves b name = elim (Outcome-cases (Event.create k.m_objects.events b name)) [
    | inl r ↦ rw r stops
    | inr ((none, c), r) ↦
        rw r (leaves _ s (Well-objects (record k.m_objects { events = c }) k.memory h))
    | inr ((some id, c), r) ↦
        rw r (leaves _ s (Well-objects (record k.m_objects { events = c }) k.memory h))
  ]

  pub on_timer-Sound :
      (f : Timer.Context → ℕ → Outcome Timer.Context) (handle : ℕ) → Sound (on_timer f k handle)
  unfolding lock_enter
  on_timer-Sound f handle = elim (Bool-cases (is_timer (Handle.get_object_type handle))) [
    | inr e ↦ rw e (leaves k s h)
    | inl e ↦ elim (Outcome-cases (f k.m_objects.timers (Handle.get_id handle))) [
      | inl r ↦ rw (e, r) stops
      | inr (c, r) ↦
          rw (e, r)
            (leaves _ s (
              lock_leave-Well
                (Locked-objects (record k.m_objects { timers = c }) (lock_enter-Locked h))
                h.runs_ready))
    ]
  ]

  pub create_timer-Leaves : (interval : ℕ) → Leaves kernel_second (TimerApi.create k interval)
  unfolding TimerApi.create lock_enter
  create_timer-Leaves interval =
      let made : (c : Timer.Context) → Well (lock_leave (put_timers (lock_enter k) c)) s = λ c.
        lock_leave-Well (Locked-objects (record k.m_objects { timers = c }) (lock_enter-Locked h))
          h.runs_ready in
      elim (Outcome-cases
        (Timer.create k.m_objects.timers (SystemTimer.get k.m_system_timer) interval)) [
          | inl r ↦ rw r stops
          | inr ((none, c), r) ↦ rw r (leaves _ s (made c))
          | inr ((some id, c), r) ↦ rw r (leaves _ s (made c))
        ]

  pub create_queue-Leaves :
      (handle size type_size buffer name : ℕ)
      → Leaves kernel_third (QueueApi.create k handle size type_size buffer name)
  unfolding QueueApi.create
  create_queue-Leaves handle size type_size buffer name =
      elim (Bool-cases ((size == 0 || type_size == 0) || buffer == 0)) [
        | inl bad ↦ rw (QueueApi.create, bad) (leaves _ s h)
        | inr good ↦
            elim (Outcome-cases (Queue.create k.m_objects.queues size type_size buffer name)) [
              | inl r ↦ rw (QueueApi.create, good, r) stops
              | inr ((none, c), r) ↦
                  rw (QueueApi.create, good, r)
                    (leaves _ s (Well-objects (record k.m_objects { queues = c }) k.memory h))
              | inr ((some id, c), r) ↦
                  rw (QueueApi.create, good, r)
                    (leaves _ s (Well-objects (record k.m_objects { queues = c }) k.memory h))
            ]
      ]

  pub destroy_queue-Sound : (handle : ℕ) → Sound (QueueApi.destroy k handle)
  unfolding QueueApi.destroy
  destroy_queue-Sound handle = elim (Bool-cases (is_queue (Handle.get_object_type handle))) [
    | inr e ↦ rw e (leaves k s h)
    | inl e ↦ elim (Outcome-cases (Queue.destroy k.m_objects.queues (Handle.get_id handle))) [
      | inl r ↦ rw (e, r) stops
      | inr (c, r) ↦
          rw (e, r) (leaves _ s (Well-objects (record k.m_objects { queues = c }) k.memory h))
    ]
  ]

  pub send-Leaves : (handle ap_data : ℕ) → Leaves kernel_second (QueueApi.send k handle ap_data)
  unfolding QueueApi.send
  send-Leaves handle ap_data =
      elim (Bool-cases (not (is_queue (Handle.get_object_type handle)) || ap_data == 0)) [
        | inl bad ↦ rw (QueueApi.send, bad) (leaves _ s h)
        | inr good ↦
            elim (Outcome-cases
              (Queue.send k.m_objects.queues k.memory (Handle.get_id handle) ap_data)) [
                | inl r ↦ rw (QueueApi.send, good, r) stops
                | inr ((_, c, m), r) ↦
                    rw (QueueApi.send, good, r)
                      (leaves _ s (Well-objects (record k.m_objects { queues = c }) m h))
              ]
      ]

  pub receive-Leaves :
      (handle ap_data : ℕ) → Leaves kernel_second (QueueApi.receive k handle ap_data)
  unfolding QueueApi.receive
  receive-Leaves handle ap_data =
      elim (Bool-cases (not (is_queue (Handle.get_object_type handle)) || ap_data == 0)) [
        | inl bad ↦ rw (QueueApi.receive, bad) (leaves _ s h)
        | inr good ↦
            elim (Outcome-cases
              (Queue.receive k.m_objects.queues k.memory (Handle.get_id handle) ap_data)) [
                | inl r ↦ rw (QueueApi.receive, good, r) stops
                | inr ((_, c, m), r) ↦
                    rw (QueueApi.receive, good, r)
                      (leaves _ s (Well-objects (record k.m_objects { queues = c }) m h))
              ]
      ]
