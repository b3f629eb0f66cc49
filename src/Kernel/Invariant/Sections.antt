-- ===== src/Kernel/Invariant/Sections.antt =====
-- Critical sections leave the invariant of the kernel: source/kernel.cpp, kernel::critical_section.
use cortex_m3_rtos.Prelude.{
  ℕ, ◌≡◌, Bool, true, false, inl, inr, Option, none, some, leb, ◌==◌, sub32, Outcome, done, ◌>>=◌,
  Bool-cases, Outcome-cases,
}
use cortex_m3_rtos.Api.{WaitResult}
use cortex_m3_rtos.Event
use cortex_m3_rtos.Handle
use cortex_m3_rtos.Kernel.{Kernel, lock_enter, lock_leave}
use cortex_m3_rtos.Kernel.EventApi
use cortex_m3_rtos.Kernel.EventApi.{is_event}
use cortex_m3_rtos.Kernel.SyncApi.{wait_single_begin}
use cortex_m3_rtos.Kernel.SectionApi.{Section, waits, failed, init, deinit, enter_round, leave}
use cortex_m3_rtos.Kernel.Calls.{kernel_second, kernel_third}
use cortex_m3_rtos.Kernel.Invariant.{
  Well, Leaves, Sound, stops, leaves, lock_enter-Locked, lock_leave-Well,
}
use cortex_m3_rtos.Kernel.Invariant.Objects.{Locked-objects}
use cortex_m3_rtos.Kernel.Invariant.Sync.{wait_begin-Leaves}

-- What a round does with the result of the wait.
wait_ends :
    {o : Outcome (Option WaitResult × Kernel)} (section : Section)
    → Leaves kernel_second o
    → Leaves kernel_third (
        o >>= λ (returned, k2).
        done (elim returned [ none ↦ (waits, section, k2) | some r ↦ (failed r, section, k2) ]))
wait_ends section stops = stops
wait_ends section (leaves (none, k2) s' ok) = leaves _ s' ok
wait_ends section (leaves (some r, k2) s' ok) = leaves _ s' ok

module _ (k : Kernel) (s : ℕ → Bool) (h : Well k s) where
  -- A function that takes the lock, writes events and releases the lock.
  with_events :
      (c : Event.Context)
      → Well
          (lock_leave (record (lock_enter k) { m_objects = record k.m_objects { events = c } }))
          s
  unfolding lock_enter
  with_events c =
      lock_leave-Well (Locked-objects (record k.m_objects { events = c }) (lock_enter-Locked h))
        h.runs_ready

  pub init-Leaves : (spin_lock : ℕ) → Leaves kernel_second (init k spin_lock)
  unfolding init lock_enter
  init-Leaves spin_lock = elim (Outcome-cases (Event.create k.m_objects.events false 0)) [
    | inl r ↦ rw r stops
    | inr ((none, c), r) ↦ rw r (leaves _ s (with_events c))
    | inr ((some id, c), r) ↦ elim (Outcome-cases (Event.set_event c id)) [
      | inl q ↦ rw (r, q) stops
      | inr (c', q) ↦ rw (r, q) (leaves _ s (with_events c'))
    ]
  ]

  pub deinit-Sound : (section : Section) → Sound (deinit k section)
  unfolding deinit lock_enter EventApi.destroy
  deinit-Sound section = elim (Bool-cases (is_event (Handle.get_object_type section.m_event))) [
    | inr e ↦ rw e (leaves _ s (lock_leave-Well (lock_enter-Locked h) h.runs_ready))
    | inl e ↦
        elim (Outcome-cases (Event.destroy k.m_objects.events (Handle.get_id section.m_event))) [
          | inl r ↦ rw (e, r) stops
          | inr (c, r) ↦ rw (e, r) (leaves _ s (with_events c))
        ]
  ]

  pub leave-Leaves : (section : Section) → Leaves kernel_second (leave k section)
  unfolding leave lock_enter
  leave-Leaves section = elim (Bool-cases (0 == sub32 section.m_lock_count 1)) [
    | inr e ↦ rw (leave, e) (leaves _ s (lock_leave-Well (lock_enter-Locked h) h.runs_ready))
    | inl e ↦
        elim (Outcome-cases (Event.set_event k.m_objects.events (Handle.get_id section.m_event))) [
          | inl r ↦ rw (leave, e, r) stops
          | inr (c, r) ↦ rw (leave, e, r) (leaves _ s (with_events c))
        ]
  ]

-- A round of the loop of `enter`, by a task that runs.
pub enter_round-Leaves :
    (k : Kernel) (s : ℕ → Bool) (section : Section) (i : ℕ)
    → Well k s
    → k.m_started ≡ true
    → Leaves kernel_third (enter_round k section i)
unfolding enter_round wait_single_begin lock_leave lock_enter
enter_round-Leaves k s section i h started =
    let k1 = lock_leave (lock_enter k) in
    let well : Well k1 s = lock_leave-Well (lock_enter-Locked h) h.runs_ready in
    elim (Bool-cases (0 == section.m_lock_count)) [
      | inl e ↦ rw (enter_round, e) (leaves _ s well)
      | inr e ↦ elim (Bool-cases (leb section.m_spin_lock i)) [
        | inr more ↦ rw (enter_round, e, more) (leaves _ s well)
        | inl over ↦
            rw (enter_round, e, over)
              (wait_ends section
                (wait_begin-Leaves k1 s well (some (λ _. section.m_event)) 1 false true 0 started))
      ]
    ]
