-- ===== src/Kernel/Invariant/Sync.antt =====
-- Waiting leaves the invariant of the kernel: source/kernel.cpp, kernel::sync.
use cortex_m3_rtos.Prelude.{
  ℕ, ◌<◌, ◌≡◌, ◌≢◌, refl, Bool, true, false, inl, inr, ◌||◌, Option, none, some, ltb, leb, done,
  arith, Bool-cases, Outcome-cases,
}
use cortex_m3_rtos.Config.{max_input_signals}
use cortex_m3_rtos.Api.{waiting}
use cortex_m3_rtos.SystemTimer
use cortex_m3_rtos.Task
use cortex_m3_rtos.Scheduler.{get_current_task_id}
use cortex_m3_rtos.Scheduler.Invariant.States.{set_task_to_wait_for_obj-WellFormed}
use cortex_m3_rtos.Kernel.{Kernel, lock_enter}
use cortex_m3_rtos.Kernel.SyncApi.{wait_begin, wait_end}
use cortex_m3_rtos.Kernel.Calls.{kernel_second, kernel_third}
use cortex_m3_rtos.Kernel.Invariant.{
  Well, Leaves, stops, leaves, then_Leaves, lock_enter-Locked, lock_leave-Well,
}
use cortex_m3_rtos.Scheduler.Invariant.Choice.{IsTop}
use cortex_m3_rtos.Task.Laws.{task_at}
use cortex_m3_rtos.Kernel.Invariant.Sleep.{others, waiting_in-Sound, waiting_in_returns}

module _ (k : Kernel) (s : ℕ → Bool) (h : Well k s) where
  -- A task that runs waits.
  pub wait_begin-Leaves :
      (handles : Option (ℕ → ℕ)) (n : ℕ) (all forever : Bool) (timeout : ℕ)
      → k.m_started ≡ true
      → Leaves kernel_second (wait_begin k handles n all forever timeout)
  unfolding wait_begin lock_enter get_current_task_id
  wait_begin-Leaves none n all forever timeout started = leaves _ s h
  wait_begin-Leaves (some handles) n all forever timeout started =
      elim (Bool-cases (ltb n 1 || leb max_input_signals n)) [
        | inl bad ↦ rw (wait_begin, bad) (leaves _ s h)
        | inr good ↦
            let (r', w', e, ok) =
              set_task_to_wait_for_obj-WellFormed k.m_scheduler k.m_tasks s h.scheduled
                k.m_scheduler.m_current handles n all forever timeout
                (SystemTimer.get k.m_system_timer) (h.runs_ready started) (ground arith)
                (ground arith) in
            rw (wait_begin, good, e)
              (then_Leaves (λ k'. done (none, k')) (waiting_in-Sound k s h started r' w' ok)
                (λ k' s' ok'. leaves _ s' ok'))
      ]

  -- In a state with the invariant of the kernel, when it has started, the running task begins to wait for
  -- at least one object and fewer than the maximum, while another task is ready: the call never stops at
  -- an assertion, and leaves the invariant. The task waits and is no longer ready, and one of the highest priority among the
  -- other ready tasks runs.
  pub wait_begin_lem :
      (handles : ℕ → ℕ) (n : ℕ) (all forever : Bool) (timeout other : ℕ)
      → k.m_started ≡ true
      → 0 < n
      → n < max_input_signals
      → s other ≡ true
      → other ≢ k.m_scheduler.m_current
      → let s' = others k s h in
        (k' : Kernel) × (wait_begin k (some handles) n all forever timeout ≡ done (none, k'))
        × Well k' s'
        × IsTop k.m_tasks s' k'.m_scheduler.m_current
        × ((task_at k'.m_tasks k.m_scheduler.m_current).m_state ≡ waiting)
  unfolding wait_begin lock_enter get_current_task_id
  wait_begin_lem handles n all forever timeout other started some_object few member different =
      let good : (ltb n 1 || leb max_input_signals n) ≡ false = ground (arith, some_object, few) in
      let (r', w', e, ok) =
        set_task_to_wait_for_obj-WellFormed k.m_scheduler k.m_tasks s h.scheduled
          k.m_scheduler.m_current handles n all forever timeout (SystemTimer.get k.m_system_timer)
          (h.runs_ready started) some_object few in
      let (k', q, ok', top, state) =
        waiting_in_returns k s h started r' w' ok other member different in
      (k', rw (wait_begin, good, e, q) refl, ok', top, state)

  pub wait_end-Leaves : Leaves kernel_third (wait_end k)
  unfolding wait_end lock_enter
  wait_end-Leaves =
      let current = get_current_task_id k.m_scheduler in
      elim (Outcome-cases (Task.get_result k.m_tasks current)) [
        | inl e ↦ rw (wait_end, e) stops
        | inr (r, e) ↦ elim (Outcome-cases (Task.get_last_signal_index k.m_tasks current)) [
          | inl i ↦ rw (wait_end, e, i) stops
          | inr (_, i) ↦
              rw (wait_end, e, i) (leaves _ s (lock_leave-Well (lock_enter-Locked h) h.runs_ready))
        ]
      ]
