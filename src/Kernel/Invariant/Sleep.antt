-- ===== src/Kernel/Invariant/Sleep.antt =====
-- A running task that begins to wait, and a task that sleeps: source/kernel.cpp, kernel::task::sleep.
use cortex_m3_rtos.Prelude.{
  ℕ, ◌≡◌, ◌≢◌, ◌<◌, Bool, true, false, inl, inr, leb, update, Outcome, done, arith, Bool-cases,
}
use cortex_m3_rtos.Config.{context_switch_interval_ms}
use cortex_m3_rtos.Api.{waiting}
use cortex_m3_rtos.SystemTimer
use cortex_m3_rtos.Task.Laws.{task_at, IsTask}
use cortex_m3_rtos.Scheduler.{get_current_task_id}
use cortex_m3_rtos.Scheduler.Invariant.{WellFormed}
use cortex_m3_rtos.Scheduler.Invariant.Choice.{IsTop}
use cortex_m3_rtos.Scheduler.Invariant.States.{with_state, set_task_to_sleep-WellFormed}
use cortex_m3_rtos.ReadyList
use cortex_m3_rtos.WaitList
use cortex_m3_rtos.Kernel.{Kernel, lock_enter, syscall, execute_context_switch}
use cortex_m3_rtos.Kernel.TaskApi.{sleep}
use cortex_m3_rtos.Kernel.Invariant.{Well, Locked, Sound, leaves, lock_enter-Locked}
use cortex_m3_rtos.Kernel.Invariant.Switch.{
  execute_context_switch-Sound, execute_context_switch_returns,
}

module _ (k : Kernel) (s : ℕ → Bool) (h : Well k s) where
  -- The kernel in a function of the API, when the running task has been put to wait.
  abbrev pub waiting_in : ReadyList.Context → WaitList.Context → Kernel
  waiting_in r w = record (lock_enter k) {
    m_scheduler = record k.m_scheduler { m_ready_list = r; m_wait_list = w };
    m_tasks = with_state k.m_tasks k.m_scheduler.m_current waiting;
  }

  -- The tasks that are ready but the running one.
  abbrev pub others : ℕ → Bool
  others = update s k.m_scheduler.m_current false

  -- What a call comes to that makes the running task wait.
  abbrev pub Blocks : Outcome Kernel → Type 0
  Blocks o =
      (k' : Kernel) × (o ≡ done k')
      × Well k' others
      × IsTop k.m_tasks others k'.m_scheduler.m_current
      × ((task_at k'.m_tasks k.m_scheduler.m_current).m_state ≡ waiting)

  module _ (started : k.m_started ≡ true) (r : ReadyList.Context) (w : WaitList.Context)
      (ok : WellFormed (waiting_in r w).m_scheduler (waiting_in r w).m_tasks others) where
    waiting_in-Locked : Locked (waiting_in r w) others
    unfolding lock_enter
    waiting_in-Locked = record {
      scheduled = ok;
      locked = (lock_enter-Locked h).locked;
      no_switch = h.no_switch;
    }

    used : IsTask k.m_tasks k.m_scheduler.m_current
    used = h.scheduled.ready_tasks.used k.m_scheduler.m_current (h.runs_ready started)

    pub waiting_in-Sound : Sound (syscall (waiting_in r w) execute_context_switch)
    unfolding lock_enter
    waiting_in-Sound = execute_context_switch-Sound (waiting_in r w) others waiting_in-Locked used

    -- Another task that is ready lets the system call return.
    pub waiting_in_returns :
        (other : ℕ)
        → s other ≡ true
        → other ≢ k.m_scheduler.m_current
        → Blocks (syscall (waiting_in r w) execute_context_switch)
    unfolding lock_enter
    waiting_in_returns other member different =
        let current = k.m_scheduler.m_current in
        let (k', e, ok', top, states) =
          execute_context_switch_returns (waiting_in r w) others waiting_in-Locked other
            (ground (arith, different)) used in
        (
          k',
          e,
          ok',
          (top.0, λ j m. ground (arith, top.1 j m)),
          ground (arith, states current, top.0),
        )

  -- A task that runs goes to sleep.
  pub sleep-Sound : (time : ℕ) → k.m_started ≡ true → Sound (sleep k time)
  unfolding sleep lock_enter get_current_task_id
  sleep-Sound time started =
      let (r', w', e, ok) =
        set_task_to_sleep-WellFormed k.m_scheduler k.m_tasks s h.scheduled k.m_scheduler.m_current
          time (SystemTimer.get k.m_system_timer) (h.runs_ready started) in
      elim (Bool-cases (leb time context_switch_interval_ms)) [
        | inl short ↦ rw (sleep, short) (leaves k s h)
        | inr long ↦ rw (sleep, long, e) (waiting_in-Sound started r' w' ok)
      ]

  -- In a state with the invariant of the kernel, when it has started, the running task goes to sleep for
  -- more than the context switch interval, while another task is ready: the call never stops at an
  -- assertion, and leaves the invariant. The sleeping task waits and is no longer ready, and one of
  -- the highest priority among the other ready tasks runs.
  pub sleep_lem :
      (time other : ℕ)
      → k.m_started ≡ true
      → context_switch_interval_ms < time
      → s other ≡ true
      → other ≢ k.m_scheduler.m_current
      → Blocks (sleep k time)
  unfolding sleep lock_enter get_current_task_id
  sleep_lem time other started long member different =
      let (r', w', e, ok) =
        set_task_to_sleep-WellFormed k.m_scheduler k.m_tasks s h.scheduled k.m_scheduler.m_current
          time (SystemTimer.get k.m_system_timer) (h.runs_ready started) in
      let long' : leb time context_switch_interval_ms ≡ false = ground (arith, long) in
      let (k', q, ok', top, state) = waiting_in_returns started r' w' ok other member different in
      (k', rw (sleep, long', e) q, ok', top, state)
