-- ===== src/Kernel/Invariant/Switch.antt =====
-- The system calls leave the invariant of the kernel.
use cortex_m3_rtos.Prelude.{
  ℕ, ◌≡◌, refl, Bool, true, inl, inr, none, done, halted, arith, ◌==◌, if◌then◌else◌,
}
use cortex_m3_rtos.Api.{running}
use cortex_m3_rtos.Task.Laws.{task_at, IsTask}
use cortex_m3_rtos.Lock.Laws.{leave_once}
use cortex_m3_rtos.Scheduler.{get_current_task, get_current_task_id}
use cortex_m3_rtos.Scheduler.Invariant.Choice.{IsTop, get_current_task-cases}
use cortex_m3_rtos.Scheduler.Invariant.Operations.{WellFormed-same}
use cortex_m3_rtos.Scheduler.Invariant.States.{with_state}
use cortex_m3_rtos.Scheduler.Invariant.Chosen.{get_current_task-WellFormed}
use cortex_m3_rtos.Kernel.{
  Kernel, lock_leave, load_next_task, switch_context, svc_handler, syscall, load_next,
  execute_context_switch,
}
use cortex_m3_rtos.Kernel.Switch.{switch_lem, load_next_lem}
use cortex_m3_rtos.Kernel.Invariant.{Locked, Well, Sound, stops, leaves}

nobody_to_switch_to :
    (k : Kernel)
    → get_current_task k.m_scheduler k.m_tasks ≡ done (none, k.m_scheduler, k.m_tasks)
    → (syscall k execute_context_switch ≡ halted) × (syscall k load_next ≡ halted)
unfolding syscall svc_handler switch_context load_next_task
nobody_to_switch_to k e = (rw e, rw e)

module _ (k : Kernel) (s : ℕ → Bool) (h : Locked k s) where
  -- With a task ready, the call runs one of the highest priority among the ready tasks.
  pub execute_context_switch_returns :
      (one : ℕ)
      → s one ≡ true
      → IsTask k.m_tasks k.m_scheduler.m_current
      → (k' : Kernel) × (syscall k execute_context_switch ≡ done k')
        × Well k' s
        × IsTop k.m_tasks s k'.m_scheduler.m_current
        × ((j : ℕ)
            → (task_at k'.m_tasks j).m_state
              ≡ (if k'.m_scheduler.m_current == j then running else (task_at k.m_tasks j).m_state))
  unfolding lock_leave get_current_task_id
  execute_context_switch_returns one member used =
      let (a, (e, top, ok)) =
        get_current_task-WellFormed k.m_scheduler k.m_tasks s h.scheduled one member in
      let tasks = with_state k.m_tasks a running in
      let current = k.m_scheduler.m_current in
      (
        _,
        switch_lem k a _ tasks e used (h.scheduled.ready_tasks.used a top.0),
        record {
          scheduled = WellFormed-same current _ refl refl ok;
          runs_ready = λ _. top.0;
          unlocked = leave_once k.m_lock h.locked;
          no_switch = refl;
        },
        top,
        λ j. ground arith,
      )

  pub execute_context_switch-Sound :
      IsTask k.m_tasks k.m_scheduler.m_current → Sound (syscall k execute_context_switch)
  execute_context_switch-Sound used =
      elim (get_current_task-cases k.m_scheduler k.m_tasks s h.scheduled.ready_tasks) [
        | inr e ↦ rw (nobody_to_switch_to k e).0 stops
        | inl (one, member) ↦
            let (k', e, ok, _, _) = execute_context_switch_returns one member used in
            rw e (leaves k' s ok)
      ]

  -- The same for the call that runs a task anew: the record of no other task changes.
  pub load_next_returns :
      (one : ℕ)
      → s one ≡ true
      → (k' : Kernel) × (syscall k load_next ≡ done k')
        × Well k' s
        × IsTop k.m_tasks s k'.m_scheduler.m_current
        × (k'.m_tasks ≡ with_state k.m_tasks k'.m_scheduler.m_current running)
  unfolding lock_leave
  load_next_returns one member =
      let (a, (e, top, ok)) =
        get_current_task-WellFormed k.m_scheduler k.m_tasks s h.scheduled one member in
      let tasks = with_state k.m_tasks a running in
      (
        _,
        load_next_lem k a _ tasks e (h.scheduled.ready_tasks.used a top.0) h.no_switch,
        record {
          scheduled = ok;
          runs_ready = λ _. top.0;
          unlocked = leave_once k.m_lock h.locked;
          no_switch = refl;
        },
        top,
        refl,
      )

  pub load_next-Sound : Sound (syscall k load_next)
  load_next-Sound =
      elim (get_current_task-cases k.m_scheduler k.m_tasks s h.scheduled.ready_tasks) [
        | inr e ↦ rw (nobody_to_switch_to k e).1 stops
        | inl (one, member) ↦
            let (k', e, ok, _, _) = load_next_returns one member in rw e (leaves k' s ok)
      ]
