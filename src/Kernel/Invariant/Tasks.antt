-- ===== src/Kernel/Invariant/Tasks.antt =====
-- The functions on tasks leave the invariant of the kernel: source/kernel.cpp, kernel::task.
use cortex_m3_rtos.Prelude.{
  ℕ, ◌≡◌, Bool, true, false, inl, inr, ◌&&◌, ◌==◌, ltb, update, arith, Bool-cases, Outcome-cases,
}
use cortex_m3_rtos.Api.{suspended, priority_value}
use cortex_m3_rtos.Task
use cortex_m3_rtos.Task.Laws.{IsTask-cases}
use cortex_m3_rtos.Task.Lifetime.{without_task, destroy-eq}
use cortex_m3_rtos.Handle
use cortex_m3_rtos.Scheduler
use cortex_m3_rtos.Scheduler.{
  remove_task, set_task_to_suspended, resume_suspended_task, get_current_task_id,
}
use cortex_m3_rtos.Scheduler.Invariant.Operations.{remove_task-WellFormed}
use cortex_m3_rtos.Scheduler.Invariant.States.{
  with_state, set_task_to_suspended-WellFormed, resume-WellFormed,
}
use cortex_m3_rtos.Scheduler.Invariant.Lifetime.{without_task-WellFormed}
use cortex_m3_rtos.Kernel.{Kernel, lock_enter}
use cortex_m3_rtos.Kernel.TaskApi.{
  is_task, terminate_task, terminate, suspend, resume_other, resume,
}
use cortex_m3_rtos.Kernel.Invariant.{
  Well, Locked, RunsReady, Sound, stops, leaves, lock_enter-Locked, lock_leave-Well,
}
use cortex_m3_rtos.Kernel.Invariant.Switch.{execute_context_switch-Sound, load_next-Sound}

module _ (k : Kernel) (s : ℕ → Bool) (h : Well k s) where
  pub terminate_task-Sound : (id : ℕ) → Sound (terminate_task k id)
  unfolding terminate_task remove_task lock_enter get_current_task_id
  terminate_task-Sound id = elim (IsTask-cases k.m_tasks id) [
    | inr (no_priority, _, _) ↦ rw (terminate_task, remove_task, no_priority) stops
    | inl used ↦
        let (r', w', e, ok, gone) =
          remove_task-WellFormed k.m_scheduler k.m_tasks s h.scheduled id used in
        let scheduler : Scheduler.Context = record k.m_scheduler {
          m_ready_list = r';
          m_wait_list = w';
        } in
        let tasks = without_task k.m_tasks id in
        let s' = update s id false in
        let k1 = lock_enter k in
        let k2 : Kernel = record k1 { m_scheduler = scheduler; m_tasks = tasks } in
        let inside : Locked k2 s' = record {
          scheduled = without_task-WellFormed id ok (ground arith) gone;
          locked = (lock_enter-Locked h).locked;
          no_switch = h.no_switch;
        } in
        elim (Bool-cases ((k.m_scheduler.m_current == id) && k.m_started)) [
          | inl itself ↦
              rw (terminate_task, e, destroy-eq k.m_tasks id used.0, itself)
                (load_next-Sound k2 s' inside)
          | inr another ↦
              rw (terminate_task, e, destroy-eq k.m_tasks id used.0, another)
                (leaves _ s' (
                  lock_leave-Well inside
                    (λ started. ground (arith, started, another, h.runs_ready started))))
        ]
  ]

  pub terminate-Sound : (handle : ℕ) → Sound (terminate k handle)
  unfolding terminate
  terminate-Sound handle = elim (Bool-cases (is_task (Handle.get_object_type handle))) [
    | inl e ↦ rw e (terminate_task-Sound (Handle.get_id handle))
    | inr e ↦ rw e (leaves k s h)
  ]

  suspends :
      (handle : ℕ)
      → (is_task (Handle.get_object_type handle) && k.m_started) ≡ true
      → Sound (suspend k handle)
  unfolding suspend set_task_to_suspended lock_enter get_current_task_id
  suspends handle guard =
      let started : k.m_started ≡ true = ground arith in
      let id = Handle.get_id handle in
      elim (IsTask-cases k.m_tasks id) [
        | inr (_, _, no_state) ↦
            rw (suspend, guard, set_task_to_suspended, no_state suspended) stops
        | inl used ↦
            let (r', w', e, ok, gone) =
              set_task_to_suspended-WellFormed k.m_scheduler k.m_tasks s h.scheduled id used in
            let scheduler : Scheduler.Context = record k.m_scheduler {
              m_ready_list = r';
              m_wait_list = w';
            } in
            let tasks = with_state k.m_tasks id suspended in
            let s' = update s id false in
            let k1 = lock_enter k in
            let k2 : Kernel = record k1 { m_scheduler = scheduler; m_tasks = tasks } in
            let inside : Locked k2 s' = record {
              scheduled = ok;
              locked = (lock_enter-Locked h).locked;
              no_switch = h.no_switch;
            } in
            elim (Bool-cases (k.m_scheduler.m_current == id)) [
              | inl itself ↦
                  rw (suspend, guard, e, itself)
                    (execute_context_switch-Sound k2 s' inside
                      (h.scheduled.ready_tasks.used k.m_scheduler.m_current (h.runs_ready started)))
              | inr another ↦
                  rw (suspend, guard, e, another)
                    (leaves _ s'
                      (lock_leave-Well inside (λ x. ground (arith, another, h.runs_ready started))))
            ]
      ]

  pub suspend-Sound : (handle : ℕ) → Sound (suspend k handle)
  unfolding suspend
  suspend-Sound handle =
      elim (Bool-cases (is_task (Handle.get_object_type handle) && k.m_started)) [
        | inl e ↦ suspends handle e
        | inr e ↦ rw (suspend, e) (leaves k s h)
      ]

  resumes_other :
      (id : ℕ) → k.m_started ≡ true → Sound (resume_other (lock_enter k) id k.m_scheduler.m_current)
  unfolding resume_other resume_suspended_task lock_enter
  resumes_other id started = elim (IsTask-cases k.m_tasks id) [
    | inr (_, no_state, _) ↦ rw (resume_other, resume_suspended_task, no_state) stops
    | inl used ↦
        let (b, r', tasks, s', e, ok, more) =
          resume-WellFormed k.m_scheduler k.m_tasks s h.scheduled id used (h.runs_ready started) in
        let scheduler : Scheduler.Context = record k.m_scheduler { m_ready_list = r' } in
        let current = k.m_scheduler.m_current in
        let k1 = lock_enter k in
        let k2 : Kernel = record k1 { m_scheduler = scheduler; m_tasks = tasks } in
        let inside : Locked k2 s' = record {
          scheduled = ok;
          locked = (lock_enter-Locked h).locked;
          no_switch = h.no_switch;
        } in
        let runs : RunsReady k2 s' = λ x. more current (h.runs_ready started) in
        elim (Bool-cases b) [
          | inr unable ↦ rw (resume_other, e, unable) (leaves _ s' (lock_leave-Well inside runs))
          | inl resumed ↦ elim (Outcome-cases (Task.get_priority tasks current)) [
            | inl p ↦ rw (resume_other, e, resumed, p) stops
            | inr (current_priority, p) ↦ elim (Outcome-cases (Task.get_priority tasks id)) [
              | inl q ↦ rw (resume_other, e, resumed, p, q) stops
              | inr (priority, q) ↦
                  elim (Bool-cases
                    (ltb (priority_value priority) (priority_value current_priority))) [
                      | inl higher ↦
                          rw (resume_other, e, resumed, p, q, higher)
                            (execute_context_switch-Sound k2 s' inside
                              (ok.ready_tasks.used current (runs started)))
                      | inr lower ↦
                          rw (resume_other, e, resumed, p, q, lower)
                            (leaves _ s' (lock_leave-Well inside runs))
                    ]
            ]
          ]
        ]
  ]

  pub resume-Sound : (handle : ℕ) → Sound (resume k handle)
  unfolding resume lock_enter get_current_task_id
  resume-Sound handle = elim (Bool-cases (is_task (Handle.get_object_type handle) && k.m_started)) [
    | inr e ↦ rw (resume, e) (leaves k s h)
    | inl e ↦
        let started : k.m_started ≡ true = ground arith in
        elim (Bool-cases (Handle.get_id handle == k.m_scheduler.m_current)) [
          | inl itself ↦
              rw (resume, e, itself)
                (leaves _ s (lock_leave-Well (lock_enter-Locked h) h.runs_ready))
          | inr another ↦ rw (resume, e, another) (resumes_other (Handle.get_id handle) started)
        ]
  ]
