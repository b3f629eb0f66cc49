-- ===== src/Kernel/Invariant/Resume.antt =====
-- What kernel::task::resume does with a suspended task: source/kernel.cpp.
use cortex_m3_rtos.Prelude.{
  ℕ, ◌≡◌, refl, Bool, true, false, inl, inr, ◌&&◌, ◌==◌, ltb, if◌then◌else◌, update, Outcome, done,
  arith, Bool-cases,
}
use cortex_m3_rtos.Api.{suspended, ready}
use cortex_m3_rtos.Task.Laws.{level_of, task_at, IsTask, get_priority-eq}
use cortex_m3_rtos.Handle
use cortex_m3_rtos.Scheduler.{get_current_task_id}
use cortex_m3_rtos.Scheduler.Invariant.Choice.{IsTop}
use cortex_m3_rtos.Scheduler.Invariant.States.{with_state, resume-suspended}
use cortex_m3_rtos.Kernel.{Kernel, lock_enter, lock_leave}
use cortex_m3_rtos.Kernel.TaskApi.{is_task, resume_other, resume}
use cortex_m3_rtos.Kernel.Invariant.{Well, Locked, lock_enter-Locked, lock_leave-Well}
use cortex_m3_rtos.Kernel.Invariant.Switch.{execute_context_switch_returns}

module _ (k : Kernel) (s : ℕ → Bool) (h : Well k s) (started : k.m_started ≡ true) where
  -- What resuming task `id` comes to: it is ready, and the running task is pre-empted only by a task of a
  -- higher priority.
  abbrev pub Resumed : ℕ → Outcome Kernel → Type 0
  Resumed id o =
      (k' : Kernel) × (o ≡ done k')
      × Well k' (update s id true)
      × (if ltb (level_of k.m_tasks id) (level_of k.m_tasks k.m_scheduler.m_current)
          then IsTop k.m_tasks (update s id true) k'.m_scheduler.m_current
          else (k'.m_scheduler.m_current ≡ k.m_scheduler.m_current))

  module _ (id : ℕ) (used : IsTask k.m_tasks id)
      (asleep : (task_at k.m_tasks id).m_state ≡ suspended) (out : s id ≡ false) where
    resume_other-Resumed : Resumed id (resume_other (lock_enter k) id k.m_scheduler.m_current)
    unfolding resume_other lock_enter lock_leave
    resume_other-Resumed =
        let current = k.m_scheduler.m_current in
        let member = h.runs_ready started in
        let (r', e, ok) =
          resume-suspended k.m_scheduler k.m_tasks s h.scheduled id used member asleep out in
        let tasks = with_state k.m_tasks current ready in
        let k1 = lock_enter k in
        let k2 : Kernel = record k1 {
          m_scheduler = record k.m_scheduler { m_ready_list = r' };
          m_tasks = tasks;
        } in
        let inside : Locked k2 (update s id true) = record {
          scheduled = ok;
          locked = (lock_enter-Locked h).locked;
          no_switch = h.no_switch;
        } in
        let still : update s id true current ≡ true = ground (arith, member) in
        let used_current = ok.ready_tasks.used current still in
        let level : (j : ℕ) → level_of tasks j ≡ level_of k.m_tasks j = λ j. ground arith in
        let read = get_priority-eq tasks current used_current in
        let read' = get_priority-eq tasks id used in
        elim (Bool-cases (ltb (level_of k.m_tasks id) (level_of k.m_tasks current))) [
          | inl higher ↦
              let higher' : ltb (level_of tasks id) (level_of tasks current) ≡ true =
                rw (level id, level current) higher in
              let (k', q, ok', top, _) =
                execute_context_switch_returns k2 (update s id true) inside current still
                  used_current in
              (
                k',
                rw (resume_other, e, read, read', higher') q,
                ok',
                rw higher (top.0, λ j m. ground (arith, top.1 j m)),
              )
          | inr lower ↦
              let lower' : ltb (level_of tasks id) (level_of tasks current) ≡ false =
                rw (level id, level current) lower in
              (
                lock_leave k2,
                rw (resume_other, e, read, read', lower') refl,
                lock_leave-Well inside (λ x. still),
                rw lower refl,
              )
        ]

  -- Resuming a suspended task, in use and not ready, by its handle, in a state with the invariant of the
  -- kernel, when it has started, never stops at an assertion, and leaves the invariant. The task gets
  -- ready. If its priority is higher than the running task's, one of the highest priority
  -- among the ready tasks runs behind the call, else the task goes on that runs.
  pub resume_preempts :
      (handle : ℕ)
      → is_task (Handle.get_object_type handle) ≡ true
      → IsTask k.m_tasks (Handle.get_id handle)
      → (task_at k.m_tasks (Handle.get_id handle)).m_state ≡ suspended
      → s (Handle.get_id handle) ≡ false
      → Resumed (Handle.get_id handle) (resume k handle)
  unfolding resume lock_enter get_current_task_id
  resume_preempts handle task_handle used asleep out =
      let id = Handle.get_id handle in
      let guard : (is_task (Handle.get_object_type handle) && k.m_started) ≡ true =
        ground (arith, task_handle, started) in
      let other : (id == k.m_scheduler.m_current) ≡ false =
        ground (arith, out, h.runs_ready started) in
      let (k', q, ok, chosen) = resume_other-Resumed id used asleep out in
      (k', rw (resume, guard, other) q, ok, chosen)
