-- ===== src/Kernel/Invariant/Leaving.antt =====
-- A running task that suspends itself, and one that ends: source/kernel.cpp, kernel::task.
mod Examples
use cortex_m3_rtos.Prelude.{
  ℕ, ◌≡◌, ◌≢◌, Bool, true, false, ◌&&◌, ◌==◌, update, Outcome, done, arith,
}
use cortex_m3_rtos.Api.{suspended}
use cortex_m3_rtos.Task
use cortex_m3_rtos.Task.Laws.{task_at, IsTask}
use cortex_m3_rtos.Task.Lifetime.{without_task, destroy-eq}
use cortex_m3_rtos.Handle
use cortex_m3_rtos.Scheduler
use cortex_m3_rtos.Scheduler.{get_current_task_id}
use cortex_m3_rtos.Scheduler.Invariant.Choice.{IsTop}
use cortex_m3_rtos.Scheduler.Invariant.Operations.{remove_task-WellFormed}
use cortex_m3_rtos.Scheduler.Invariant.States.{with_state, set_task_to_suspended-WellFormed}
use cortex_m3_rtos.Scheduler.Invariant.Lifetime.{without_task-WellFormed}
use cortex_m3_rtos.Kernel.{Kernel, lock_enter}
use cortex_m3_rtos.Kernel.TaskApi.{is_task, terminate_task, task_routine_exit, suspend}
use cortex_m3_rtos.Kernel.Invariant.{Well, Locked, lock_enter-Locked}
use cortex_m3_rtos.Kernel.Invariant.Sleep.{others}
use cortex_m3_rtos.Kernel.Invariant.Switch.{execute_context_switch_returns, load_next_returns}

module _ (k : Kernel) (s : ℕ → Bool) (h : Well k s) (started : k.m_started ≡ true) (other : ℕ)
    (member : s other ≡ true) (different : other ≢ k.m_scheduler.m_current) where
  used : IsTask k.m_tasks k.m_scheduler.m_current
  used = h.scheduled.ready_tasks.used k.m_scheduler.m_current (h.runs_ready started)

  -- In a state with the invariant of the kernel, when it has started, the running task suspends itself
  -- while another task is ready: the call never stops at an assertion, and leaves the invariant. The
  -- task is suspended and no longer ready, and one of the highest priority among the other ready
  -- tasks runs.
  pub suspend_itself :
      (handle : ℕ)
      → is_task (Handle.get_object_type handle) ≡ true
      → Handle.get_id handle ≡ k.m_scheduler.m_current
      → (k' : Kernel) × (suspend k handle ≡ done k')
        × Well k' (others k s h)
        × IsTop k.m_tasks (others k s h) k'.m_scheduler.m_current
        × ((task_at k'.m_tasks k.m_scheduler.m_current).m_state ≡ suspended)
  unfolding suspend lock_enter get_current_task_id
  suspend_itself handle type itself =
      let id = k.m_scheduler.m_current in
      let (r', w', e, ok, gone) =
        set_task_to_suspended-WellFormed k.m_scheduler k.m_tasks s h.scheduled id used in
      let k1 = lock_enter k in
      let k2 : Kernel = record k1 {
        m_scheduler = record k.m_scheduler { m_ready_list = r'; m_wait_list = w' };
        m_tasks = with_state k.m_tasks id suspended;
      } in
      let inside : Locked k2 (others k s h) = record {
        scheduled = ok;
        locked = (lock_enter-Locked h).locked;
        no_switch = h.no_switch;
      } in
      let (k', q, ok', top, states) =
        execute_context_switch_returns k2 (others k s h) inside other (ground (arith, different))
          used in
      let guard : (is_task (Handle.get_object_type handle) && k.m_started) ≡ true = ground arith in
      let same : (id == id) ≡ true = ground arith in
      (
        k',
        rw (suspend, guard, itself, e, same) q,
        ok',
        (top.0, λ j m. ground (arith, top.1 j m)),
        ground (arith, states id, top.0),
      )

  -- In a state with the invariant of the kernel, when it has started, the routine of the running task
  -- returns while another task is ready: ending the task never stops at an assertion, and leaves the
  -- invariant. The slot of the task is free, the task is no longer ready, and one of the highest
  -- priority among the other ready tasks runs.
  pub task_routine_exit_lem :
      (k' : Kernel) × (task_routine_exit k k.m_scheduler.m_current ≡ done k')
      × Well k' (others k s h)
      × IsTop k.m_tasks (others k s h) k'.m_scheduler.m_current
      × (k'.m_tasks.m_data.m_status k.m_scheduler.m_current ≡ false)
  unfolding task_routine_exit terminate_task lock_enter get_current_task_id
  task_routine_exit_lem =
      let id = k.m_scheduler.m_current in
      let (r', w', e, ok, gone) =
        remove_task-WellFormed k.m_scheduler k.m_tasks s h.scheduled id used in
      let k1 = lock_enter k in
      let k2 : Kernel = record k1 {
        m_scheduler = record k.m_scheduler { m_ready_list = r'; m_wait_list = w' };
        m_tasks = without_task k.m_tasks id;
      } in
      let inside : Locked k2 (others k s h) = record {
        scheduled = without_task-WellFormed id ok (ground arith) gone;
        locked = (lock_enter-Locked h).locked;
        no_switch = h.no_switch;
      } in
      let (k', q, ok', top, tasks) =
        load_next_returns k2 (others k s h) inside other (ground (arith, different)) in
      let guard : ((id == id) && k.m_started) ≡ true = ground arith in
      (
        k',
        rw (terminate_task, e, destroy-eq k.m_tasks id used.0, guard) q,
        ok',
        (top.0, λ j m. ground (arith, top.1 j m)),
        rw tasks (ground arith),
      )
