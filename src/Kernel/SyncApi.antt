-- ===== src/Kernel/SyncApi.antt =====
-- source/kernel.cpp, namespace kernel::sync. Messages are left out.
use cortex_m3_rtos.Prelude.{
  ℕ, Bool, false, ◌||◌, Option, none, some, ltb, leb, if◌then◌else◌, Outcome, done, ◌>>=◌,
}
use cortex_m3_rtos.Config.{max_input_signals}
use cortex_m3_rtos.Api.{WaitResult, wait_failed}
use cortex_m3_rtos.SystemTimer
use cortex_m3_rtos.Task
use cortex_m3_rtos.Scheduler
use cortex_m3_rtos.Kernel.{Kernel, lock_enter, lock_leave, syscall, execute_context_switch}

-- waitForMultipleObjects up to its system call. `some r` is an early return of `r`; with `none` the
-- task waits, and goes on with `wait_end` when it runs again. The null pointer is `none`.
unfoldable pub wait_begin :
    Kernel → Option (ℕ → ℕ) → ℕ → Bool → Bool → ℕ → Outcome (Option WaitResult × Kernel)
wait_begin k none n all forever timeout = done (some wait_failed, k)
wait_begin k (some handles) n all forever timeout =
    if ltb n 1 || leb max_input_signals n then done (some wait_failed, k) else (do
      let k1 = lock_enter k
      let current_time = SystemTimer.get k1.m_system_timer
      let current = Scheduler.get_current_task_id k1.m_scheduler
      (taken, scheduler, tasks) ←
          Scheduler.set_task_to_wait_for_obj k1.m_scheduler k1.m_tasks current (some handles) n all
            forever timeout current_time
      let k2 : Kernel = record k1 { m_scheduler = scheduler; m_tasks = tasks }
      if taken
          then (do k3 ← syscall k2 execute_context_switch; done (none, k3))
          else done (some wait_failed, lock_leave k2))

-- waitForMultipleObjects behind its system call: the result, and the index for
-- `*a_signaled_item_index`.
unfoldable pub wait_end : Kernel → Outcome (WaitResult × ℕ × Kernel)
wait_end k = do
  let k1 = lock_enter k
  let current = Scheduler.get_current_task_id k1.m_scheduler
  result ← Task.get_result k1.m_tasks current
  index ← Task.get_last_signal_index k1.m_tasks current
  done (result, index, lock_leave k1)

-- waitForSingleObject up to its system call.
unfoldable pub wait_single_begin : Kernel → ℕ → Bool → ℕ → Outcome (Option WaitResult × Kernel)
wait_single_begin k handle forever timeout =
    wait_begin k (some (λ _. handle)) 1 false forever timeout
