-- ===== src/Kernel/FirstRun.antt =====
-- The first switch to a new task: source/kernel.cpp and source/hardware/armv7m/hardware.cpp.
mod Examples
use cortex_m3_rtos.Prelude.{
  ℕ, ◌+◌, ◌*◌, ◌<◌, ◌≡◌, ◌≢◌, ◌==◌, Bool, false, some, done, arith, u32_mod, sym,
}
use cortex_m3_rtos.Config.{stack_size}
use cortex_m3_rtos.Api.{Priority}
use cortex_m3_rtos.Task
use cortex_m3_rtos.Task.Laws.{task_at, IsTask}
use cortex_m3_rtos.Task.Frame.{IsFrame, create-IsFrame}
use cortex_m3_rtos.Scheduler
use cortex_m3_rtos.Scheduler.{get_current_task, get_current_task_id}
use cortex_m3_rtos.Kernel.{
  Kernel, SyscallId, load_next, execute_context_switch, syscall, lock_leave,
}
use cortex_m3_rtos.Kernel.Switch.{switch_lem, load_next_lem}

-- When task `id` has been created, in a slot whose stack lies inside the address space, and a later system
-- call, of either kind, with no PendSV pending, chooses it while another task is current and its stack
-- and stack pointer are as creation has left them, the call returns with the stack pointer of the processor
-- at the frame of the new task, in the last eight words of its stack, with the address of taskRoutine
-- as its program counter and the Thumb bit alone in its program status register.
pub first_run :
    (c c' : Task.Context) (task_routine routine : ℕ) (priority : Priority) (parameter : ℕ)
    (create_suspended : Bool) (id : ℕ) (k : Kernel) (call : SyscallId)
    (scheduler : Scheduler.Context) (tasks : Task.Context)
    → (task_at c id).m_stack.address + 4 * stack_size < u32_mod
    → Task.create c task_routine routine priority parameter create_suspended ≡ done (some id, c')
    → get_current_task k.m_scheduler k.m_tasks ≡ done (some id, scheduler, tasks)
    → IsTask tasks id
    → IsTask tasks (get_current_task_id k.m_scheduler)
    → get_current_task_id k.m_scheduler ≢ id
    → k.cpu.pend_sv ≡ false
    → (task_at tasks id).m_sp ≡ (task_at c' id).m_sp
    → (task_at tasks id).m_stack ≡ (task_at c' id).m_stack
    → (k' : Kernel) × (syscall k call ≡ done k')
      × IsFrame (task_at k'.m_tasks id).m_stack k'.cpu.psp task_routine
unfolding lock_leave
first_run c c' task_routine routine priority parameter create_suspended id k load_next scheduler
      tasks fits made chosen used used_current other clear sp stack =
    let frame =
      create-IsFrame c c' task_routine routine priority parameter create_suspended id fits made in
    (_, load_next_lem k id scheduler tasks chosen used clear, rw (sp, stack) frame)
first_run c c' task_routine routine priority parameter create_suspended id k execute_context_switch
      scheduler tasks fits made chosen used used_current other clear sp stack =
    let frame =
      create-IsFrame c c' task_routine routine priority parameter create_suspended id fits made in
    let apart : (get_current_task_id k.m_scheduler == id) ≡ false = ground (arith, other) in
    (_, switch_lem k id scheduler tasks chosen used_current used, rw (apart, sp, stack) frame)
