-- ===== src/Kernel/Switch.antt =====
-- A context switch: source/kernel.cpp, switchContext, with the handlers of
-- source/hardware/armv7m/hardware.cpp.
use cortex_m3_rtos.Prelude.{
  ℕ, ◌≡◌, refl, sym, ◌∙◌, Outcome, halted, ◌≢◌, false, some, done, arith, ap, ap₂, fun_ext,
}
use cortex_m3_rtos.Task
use cortex_m3_rtos.Task.{Task, set_sp, get_sp, get_context}
use cortex_m3_rtos.Task.Laws.{task_at, IsTask, put}
use cortex_m3_rtos.Scheduler
use cortex_m3_rtos.Scheduler.{get_current_task, get_current_task_id}
use cortex_m3_rtos.Kernel.{
  Kernel, lock_leave, store_context, load_context, switch_context, load_registers, store_registers,
  pend_sv_handler, set_pend_sv, svc_handler, tail_chain, syscall, load_next, load_next_task,
  execute_context_switch,
}

-- The tasks when the processor's stack pointer and registers are saved for task `id`.
abbrev pub saved : Kernel → Task.Context → ℕ → Task.Context
saved k tasks id =
    put tasks id (record (task_at tasks id) { m_sp = k.cpu.psp; m_context = k.cpu.registers })

-- The kernel when a task runs on: its saved stack pointer and registers are the processor's.
abbrev pub running_on : Kernel → ℕ → Kernel
running_on k id = record k {
  next_task_context = some id;
  cpu = record k.cpu {
    psp = (task_at k.m_tasks id).m_sp;
    registers = (task_at k.m_tasks id).m_context;
    pend_sv = false;
  };
}

-- The tasks when the stack pointer is saved.
abbrev pub sp_saved : Kernel → Task.Context → ℕ → Task.Context
sp_saved k tasks id = put tasks id (record (task_at tasks id) { m_sp = k.cpu.psp })

pub store_context-eq :
    (k : Kernel) (id : ℕ)
    → IsTask k.m_tasks id
    → store_context k id
      ≡ done (record k { m_tasks = sp_saved k k.m_tasks id; current_task_context = some id })
unfolding store_context set_sp get_context
store_context-eq k id h = ground arith

pub load_context-eq :
    (k : Kernel) (id : ℕ)
    → IsTask k.m_tasks id
    → load_context k id
      ≡ done (record k {
        next_task_context = some id;
        cpu = record k.cpu { psp = (task_at k.m_tasks id).m_sp };
      })
unfolding load_context get_sp get_context
load_context-eq k id h = ground arith

-- Saving the registers behind the stack pointer.
registers-saved :
    (k : Kernel) (tasks : Task.Context) (id : ℕ)
    → let c = sp_saved k tasks id in
      put c id (record (task_at c id) { m_context = k.cpu.registers }) ≡ saved k tasks id
registers-saved k tasks id =
    ap (λ f. record { m_data = record tasks.m_data { m_data = f } }) (fun_ext λ j. ground arith)

-- Saving the registers as well leaves the stack pointers as they are.
m_sp-saved :
    (k : Kernel) (tasks : Task.Context) (current next : ℕ)
    → (task_at (sp_saved k tasks current) next).m_sp ≡ (task_at (saved k tasks current) next).m_sp
m_sp-saved k tasks current next = ground arith

-- The kernel when PendSV is to switch from task `a` to task `b`, with the stack pointer of `b` loaded.
abbrev pub switching : Kernel → ℕ → ℕ → Kernel
switching k a b =
    let tasks = sp_saved k k.m_tasks a in
    record k {
      m_tasks = tasks;
      current_task_context = some a;
      next_task_context = some b;
      cpu = record k.cpu { psp = (task_at tasks b).m_sp };
    }

-- PendSV completes the switch.
pub pend_sv-eq :
    (k : Kernel) (a b : ℕ)
    → tail_chain (set_pend_sv (switching k a b))
      ≡ done
          (running_on (record k { m_tasks = saved k k.m_tasks a; current_task_context = some a }) b)
unfolding tail_chain set_pend_sv pend_sv_handler store_registers load_registers
pend_sv-eq k a b =
    let after : Task.Context → ℕ → Kernel = λ ts sp. record k {
      m_tasks = ts;
      current_task_context = some a;
      next_task_context = some b;
      cpu = record k.cpu { psp = sp; registers = (task_at ts b).m_context; pend_sv = false };
    } in
    ap₂ (λ ts sp. done (after ts sp)) (registers-saved k k.m_tasks a) (m_sp-saved k k.m_tasks a b)

-- A system call for a context switch, when the scheduler chooses task `next`, saves the stack pointer and
-- the registers of the processor in the record of the task that was current, gives the processor
-- those in the record of `next`, and releases the kernel lock; nothing else changes.
pub switch_lem :
    (k : Kernel) (next : ℕ) (scheduler : Scheduler.Context) (tasks : Task.Context)
    → get_current_task k.m_scheduler k.m_tasks ≡ done (some next, scheduler, tasks)
    → IsTask tasks (get_current_task_id k.m_scheduler)
    → IsTask tasks next
    → let current = get_current_task_id k.m_scheduler in
      syscall k execute_context_switch
      ≡ done (
          running_on
            (lock_leave (record k {
              m_scheduler = scheduler;
              m_tasks = saved k tasks current;
              current_task_context = some current;
            }))
            next)
unfolding syscall svc_handler switch_context tail_chain pend_sv_handler set_pend_sv store_registers
    load_registers lock_leave
switch_lem k next scheduler tasks e used_current used_next =
    let current = get_current_task_id k.m_scheduler in
    let k1 : Kernel = record k { m_scheduler = scheduler; m_tasks = tasks } in
    let k2 : Kernel = record k1 {
      m_tasks = sp_saved k tasks current;
      current_task_context = some current;
    } in
    let after : Task.Context → ℕ → Kernel = λ ts sp.
      record (lock_leave (record k1 { m_tasks = ts; current_task_context = some current })) {
        next_task_context = some next;
        cpu = record k.cpu { psp = sp; registers = (task_at ts next).m_context; pend_sv = false };
      } in
    rw (e, store_context-eq k1 current used_current, load_context-eq k2 next used_next)
      (ap₂ (λ ts sp. done (after ts sp)) (registers-saved k tasks current)
        (m_sp-saved k tasks current next))

-- A system call that runs a task anew, when the scheduler chooses task `next` and no PendSV is pending,
-- gives the processor the stack pointer and the registers in the record of that task, and releases
-- the kernel lock; those of the task that was current are not saved.
pub load_next_lem :
    (k : Kernel) (next : ℕ) (scheduler : Scheduler.Context) (tasks : Task.Context)
    → get_current_task k.m_scheduler k.m_tasks ≡ done (some next, scheduler, tasks)
    → IsTask tasks next
    → k.cpu.pend_sv ≡ false
    → syscall k load_next
      ≡ done (running_on (lock_leave (record k { m_scheduler = scheduler; m_tasks = tasks })) next)
unfolding syscall svc_handler load_next_task tail_chain load_registers lock_leave
load_next_lem k next scheduler tasks e used clear =
    rw (e, load_context-eq (record k { m_scheduler = scheduler; m_tasks = tasks }) next used, clear)
      refl

-- A task that was switched out gets its stack pointer and registers back when a later context switch
-- chooses it again, in whatever state the kernel is by then, as long as nothing has changed what its
-- record held when it was switched out.
pub switch_back :
    (k k1 k2 : Kernel) (next : ℕ) (scheduler scheduler2 : Scheduler.Context)
    (tasks tasks2 : Task.Context)
    → let a = get_current_task_id k.m_scheduler in
      get_current_task k.m_scheduler k.m_tasks ≡ done (some next, scheduler, tasks)
      → IsTask tasks a
      → IsTask tasks next
      → syscall k execute_context_switch ≡ done k1
      → get_current_task k2.m_scheduler k2.m_tasks ≡ done (some a, scheduler2, tasks2)
      → IsTask tasks2 (get_current_task_id k2.m_scheduler)
      → IsTask tasks2 a
      → get_current_task_id k2.m_scheduler ≢ a
      → (task_at tasks2 a).m_sp ≡ (task_at k1.m_tasks a).m_sp
      → (task_at tasks2 a).m_context ≡ (task_at k1.m_tasks a).m_context
      → (k3 : Kernel) × (syscall k2 execute_context_switch ≡ done k3)
        × (k3.cpu.psp ≡ k.cpu.psp)
        × (k3.cpu.registers ≡ k.cpu.registers)
unfolding lock_leave
switch_back k k1 k2 next scheduler scheduler2 tasks tasks2 e used used_next out e2 used2 used_a
      other sp context =
    let a = get_current_task_id k.m_scheduler in
    let left = switch_lem k next scheduler tasks e used used_next in
    let kept : k1.m_tasks ≡ saved k tasks a = ap m_tasks_of (sym out ∙ left) in
    let kept_sp : (task_at k1.m_tasks a).m_sp ≡ k.cpu.psp = rw kept (ground arith) in
    let kept_context : (task_at k1.m_tasks a).m_context ≡ k.cpu.registers =
      rw kept (ground arith) in
    (
      _,
      switch_lem k2 a scheduler2 tasks2 e2 used2 used_a,
      ground (arith, other, sp, kept_sp),
      ground (arith, other, context, kept_context),
    )
  where
    m_tasks_of : Outcome Kernel → Task.Context
    m_tasks_of (done x) = x.m_tasks
    m_tasks_of halted = tasks
