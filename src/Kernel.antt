-- ===== src/Kernel.antt =====
-- source/kernel.cpp, the context of the kernel and its handler mode functions, with the exception
-- handlers of source/hardware/armv7m/hardware.cpp that call them. SysTick, SVCall and PendSV have one
-- pre-emption priority, so that a handler is one step. Messages of error::print are left out.
pub mod TaskApi
pub mod TimerApi
pub mod EventApi
pub mod QueueApi
pub mod SyncApi
pub mod SectionApi
pub mod Switch
pub mod FirstRun
pub mod TimeSlices
pub mod Svc
pub mod Ticks
pub mod Calls
pub mod Invariant
pub mod Examples
use cortex_m3_rtos.Prelude.{
  ℕ, zero, suc, ◌+◌, Bool, true, false, not, Option, none, some, ◌==◌, if◌then◌else◌, update,
  Outcome, done, halted, ◌>>=◌, ◌>>◌,
}
use cortex_m3_rtos.Api.{WaitResult}
use cortex_m3_rtos.MemoryBuffer.{MemoryBuffer}
use cortex_m3_rtos.Memory.{Memory}
use cortex_m3_rtos.Lock
use cortex_m3_rtos.SystemTimer
use cortex_m3_rtos.Timer
use cortex_m3_rtos.Task
use cortex_m3_rtos.Task.{Registers}
use cortex_m3_rtos.Handle.{Objects}
use cortex_m3_rtos.Hardware.{Cpu}
use cortex_m3_rtos.Scheduler

-- kernel::internal::context, the globals of hardware.cpp (the id of a task for the address of its
-- saved registers, `none` for the null pointer), the processor and the memory of the user.
pub record Kernel : Type 0 where
  pub m_system_timer : SystemTimer.Context
  pub m_tasks : Task.Context
  pub m_scheduler : Scheduler.Context
  pub m_objects : Objects
  pub m_lock : Lock.Context
  pub m_started : Bool
  pub current_task_context : Option ℕ
  pub next_task_context : Option ℕ
  pub cpu : Cpu
  pub memory : Memory

unfoldable pub lock_enter : Kernel → Kernel
lock_enter k = record k { m_lock = Lock.enter k.m_lock }

unfoldable pub lock_leave : Kernel → Kernel
lock_leave k = record k { m_lock = Lock.leave k.m_lock }

-- Saves the stack pointer of a task, and says where PendSV is to save its registers.
unfoldable pub store_context : Kernel → ℕ → Outcome Kernel
store_context k id = do
  tasks ← Task.set_sp k.m_tasks id k.cpu.psp
  context ← Task.get_context tasks id
  done (record k { m_tasks = tasks; current_task_context = some context })

-- Says where the registers of a task are saved, and loads its stack pointer.
unfoldable pub load_context : Kernel → ℕ → Outcome Kernel
load_context k id = do
  context ← Task.get_context k.m_tasks id
  sp ← Task.get_sp k.m_tasks id
  done (record k { next_task_context = some context; cpu = record k.cpu { psp = sp } })

unfoldable pub load_next_task : Kernel → Outcome Kernel
load_next_task k = do
  (available, scheduler, tasks) ← Scheduler.get_current_task k.m_scheduler k.m_tasks
  elim available [
    | none ↦ halted
    | some next_task ↦ do
      k' ← load_context (record k { m_scheduler = scheduler; m_tasks = tasks }) next_task
      done (lock_leave k')
  ]

unfoldable pub switch_context : Kernel → Outcome Kernel
switch_context k = do
  let current_task = Scheduler.get_current_task_id k.m_scheduler
  (available, scheduler, tasks) ← Scheduler.get_current_task k.m_scheduler k.m_tasks
  elim available [
    | none ↦ halted
    | some next_task ↦ do
      k' ← store_context (record k { m_scheduler = scheduler; m_tasks = tasks }) current_task
      k'' ← load_context k' next_task
      done (lock_leave k'')
  ]

-- The part of `tick` that runs when the round-robin interval has passed.
unfoldable pub rotate : Kernel → Outcome (Bool × Kernel)
rotate k = do
  let current_task = Scheduler.get_current_task_id k.m_scheduler
  (found, scheduler, tasks) ← Scheduler.get_next_task k.m_scheduler k.m_tasks
  let k' : Kernel = record k { m_scheduler = scheduler; m_tasks = tasks }
  elim found [
    | none ↦ done (false, k')
    | some next_task ↦ if current_task == next_task then done (false, k') else (do
      k'' ← store_context k' current_task
      k''' ← load_context k'' next_task
      done (true, k'''))
  ]

-- The part of `tick` that runs when no kernel function holds the lock. `result` is the content of a
-- variable of `checkWaitConditions` that is not initialised.
unfoldable pub schedule : Kernel → WaitResult → Outcome (Bool × Kernel)
schedule k result = do
  let current_time = SystemTimer.get k.m_system_timer
  timers ← Timer.tick k.m_objects.timers current_time
  s ←
      Scheduler.check_wait_conditions
        (record {
          scheduler = k.m_scheduler;
          tasks = k.m_tasks;
          objects = record k.m_objects { timers = timers };
        })
        result current_time
  let (elapsed, system_timer) = SystemTimer.is_interval_elapsed k.m_system_timer
  let k' : Kernel = record k {
    m_scheduler = s.scheduler;
    m_tasks = s.tasks;
    m_objects = s.objects;
    m_system_timer = system_timer;
  }
  if elapsed then rotate k' else done (false, k')

-- The result says whether to switch the context.
unfoldable pub tick : Kernel → WaitResult → Outcome (Bool × Kernel)
tick k result = do
  (execute_context_switch, k') ←
      if Lock.is_locked k.m_lock then schedule k result else done (false, k)
  done (
    execute_context_switch,
    record k' { m_system_timer = SystemTimer.increment k'.m_system_timer },
  )

-- The registers at the address that `next_task_context` holds: `ldm r1, {r4-r11}`.
unfoldable pub load_registers : Kernel → Outcome Kernel
load_registers k = elim k.next_task_context [
  | none ↦ halted
  | some id ↦
      done (record k { cpu = record k.cpu { registers = (k.m_tasks.m_data.m_data id).m_context } })
]

-- `stm r1, {r4-r11}` to the address that `current_task_context` holds.
unfoldable pub store_registers : Kernel → Outcome Kernel
store_registers k = elim k.current_task_context [
  | none ↦ halted
  | some id ↦
      let b = k.m_tasks.m_data in
      done (record k {
        m_tasks = record {
          m_data = record b {
            m_data = update b.m_data id (record (b.m_data id) { m_context = k.cpu.registers });
          };
        };
      })
]

-- PendSV_Handler, once it is taken: the flag is clear.
unfoldable pub pend_sv_handler : Kernel → Outcome Kernel
pend_sv_handler k = do
  k' ← store_registers (record k { cpu = record k.cpu { pend_sv = false } })
  load_registers k'

-- SCB->ICSR |= SCB_ICSR_PENDSVSET_Msk
unfoldable pub set_pend_sv : Kernel → Kernel
set_pend_sv k = record k { cpu = record k.cpu { pend_sv = true } }

pub data SyscallId : Type 0 where
  load_next execute_context_switch : SyscallId

-- SVC_Handler_Main
unfoldable pub svc_handler : Kernel → SyscallId → Outcome Kernel
svc_handler k load_next = do k' ← load_next_task k; load_registers k'
svc_handler k execute_context_switch = do k' ← switch_context k; done (set_pend_sv k')

-- A pending PendSV follows the handler before any task runs.
unfoldable pub tail_chain : Kernel → Outcome Kernel
tail_chain k = if k.cpu.pend_sv then pend_sv_handler k else done k

-- hardware::syscall, up to where the task runs that is chosen.
unfoldable pub syscall : Kernel → SyscallId → Outcome Kernel
syscall k id = do k' ← svc_handler k id; tail_chain k'

-- SysTick_Handler, and the PendSV that it asks for.
unfoldable pub sys_tick_handler : Kernel → WaitResult → Outcome Kernel
sys_tick_handler k result = do
  (switch, k') ← tick k result
  tail_chain (if switch then set_pend_sv k' else k')
