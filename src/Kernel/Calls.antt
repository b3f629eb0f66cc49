-- ===== src/Kernel/Calls.antt =====
-- The kernel as its user sees it: the state after the constructors of the globals, the calls of the API
-- and the interrupts of the system timer, and the states that they lead to (source/kernel.cpp).
use cortex_m3_rtos.Prelude.{ℕ, ◌≡◌, Bool, true, false, Option, none, Outcome, done, ◌>>=◌}
use cortex_m3_rtos.Api.{Priority, WaitResult}
use cortex_m3_rtos.MemoryBuffer
use cortex_m3_rtos.CircularList.{Node, empty}
use cortex_m3_rtos.Memory.{Memory}
use cortex_m3_rtos.Hardware.{Cpu}
use cortex_m3_rtos.Task.{Task}
use cortex_m3_rtos.Timer
use cortex_m3_rtos.Event
use cortex_m3_rtos.Queue
use cortex_m3_rtos.WaitList.{WaitItem}
use cortex_m3_rtos.Kernel.{Kernel, sys_tick_handler}
use cortex_m3_rtos.Kernel.TaskApi
use cortex_m3_rtos.Kernel.TimerApi
use cortex_m3_rtos.Kernel.EventApi
use cortex_m3_rtos.Kernel.QueueApi
use cortex_m3_rtos.Kernel.SyncApi
use cortex_m3_rtos.Kernel.SectionApi
use cortex_m3_rtos.Kernel.SectionApi.{Section, Progress}

-- The globals after the constructors have run. What is not initialised is an argument: the content of
-- the slots, and the processor and the memory.
unfoldable pub new_kernel :
    (ℕ → ℕ → Node)
    → (ℕ → WaitItem)
    → (ℕ → Task)
    → (ℕ → Timer.Timer)
    → (ℕ → Event.Event)
    → (ℕ → Queue.Queue)
    → Cpu
    → Memory
    → Kernel
new_kernel nodes items tasks timers events queues cpu memory = record {
  m_system_timer = record { m_old_time = 0; m_current_time = 0 };
  m_tasks = record { m_data = MemoryBuffer.init tasks };
  m_scheduler = record {
    m_current = 0;
    m_next = 0;
    m_ready_list = record {
      m_ready_list = λ q. record { m_list = empty (nodes q); m_current = 0 };
    };
    m_wait_list = record { m_list = MemoryBuffer.init items };
  };
  m_objects = record {
    timers = record { m_data = MemoryBuffer.init timers };
    events = record { m_data = MemoryBuffer.init events };
    queues = record { m_data = MemoryBuffer.init queues };
  };
  m_lock = record { m_interlock = 0 };
  m_started = false;
  current_task_context = none;
  next_task_context = none;
  cpu = cpu;
  memory = memory;
}

-- The calls that change the state, with their arguments, and the interrupt of the system timer.
pub data Call : Type 0 where
  init : ℕ → ℕ → Call
  start : Call
  create_task : ℕ → ℕ → Priority → ℕ → Bool → Call
  task_routine_exit : ℕ → Call
  terminate suspend resume : ℕ → Call
  sleep : ℕ → Call
  wait_begin : Option (ℕ → ℕ) → ℕ → Bool → Bool → ℕ → Call
  wait_end : Call
  create_timer : ℕ → Call
  destroy_timer start_timer restart_timer stop_timer : ℕ → Call
  create_event : Bool → ℕ → Call
  destroy_event set_event reset_event : ℕ → Call
  create_queue : ℕ → ℕ → ℕ → ℕ → ℕ → Call
  destroy_queue : ℕ → Call
  send receive : ℕ → ℕ → Call
  init_section : ℕ → Call
  deinit_section : Section → Call
  enter_round : Section → ℕ → Call
  leave_section : Section → Call
  sys_tick : WaitResult → Call

-- The kernel among the results of a call.
abbrev pub kernel_second : {A : Type 0} → A × Kernel → Kernel
kernel_second (_, k) = k

abbrev pub kernel_third : {A B : Type 0} → A × B × Kernel → Kernel
kernel_third (_, _, k) = k

-- The kernel that a call leaves, without its other results.
abbrev pub only : {A : Type 0} → (A → Kernel) → Outcome A → Outcome Kernel
only f o = o >>= λ a. done (f a)

unfoldable pub perform : Call → Kernel → Outcome Kernel
perform (init r i) k = TaskApi.init k r i
perform start k = TaskApi.start k
perform (create_task t r p x b) k = only kernel_third (TaskApi.create k t r p x b)
perform (task_routine_exit id) k = TaskApi.task_routine_exit k id
perform (terminate handle) k = TaskApi.terminate k handle
perform (suspend handle) k = TaskApi.suspend k handle
perform (resume handle) k = TaskApi.resume k handle
perform (sleep time) k = TaskApi.sleep k time
perform (wait_begin handles n all forever timeout) k =
    only kernel_second (SyncApi.wait_begin k handles n all forever timeout)
perform wait_end k = only kernel_third (SyncApi.wait_end k)
perform (create_timer interval) k = only kernel_second (TimerApi.create k interval)
perform (destroy_timer handle) k = TimerApi.destroy k handle
perform (start_timer handle) k = TimerApi.start k handle
perform (restart_timer handle) k = TimerApi.restart k handle
perform (stop_timer handle) k = TimerApi.stop k handle
perform (create_event b name) k = only kernel_second (EventApi.create k b name)
perform (destroy_event handle) k = EventApi.destroy k handle
perform (set_event handle) k = EventApi.set_event k handle
perform (reset_event handle) k = EventApi.reset_event k handle
perform (create_queue h n z b name) k = only kernel_third (QueueApi.create k h n z b name)
perform (destroy_queue handle) k = QueueApi.destroy k handle
perform (send handle p) k = only kernel_second (QueueApi.send k handle p)
perform (receive handle p) k = only kernel_second (QueueApi.receive k handle p)
perform (init_section n) k = only kernel_second (SectionApi.init k n)
perform (deinit_section c) k = SectionApi.deinit k c
perform (enter_round c i) k = only kernel_third (SectionApi.enter_round k c i)
perform (leave_section c) k = only kernel_second (SectionApi.leave k c)
perform (sys_tick r) k = sys_tick_handler k r

-- What only happens once the kernel has started: what a task does that sleeps or waits, and the
-- interrupt of the system timer.
abbrev pub is_late : Call → Bool
is_late (sleep _) = true
is_late (wait_begin _ _ _ _ _) = true
is_late (enter_round _ _) = true
is_late (sys_tick _) = true
is_late _ = false

-- A call, or an interrupt, that the processor comes back from.
pub data Step (k k' : Kernel) : Type 0 where
  performs :
      (c : Call) → (is_late c ≡ true → k.m_started ≡ true) → perform c k ≡ done k' → Step k k'

pub data Reachable (k : Kernel) : Kernel → Type 0 where
  here : Reachable k k
  later : {k' k'' : Kernel} → Reachable k k' → Step k' k'' → Reachable k k''
