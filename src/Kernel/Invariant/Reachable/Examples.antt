-- ===== src/Kernel/Invariant/Reachable/Examples.antt =====
-- A kernel from its constructors on: it is set up, and started.
use cortex_m3_rtos.Prelude.{ℕ, refl, Bool, false, done, halted}
use cortex_m3_rtos.CircularList.{Node, empty}
use cortex_m3_rtos.Scheduler.Examples.{some_task, no_conditions}
use cortex_m3_rtos.Timer
use cortex_m3_rtos.Queue
use cortex_m3_rtos.Task
use cortex_m3_rtos.Scheduler
use cortex_m3_rtos.WaitList.{WaitItem}
use cortex_m3_rtos.Kernel.TaskApi
use cortex_m3_rtos.Kernel.Invariant.Reachable.{reachable_lem}
use cortex_m3_rtos.MemoryBuffer
use cortex_m3_rtos.ReadyList
use cortex_m3_rtos.CircularList
use cortex_m3_rtos.Event
use cortex_m3_rtos.Hardware.Examples.{cpu}
use cortex_m3_rtos.Kernel.{
  Kernel, lock_enter, lock_leave, syscall, svc_handler, load_next_task, load_registers, tail_chain,
  load_context,
}
use cortex_m3_rtos.Kernel.Calls.{
  new_kernel, Call, init, start, perform, Step, performs, here, later,
}
use cortex_m3_rtos.Kernel.Invariant.{Well}
use cortex_m3_rtos.Kernel.TaskApi.{create, sleep}
use cortex_m3_rtos.Scheduler.{State, check_wait_conditions}

abbrev nodes : ℕ → ℕ → Node
nodes q i = record { m_next = 0; m_prev = 0; m_data = 0 }

abbrev items : ℕ → WaitItem
items i = record { m_id = 0; m_conditions = no_conditions }

abbrev timers : ℕ → Timer.Timer
timers i = record { m_start = 0; m_interval = 0; m_current = 0; m_state = Timer.State.stopped }

abbrev events : ℕ → Event.Event
events i = record { m_state = Event.State.reset_state; mp_name = 0; m_manual_reset = false }

abbrev queues : ℕ → Queue.Queue
queues i = record {
  m_current_size = 0;
  m_head = 0;
  m_tail = 0;
  m_data_max_elements = 0;
  m_data_type_size = 0;
  mp_data = 0;
  mp_name = 0;
}

abbrev new : Kernel
new = new_kernel nodes items (λ _. some_task) timers events queues cpu (λ a. a)

abbrev after : Kernel → Call → Kernel
after k c = elim (perform c k) [ done k' ↦ k' | halted ↦ k ]

-- The idle task is created, and runs.
abbrev with_idle : Kernel
with_idle = after new (init 0x0800_0100 0x0800_0200)

abbrev idle_runs : Kernel
idle_runs = after with_idle start

init-Step : Step new with_idle
unfolding perform new_kernel MemoryBuffer.init empty lock_enter lock_leave TaskApi.init
    TaskApi.create Task.create Task.get_priority Scheduler.add_ready_task ReadyList.add_task
    ReadyList.add_to CircularList.find CircularList.add Scheduler.get_current_task_id
    TaskApi.created
init-Step = performs (init 0x0800_0100 0x0800_0200) (λ e. cc) refl

start-Step : Step with_idle idle_runs
unfolding perform new_kernel MemoryBuffer.init empty lock_enter lock_leave TaskApi.init
    TaskApi.create Task.create Task.get_priority Scheduler.add_ready_task ReadyList.add_task
    ReadyList.add_to CircularList.find CircularList.add Scheduler.get_current_task_id
    TaskApi.created TaskApi.start syscall svc_handler load_next_task Scheduler.get_current_task
    Scheduler.current_from ReadyList.find_current_task ReadyList.current_of load_registers
    tail_chain load_context Task.set_state Task.get_context Task.get_sp
start-Step = performs start (λ e. cc) refl

reachable_lem_example : (s : ℕ → Bool) × Well idle_runs s
reachable_lem_example =
    reachable_lem nodes items (λ _. some_task) timers events queues cpu (λ a. a) idle_runs refl
      (later (later here init-Step) start-Step)
