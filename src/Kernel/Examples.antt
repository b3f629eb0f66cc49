-- ===== src/Kernel/Examples.antt =====
-- A kernel with ten tasks, of which 7 and 9, of priority Low, are ready; 7 runs.
use cortex_m3_rtos.Prelude.{
  ℕ, ◌+◌, ◌%◌, ◌≡◌, refl, true, false, none, some, ◌==◌, if◌then◌else◌, done, arith, u32_mod,
}
use cortex_m3_rtos.Api.{running, WaitResult}
use cortex_m3_rtos.Task
use cortex_m3_rtos.Task.Laws.{put, task_at}
use native.Mathlib.Decide.{ℕ_discrete}
use cortex_m3_rtos.CircularList.{empty}
use cortex_m3_rtos.CircularList.Examples.{same}
use cortex_m3_rtos.ReadyList.{TaskList}
use cortex_m3_rtos.ReadyList.Ready.{IsReady}
use cortex_m3_rtos.ReadyList.Examples.{pair, nobody, pair-IsReady, nobody-IsReady}
use cortex_m3_rtos.Scheduler
use cortex_m3_rtos.Scheduler.{get_current_task, get_current_task_id}
use cortex_m3_rtos.Scheduler.Choice.{AreReady, IsHighest, get_current_task_lem}
use cortex_m3_rtos.WaitConditions.Examples.{objects}
use cortex_m3_rtos.Scheduler.Examples.{
  low_pair, ten_tasks, some_task, low_pair-AreReady, low_pair-IsHighest,
}
use cortex_m3_rtos.Hardware.Examples.{cpu}
use cortex_m3_rtos.Kernel.{Kernel, lock_leave, syscall, execute_context_switch}
use cortex_m3_rtos.Kernel.Switch.{saved, running_on, switch_lem, switch_back}
use cortex_m3_rtos.Kernel.Ticks.{ticks, at_time, locked_ticks}

abbrev pub two_ready : Kernel
two_ready = record {
  m_system_timer = record { m_old_time = 0; m_current_time = 0xffff_fffe };
  m_tasks = ten_tasks;
  m_scheduler = low_pair;
  m_objects = objects;
  m_lock = record { m_interlock = 1 };
  m_started = true;
  current_task_context = none;
  next_task_context = none;
  cpu = cpu;
  memory = λ a. a;
}

locked_ticks_example :
    ticks 3 two_ready WaitResult.wait_failed
    ≡ done (at_time two_ready ((0xffff_fffe + 3) % u32_mod))
locked_ticks_example =
    locked_ticks 3 two_ready WaitResult.wait_failed (omega arith) refl (omega arith)

-- Task 9 is current, though the list has 7 as its current task.
abbrev pub nine_current : Scheduler.Context
nine_current = record low_pair { m_current = 9; m_next = 9 }

abbrev pub nine_runs : Kernel
nine_runs = record two_ready { m_scheduler = nine_current }

-- All ten tasks, of which `id` runs.
abbrev one_running : ℕ → Task.Context
one_running id = put ten_tasks id (record some_task { m_state = running })

seven_chosen : get_current_task nine_current ten_tasks ≡ done (some 7, low_pair, one_running 7)
seven_chosen =
    get_current_task_lem nine_current ten_tasks (λ _. same) (λ _. 0) 2 low_pair-AreReady
      low_pair-IsHighest (omega arith, refl)

abbrev switched : Kernel
switched =
    running_on
      (lock_leave (record nine_runs {
        m_scheduler = low_pair;
        m_tasks = saved nine_runs (one_running 7) 9;
        current_task_context = some 9;
      }))
      7

switch_lem_example : syscall nine_runs execute_context_switch ≡ done switched
unfolding get_current_task_id
switch_lem_example =
    switch_lem nine_runs 7 low_pair (one_running 7) seven_chosen (omega arith, refl)
      (omega arith, refl)

-- The list when it has moved on to task 9.
abbrev at_nine : TaskList
at_nine = record pair { m_current = 1 }

at_nine-IsReady : IsReady at_nine same 1
at_nine-IsReady = record {
  ring = pair-IsReady.ring;
  position = λ _. omega arith;
  current = λ _. refl;
  unique = pair-IsReady.unique;
}

-- Task 7 is current, and 9 the one to choose.
abbrev nine_next : Scheduler.Context
nine_next = record low_pair {
  m_ready_list = record { m_ready_list = λ q. if q == 2 then at_nine else nobody };
}

nine_next-AreReady : AreReady nine_next.m_ready_list (λ _. same) (λ q. if q == 2 then 1 else 0)
nine_next-AreReady q h = elim (ℕ_discrete q 2) [
  | yes e ↦ rw e at_nine-IsReady
  | no ne ↦ let f : (q == 2) ≡ false = ground arith in rw f nobody-IsReady
]

nine_next-IsHighest : IsHighest nine_next.m_ready_list 2
unfolding empty
nine_next-IsHighest = (omega arith, omega arith, λ j h. ground arith)

abbrev later : Kernel
later = record switched { m_scheduler = nine_next; cpu = record cpu { psp = 0x2000_0100 } }

-- The tasks of `later`, when 9 is made running.
abbrev nine_running : Task.Context
nine_running = put later.m_tasks 9 (record (task_at later.m_tasks 9) { m_state = running })

nine_chosen :
    get_current_task nine_next later.m_tasks
    ≡ done (some 9, record nine_next { m_current = 9; m_next = 9 }, nine_running)
unfolding lock_leave
nine_chosen =
    get_current_task_lem nine_next later.m_tasks (λ _. same) (λ q. if q == 2 then 1 else 0) 2
      nine_next-AreReady nine_next-IsHighest (omega arith, refl)

switch_back_example :
    (k3 : Kernel) × (syscall later execute_context_switch ≡ done k3)
    × (k3.cpu.psp ≡ nine_runs.cpu.psp)
    × (k3.cpu.registers ≡ nine_runs.cpu.registers)
unfolding get_current_task_id lock_leave
switch_back_example =
    switch_back nine_runs switched later 7 low_pair (record nine_next { m_current = 9; m_next = 9 })
      (one_running 7) nine_running seven_chosen (omega arith, refl) (omega arith, refl)
      (switch_lem nine_runs 7 low_pair (one_running 7) seven_chosen (omega arith, refl)
        (omega arith, refl))
      nine_chosen (omega arith, refl) (omega arith, refl) (omega arith) refl refl
