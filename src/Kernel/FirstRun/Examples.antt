-- ===== src/Kernel/FirstRun/Examples.antt =====
-- Task 7 is created, and chosen while task 9 is current.
use cortex_m3_rtos.Prelude.{◌≡◌, refl, false, some, done, arith}
use cortex_m3_rtos.Api.{Priority, running}
use cortex_m3_rtos.CircularList.Examples.{same}
use cortex_m3_rtos.Task
use cortex_m3_rtos.Task.{init_task}
use cortex_m3_rtos.Task.Laws.{put, task_at}
use cortex_m3_rtos.Task.Lifetime.{with_task, without_task}
use cortex_m3_rtos.Task.Frame.{IsFrame}
use cortex_m3_rtos.Scheduler.{get_current_task, get_current_task_id}
use cortex_m3_rtos.Scheduler.Choice.{get_current_task_lem}
use cortex_m3_rtos.Scheduler.Examples.{
  low_pair, ten_tasks, some_task, low_pair-AreReady, low_pair-IsHighest,
}
use cortex_m3_rtos.Kernel.{Kernel, execute_context_switch, syscall}
use cortex_m3_rtos.Kernel.Examples.{nine_current, nine_runs}
use cortex_m3_rtos.Kernel.FirstRun.{first_run}

-- Slot 7 is free.
abbrev nine_tasks : Task.Context
nine_tasks = without_task ten_tasks 7

abbrev with_seven : Task.Context
with_seven =
    with_task nine_tasks 7 (init_task some_task 0x0800_0100 0x0800_0300 Priority.low 5 false)

seven_created :
    Task.create nine_tasks 0x0800_0100 0x0800_0300 Priority.low 5 false ≡ done (some 7, with_seven)
unfolding Task.create
seven_created = refl

abbrev seven_runs : Task.Context
seven_runs = put with_seven 7 (record (task_at with_seven 7) { m_state = running })

seven_chosen : get_current_task nine_current with_seven ≡ done (some 7, low_pair, seven_runs)
seven_chosen =
    get_current_task_lem nine_current with_seven (λ _. same) (λ _. 0) 2 low_pair-AreReady
      low_pair-IsHighest (omega arith, refl)

first_run_example :
    (k' : Kernel) × (syscall (record nine_runs { m_tasks = with_seven }) execute_context_switch
      ≡ done k')
    × IsFrame (task_at k'.m_tasks 7).m_stack k'.cpu.psp 0x0800_0100
unfolding get_current_task_id
first_run_example =
    first_run nine_tasks with_seven 0x0800_0100 0x0800_0300 Priority.low 5 false 7
      (record nine_runs { m_tasks = with_seven }) execute_context_switch low_pair seven_runs
      (omega arith) seven_created seven_chosen (omega arith, refl) (omega arith, refl)
      (λ e. absurd (omega (arith, e))) refl refl refl
