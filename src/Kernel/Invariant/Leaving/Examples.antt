-- ===== src/Kernel/Invariant/Leaving/Examples.antt =====
-- Task 7 suspends itself, or ends, while task 9 is ready.
use cortex_m3_rtos.Prelude.{◌≡◌, refl, false, done, arith}
use cortex_m3_rtos.Api.{suspended}
use cortex_m3_rtos.Handle.{get_object_type, get_id}
use cortex_m3_rtos.Task.Laws.{task_at}
use cortex_m3_rtos.Scheduler.Invariant.Choice.{IsTop}
use cortex_m3_rtos.Kernel.{Kernel}
use cortex_m3_rtos.Kernel.TaskApi.{suspend, task_routine_exit}
use cortex_m3_rtos.Kernel.Invariant.{Well}
use cortex_m3_rtos.Kernel.Invariant.Sleep.{others}
use cortex_m3_rtos.Kernel.Invariant.Leaving.{suspend_itself, task_routine_exit_lem}
use cortex_m3_rtos.Kernel.Invariant.Examples.{seven_nine, calm, calm-Well}

suspend_itself_example :
    (k' : Kernel) × (suspend calm 7 ≡ done k')
    × Well k' (others calm seven_nine calm-Well)
    × IsTop calm.m_tasks (others calm seven_nine calm-Well) k'.m_scheduler.m_current
    × ((task_at k'.m_tasks 7).m_state ≡ suspended)
unfolding get_object_type get_id
suspend_itself_example =
    suspend_itself calm seven_nine calm-Well refl 9 refl (λ e. absurd (omega (arith, e))) 7 refl
      refl

task_routine_exit_lem_example :
    (k' : Kernel) × (task_routine_exit calm 7 ≡ done k')
    × Well k' (others calm seven_nine calm-Well)
    × IsTop calm.m_tasks (others calm seven_nine calm-Well) k'.m_scheduler.m_current
    × (k'.m_tasks.m_data.m_status 7 ≡ false)
task_routine_exit_lem_example =
    task_routine_exit_lem calm seven_nine calm-Well refl 9 refl (λ e. absurd (omega (arith, e)))
