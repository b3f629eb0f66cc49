-- ===== src/Kernel/Invariant/Ticks/Examples.antt =====
-- The system timer's interrupt in a kernel where task 3 waits for event 0, for 10 ms at most, while 7 and
-- 9 are ready.
use cortex_m3_rtos.Prelude.{ℕ, ◌<◌, ◌≡◌, refl, Bool, true, false, ltb, done, arith}
use cortex_m3_rtos.Api.{waiting, WaitResult}
use cortex_m3_rtos.Scheduler.Examples.{low_pair, ten_tasks, some_task}
use cortex_m3_rtos.Task
use cortex_m3_rtos.WaitList.{WaitItem}
use cortex_m3_rtos.Scheduler.Invariant.{WellFormed, is_waiting, waiter, ReadyTasks-put}
use cortex_m3_rtos.Kernel.{Kernel, sys_tick_handler}
use cortex_m3_rtos.Kernel.Invariant.{Well}
use cortex_m3_rtos.Kernel.Invariant.Rotate.{RunsTop}
use cortex_m3_rtos.Kernel.Invariant.Ticks.{sys_tick_handler_lem}
use cortex_m3_rtos.SystemTimer
use cortex_m3_rtos.WaitList
use cortex_m3_rtos.WaitConditions.Examples.{objects}
use cortex_m3_rtos.WaitConditions.Total.{is_due}
use cortex_m3_rtos.Config.{max_tasks}
use cortex_m3_rtos.Handle.{get_object_type, get_id}
use cortex_m3_rtos.Task.Laws.{put}
use cortex_m3_rtos.Scheduler.{State}
use cortex_m3_rtos.Scheduler.Invariant.Total.{ObjectsExist}
use cortex_m3_rtos.Kernel.Invariant.Examples.{seven_nine, low_pair-WellFormed, calm, event_wait}

abbrev pub three_waits : WaitList.Context
three_waits = record {
  m_list = record {
    m_data = λ _. record {
      m_id = 3;
      m_conditions = record event_wait { m_wait_forver = false; m_interval = 10 };
    };
    m_status = λ i. ltb i 1;
  };
}

abbrev pub waiting_three : Task.Context
waiting_three = put ten_tasks 3 (record some_task { m_state = waiting })

abbrev pub three_waiting : Kernel
three_waiting = record calm {
  m_scheduler = record low_pair { m_wait_list = three_waits };
  m_tasks = waiting_three;
}

pub three_waiting-WellFormed : WellFormed three_waiting.m_scheduler waiting_three seven_nine
three_waiting-WellFormed = record {
  ready_tasks =
      ReadyTasks-put ten_tasks seven_nine 3 (record some_task { m_state = waiting }) refl
        low_pair-WellFormed.ready_tasks;
  waiting_tasks = record {
    waiter_used = λ i lt w. (omega arith, refl);
    not_ready = λ i lt w. refl;
    once = λ i j hi hj w v e. ground arith;
  };
  asleep = λ i lt w. refl;
}

pub three_waiting-Well : Well three_waiting seven_nine
three_waiting-Well = record {
  scheduled = three_waiting-WellFormed;
  runs_ready = λ e. refl;
  unlocked = refl;
  no_switch = refl;
}

three_waiting-ObjectsExist : ObjectsExist three_waits objects
unfolding get_object_type get_id
three_waiting-ObjectsExist i e t k lt = (omega arith, refl)

sys_tick_handler_lem_example :
    (k' : Kernel) × (s' : ℕ → Bool) × (sys_tick_handler three_waiting WaitResult.wait_failed
      ≡ done k')
    × Well k' s'
    × ((j : ℕ) → seven_nine j ≡ true → s' j ≡ true)
    × ((i : ℕ)
        → i < max_tasks
        → is_waiting three_waits i ≡ true
        → is_due (three_waits.m_list.m_data i).m_conditions 0xffff_fffe ≡ true
        → s' (waiter three_waits i) ≡ true)
    × ((SystemTimer.is_interval_elapsed three_waiting.m_system_timer).0 ≡ true → RunsTop s' k')
sys_tick_handler_lem_example =
    sys_tick_handler_lem three_waiting seven_nine WaitResult.wait_failed three_waiting-Well refl
      three_waiting-ObjectsExist

abbrev pub contexts : State
contexts = record {
  scheduler = three_waiting.m_scheduler;
  tasks = waiting_three;
  objects = objects;
}
