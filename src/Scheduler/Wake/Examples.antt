-- ===== src/Scheduler/Wake/Examples.antt =====
-- Task 3, of priority Low, wakes up and is resumed, while the tasks 7 and 9 are ready.
use cortex_m3_rtos.Prelude.{◌≡◌, refl, true, ltb, done, arith}
use cortex_m3_rtos.Api.{suspended, ready, WaitResult, object_set}
use cortex_m3_rtos.Task
use cortex_m3_rtos.Task.Laws.{put, task_at}
use cortex_m3_rtos.CircularList.Examples.{same}
use cortex_m3_rtos.ReadyList
use cortex_m3_rtos.ReadyList.{TaskList}
use cortex_m3_rtos.ReadyList.Ready.Changes.{Absent, Appended}
use cortex_m3_rtos.ReadyList.Examples.{pair, pair-IsReady}
use cortex_m3_rtos.WaitConditions.{Verdict, check}
use cortex_m3_rtos.WaitConditions.Examples.{objects}
use cortex_m3_rtos.WaitList
use cortex_m3_rtos.Scheduler.{State, check_slot, resume_suspended_task}
use cortex_m3_rtos.Scheduler.Examples.{low_pair, ten_tasks, some_task, no_conditions}
use cortex_m3_rtos.Scheduler.Wake.{woken, without_item, check_slot_wakes, resume_lem}

-- Task 3 sleeps for 10 ms from time 0 on.
abbrev sleeper : WaitList.Context
sleeper = record {
  m_list = record {
    m_data = λ _. record { m_id = 3; m_conditions = record no_conditions { m_interval = 10 } };
    m_status = λ i. ltb i 1;
  };
}

abbrev asleep : State
asleep = record {
  scheduler = record low_pair { m_wait_list = sleeper };
  tasks = ten_tasks;
  objects = objects;
}

abbrev slept : Verdict
slept = record { fulfilled = true; objects = objects; result = object_set; signaled_item_index = 0 }

three-Absent : Absent pair same 3
three-Absent k h = ground arith

slept-eq :
    check (record no_conditions { m_interval = 10 }) objects WaitResult.wait_failed 11 0
    ≡ done slept
unfolding check
slept-eq = refl

check_slot_wakes_example :
    (t' : TaskList) × (check_slot asleep WaitResult.wait_failed 11 0
      ≡ done (record {
        scheduler = record asleep.scheduler {
          m_ready_list = ReadyList.put low_pair.m_ready_list 2 t';
          m_wait_list = without_item sleeper 0;
        };
        tasks = put ten_tasks 3 (woken some_task slept);
        objects = objects;
      }))
    × Appended pair same 0 3 t'
check_slot_wakes_example =
    check_slot_wakes asleep WaitResult.wait_failed 11 0 slept same 0 (omega arith) refl slept-eq
      refl (omega arith, refl) pair-IsReady three-Absent (omega arith)

abbrev three_suspended : Task.Context
three_suspended = put ten_tasks 3 (record some_task { m_state = suspended })

resume_lem_example :
    (t' : TaskList) × (resume_suspended_task low_pair three_suspended 3
      ≡ done (
        true,
        record low_pair { m_ready_list = ReadyList.put low_pair.m_ready_list 2 t' },
        put three_suspended 7 (record (task_at three_suspended 7) { m_state = ready }),
      ))
    × Appended pair same 0 3 t'
resume_lem_example =
    resume_lem low_pair three_suspended 3 same 0 (omega arith, refl) (omega arith, refl) refl
      pair-IsReady three-Absent (omega arith)
