-- ===== src/Kernel/Invariant/WaitEnd/Examples.antt =====
-- The wait of task 3 for event 0 ends, and the task runs.
use cortex_m3_rtos.Prelude.{ℕ, Bool, ◌≡◌, refl, true, update, done, halted, arith}
use cortex_m3_rtos.Api.{WaitResult, object_set}
use cortex_m3_rtos.Handle.{get_object_type, get_id, test_condition, reset_state}
use cortex_m3_rtos.Task.Laws.{task_at}
use cortex_m3_rtos.WaitConditions.{Verdict, check, test_wait_signals}
use cortex_m3_rtos.WaitConditions.Examples.{objects}
use cortex_m3_rtos.Scheduler.{State, check_slot, check_wait_conditions}
use cortex_m3_rtos.Scheduler.Wake.{item_at}
use cortex_m3_rtos.Scheduler.Invariant.{WellFormed}
use cortex_m3_rtos.Kernel.{Kernel}
use cortex_m3_rtos.Kernel.SectionApi.{Section, leave}
use cortex_m3_rtos.Kernel.SyncApi.{wait_end}
use cortex_m3_rtos.Kernel.Invariant.{Well}
use cortex_m3_rtos.Kernel.Invariant.WaitEnd.{check_slot-over, wait_end-check_slot}
use cortex_m3_rtos.Kernel.Invariant.SectionWake.{contexts_of, leave_wakes}
use cortex_m3_rtos.Kernel.Invariant.Signaled.{WaitsFor, FirstWaiter}
use cortex_m3_rtos.Scheduler.Invariant.Total.{ObjectsExist}
use cortex_m3_rtos.Kernel.Invariant.Examples.{seven_nine, event_wait}
use cortex_m3_rtos.Kernel.Invariant.Ticks.Examples.{
  three_waits, three_waiting, three_waiting-WellFormed, contexts,
}

abbrev over : Verdict
unfolding check
over = elim (check (item_at contexts 0).m_conditions objects WaitResult.wait_failed 5 0) [
  | done v ↦ v
  | halted ↦ record {
    fulfilled = true;
    objects = objects;
    result = object_set;
    signaled_item_index = 0;
  }
]

check-over : check (item_at contexts 0).m_conditions objects WaitResult.wait_failed 5 0 ≡ done over
unfolding check test_wait_signals test_condition reset_state
check-over = refl

-- Task 3 gets ready.
looked :
    (st' : State) × (check_slot contexts WaitResult.wait_failed 5 0 ≡ done st')
    × WellFormed st'.scheduler st'.tasks (update seven_nine 3 true)
    × ((task_at st'.tasks 3).m_result ≡ object_set)
    × ((task_at st'.tasks 3).m_last_signal_index ≡ 0)
unfolding over test_wait_signals test_condition reset_state
looked =
    check_slot-over contexts seven_nine three_waiting-WellFormed WaitResult.wait_failed 5 0 over
      (omega arith) refl check-over refl

-- Later it runs.
abbrev runs_three : Kernel
runs_three = record three_waiting {
  m_scheduler = record looked.0.scheduler { m_current = 3; m_next = 3 };
  m_tasks = looked.0.tasks;
}

runs_three-Well : Well runs_three (update seven_nine 3 true)
runs_three-Well = record {
  scheduled = record {
    ready_tasks = looked.2.ready_tasks;
    waiting_tasks = looked.2.waiting_tasks;
    asleep = looked.2.asleep;
  };
  runs_ready = λ e. refl;
  unlocked = refl;
  no_switch = refl;
}

wait_end-check_slot_example : wait_end runs_three ≡ done (object_set, 0, runs_three)
unfolding over test_wait_signals test_condition reset_state
wait_end-check_slot_example =
    wait_end-check_slot contexts looked.0 seven_nine (update seven_nine 3 true) runs_three
      WaitResult.wait_failed 5 0 over three_waiting-WellFormed (omega arith) refl check-over refl
      looked.1 runs_three-Well refl (runs_three-Well.scheduled.ready_tasks.used 3 refl) refl refl

-- The section whose event is event 0, and task 3, which waits for it for ever.
abbrev section : Section
section = record { m_lock_count = 1; m_spin_lock = 100; m_event = 0x2_0000; m_owner_task = 7 }

abbrev waits_for_section : Kernel
waits_for_section = record three_waiting {
  m_scheduler = record three_waiting.m_scheduler {
    m_wait_list = record {
      m_list = record three_waits.m_list {
        m_data = λ _. record { m_id = 3; m_conditions = event_wait };
      };
    };
  };
}

waits_for_section-Well : Well waits_for_section seven_nine
waits_for_section-Well = record {
  scheduled = record {
    ready_tasks = three_waiting-WellFormed.ready_tasks;
    waiting_tasks = record {
      waiter_used = λ i lt w. (omega arith, refl);
      not_ready = λ i lt w. refl;
      once = λ i j hi hj w v e. ground arith;
    };
    asleep = λ i lt w. refl;
  };
  runs_ready = λ e. refl;
  unlocked = refl;
  no_switch = refl;
}

event_wait-WaitsFor : WaitsFor event_wait 0x2_0000
event_wait-WaitsFor = record { type = refl; forever = refl; any = refl; one = refl; signal = refl }

waiter_first : FirstWaiter (contexts_of waits_for_section) 0x2_0000 0
waiter_first = record {
  inside = omega arith;
  taken = refl;
  waits = event_wait-WaitsFor;
  first = λ j lt. absurd (omega (arith, lt));
}

section-ObjectsExist :
    ObjectsExist waits_for_section.m_scheduler.m_wait_list waits_for_section.m_objects
unfolding get_object_type get_id
section-ObjectsExist i e t k lt = (omega arith, refl)

leave_wakes_example :
    (k' : Kernel) × (leave waits_for_section section
      ≡ done (record section { m_lock_count = 0 }, k'))
    × Well k' seven_nine
    × (st' : State) × (s' : ℕ → Bool) × (check_wait_conditions
          (contexts_of k')
          WaitResult.wait_failed
          5
        ≡ done st')
    × WellFormed st'.scheduler st'.tasks s'
    × (s' 3 ≡ true)
    × ((task_at st'.tasks 3).m_result ≡ object_set)
    × ((j : ℕ) → seven_nine j ≡ true → s' j ≡ true)
unfolding get_object_type get_id
leave_wakes_example =
    leave_wakes waits_for_section seven_nine section WaitResult.wait_failed 5 0
      waits_for_section-Well refl refl (omega arith, refl) section-ObjectsExist waiter_first
