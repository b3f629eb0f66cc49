-- ===== src/Kernel/Invariant/Examples.antt =====
-- The invariant of a kernel with ten tasks, of which 7 and 9, of priority Low, are ready, and 7
-- runs.
use cortex_m3_rtos.Prelude.{
  ℕ, ◌<◌, ◌≡◌, refl, ◌||◌, Bool, true, false, ◌==◌, update, none, some, done, arith,
}
use native.Mathlib.Decide.{ℕ_discrete}
use cortex_m3_rtos.Api.{Priority, suspended, waiting}
use cortex_m3_rtos.CircularList.{empty}
use cortex_m3_rtos.CircularList.Examples.{same}
use cortex_m3_rtos.ReadyList.Examples.{pair-IsReady, nobody-IsReady}
use cortex_m3_rtos.ReadyList.Members.{Holds}
use cortex_m3_rtos.Scheduler.Examples.{low_pair, ten_tasks, some_task, no_conditions}
use cortex_m3_rtos.Scheduler.Invariant.{WellFormed, at_level}
use cortex_m3_rtos.Kernel.{Kernel}
use cortex_m3_rtos.Kernel.Examples.{two_ready}
use cortex_m3_rtos.Kernel.Invariant.{Well}
use cortex_m3_rtos.Kernel.Invariant.Resume.{Resumed, resume_preempts}
use cortex_m3_rtos.Kernel.Invariant.Sleep.{Blocks, others, sleep_lem}
use cortex_m3_rtos.Kernel.Invariant.Create.{Created, with_new, create_preempts}
use cortex_m3_rtos.Task.Lifetime.{with_task, without_task}
use cortex_m3_rtos.Scheduler.Invariant.Lifetime.{with_task-WellFormed, without_task-WellFormed}
use cortex_m3_rtos.Kernel.Invariant.Sync.{wait_begin_lem}
use cortex_m3_rtos.Kernel.TaskApi.{create, sleep, resume}
use cortex_m3_rtos.Kernel.SyncApi.{wait_begin}
use cortex_m3_rtos.WaitConditions.{wait_for_obj, Conditions}
use cortex_m3_rtos.Handle.{get_object_type, get_id}
use cortex_m3_rtos.Task.Laws.{task_at}
use cortex_m3_rtos.Scheduler.Invariant.Choice.{IsTop}

abbrev pub seven_nine : ℕ → Bool
seven_nine id = (id == 7) || (id == 9)

low_pair-Holds :
    (q : ℕ) → Holds (low_pair.m_ready_list.m_ready_list q) (at_level ten_tasks seven_nine q)
unfolding empty
low_pair-Holds q = elim (ℕ_discrete q 2) [
  | yes e ↦ rw e (record {
    node = same;
    position = 0;
    ready = pair-IsReady;
    members = λ id. ground arith;
    below = λ id h. ground arith;
  })
  | no ne ↦
      let f : (q == 2) ≡ false = ground arith in
      rw f (record {
        node = same;
        position = 0;
        ready = nobody-IsReady;
        members = λ id. ground (arith, ne);
        below = λ id h. ground (arith, ne);
      })
]

pub low_pair-WellFormed : WellFormed low_pair ten_tasks seven_nine
low_pair-WellFormed = record {
  ready_tasks = record { lists = λ q lt. low_pair-Holds q; used = λ id e. (ground arith, refl) };
  waiting_tasks = record {
    waiter_used = λ i lt w. cc;
    not_ready = λ i lt w. cc;
    once = λ i j hi hj w v e. cc;
  };
  asleep = λ i lt w. cc;
}

abbrev pub calm : Kernel
calm = record two_ready { m_lock = record { m_interlock = 0 } }

pub calm-Well : Well calm seven_nine
calm-Well = record {
  scheduled = low_pair-WellFormed;
  runs_ready = λ e. refl;
  unlocked = refl;
  no_switch = refl;
}

sleep_lem_example : Blocks calm seven_nine calm-Well (sleep calm 50)
sleep_lem_example =
    sleep_lem calm seven_nine calm-Well 50 9 refl (omega arith) refl
      (λ e. absurd (omega (arith, e)))

-- Slot 8 is free.
abbrev spare : Kernel
spare = record calm { m_tasks = without_task ten_tasks 8 }

spare-Well : Well spare seven_nine
spare-Well = record {
  scheduled = without_task-WellFormed 8 low_pair-WellFormed refl (λ i lt w. cc);
  runs_ready = λ e. refl;
  unlocked = refl;
  no_switch = refl;
}

create_preempts_example :
    (id : ℕ) × (id < 10)
    × (spare.m_tasks.m_data.m_status id ≡ false)
    × Created
        (with_new spare seven_nine spare-Well refl 0x0800_0100 0x0800_0300 Priority.high 5 id)
        (update seven_nine id true)
        7
        id
        Priority.high
        (create spare 0x0800_0100 0x0800_0300 Priority.high 5 false)
create_preempts_example =
    create_preempts spare seven_nine spare-Well refl 0x0800_0100 0x0800_0300 Priority.high 5 8
      (λ e. absurd (omega (arith, e))) (omega arith) refl

-- Task 8, of priority High, is suspended.
abbrev suspended_eight : Kernel
suspended_eight = record calm {
  m_tasks =
      with_task (without_task ten_tasks 8) 8
        (record some_task { m_priority = Priority.high; m_state = suspended });
}

suspended_eight-Well : Well suspended_eight seven_nine
suspended_eight-Well = record {
  scheduled =
      with_task-WellFormed 8 spare-Well.scheduled
        (record some_task { m_priority = Priority.high; m_state = suspended }) refl;
  runs_ready = λ e. refl;
  unlocked = refl;
  no_switch = refl;
}

resume_preempts_example :
    Resumed suspended_eight seven_nine suspended_eight-Well refl 8 (resume suspended_eight 8)
unfolding get_object_type get_id
resume_preempts_example =
    resume_preempts suspended_eight seven_nine suspended_eight-Well refl 8 refl (omega arith, refl)
      refl refl

-- Event 0, for ever.
abbrev pub event_wait : Conditions
event_wait = record no_conditions {
  m_type = wait_for_obj;
  m_wait_signals = λ _. 0x2_0000;
  m_number_of_signals = 1;
  m_wait_forver = true;
}

wait_begin_lem_example :
    let s' = others calm seven_nine calm-Well in
    (k' : Kernel) × (wait_begin calm (some (λ _. 0x2_0000)) 1 false true 0 ≡ done (none, k'))
    × Well k' s'
    × IsTop calm.m_tasks s' k'.m_scheduler.m_current
    × ((task_at k'.m_tasks 7).m_state ≡ waiting)
wait_begin_lem_example =
    wait_begin_lem calm seven_nine calm-Well (λ _. 0x2_0000) 1 false true 0 9 refl (omega arith)
      (omega arith) refl (λ e. absurd (omega (arith, e)))
