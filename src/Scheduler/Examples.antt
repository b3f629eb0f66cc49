-- ===== src/Scheduler/Examples.antt =====
-- A scheduler with two tasks of priority Low, and what the theorems on its choices say of it.
use cortex_m3_rtos.Prelude.{
  ℕ, suc, ◌+◌, ◌%◌, ◌<◌, [], ◌∷◌, ◌≡◌, refl, true, false, some, arith, ◌==◌, if◌then◌else◌, done,
}
use native.Mathlib.Decide.{ℕ_discrete}
use cortex_m3_rtos.Api.{Priority, ready, running, WaitResult}
use cortex_m3_rtos.Task
use cortex_m3_rtos.Task.{Task, Registers}
use cortex_m3_rtos.Task.Laws.{put}
use cortex_m3_rtos.CircularList.{empty}
use cortex_m3_rtos.CircularList.Examples.{same}
use cortex_m3_rtos.ReadyList.Examples.{pair, nobody, pair-IsReady, nobody-IsReady}
use cortex_m3_rtos.WaitConditions.{Conditions, WaitType}
use cortex_m3_rtos.WaitList
use cortex_m3_rtos.Scheduler.{Context, get_current_task}
use cortex_m3_rtos.Scheduler.Moved.{moved}
use cortex_m3_rtos.Scheduler.Turns.{choices, id_at, RunsAlone, get_next_task-turns}
use cortex_m3_rtos.Scheduler.Choice.{AreReady, IsHighest, get_current_task_lem}

abbrev pub no_registers : Registers
no_registers = record { r4 = 0; r5 = 0; r6 = 0; r7 = 0; r8 = 0; r9 = 0; r10 = 0; r11 = 0 }

abbrev pub some_task : Task
some_task = record {
  m_sp = 0x2000_0000;
  m_context = no_registers;
  m_stack = record { address = 0x2000_0000; words = λ _. 0 };
  m_priority = Priority.low;
  m_state = ready;
  m_parameter = 0;
  m_routine = 0x0800_0000;
  m_result = WaitResult.object_set;
  m_last_signal_index = 0;
}

-- All ten tasks exist.
abbrev pub ten_tasks : Task.Context
ten_tasks = record { m_data = record { m_data = λ _. some_task; m_status = λ _. true } }

abbrev pub no_conditions : Conditions
no_conditions = record {
  m_type = WaitType.sleep;
  m_wait_signals = λ _. 0;
  m_number_of_signals = 0;
  m_wait_for_all_signals = false;
  m_wait_forver = false;
  m_interval = 0;
  m_start = 0;
}

abbrev pub nobody_waits : WaitList.Context
nobody_waits = record {
  m_list = record {
    m_data = λ _. record { m_id = 0; m_conditions = no_conditions };
    m_status = λ _. false;
  };
}

-- The tasks 7 and 9 of priority Low are ready, and 7 runs.
abbrev pub low_pair : Context
low_pair = record {
  m_current = 7;
  m_next = 7;
  m_ready_list = record { m_ready_list = λ q. if q == 2 then pair else nobody };
  m_wait_list = nobody_waits;
}

abbrev pub idle_only : Context
idle_only = record low_pair { m_ready_list = record { m_ready_list = λ _. nobody } }

pub low_pair-AreReady : AreReady low_pair.m_ready_list (λ _. same) (λ _. 0)
low_pair-AreReady q h = elim (ℕ_discrete q 2) [
  | yes e ↦ rw e pair-IsReady
  | no ne ↦ let f : (q == 2) ≡ false = ground arith in rw f nobody-IsReady
]

pub low_pair-IsHighest : IsHighest low_pair.m_ready_list 2
unfolding empty
low_pair-IsHighest = (omega arith, omega arith, λ j h. ground arith)

get_current_task_lem_example :
    get_current_task low_pair ten_tasks
    ≡ done (some 7, low_pair, put ten_tasks 7 (record some_task { m_state = running }))
get_current_task_lem_example =
    get_current_task_lem low_pair ten_tasks (λ _. same) (λ _. 0) 2 low_pair-AreReady
      low_pair-IsHighest (omega arith, refl)

abbrev seven_runs : Task.Context
seven_runs = put ten_tasks 7 (record some_task { m_state = running })

abbrev low_ids : ℕ → ℕ
low_ids = id_at low_pair (λ _. same) (λ _. 0) 2 low_pair-AreReady low_pair-IsHighest

-- Four intervals: tasks 9, 7, 9 and 7 run.
get_next_task-turns_example :
    ((tasks : Task.Context) × (choices 4 low_pair seven_runs
        ≡ done (
          some 9 ∷ some 7 ∷ some 9 ∷ some 7 ∷ [],
          record low_pair { m_ready_list = moved 2 low_pair.m_ready_list 0 },
          tasks,
        ))
      × RunsAlone tasks 7)
    × ((i : ℕ) → i < 2 → (j : ℕ) × (j < 2) × (low_ids ((0 + suc j) % 2) ≡ low_ids i))
get_next_task-turns_example =
    get_next_task-turns low_pair (λ _. same) (λ _. 0) 2 low_pair-AreReady low_pair-IsHighest 3
      seven_runs (omega arith, refl) (λ j lt. (ground arith, refl)) (λ j used e. ground arith)
