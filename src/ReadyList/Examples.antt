-- ===== src/ReadyList/Examples.antt =====
-- A ready list of two tasks, and what the theorems on ready lists say of it.
use cortex_m3_rtos.Prelude.{◌≡◌, refl, arith, ltb}
use cortex_m3_rtos.Config.{max_tasks}
use cortex_m3_rtos.MemoryBuffer.Slots.{in_use}
use cortex_m3_rtos.CircularList.{empty}
use cortex_m3_rtos.CircularList.Ring.{empty-IsRing}
use cortex_m3_rtos.CircularList.Examples.{two, same, two-IsRing}
use cortex_m3_rtos.ReadyList.{TaskList}
use cortex_m3_rtos.ReadyList.Ready.{IsReady}

-- The tasks 7 and 9, of which 7 is the current one.
abbrev pub pair : TaskList
pair = record { m_list = two; m_current = 0 }

counted_ten : 2 ≡ in_use max_tasks (λ i. ltb i 2)
unfolding in_use
counted_ten = refl

pub pair-IsReady : IsReady pair same 0
pair-IsReady = record {
  ring = two-IsRing max_tasks counted_ten (omega arith);
  position = λ _. omega arith;
  current = λ _. refl;
  unique = λ j k hj hk e. ground arith;
}

-- A new list.
abbrev pub nobody : TaskList
nobody = record {
  m_list = empty (λ _. record { m_next = 0; m_prev = 0; m_data = 0 });
  m_current = 0;
}

pub nobody-IsReady : IsReady nobody same 0
unfolding empty
nobody-IsReady = record {
  ring = empty-IsRing max_tasks _ same;
  position = λ h. absurd (omega arith);
  current = λ _. refl;
  unique = λ j k hj hk e. absurd (omega arith);
}
