-- ===== src/Kernel/TimeSlices/Examples.antt =====
-- The time slices of two tasks, 7 and 9, of priority Low.
use cortex_m3_rtos.Prelude.{ℕ, suc, ◌+◌, ◌*◌, ◌%◌, ◌<◌, ◌≤◌, ◌≡◌, refl, done, arith}
use cortex_m3_rtos.Api.{running, WaitResult}
use cortex_m3_rtos.CircularList.Examples.{same}
use cortex_m3_rtos.Task.Laws.{put}
use cortex_m3_rtos.Scheduler.Examples.{
  low_pair, ten_tasks, some_task, low_pair-AreReady, low_pair-IsHighest,
}
use cortex_m3_rtos.Scheduler.Turns.{turned}
use cortex_m3_rtos.Kernel.{Kernel}
use cortex_m3_rtos.Kernel.Examples.{two_ready}
use cortex_m3_rtos.Kernel.Ticks.{ticks}
use cortex_m3_rtos.Kernel.TimeSlices.{Nobody}
use cortex_m3_rtos.Kernel.TimeSlices.Rounds.{InSlice, time_slices}

nobody : Nobody low_pair
nobody i = refl

-- Task 7 has begun its slice.
abbrev seven_begins : Kernel
seven_begins = record two_ready {
  m_lock = record { m_interlock = 0 };
  m_scheduler = turned low_pair (λ _. same) (λ _. 0) 2 low_pair-AreReady low_pair-IsHighest 0;
  m_tasks = put ten_tasks 7 (record some_task { m_state = running });
  m_system_timer = record { m_old_time = 0xffff_ffff; m_current_time = 0 };
}

abbrev Slice : ℕ → ℕ → Kernel → Type 0
Slice = InSlice low_pair (λ _. same) (λ _. 0) 2 low_pair-AreReady low_pair-IsHighest nobody

begun : Slice 1 0 seven_begins
begun = record {
  scheduler = refl;
  position = omega arith;
  phase = (omega arith, omega arith);
  free = refl;
  clear = refl;
  used = λ i lt. (ground arith, refl);
  alone = (ground arith, λ j used e. ground arith);
}

time_slices_example :
    ((n m : ℕ)
      → m ≤ 10
      → (k' : Kernel) × (ticks (n * 11 + m) seven_begins WaitResult.wait_failed ≡ done k')
        × Slice (1 + m) ((0 + n) % 2) k')
    × ((i : ℕ) → i < 2 → (l : ℕ) × (l < 2) × ((0 + suc l) % 2 ≡ i))
time_slices_example =
    time_slices low_pair (λ _. same) (λ _. 0) 2 low_pair-AreReady low_pair-IsHighest nobody 0
      seven_begins WaitResult.wait_failed begun
