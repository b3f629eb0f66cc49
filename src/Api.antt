-- ===== src/Api.antt =====
-- source/kernel.hpp: the types that the user of the kernel sees. A time (TimeMs) and a handle (Handle)
-- are 32-bit words, a pointer is its address, and address 0 is the null pointer.
use cortex_m3_rtos.Prelude.{ℕ, Bool, true, false}

pub data Priority : Type 0 where
  high medium low idle : Priority

-- static_cast< uint32_t>( a_priority)
abbrev pub priority_value : Priority → ℕ
priority_value high = 0
priority_value medium = 1
priority_value low = 2
priority_value idle = 3

-- kernel::task::State
pub data TaskState : Type 0 where
  suspended waiting ready running : TaskState

abbrev pub is_suspended : TaskState → Bool
is_suspended suspended = true
is_suspended _ = false

pub data WaitResult : Type 0 where
  object_set timeout_occurred wait_failed : WaitResult
