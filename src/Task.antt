-- ===== src/Task.antt =====
-- source/task/task.hpp, and the parts of source/hardware that a task's record holds: the saved
-- registers and the stack.
pub mod Laws
pub mod Lifetime
pub mod Frame
use cortex_m3_rtos.Prelude.{
  ℕ, zero, suc, ◌+◌, ◌-◌, ◌*◌, ◌%◌, Bool, true, false, Option, none, some, ◌==◌, if◌then◌else◌,
  update, Outcome, done, halted, ◌>>=◌, ◌>>◌, add32,
}
use cortex_m3_rtos.Config.{max_tasks, stack_size}
use cortex_m3_rtos.Api.{Priority, TaskState, suspended, ready, WaitResult}
use cortex_m3_rtos.MemoryBuffer.{MemoryBuffer, allocate, free, at, set_at, modify}

-- hardware::task::Context
pub record Registers : Type 0 where
  pub r4 : ℕ
  pub r5 : ℕ
  pub r6 : ℕ
  pub r7 : ℕ
  pub r8 : ℕ
  pub r9 : ℕ
  pub r10 : ℕ
  pub r11 : ℕ

-- hardware::task::Stack, with the address at which the linker has put it.
pub record Stack : Type 0 where
  pub address : ℕ
  pub words : ℕ → ℕ

abbrev default_general_purpose_register_value : ℕ
default_general_purpose_register_value = 0xCDCD_CDCD

abbrev default_link_register_value : ℕ
default_link_register_value = 0xFFFF_FFFF

abbrev program_status_register_value : ℕ
program_status_register_value = 0x0100_0000

-- Stack::init: the frame that the CPU pops when the task starts.
unfoldable pub init_stack : Stack → ℕ → Stack
init_stack s routine_address =
    let d = default_general_purpose_register_value in
    let w0 = update s.words (stack_size - 8) d in
    let w1 = update w0 (stack_size - 7) d in
    let w2 = update w1 (stack_size - 6) d in
    let w3 = update w2 (stack_size - 5) d in
    let w4 = update w3 (stack_size - 4) d in
    let w5 = update w4 (stack_size - 3) default_link_register_value in
    let w6 = update w5 (stack_size - 2) routine_address in
    let w7 = update w6 (stack_size - 1) program_status_register_value in record s { words = w7 }

-- Stack::getStackPointer: the address of the frame.
unfoldable pub get_stack_pointer : Stack → ℕ
get_stack_pointer s = add32 s.address (4 * (stack_size - 8))

-- `m_routine` and `m_parameter` are addresses.
pub record Task : Type 0 where
  pub m_sp : ℕ
  pub m_context : Registers
  pub m_stack : Stack
  pub m_priority : Priority
  pub m_state : TaskState
  pub m_parameter : ℕ
  pub m_routine : ℕ
  pub m_result : WaitResult
  pub m_last_signal_index : ℕ

pub record Context : Type 0 where
  pub m_data : MemoryBuffer Task

-- What `create` writes into the record of a new task.
unfoldable pub init_task : Task → ℕ → ℕ → Priority → ℕ → Bool → Task
unfolding init_stack get_stack_pointer
init_task t task_routine routine priority parameter create_suspended =
    let stack = init_stack t.m_stack task_routine in
    record t {
      m_priority = priority;
      m_routine = routine;
      m_stack = stack;
      m_sp = get_stack_pointer stack;
      m_parameter = parameter;
      m_state = if create_suspended then suspended else ready;
    }

-- `none` is the result false; `some id` is true, with the id in `*a_id`.
unfoldable pub create : Context → ℕ → ℕ → Priority → ℕ → Bool → Outcome (Option ℕ × Context)
unfolding allocate modify init_task
create c task_routine routine priority parameter create_suspended =
    if routine == 0 then done (none, c) else elim (allocate max_tasks c.m_data) [
      | none ↦ done (none, c)
      | some (id, b) ↦ do
        b' ←
            modify max_tasks b id
              (λ t. init_task t task_routine routine priority parameter create_suspended)
        done (some id, record { m_data = b' })
    ]

unfoldable pub destroy : Context → ℕ → Outcome Context
unfolding free
destroy c id = do b ← free max_tasks c.m_data id; done (record { m_data = b })

-- An assignment to fields of task `id`.
unfoldable pub write : Context → ℕ → (Task → Task) → Outcome Context
unfolding modify
write c id f = do b ← modify max_tasks c.m_data id f; done (record { m_data = b })

unfoldable pub read : Context → ℕ → Outcome Task
unfolding at
read c id = at max_tasks c.m_data id

-- priority::get
unfoldable pub get_priority : Context → ℕ → Outcome Priority
unfolding read
get_priority c id = do t ← read c id; done t.m_priority

-- state::get
unfoldable pub get_state : Context → ℕ → Outcome TaskState
unfolding read
get_state c id = do t ← read c id; done t.m_state

-- state::set
unfoldable pub set_state : Context → ℕ → TaskState → Outcome Context
unfolding write
set_state c id s = write c id (λ t. record t { m_state = s })

-- context::get: the pointer to the saved registers is the id of the task here.
unfoldable pub get_context : Context → ℕ → Outcome ℕ
unfolding read
get_context c id = do _ ← read c id; done id

-- sp::get
unfoldable pub get_sp : Context → ℕ → Outcome ℕ
unfolding read
get_sp c id = do t ← read c id; done t.m_sp

-- sp::set
unfoldable pub set_sp : Context → ℕ → ℕ → Outcome Context
unfolding write
set_sp c id sp = write c id (λ t. record t { m_sp = sp })

-- routine::get
unfoldable pub get_routine : Context → ℕ → Outcome ℕ
unfolding read
get_routine c id = do t ← read c id; done t.m_routine

-- parameter::get
unfoldable pub get_parameter : Context → ℕ → Outcome ℕ
unfolding read
get_parameter c id = do t ← read c id; done t.m_parameter

-- wait::result::get
unfoldable pub get_result : Context → ℕ → Outcome WaitResult
unfolding read
get_result c id = do t ← read c id; done t.m_result

-- wait::result::set
unfoldable pub set_result : Context → ℕ → WaitResult → Outcome Context
unfolding write
set_result c id r = write c id (λ t. record t { m_result = r })

-- wait::last_signal_index::get
unfoldable pub get_last_signal_index : Context → ℕ → Outcome ℕ
unfolding read
get_last_signal_index c id = do t ← read c id; done t.m_last_signal_index

-- wait::last_signal_index::set
unfoldable pub set_last_signal_index : Context → ℕ → ℕ → Outcome Context
unfolding write
set_last_signal_index c id i = write c id (λ t. record t { m_last_signal_index = i })
