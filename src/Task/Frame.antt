-- ===== src/Task/Frame.antt =====
-- The stack frame of a new task, and the first switch to it: source/hardware/armv7m/hardware.cpp,
-- Stack::init and Stack::getStackPointer.
use cortex_m3_rtos.Prelude.{
  ℕ, some, Outcome, Option, done, ap, ◌+◌, ◌-◌, ◌*◌, ◌/◌, ◌<◌, ◌≤◌, ◌≡◌, Bool, arith, u32_mod,
}
use cortex_m3_rtos.Config.{stack_size}
use cortex_m3_rtos.Api.{Priority}
use cortex_m3_rtos.Task.{Task, Context, Stack, init_stack, get_stack_pointer, init_task, create}
use cortex_m3_rtos.Task.Laws.{task_at}
use cortex_m3_rtos.Task.Lifetime.{Creates, no_routine, no_slot, made, with_task, create-Creates}

-- The word of the stack at an address.
abbrev pub word_at : Stack → ℕ → ℕ
word_at s a = s.words ((a - s.address) / 4)

-- The eight words that the CPU pops when it starts a task with stack pointer `sp`: four registers, R12, the
-- link register, the program counter and the program status register, in the last words of the stack.
pub record IsFrame (s : Stack) (sp routine_address : ℕ) : Type 0 where
  pub at_end : sp + 32 ≡ s.address + 4 * stack_size
  pub inside : s.address ≤ sp
  pub registers : (j : ℕ) → j < 5 → word_at s (sp + 4 * j) ≡ 0xCDCD_CDCD
  pub link_register : word_at s (sp + 20) ≡ 0xFFFF_FFFF
  pub program_counter : word_at s (sp + 24) ≡ routine_address
  pub thumb_state : word_at s (sp + 28) ≡ 0x0100_0000

module _ (s : Stack) (routine_address : ℕ) (fits : s.address + 4 * stack_size < u32_mod) where
  init_stack-IsFrame :
      IsFrame
        (init_stack s routine_address)
        (get_stack_pointer (init_stack s routine_address))
        routine_address
  unfolding init_stack get_stack_pointer
  init_stack-IsFrame = record {
    at_end = omega (arith, fits);
    inside = omega (arith, fits);
    registers = λ j lt. ground (arith, fits);
    link_register = ground (arith, fits);
    program_counter = ground (arith, fits);
    thumb_state = ground (arith, fits);
  }

init_task-IsFrame :
    (t : Task) (task_routine routine : ℕ) (priority : Priority) (parameter : ℕ)
    (create_suspended : Bool)
    → t.m_stack.address + 4 * stack_size < u32_mod
    → let t' = init_task t task_routine routine priority parameter create_suspended in
      IsFrame t'.m_stack t'.m_sp task_routine
unfolding init_task
init_task-IsFrame t task_routine routine priority parameter create_suspended fits =
    init_stack-IsFrame t.m_stack task_routine fits

Creates-some :
    {c c' : Context} {routine id : ℕ} {f : Task → Task} {o : Outcome (Option ℕ × Context)}
    → Creates c routine f o
    → o ≡ done (some id, c')
    → task_at c' id ≡ f (task_at c id)
Creates-some (no_routine z) e = cc
Creates-some (no_slot all) e = cc
Creates-some {c} {c'} {id} {f} (made id0 lt free before) e =
    let a : id0 ≡ id = cc in
    let b : with_task c id0 (f (task_at c id0)) ≡ c' = cc in
    ground (arith, a, ap (λ x. task_at x id) b)

-- The record of a task that has been created holds such a frame, for the address of the routine that
-- every task starts with.
pub create-IsFrame :
    (c c' : Context) (task_routine routine : ℕ) (priority : Priority) (parameter : ℕ)
    (create_suspended : Bool) (id : ℕ)
    → (task_at c id).m_stack.address + 4 * stack_size < u32_mod
    → create c task_routine routine priority parameter create_suspended ≡ done (some id, c')
    → IsFrame (task_at c' id).m_stack (task_at c' id).m_sp task_routine
create-IsFrame c c' task_routine routine priority parameter create_suspended id fits e =
    let made_eq =
      Creates-some (create-Creates c task_routine routine priority parameter create_suspended) e in
    rw made_eq (
      init_task-IsFrame (task_at c id) task_routine routine priority parameter create_suspended
        fits)
