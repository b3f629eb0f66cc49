-- ===== src/Kernel/Svc.antt =====
-- source/hardware/armv7m/hardware.cpp, from the SVC instruction of a system call to the function of the
-- kernel: syscall, SVC_Handler and the decoding in SVC_Handler_Main. The frame on the stack is written by
-- the CPU, so that the words of the stack, like the bytes of the program, are parameters.
mod Examples
use cortex_m3_rtos.Prelude.{
  ℕ, ◌+◌, ◌-◌, ◌*◌, ◌/◌, ◌%◌, ◌^◌, ◌<◌, ◌≤◌, ◌≡◌, refl, ◌==◌, if◌then◌else◌, Outcome, done, add32,
  sub32, arith, u32_mod, ap, ◌>>=◌,
}
use cortex_m3_rtos.Memory.{Memory}
use cortex_m3_rtos.Kernel.{
  Kernel, SyscallId, load_next, execute_context_switch, svc_handler, syscall, tail_chain,
}

-- The number in the instruction that hardware::syscall executes.
abbrev pub svc_immediate : SyscallId → ℕ
svc_immediate load_next = 0
svc_immediate execute_context_switch = 1

-- SVC_Handler: the stack that holds the frame, by bit 2 of the link register.
unfoldable pub svc_args : ℕ → ℕ → ℕ → ℕ
svc_args lr msp psp = if lr / 2 ^ 2 % 2 == 0 then msp else psp

-- The seventh word of the frame is the return address; the number is the low byte of the instruction
-- before it.
unfoldable pub svc_number : (ℕ → ℕ) → Memory → ℕ → ℕ
svc_number words program args = program (sub32 (words (add32 args (6 * 4))) 2)

-- SVC_Handler_Main
unfoldable pub svc_handler_main : (ℕ → ℕ) → Memory → Kernel → ℕ → Outcome Kernel
unfolding svc_number
svc_handler_main words program k args =
    let number = svc_number words program args in
    if number == 0
    then svc_handler k load_next
    else if number == 1
    then svc_handler k execute_context_switch
    else done k

-- The stack in use when the instruction is executed: the main stack where kernel::start runs in main, the
-- process stack where a task runs.
pub data Stack : Type 0 where
  main_stack process_stack : Stack

-- Bit 2 of the link register in the handler.
abbrev pub link_bit : Stack → ℕ
link_bit main_stack = 0
link_bit process_stack = 1

abbrev pub pointer_of : Stack → ℕ → ℕ → ℕ
pointer_of main_stack msp psp = msp
pointer_of process_stack msp psp = psp

-- What the CPU does for an SVC instruction at address `a`: the link register says which stack was in use,
-- and the frame on that stack has the address of the next instruction.
pub record Taken (words : ℕ → ℕ) (lr msp psp : ℕ) (stack : Stack) (a : ℕ) : Type 0 where
  pub link : lr / 4 % 2 ≡ link_bit stack
  pub return_address : words (add32 (pointer_of stack msp psp) 24) ≡ add32 a 2
  pub address : a < u32_mod

finds :
    (lr msp psp : ℕ) (stack : Stack)
    → lr / 4 % 2 ≡ link_bit stack
    → svc_args lr msp psp ≡ pointer_of stack msp psp
unfolding svc_args
finds lr msp psp main_stack e = ground (arith, e)
finds lr msp psp process_stack e = ground (arith, e)

module _ (words : ℕ → ℕ) (program : Memory) (lr msp psp : ℕ) (stack : Stack) (a : ℕ)
    (h : Taken words lr msp psp stack a) where
  finds_frame : svc_args lr msp psp ≡ pointer_of stack msp psp
  finds_frame = finds lr msp psp stack h.link

  -- The number that is decoded is that of the instruction.
  svc_number-eq : svc_number words program (pointer_of stack msp psp) ≡ program a
  unfolding svc_number
  svc_number-eq = ap program (omega (arith, h.return_address, h.address))

  -- A system call whose SVC instruction has the number of the call, executed on the main stack or on that
  -- of a task, reaches the function of the kernel that the call names: what SVC_Handler and
  -- SVC_Handler_Main do with the frame on that stack, and the PendSV behind them, is what the model
  -- of the system call does.
  pub svc_handler_main-svc_immediate :
      (k : Kernel) (call : SyscallId)
      → program a ≡ svc_immediate call
      → (svc_handler_main words program k (svc_args lr msp psp) >>= tail_chain) ≡ syscall k call
  unfolding svc_handler_main syscall
  svc_handler_main-svc_immediate k load_next e =
      rw (svc_handler_main, finds_frame, svc_number-eq, e) refl
  svc_handler_main-svc_immediate k execute_context_switch e =
      rw (svc_handler_main, finds_frame, svc_number-eq, e) refl

  -- Any other number does nothing.
  unknown_svc :
      (k : Kernel) → 1 < program a → svc_handler_main words program k (svc_args lr msp psp) ≡ done k
  unfolding svc_handler_main
  unknown_svc k e = rw (svc_handler_main, finds_frame, svc_number-eq) (ground (arith, e))
