-- ===== src/Kernel/Svc/Examples.antt =====
-- main executes `SVC #0` in kernel::start, at address 0x0800_0400.
use cortex_m3_rtos.Prelude.{ℕ, ◌≡◌, refl, ◌==◌, if◌then◌else◌, ◌>>=◌, arith}
use cortex_m3_rtos.Memory.{Memory}
use cortex_m3_rtos.Kernel.{load_next, syscall, tail_chain}
use cortex_m3_rtos.Kernel.Examples.{two_ready}
use cortex_m3_rtos.Kernel.Svc.{
  svc_args, svc_handler_main, main_stack, Taken, svc_handler_main-svc_immediate,
}

-- The frame is at 0x2000_0100, on the main stack.
abbrev words : ℕ → ℕ
words a = if a == 0x2000_0118 then 0x0800_0402 else 0

abbrev program : Memory
program a = if a == 0x0800_0400 then 0 else 0xdf

exception-Taken : Taken words 0xffff_fff9 0x2000_0100 0x2000_1000 main_stack 0x0800_0400
exception-Taken = record { link = refl; return_address = refl; address = omega arith }

svc_handler_main-svc_immediate_example :
    (svc_handler_main words program two_ready (svc_args 0xffff_fff9 0x2000_0100 0x2000_1000)
      >>= tail_chain)
    ≡ syscall two_ready load_next
svc_handler_main-svc_immediate_example =
    svc_handler_main-svc_immediate words program 0xffff_fff9 0x2000_0100 0x2000_1000 main_stack
      0x0800_0400 exception-Taken two_ready load_next refl
