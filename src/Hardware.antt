-- ===== src/Hardware.antt =====
-- source/hardware/armv7m/hardware.cpp: the registers of the processor that the kernel works with, the
-- hardware critical section and the priorities of interrupts. The number of priority bits of the
-- device, __NVIC_PRIO_BITS, is 4 on the STM32F103.
pub mod Vendor
pub mod Laws
pub mod Examples
use cortex_m3_rtos.Prelude.{
  ℕ, ◌+◌, ◌-◌, ◌*◌, ◌%◌, ◌^◌, Bool, true, false, not, ltb, ◌==◌, if◌then◌else◌, update, Outcome,
  done, halted, ◌>>=◌, ◌>>◌, assert, sub32,
}
use cortex_m3_rtos.Task.{Registers}

-- `psp` is the stack pointer of the tasks, `pend_sv` the pending flag of PendSV, `ip` and `shp` the
-- priority registers of vendor and core interrupts.
pub record Cpu : Type 0 where
  pub psp : ℕ
  pub registers : Registers
  pub pend_sv : Bool
  pub basepri : ℕ
  pub ip : ℕ → ℕ
  pub shp : ℕ → ℕ

-- kernel::hardware::interrupt::priority::Preemption
pub data Preemption : Type 0 where
  critical kernel user : Preemption

-- kernel::hardware::interrupt::priority::Sub
pub data Sub : Type 0 where
  high medium low : Sub

abbrev pub preemption_value : Preemption → ℕ
preemption_value critical = 0
preemption_value kernel = 1
preemption_value user = 2

abbrev pub sub_value : Sub → ℕ
sub_value high = 0
sub_value medium = 1
sub_value low = 2

-- The byte for a priority register: the shifted fields have no bit in common.
unfoldable pub priority_byte : Preemption → Sub → ℕ
priority_byte p s = ((preemption_value p + 1) * 2 ^ (8 - 2) + sub_value s * 2 ^ (8 - 4)) % 2 ^ 8

-- The interrupt number is an int32_t, here its bit pattern: from 2 ^ 31 on it is negative.
unfoldable pub set_interrupt_priority : Cpu → ℕ → Preemption → Sub → Cpu
unfolding priority_byte
set_interrupt_priority c number p s =
    if ltb number (2 ^ 31)
    then record c { ip = update c.ip number (priority_byte p s) }
    else record c { shp = update c.shp (sub32 (number % 2 ^ 4) 4) (priority_byte p s) }

-- The numbers of core exceptions, which the device header declares, as bit patterns.
pub record CoreExceptions : Type 0 where
  pub svcall : ℕ
  pub pend_sv : ℕ
  pub sys_tick : ℕ

-- init, the part that sets priorities. The clock of SysTick, the debug port and the priority grouping
-- are set by vendor functions.
unfoldable pub init : CoreExceptions → Cpu → Cpu
init e c =
    let c1 = set_interrupt_priority c e.svcall kernel low in
    let c2 = set_interrupt_priority c1 e.pend_sv kernel low in
    set_interrupt_priority c2 e.sys_tick kernel low

abbrev pub maximum_priority_number : ℕ
maximum_priority_number = 240

-- interrupt::priority::set. The comparison with an unsigned constant is one of bit patterns.
unfoldable pub set_priority : Cpu → ℕ → Preemption → Sub → Cpu
unfolding set_interrupt_priority
set_priority c id p s =
    if ltb id maximum_priority_number then set_interrupt_priority c id p s else c

-- critical_section::Context
pub record CriticalSection : Type 0 where
  pub m_local_data : ℕ

-- critical_section::enter
unfoldable pub enter : CriticalSection → Cpu → Preemption → Outcome (CriticalSection × Cpu)
enter s c p = do
  let new_value = (preemption_value p + 1) * 2 ^ (8 - 2)
  assert (not (0 == new_value))
  done (record { m_local_data = c.basepri }, record c { basepri = new_value })

-- critical_section::leave
unfoldable pub leave : CriticalSection → Cpu → Cpu
leave s c = record c { basepri = s.m_local_data }
