-- ===== src/Hardware/Vendor.antt =====
-- source/hardware/armv7m/hardware.cpp, the functions that call those of the vendor: enabling interrupts,
-- the debug output and the configuration of the processor. What the vendor's functions do to the
-- device is a parameter.
mod Laws
mod Examples
use cortex_m3_rtos.Prelude.{
  ℕ, zero, suc, ◌+◌, ◌-◌, ◌/◌, Bool, true, false, Option, none, some, ltb, ◌==◌, if◌then◌else◌,
  add32,
}
use Prim.Native.Nat.{bit_or}
use cortex_m3_rtos.Config.{core_clock_freq_hz}
use cortex_m3_rtos.Memory.{Memory}
use cortex_m3_rtos.Hardware
use cortex_m3_rtos.Hardware.{Cpu, CoreExceptions, maximum_priority_number}

-- The functions of the vendor that the kernel calls, on the state of the device; the mask for ITM_TCR
-- is a constant of its header.
pub record Vendor (Device : Type 0) : Type 0 where
  pub nvic_enable_irq : Device → ℕ → Device
  pub nvic_set_priority_grouping : Device → ℕ → Device
  pub sys_tick_config : Device → ℕ → Device
  pub itm_send_char : Device → ℕ → Device
  pub itm_tcr_itmena_msk : ℕ

-- The registers of the debug port that the kernel writes itself.
pub record Itm : Type 0 where
  pub tcr : ℕ
  pub ter : ℕ

pub record Board (Device : Type 0) : Type 0 where
  pub device : Device
  pub itm : Itm
  pub cpu : Cpu

abbrev pub target_systick_timestamp_hz : ℕ
target_systick_timestamp_hz = 1000

abbrev pub systick_prescaler : ℕ
systick_prescaler = core_clock_freq_hz / target_systick_timestamp_hz

module _ {Device : Type 0} (v : Vendor Device) where
  -- interrupt::enable. The number is an int32_t, here its bit pattern, that is compared with an unsigned
  -- constant.
  unfoldable pub enable : Device → ℕ → Device
  enable d id = if ltb id maximum_priority_number then v.nvic_enable_irq d id else d

  -- internal::hardware::interrupt::start
  unfoldable pub interrupt_start : Device → CoreExceptions → Device
  interrupt_start d e =
      let d1 = v.nvic_enable_irq d e.svcall in
      let d2 = v.nvic_enable_irq d1 e.pend_sv in v.nvic_enable_irq d2 e.sys_tick

  -- internal::hardware::start
  unfoldable pub start : Device → CoreExceptions → Device
  unfolding interrupt_start
  start d e = interrupt_start d e

  -- internal::hardware::interrupt::init
  unfoldable pub interrupt_init : Device → Device
  interrupt_init d = v.nvic_set_priority_grouping d (7 - 2)

  -- debug::init
  unfoldable pub debug_init : Itm → Itm
  debug_init itm = record { tcr = bit_or itm.tcr v.itm_tcr_itmena_msk; ter = 1 }

  -- internal::hardware::init
  unfoldable pub init : CoreExceptions → Board Device → Board Device
  unfolding interrupt_init debug_init Hardware.init
  init e b = record {
    device = interrupt_init (v.sys_tick_config b.device (systick_prescaler - 1));
    itm = debug_init b.itm;
    cpu = Hardware.init e b.cpu;
  }

  -- debug::putChar
  unfoldable pub put_char : Device → ℕ → Device
  put_char d c = v.itm_send_char d c

  -- debug::print, with fuel for its loop: a string with no end is printed for ever.
  unfoldable pub print : ℕ → Memory → Device → ℕ → Option Device
  unfolding put_char
  print zero m d s = none
  print (suc fuel) m d s = elim (0 == m s) [
    | true ↦ some d
    | false ↦ print fuel m (put_char d (m s)) (add32 s 1)
  ]
