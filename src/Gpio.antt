-- ===== src/Gpio.antt =====
-- examples/blinky/gpio.hpp, which the examples serial_interrupt and using_interrupt have a copy of: the
-- general purpose pins of the board. The registers are those of the device header.
pub mod Bits
pub mod Modes
pub mod Outputs
pub mod Leds
mod Examples
use cortex_m3_rtos.Prelude.{
  ℕ, ◌+◌, ◌-◌, ◌*◌, ◌/◌, ◌%◌, Bool, true, false, ltb, ◌==◌, if◌then◌else◌, update,
}
use cortex_m3_rtos.Gpio.Bits.{
  Word, literal, word_and, word_or, word_not, shift_left, shift_right, is_nonzero,
}

pub data Port : Type 0 where
  port_a port_b port_c port_d port_e port_f port_g : Port

pub data OutputSpeed : Type 0 where
  max10mhz max2mhz max50mhz : OutputSpeed

pub data OutputMode : Type 0 where
  general_purpose_push_pull general_purpose_open_drain : OutputMode
  alternate_function_push_pull alternate_function_open_drain : OutputMode

pub data InputMode : Type 0 where
  analog floating pull_up pull_down : InputMode

-- The registers of a port, GPIO_TypeDef, that gpio.hpp reads or changes. A write to BSRR or BRR is an
-- action of the device.
pub record Registers : Type 0 where
  pub crl : Word
  pub crh : Word
  pub idr : Word
  pub odr : Word

-- The ports, and the four registers AFIO->EXTICR.
pub record Pins : Type 0 where
  pub ports : ℕ → Registers
  pub exticr : ℕ → Word

-- static_cast< uint32_t>( a_port)
abbrev pub port_value : Port → ℕ
port_value port_a = 0
port_value port_b = 1
port_value port_c = 2
port_value port_d = 3
port_value port_e = 4
port_value port_f = 5
port_value port_g = 6

-- getBase: the index of the port stands for the address of its registers.
abbrev pub get_base : Port → ℕ
get_base port_a = 0
get_base port_b = 1
get_base port_c = 2
get_base port_d = 3
get_base port_e = 4
get_base port_f = 5
get_base port_g = 6

abbrev pub get_input_mode : InputMode → ℕ
get_input_mode analog = 0
get_input_mode floating = 1
get_input_mode pull_up = 2
get_input_mode pull_down = 2

abbrev pub get_output_mode : OutputMode → ℕ
get_output_mode general_purpose_push_pull = 0
get_output_mode general_purpose_open_drain = 1
get_output_mode alternate_function_push_pull = 2
get_output_mode alternate_function_open_drain = 3

abbrev pub get_speed : OutputSpeed → ℕ
get_speed max10mhz = 1
get_speed max2mhz = 2
get_speed max50mhz = 3

-- The value of a configuration register with new fields for the pin at that place.
unfoldable pub with_fields : Word → ℕ → ℕ → ℕ → Word
with_fields register pin mode config =
    let mask = literal 15 in
    let temp = word_and register (word_not (shift_left mask (pin * 4))) in
    let temp' = word_or temp (shift_left (literal mode) (pin * 4)) in
    word_or temp' (shift_left (literal config) (pin * 4 + 2))

-- A pin is given by its number, which `getPinNumber` takes from an enumeration of 0 to 15.
unfoldable pub set_pin_mode : Registers → ℕ → ℕ → ℕ → Registers
unfolding with_fields
set_pin_mode gpio pin mode config =
    if ltb pin 8
    then record gpio { crl = with_fields gpio.crl pin mode config }
    else record gpio { crh = with_fields gpio.crh (pin - 8) mode config }

abbrev pub on_port : Pins → Port → (Registers → Registers) → Pins
on_port p port f = record p { ports = update p.ports (get_base port) (f (p.ports (get_base port))) }

unfoldable pub set_pin_as_input : Pins → Port → ℕ → InputMode → Pins
unfolding set_pin_mode
set_pin_as_input p port pin mode =
    on_port p port (λ gpio. set_pin_mode gpio pin 0 (get_input_mode mode))

unfoldable pub get_input_pin_value : Pins → Port → ℕ → Bool
get_input_pin_value p port pin =
    is_nonzero (word_and (shift_right (p.ports (get_base port)).idr pin) (literal 1))

unfoldable pub set_pin_as_output : Pins → Port → ℕ → OutputSpeed → OutputMode → Pins
unfolding set_pin_mode
set_pin_as_output p port pin speed mode =
    on_port p port (λ gpio. set_pin_mode gpio pin (get_speed speed) (get_output_mode mode))

unfoldable pub get_output_pin_value : Pins → Port → ℕ → Bool
get_output_pin_value p port pin =
    is_nonzero (word_and (shift_right (p.ports (get_base port)).odr pin) (literal 1))

-- What the device does on a write to BSRR and to BRR.
pub record Device : Type 0 where
  pub write_bsrr : Registers → Word → Registers
  pub write_brr : Registers → Word → Registers

module _ (d : Device) where
  unfoldable pub set_output_pin : Pins → Port → ℕ → Pins
  set_output_pin p port pin =
      on_port p port (λ gpio. d.write_bsrr gpio (shift_left (literal 1) pin))

  unfoldable pub clear_output_pin : Pins → Port → ℕ → Pins
  clear_output_pin p port pin =
      on_port p port (λ gpio. d.write_brr gpio (shift_left (literal 1) pin))

-- `pin >> 2U` and `pin & 0x3U` by arithmetic.
unfoldable pub configure_external_interrupt : Pins → Port → ℕ → Pins
configure_external_interrupt p port pin =
    let exti_control_register = pin / 4 in
    let shift = 4 * (pin % 4) in
    let mask = literal 15 in
    let cleared = word_and (p.exticr exti_control_register) (word_not (shift_left mask shift)) in
    let p1 : Pins = record p { exticr = update p.exticr exti_control_register cleared } in
    record p1 {
      exticr = update p1.exticr exti_control_register (
          word_or (p1.exticr exti_control_register) (shift_left (literal (port_value port)) shift));
    }
