-- ===== src/Gpio/Examples.antt =====
-- A device that does what its manual says, and the LEDs of the board on it.
use cortex_m3_rtos.Prelude.{
  ◌+◌, ◌≡◌, refl, true, false, not, ◌&&◌, ◌==◌, if◌then◌else◌, [], ◌∷◌, arith,
}
use cortex_m3_rtos.Gpio.Bits.{literal, is_nonzero}
use cortex_m3_rtos.Gpio.{Registers, Pins, Device, set_pin_mode, get_output_pin_value}
use cortex_m3_rtos.Gpio.Modes.{configuration, configuration_of, set_pin_mode_lem}
use cortex_m3_rtos.Gpio.Outputs.{Documented}
use cortex_m3_rtos.Gpio.Leds.{Board, Led, on, off, changes, Mirrors, changes-Mirrors}

abbrev device : Device
device = record {
  write_bsrr =
      λ r w. record r { odr = λ i. if w i then true else if w (i + 16) then false else r.odr i };
  write_brr = λ r w. record r { odr = λ i. r.odr i && not (w i) };
}

device-Documented : Documented device
device-Documented = record {
  bsrr_sets = λ r w q lt. refl;
  brr_resets = λ r w q lt. refl;
  bsrr_only = λ r w. refl;
  brr_only = λ r w. refl;
}

-- The registers after a reset: every pin is a floating input.
abbrev after_reset : Registers
after_reset = record {
  crl = literal 0x4444_4444;
  crh = literal 0x4444_4444;
  idr = λ i. false;
  odr = λ i. false;
}

abbrev pins : Pins
pins = record { ports = λ i. after_reset; exticr = λ i j. false }

set_pin_mode_lem_example :
    (configuration_of (set_pin_mode after_reset 9 3 2) 9 3
      ≡ (if 9 == 9 then configuration 3 2 3 else configuration_of after_reset 9 3))
    × (record (set_pin_mode after_reset 9 3 2) { crl = after_reset.crl; crh = after_reset.crh }
        ≡ after_reset)
set_pin_mode_lem_example =
    set_pin_mode_lem after_reset 9 9 3 3 2 (omega arith) (omega arith) (omega arith) (omega arith)
      (omega arith)

abbrev board : Board
board = record {
  pins = pins;
  led_states = record { led0 = false; led1 = false; led2 = false; led3 = false };
}

all_off : Mirrors board
unfolding get_output_pin_value is_nonzero
all_off Led.number0 = refl
all_off Led.number1 = refl
all_off Led.number2 = refl
all_off Led.number3 = refl

changes-Mirrors_example :
    Mirrors (changes device (on Led.number0 ∷ on Led.number2 ∷ off Led.number0 ∷ []) board)
changes-Mirrors_example =
    changes-Mirrors device device-Documented
      (on Led.number0 ∷ on Led.number2 ∷ off Led.number0 ∷ []) board all_off
