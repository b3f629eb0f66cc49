-- ===== src/Gpio/Leds.antt =====
-- examples/blinky/main.cpp: the LEDs of the board, with the set-up of their pins and the global record of
-- their states. The tasks of the example, which sleep between the changes, are given by the order of the
-- changes.
use cortex_m3_rtos.Prelude.{
  ℕ, ◌<◌, ◌≡◌, ◌≢◌, refl, Bool, true, false, ◌&&◌, leb, ◌==◌, if◌then◌else◌, List, [], ◌∷◌, arith,
  ap, ◌∙◌,
}
use cortex_m3_rtos.Gpio.Modes.{configuration, configuration_of, set_pin_mode_lem}
use cortex_m3_rtos.Gpio.{
  Registers, set_pin_mode, port_f, max50mhz, general_purpose_push_pull, Pins, Device,
  set_pin_as_output, set_output_pin, clear_output_pin, get_output_pin_value,
}
use cortex_m3_rtos.Gpio.Outputs.{Documented, set_output_pin_lem}

pub record LedState : Type 0 where
  pub led0 : Bool
  pub led1 : Bool
  pub led2 : Bool
  pub led3 : Bool

pub data Led : Type 0 where
  number0 number1 number2 number3 : Led

-- The pins, and g_ledStates.
pub record Board : Type 0 where
  pub pins : Pins
  pub led_states : LedState

-- The configuration of the pins in `main`.
unfoldable pub setup : Pins → Pins
setup p =
    let p1 = set_pin_as_output p port_f 6 max50mhz general_purpose_push_pull in
    let p2 = set_pin_as_output p1 port_f 7 max50mhz general_purpose_push_pull in
    let p3 = set_pin_as_output p2 port_f 8 max50mhz general_purpose_push_pull in
    set_pin_as_output p3 port_f 9 max50mhz general_purpose_push_pull

module _ (d : Device) where
  unfoldable pub set_led : Board → Led → Board
  set_led b number0 = record {
    pins = set_output_pin d b.pins port_f 6;
    led_states = record b.led_states { led0 = true };
  }
  set_led b number1 = record {
    pins = set_output_pin d b.pins port_f 7;
    led_states = record b.led_states { led1 = true };
  }
  set_led b number2 = record {
    pins = set_output_pin d b.pins port_f 8;
    led_states = record b.led_states { led2 = true };
  }
  set_led b number3 = record {
    pins = set_output_pin d b.pins port_f 9;
    led_states = record b.led_states { led3 = true };
  }

  unfoldable pub clear_led : Board → Led → Board
  clear_led b number0 = record {
    pins = clear_output_pin d b.pins port_f 6;
    led_states = record b.led_states { led0 = false };
  }
  clear_led b number1 = record {
    pins = clear_output_pin d b.pins port_f 7;
    led_states = record b.led_states { led1 = false };
  }
  clear_led b number2 = record {
    pins = clear_output_pin d b.pins port_f 8;
    led_states = record b.led_states { led2 = false };
  }
  clear_led b number3 = record {
    pins = clear_output_pin d b.pins port_f 9;
    led_states = record b.led_states { led3 = false };
  }

-- The registers of port F behind one call of setPinAsOutput.
abbrev as_output : Registers → ℕ → Registers
as_output r pin = set_pin_mode r pin 3 0

output-configuration :
    (r : Registers) (pin q j : ℕ)
    → pin < 16
    → q < 16
    → j < 4
    → configuration_of (as_output r pin) q j
      ≡ (if q == pin then configuration 3 0 j else configuration_of r q j)
output-configuration r pin q j hp hq hj =
    (set_pin_mode_lem r pin q j 3 0 hp hq hj (omega arith) (omega arith)).0

setup-registers :
    (p : Pins)
    → (setup p).ports 5 ≡ as_output (as_output (as_output (as_output (p.ports 5) 6) 7) 8) 9
unfolding setup set_pin_as_output
setup-registers p = refl

-- The set-up gives the pins 6 to 9 of port F the mode of an output of 50 MHz and the configuration of a
-- push-pull output, and keeps the configuration of every other pin of port F and every register of the
-- other ports.
pub setup_lem :
    (p : Pins) (q j other : ℕ)
    → q < 16
    → j < 4
    → other ≢ 5
    → (configuration_of ((setup p).ports 5) q j
        ≡ (if leb 6 q && leb q 9 then configuration 3 0 j else configuration_of (p.ports 5) q j))
      × ((setup p).ports other ≡ p.ports other)
unfolding setup set_pin_as_output
setup_lem p q j other hq hj apart =
    let r = p.ports 5 in
    let r1 = as_output r 6 in
    let r2 = as_output r1 7 in
    let r3 = as_output r2 8 in
    let e1 = output-configuration r 6 q j (omega arith) hq hj in
    let e2 = output-configuration r1 7 q j (omega arith) hq hj in
    let e3 = output-configuration r2 8 q j (omega arith) hq hj in
    let e4 = output-configuration r3 9 q j (omega arith) hq hj in
    let joined : configuration_of (as_output r3 9) q j
        ≡ (if leb 6 q && leb q 9 then configuration 3 0 j else configuration_of r q j) =
      rw e4 (rw e3 (rw e2 (rw e1 (ground arith)))) in
    (ap (λ x. configuration_of x q j) (setup-registers p) ∙ joined, ground (arith, apart))

-- The pin of an LED, and its state in the record.
abbrev pub led_pin : Led → ℕ
led_pin number0 = 6
led_pin number1 = 7
led_pin number2 = 8
led_pin number3 = 9

abbrev pub led_state : LedState → Led → Bool
led_state s number0 = s.led0
led_state s number1 = s.led1
led_state s number2 = s.led2
led_state s number3 = s.led3

-- The record says what the pins do.
abbrev pub Mirrors : Board → Type 0
Mirrors b = (l : Led) → get_output_pin_value b.pins port_f (led_pin l) ≡ led_state b.led_states l

-- The tasks switch LEDs on and off, in any order.
pub data Change : Type 0 where
  on off : Led → Change

abbrev pub changes : Device → List Change → Board → Board
changes d [] b = b
changes d (on l ∷ rest) b = changes d rest (set_led d b l)
changes d (off l ∷ rest) b = changes d rest (clear_led d b l)

module _ (d : Device) (h : Documented d) where
  -- What the outputs of the LEDs read behind a change.
  after_change :
      (p : Pins) (pin q : ℕ)
      → pin < 16
      → q < 16
      → (get_output_pin_value (set_output_pin d p port_f pin) port_f q
          ≡ (if q == pin then true else get_output_pin_value p port_f q))
        × (get_output_pin_value (clear_output_pin d p port_f pin) port_f q
            ≡ (if q == pin then false else get_output_pin_value p port_f q))
  after_change p pin q hp hq = set_output_pin_lem d h p port_f port_f pin q hp hq

  pin-lt : (l : Led) → led_pin l < 16
  pin-lt l = ground arith

  set_led-Mirrors : (b : Board) (l : Led) → Mirrors b → Mirrors (set_led d b l)
  unfolding set_led
  set_led-Mirrors b l m j =
      ground (arith, m j, (after_change b.pins (led_pin l) (led_pin j) (pin-lt l) (pin-lt j)).0)

  clear_led-Mirrors : (b : Board) (l : Led) → Mirrors b → Mirrors (clear_led d b l)
  unfolding clear_led
  clear_led-Mirrors b l m j =
      ground (arith, m j, (after_change b.pins (led_pin l) (led_pin j) (pin-lt l) (pin-lt j)).1)

  -- On a device that does what its manual says, g_ledStates says of every LED whether the output of its pin
  -- is set, after any sequence of setLed and clearLed, when it did so before.
  pub changes-Mirrors : (l : List Change) (b : Board) → Mirrors b → Mirrors (changes d l b)
  changes-Mirrors [] b m = m
  changes-Mirrors (on l ∷ rest) b m = changes-Mirrors rest (set_led d b l) (set_led-Mirrors b l m)
  changes-Mirrors (off l ∷ rest) b m =
      changes-Mirrors rest (clear_led d b l) (clear_led-Mirrors b l m)
