-- ===== src/Gpio/Outputs.antt =====
-- Reading and writing pins: examples/blinky/gpio.hpp.
use cortex_m3_rtos.Prelude.{
  ℕ, ◌+◌, ◌-◌, ◌<◌, ◌≡◌, Bool, true, false, not, ◌&&◌, ◌==◌, if◌then◌else◌, arith,
}
use cortex_m3_rtos.Gpio.Bits.{Word, literal, literal_one, shift_left, is_nonzero-bit}
use cortex_m3_rtos.Gpio.{
  on_port, Port, Registers, Pins, Device, get_base, set_output_pin, clear_output_pin,
  get_output_pin_value,
}

-- The reference manual of the device: a one that is written to BSRR sets the bit of ODR, or, from bit 16 on,
-- resets the bit that is 16 places below, where setting comes first; a one that is written to BRR
-- resets the bit of ODR. The other registers do not change.
pub record Documented (d : Device) : Type 0 where
  pub bsrr_sets :
      (r : Registers) (w : Word) (q : ℕ)
      → q < 16
      → (d.write_bsrr r w).odr q ≡ (if w q then true else if w (q + 16) then false else r.odr q)
  pub brr_resets :
      (r : Registers) (w : Word) (q : ℕ) → q < 16 → (d.write_brr r w).odr q ≡ (r.odr q && not (w q))
  pub bsrr_only : (r : Registers) (w : Word) → record (d.write_bsrr r w) { odr = r.odr } ≡ r
  pub brr_only : (r : Registers) (w : Word) → record (d.write_brr r w) { odr = r.odr } ≡ r

get_output_pin_value-eq :
    (p : Pins) (port : Port) (q : ℕ)
    → q < 16
    → get_output_pin_value p port q ≡ (p.ports (get_base port)).odr q
unfolding get_output_pin_value
get_output_pin_value-eq p port q h =
    is_nonzero-bit (p.ports (get_base port)).odr q (omega (arith, h))

one_bit : (pin q : ℕ) → pin < 16 → q < 16 → shift_left (literal 1) pin q ≡ (q == pin)
one_bit pin q hp hq = ground (arith, literal_one (q - pin), hp, hq)

no_high_bit : (pin q : ℕ) → pin < 16 → q < 16 → shift_left (literal 1) pin (q + 16) ≡ false
no_high_bit pin q hp hq = ground (arith, literal_one (q + 16 - pin), hp, hq)

-- The output of a pin behind a change of a port.
output-on_port :
    (p : Pins) (port other : Port) (q : ℕ) (f : Registers → Registers)
    → q < 16
    → get_output_pin_value (on_port p port f) other q ≡ (
        if get_base other == get_base port
        then (f (p.ports (get_base port))).odr q
        else get_output_pin_value p other q)
output-on_port p port other q f h = ground (
  arith,
  get_output_pin_value-eq (on_port p port f) other q h,
  get_output_pin_value-eq p other q h,
)

-- The same, when the change is one of the bit of a pin.
output_changed :
    (p : Pins) (port other : Port) (pin q : ℕ) (f : Registers → Registers) (b : Bool)
    → q < 16
    → let r = p.ports (get_base port) in
      (f r).odr q ≡ (if q == pin then b else r.odr q)
      → get_output_pin_value (on_port p port f) other q ≡ (
          if (get_base other == get_base port) && (q == pin)
          then b
          else get_output_pin_value p other q)
output_changed p port other pin q f b h e =
    ground (arith, output-on_port p port other q f h, get_output_pin_value-eq p other q h, e)

module _ (d : Device) (h : Documented d) (p : Pins) (port other : Port) (pin q : ℕ) (hp : pin < 16)
    (hq : q < 16) where
  -- Whether that pin is this one.
  abbrev pub is_pin : Bool
  is_pin = (get_base other == get_base port) && (q == pin)

  -- On a device that does what its manual says, after setOutputPin the output of that pin reads as set, after
  -- clearOutputPin as reset, and neither changes what the output of any other pin of any port reads.
  pub set_output_pin_lem :
      (get_output_pin_value (set_output_pin d p port pin) other q
        ≡ (if is_pin then true else get_output_pin_value p other q))
      × (get_output_pin_value (clear_output_pin d p port pin) other q
          ≡ (if is_pin then false else get_output_pin_value p other q))
  unfolding set_output_pin clear_output_pin
  set_output_pin_lem =
      let r = p.ports (get_base port) in
      let w = shift_left (literal 1) pin in
      let bit = one_bit pin q hp hq in
      let sets : (d.write_bsrr r w).odr q ≡ (if q == pin then true else r.odr q) =
        ground (arith, h.bsrr_sets r w q hq, bit, no_high_bit pin q hp hq) in
      let resets : (d.write_brr r w).odr q ≡ (if q == pin then false else r.odr q) =
        ground (arith, h.brr_resets r w q hq, bit) in
      (
        output_changed p port other pin q (λ x. d.write_bsrr x w) true hq sets,
        output_changed p port other pin q (λ x. d.write_brr x w) false hq resets,
      )
