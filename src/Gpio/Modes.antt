-- ===== src/Gpio/Modes.antt =====
-- The configuration of pins: examples/blinky/gpio.hpp, setPinMode and configureExternalInterrupt.
use cortex_m3_rtos.Prelude.{
  ℕ, ◌+◌, ◌-◌, ◌*◌, ◌/◌, ◌%◌, ◌<◌, ◌≡◌, refl, Bool, ltb, ◌==◌, if◌then◌else◌, inl, inr, Bool-cases,
  arith,
}
use cortex_m3_rtos.Gpio.Bits.{Word, literal, literal_nibble, literal_pair, literal_triple}
use cortex_m3_rtos.Gpio.{
  Port, Registers, Pins, with_fields, set_pin_mode, port_value, configure_external_interrupt,
}

-- Bit `j` of the four bits of place `q` of a register.
abbrev pub field : Word → ℕ → ℕ → Bool
field w q j = w (4 * q + j)

-- The bits of a configuration: two for the mode, and two above them.
abbrev pub configuration : ℕ → ℕ → ℕ → Bool
configuration mode config j = if ltb j 2 then literal mode j else literal config (j - 2)

with_fields-eq :
    (w : Word) (p q j mode config : ℕ)
    → p < 8
    → q < 8
    → j < 4
    → mode < 4
    → config < 4
    → field (with_fields w p mode config) q j
      ≡ (if q == p then configuration mode config j else field w q j)
unfolding with_fields
with_fields-eq w p q j mode config hp hq hj hm hc =
    let i = 4 * q + j in
    ground (
      arith,
      hp,
      hq,
      hj,
      literal_nibble (i - p * 4),
      literal_pair mode (i - p * 4) hm,
      literal_pair config (i - (p * 4 + 2)) hc,
    )

-- Bit `j` of the configuration of pin `q`.
abbrev pub configuration_of : Registers → ℕ → ℕ → Bool
configuration_of r q j = if ltb q 8 then field r.crl q j else field r.crh (q - 8) j

-- setPinMode of one of the sixteen pins gives that pin its mode and its configuration, of two bits each,
-- and changes no other bit of the configuration registers and no other register: every other pin
-- keeps its configuration.
pub set_pin_mode_lem :
    (r : Registers) (p q j mode config : ℕ)
    → p < 16
    → q < 16
    → j < 4
    → mode < 4
    → config < 4
    → let r' = set_pin_mode r p mode config in
      (configuration_of r' q j
        ≡ (if q == p then configuration mode config j else configuration_of r q j))
      × (record r' { crl = r.crl; crh = r.crh } ≡ r)
unfolding set_pin_mode
set_pin_mode_lem r p q j mode config hp hq hj hm hc = elim (Bool-cases (ltb p 8)) [
  | inl low ↦ elim (Bool-cases (ltb q 8)) [
    | inl q_low ↦
        let here =
          with_fields-eq r.crl p q j mode config (ground (arith, low)) (ground (arith, q_low)) hj hm
            hc in
        (ground (arith, low, q_low, here), rw (set_pin_mode, low) refl)
    | inr q_high ↦ (ground (arith, low, q_high), rw (set_pin_mode, low) refl)
  ]
  | inr high ↦ elim (Bool-cases (ltb q 8)) [
    | inl q_low ↦ (ground (arith, high, q_low), rw (set_pin_mode, high) refl)
    | inr q_high ↦
        let here =
          with_fields-eq r.crh (p - 8) (q - 8) j mode config (omega (arith, hp)) (omega (arith, hq))
            hj hm hc in
        (ground (arith, high, q_high, here), rw (set_pin_mode, high) refl)
  ]
]

port_value-lt : (port : Port) → port_value port < 8
port_value-lt port = ground arith

-- Bit `j` of the source of the external interrupt of pin `q`.
abbrev pub source_of : Pins → ℕ → ℕ → Bool
source_of p q j = field (p.exticr (q / 4)) (q % 4) j

-- configureExternalInterrupt of one of the sixteen pins makes the port the source of the external interrupt
-- of that pin, keeps the sources of the other pins, and changes no register of the ports.
pub configure_external_interrupt_lem :
    (p : Pins) (port : Port) (pin q j : ℕ)
    → pin < 16
    → q < 16
    → j < 4
    → let p' = configure_external_interrupt p port pin in
      (source_of p' q j ≡ (if q == pin then literal (port_value port) j else source_of p q j))
      × (p'.ports ≡ p.ports)
unfolding configure_external_interrupt
configure_external_interrupt_lem p port pin q j hp hq hj =
    let i = 4 * (q % 4) + j in
    (
      ground (
        arith,
        hp,
        hq,
        hj,
        literal_nibble (i - 4 * (pin % 4)),
        literal_triple (port_value port) (i - 4 * (pin % 4)) (port_value-lt port),
      ),
      refl,
    )
