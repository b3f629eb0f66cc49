-- ===== src/Hardware/Vendor/Laws.antt =====
-- What the debug output sends: source/hardware/armv7m/hardware.cpp, debug::print.
use cortex_m3_rtos.Prelude.{
  ℕ, zero, suc, ◌+◌, ◌<◌, ◌≤◌, ◌≡◌, ◌≢◌, refl, true, false, some, ◌==◌, List, [], ◌∷◌, arith,
  u32_mod, add32, slice, ap, ◌∙◌,
}
use cortex_m3_rtos.Memory.{Memory}
use cortex_m3_rtos.Memory.Laws.{bytes}
use cortex_m3_rtos.Hardware.Vendor.{Vendor, print, put_char}

-- `n` characters at `s`, inside the address space, and behind them the end of the string.
pub record IsString (m : Memory) (s n : ℕ) : Type 0 where
  pub characters : (k : ℕ) → s ≤ k → k < s + n → m k ≢ 0
  pub ending : m (s + n) ≡ 0
  pub inside : s + n < u32_mod

module _ (m : Memory) where
  -- The bytes at an address, with the address as the index.
  shifted : (s i n : ℕ) → slice m (s + i) n ≡ slice (λ k. m (s + k)) i n
  shifted s i zero = refl
  shifted s i (suc n) =
      ap (λ l. m (s + i) ∷ l) (ap (λ j. slice m j n) (omega arith) ∙ shifted s (suc i) n)

slice-from : (m : Memory) (s n : ℕ) → slice m s n ≡ bytes m s n
slice-from m s n = ap (λ j. slice m j n) (omega arith) ∙ shifted m s 0 n

module _ {Device : Type 0} (v : Vendor Device) where
  -- The characters, sent one after the other.
  abbrev pub send_all : Device → List ℕ → Device
  send_all d [] = d
  send_all d (c ∷ cs) = send_all (v.itm_send_char d c) cs

  print_from :
      (n fuel : ℕ) (m : Memory) (d : Device) (s : ℕ)
      → n < fuel
      → IsString m s n
      → print v fuel m d s ≡ some (send_all d (slice m s n))
  unfolding print put_char
  print_from n zero m d s lt h = absurd (omega (arith, lt))
  print_from zero (suc fuel) m d s lt h =
      let here : m s ≡ 0 = ap m (omega arith) ∙ h.ending in
      let ends : (0 == m s) ≡ true = ground (arith, here) in rw (print, ends) refl
  print_from (suc n) (suc fuel) m d s lt h =
      let goes_on : (0 == m s) ≡ false = ground (arith, h.characters s) in
      let next : add32 s 1 ≡ suc s = omega (arith, h.inside) in
      let rest : IsString m (suc s) n = record {
        characters = λ k p q. h.characters k (omega arith) (omega arith);
        ending = ap m (omega arith) ∙ h.ending;
        inside = omega (arith, h.inside);
      } in
      rw (print, goes_on, put_char, next)
        (print_from n fuel m (v.itm_send_char d (m s)) (suc s) (omega (arith, lt)) rest)

  -- A string of n characters inside the address space, printed with fuel for more than n rounds, is sent
  -- character by character, from the first to the last, and without the zero at its end.
  pub print_lem :
      (n fuel : ℕ) (m : Memory) (d : Device) (s : ℕ)
      → n < fuel
      → IsString m s n
      → print v fuel m d s ≡ some (send_all d (bytes m s n))
  print_lem n fuel m d s lt h =
      print_from n fuel m d s lt h ∙ ap (λ l. some (send_all d l)) (slice-from m s n)
