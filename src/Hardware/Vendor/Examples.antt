-- ===== src/Hardware/Vendor/Examples.antt =====
-- A device that keeps what is sent to the debug port, the last character first.
use cortex_m3_rtos.Prelude.{ℕ, ◌≡◌, refl, some, ◌==◌, if◌then◌else◌, List, [], ◌∷◌, arith}
use cortex_m3_rtos.Memory.{Memory}
use cortex_m3_rtos.Memory.Laws.{bytes}
use cortex_m3_rtos.Hardware.Vendor.{Vendor, print}
use cortex_m3_rtos.Hardware.Vendor.Laws.{IsString, send_all, print_lem}

abbrev trace : Vendor (List ℕ)
trace = record {
  nvic_enable_irq = λ d id. d;
  nvic_set_priority_grouping = λ d g. d;
  sys_tick_config = λ d ticks. d;
  itm_send_char = λ d c. c ∷ d;
  itm_tcr_itmena_msk = 1;
}

-- "test", the text of examples/blinky.
abbrev text : Memory
text a =
    if a == 100
    then 116
    else if a == 101
    then 101
    else if a == 102
    then 115
    else if a == 103
    then 116
    else 0

text-IsString : IsString text 100 4
text-IsString = record {
  characters = λ k p q. ground (arith, p, q);
  ending = refl;
  inside = omega arith;
}

sent : send_all trace [] (bytes text 100 4) ≡ 116 ∷ 115 ∷ 101 ∷ 116 ∷ []
sent = refl

print_lem_example : print trace 5 text [] 100 ≡ some (send_all trace [] (bytes text 100 4))
print_lem_example = print_lem trace 4 5 text [] 100 (omega arith) text-IsString
