-- ===== src/Serial/Bytes.antt =====
-- The bytes in a queue whose items are of one byte, such as those of examples/serial_interrupt/main.cpp.
use cortex_m3_rtos.Prelude.{
  ℕ, zero, suc, ◌+◌, ◌*◌, ◌<◌, ◌≤◌, ◌≡◌, refl, List, [], ◌∷◌, ◌++◌, map, slice, slice-ext, ap,
  arith,
}
use cortex_m3_rtos.Memory.{Memory}
use cortex_m3_rtos.Queue.{Queue}
use cortex_m3_rtos.Queue.Fifo
use cortex_m3_rtos.Queue.Fifo.{IsValid, Apart, item, place, place-lt, item_range}
use cortex_m3_rtos.Serial.Lines.{length}

-- The first byte of an item.
abbrev pub first : List ℕ → ℕ
first [] = 0
first (x ∷ xs) = x

abbrev pub byte_contents : Memory → Queue → List ℕ
byte_contents m q = map first (Fifo.contents m q)

pub map-append : (xs ys : List (List ℕ)) → map first (xs ++ ys) ≡ map first xs ++ map first ys
map-append [] ys = refl
map-append (x ∷ xs) ys = ap (λ l. first x ∷ l) (map-append xs ys)

pub length-slice : (f : ℕ → List ℕ) (i n : ℕ) → length (map first (slice f i n)) ≡ n
length-slice f i zero = refl
length-slice f i (suc n) = omega (arith, length-slice f (suc i) n)

-- A queue whose buffer does not change has the same contents.
pub contents-kept :
    (m m' : Memory) (q : Queue)
    → IsValid q
    → ((b : ℕ)
        → q.mp_data ≤ b
        → b < q.mp_data + q.m_data_type_size * q.m_data_max_elements
        → m' b ≡ m b)
    → Fifo.contents m' q ≡ Fifo.contents m q
contents-kept m m' q v kept = slice-ext _ _ 0 q.m_current_size (λ k _ lt.
    let i = place q.m_data_max_elements q.m_tail k in
    let range =
      item_range q.m_data_type_size i q.m_data_max_elements
        (place-lt v.tail_in (omega (arith, lt, v.size_in))) in
    slice-ext _ _ 0 q.m_data_type_size
      (λ j _ less. kept _ (omega arith) (omega (arith, range, less))))
