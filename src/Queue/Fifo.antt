-- ===== src/Queue/Fifo.antt =====
-- A queue as the list of its items, the oldest first.
pub mod Send
pub mod Receive
pub mod Create
use cortex_m3_rtos.Prelude.{
  ℕ, ◌+◌, ◌-◌, ◌*◌, ◌%◌, ◌<◌, ◌≤◌, ◌≡◌, ◌⊎◌, Bool, true, List, arith, ltb, if◌then◌else◌, slice,
  u32_mod, add32, mul32,
}
use cortex_m3_rtos.Config.{max_queues}
use cortex_m3_rtos.Memory.{Memory}
use cortex_m3_rtos.Memory.Laws.{bytes}
use cortex_m3_rtos.Queue.{Queue, Context, item_address, advance}

-- The index of the `k`-th item in a ring of `n` whose oldest item is at `tail`.
abbrev pub place : ℕ → ℕ → ℕ → ℕ
place n tail k = if ltb (tail + k) n then tail + k else tail + k - n

-- Of a queue of at least one item of at least one byte, whose buffer lies inside the address space.
pub record IsValid (q : Queue) : Type 0 where
  pub some_items : 0 < q.m_data_max_elements
  pub some_bytes : 0 < q.m_data_type_size
  pub fits : q.mp_data + q.m_data_type_size * q.m_data_max_elements < u32_mod
  pub size_in : q.m_current_size ≤ q.m_data_max_elements
  pub head_in : q.m_head < q.m_data_max_elements
  pub tail_in : q.m_tail < q.m_data_max_elements
  pub head_empty : q.m_current_size ≡ 0 → q.m_head ≡ q.m_tail
  pub head_last :
      0 < q.m_current_size → q.m_head ≡ place q.m_data_max_elements q.m_tail (q.m_current_size - 1)

pub place-lt : {n t k : ℕ} → t < n → k < n → place n t k < n
place-lt ht hk = ground arith

-- The item at index `i` of the buffer.
abbrev pub item : Memory → Queue → ℕ → List ℕ
item m q i = bytes m (q.mp_data + q.m_data_type_size * i) q.m_data_type_size

abbrev pub contents : Memory → Queue → List (List ℕ)
contents m q = slice (λ k. item m q (place q.m_data_max_elements q.m_tail k)) 0 q.m_current_size

-- `n` bytes at `a` are apart from the buffer of the queue, and inside the address space.
pub record Apart (q : Queue) (a : ℕ) : Type 0 where
  pub inside : a + q.m_data_type_size ≤ u32_mod
  pub apart :
      (a + q.m_data_type_size ≤ q.mp_data)
      ⊎ (q.mp_data + q.m_data_type_size * q.m_data_max_elements ≤ a)

-- Two items of the buffer do not overlap, and each lies inside the buffer.
pub item_range : (t i j : ℕ) → i < j → t * i + t ≤ t * j
item_range t i j h = grind arith

pub item_address-eq :
    (q : Queue) (i : ℕ)
    → IsValid q
    → i < q.m_data_max_elements
    → item_address q i ≡ q.mp_data + q.m_data_type_size * i
unfolding item_address
item_address-eq q i v h =
    omega (arith, v.fits, v.some_bytes, item_range q.m_data_type_size i q.m_data_max_elements h)

pub advance-eq :
    (n i : ℕ) → i < n → n < u32_mod → advance n i ≡ (if ltb (i + 1) n then i + 1 else 0)
unfolding advance
advance-eq n i h b = ground arith

pub max_elements-lt : (q : Queue) → IsValid q → q.m_data_max_elements < u32_mod
max_elements-lt q v = grind (arith, v.fits, v.some_bytes)
