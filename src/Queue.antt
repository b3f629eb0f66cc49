-- ===== src/Queue.antt =====
-- source/queue/queue.hpp: static queues, rings of items in a buffer of the user. `size_t` has 32 bits.
-- The hardware critical section that each function holds makes it one step here.
pub mod Fifo
pub mod Examples
use cortex_m3_rtos.Prelude.{
  ℕ, zero, suc, ◌+◌, ◌-◌, ◌*◌, ◌%◌, Bool, true, false, not, Option, none, some, ltb, leb, ◌==◌,
  if◌then◌else◌, Outcome, done, halted, ◌>>=◌, ◌>>◌, assert, add32, sub32, mul32,
}
use cortex_m3_rtos.Config.{max_queues}
use cortex_m3_rtos.Memory.{Memory, copy}
use cortex_m3_rtos.MemoryBuffer.{MemoryBuffer, allocate, free, at, set_at, modify, is_allocated}

-- `mp_data` and `mp_name` are addresses.
pub record Queue : Type 0 where
  pub m_current_size : ℕ
  pub m_head : ℕ
  pub m_tail : ℕ
  pub m_data_max_elements : ℕ
  pub m_data_type_size : ℕ
  pub mp_data : ℕ
  pub mp_name : ℕ

pub record Context : Type 0 where
  pub m_data : MemoryBuffer Queue

-- `none` is the result false; `some id` is true, with the id in `a_id`.
unfoldable pub create : Context → ℕ → ℕ → ℕ → ℕ → Outcome (Option ℕ × Context)
unfolding allocate set_at
create c data_max_elements data_type_size static_buffer name = do
  assert (not (static_buffer == 0))
  elim (allocate max_queues c.m_data) [
    | none ↦ done (none, c)
    | some (id, b) ↦ do
      b' ← set_at max_queues b id (record {
        m_current_size = 0;
        m_head = 0;
        m_tail = 0;
        m_data_max_elements = data_max_elements;
        m_data_type_size = data_type_size;
        mp_data = static_buffer;
        mp_name = name;
      })
      done (some id, record { m_data = b' })
  ]

-- Whether slot `i` holds a queue of that name.
unfoldable pub has_name : Context → ℕ → ℕ → Outcome Bool
unfolding is_allocated at
has_name c i name = do
  used ← is_allocated max_queues c.m_data i
  if used then (do q ← at max_queues c.m_data i; done (name == q.mp_name)) else done false

-- The loop of `open` from slot `i`, with `n` rounds left.
unfoldable pub open_from : ℕ → ℕ → Context → ℕ → Outcome (Option ℕ)
unfolding has_name
open_from zero i c name = done none
open_from (suc n) i c name = do
  hit ← has_name c i name
  elim hit [ true ↦ done (some i) | false ↦ open_from n (i + 1) c name ]

-- `open`
unfoldable pub open_queue : Context → ℕ → Outcome (Option ℕ)
unfolding open_from
open_queue c name = do assert (not (name == 0)); open_from max_queues 0 c name

unfoldable pub destroy : Context → ℕ → Outcome Context
unfolding free
destroy c id = do b ← free max_queues c.m_data id; done (record { m_data = b })

unfoldable pub is_full : Context → ℕ → Outcome Bool
unfolding at
is_full c id = do q ← at max_queues c.m_data id; done (leb q.m_data_max_elements q.m_current_size)

unfoldable pub is_empty : Context → ℕ → Outcome Bool
unfolding at
is_empty c id = do q ← at max_queues c.m_data id; done (0 == q.m_current_size)

-- The next index of the ring: `++i`, and back to 0 at the end.
unfoldable pub advance : ℕ → ℕ → ℕ
advance max_elements i = let i' = add32 i 1 in if leb max_elements i' then 0 else i'

-- The address of the item at index `i`.
unfoldable pub item_address : Queue → ℕ → ℕ
item_address q i = add32 q.mp_data (mul32 q.m_data_type_size i)

-- Pushes an item, the bytes at address `ap_data`, at the head.
unfoldable pub send : Context → Memory → ℕ → ℕ → Outcome (Bool × Context × Memory)
unfolding at set_at is_full is_empty advance item_address copy
send c m id ap_data = do
  assert (not (ap_data == 0))
  q ← at max_queues c.m_data id
  full ← is_full c id
  if full then done (false, c, m) else (do
    empty ← is_empty c id
    let head = if empty then q.m_head else advance q.m_data_max_elements q.m_head
    m' ← copy m (item_address q head) ap_data q.m_data_type_size
    b ←
        set_at max_queues c.m_data id
          (record q { m_head = head; m_current_size = add32 q.m_current_size 1 })
    done (true, record { m_data = b }, m'))

-- Pops the item at the tail into the bytes at address `ap_data`.
unfoldable pub receive : Context → Memory → ℕ → ℕ → Outcome (Bool × Context × Memory)
unfolding at set_at is_empty advance item_address copy
receive c m id ap_data = do
  assert (not (ap_data == 0))
  q ← at max_queues c.m_data id
  empty ← is_empty c id
  if empty then done (false, c, m) else (do
    m' ← copy m ap_data (item_address q q.m_tail) q.m_data_type_size
    let tail = if ltb 1 q.m_current_size then advance q.m_data_max_elements q.m_tail else q.m_tail
    b ←
        set_at max_queues c.m_data id
          (record q { m_tail = tail; m_current_size = sub32 q.m_current_size 1 })
    done (true, record { m_data = b }, m'))

unfoldable pub get_size : Context → ℕ → Outcome ℕ
unfolding at
get_size c id = do q ← at max_queues c.m_data id; done q.m_current_size
