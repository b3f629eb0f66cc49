-- ===== src/Queue/Examples.antt =====
-- A queue of two items of four bytes, one of them taken.
use cortex_m3_rtos.Prelude.{◌<◌, ◌≡◌, refl, inl, ◌⊎◌, true, false, ◌∷◌, [], ◌++◌, ltb, done, arith}
use cortex_m3_rtos.Memory.{Memory}
use cortex_m3_rtos.Memory.Laws.{bytes}
use cortex_m3_rtos.Queue.{Queue, Context, send, receive}
use cortex_m3_rtos.Queue.Fifo.{IsValid, Apart, contents}
use cortex_m3_rtos.Queue.Fifo.Send.{put, KeepsOutside, send_lem}
use cortex_m3_rtos.Queue.Fifo.Receive.{WritesItem, receive_lem}

-- The item is at index 1, the end of the buffer, so that the next one goes to index 0.
abbrev half_full : Queue
half_full = record {
  m_current_size = 1;
  m_head = 1;
  m_tail = 1;
  m_data_max_elements = 2;
  m_data_type_size = 4;
  mp_data = 0x2000_0000;
  mp_name = 0;
}

abbrev pub queues : Context
queues = record { m_data = record { m_data = λ _. half_full; m_status = λ i. ltb i 1 } }

abbrev memory : Memory
memory = λ a. a

half_full-IsValid : IsValid half_full
half_full-IsValid = omega arith

user_item : Apart half_full 0x1000
user_item = record { inside = omega arith; apart = inl (omega arith) }

send_lem_example :
    ((half_full.m_current_size ≡ half_full.m_data_max_elements)
      × (send queues memory 0 0x1000 ≡ done (false, queues, memory)))
    ⊎ ((half_full.m_current_size < half_full.m_data_max_elements)
        × ((q' : Queue) × (m' : Memory) × (send queues memory 0 0x1000
              ≡ done (true, put queues 0 q', m'))
            × IsValid q'
            × (contents m' q' ≡ contents memory half_full ++ (bytes memory 0x1000 4 ∷ []))
            × KeepsOutside half_full memory m'))
send_lem_example =
    send_lem queues memory 0 0x1000 (omega arith) refl half_full-IsValid (omega arith) user_item

receive_lem_example :
    ((half_full.m_current_size ≡ 0)
      × (receive queues memory 0 0x1000 ≡ done (false, queues, memory)))
    ⊎ ((0 < half_full.m_current_size)
        × ((q' : Queue) × (m' : Memory) × (receive queues memory 0 0x1000
              ≡ done (true, put queues 0 q', m'))
            × IsValid q'
            × (contents memory half_full ≡ bytes m' 0x1000 4 ∷ contents m' q')
            × WritesItem queues memory 0 0x1000 m'))
receive_lem_example =
    receive_lem queues memory 0 0x1000 (omega arith) refl half_full-IsValid (omega arith) user_item
