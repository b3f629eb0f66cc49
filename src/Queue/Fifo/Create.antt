-- ===== src/Queue/Fifo/Create.antt =====
-- `create` sets up an empty queue.
use cortex_m3_rtos.Prelude.{
  ℕ, ◌+◌, ◌*◌, ◌<◌, ◌≡◌, refl, ◌≢◌, ◌⊎◌, inl, inr, true, false, Option, none, some, [], update,
  done, arith, u32_mod,
}
use cortex_m3_rtos.Config.{max_queues}
use cortex_m3_rtos.MemoryBuffer.{MemoryBuffer, allocate}
use cortex_m3_rtos.MemoryBuffer.Laws.{FirstFree, full, found, allocate-FirstFree}
use cortex_m3_rtos.Memory.{Memory}
use cortex_m3_rtos.Queue.{Queue, Context, create}
use cortex_m3_rtos.Queue.Fifo.{IsValid, contents}

-- The context with queue `q` in slot `id`, which is in use.
abbrev pub with_queue : Context → ℕ → Queue → Context
with_queue c id q = record {
  m_data = record {
    m_data = update c.m_data.m_data id q;
    m_status = update c.m_data.m_status id true;
  };
}

-- `create` has returned false, with all slots in use, and has changed nothing; or it has put an empty valid
-- queue of that buffer, item size and number of items into a slot that was free.
abbrev pub Created : Context → Memory → ℕ → ℕ → ℕ → ℕ → Type 0
Created c m n size buffer name =
    (((j : ℕ) → j < max_queues → c.m_data.m_status j ≡ true)
      × (create c n size buffer name ≡ done (none, c)))
    ⊎ ((id : ℕ) × (q : Queue) × (create c n size buffer name ≡ done (some id, with_queue c id q))
        × (id < max_queues)
        × (c.m_data.m_status id ≡ false)
        × IsValid q
        × (contents m q ≡ [])
        × (q.mp_data ≡ buffer)
        × (q.m_data_type_size ≡ size)
        × (q.m_data_max_elements ≡ n))

abbrev new_queue : ℕ → ℕ → ℕ → ℕ → Queue
new_queue n size buffer name = record {
  m_current_size = 0;
  m_head = 0;
  m_tail = 0;
  m_data_max_elements = n;
  m_data_type_size = size;
  mp_data = buffer;
  mp_name = name;
}

module _ (c : Context) (m : Memory) (n size buffer name : ℕ) (some_items : 0 < n)
    (some_bytes : 0 < size) (pointer : buffer ≢ 0) (fits : buffer + size * n < u32_mod) where
  new_queue-IsValid : IsValid (new_queue n size buffer name)
  new_queue-IsValid = record {
    some_items = some_items;
    some_bytes = some_bytes;
    fits = fits;
    size_in = omega arith;
    head_in = some_items;
    tail_in = some_items;
    head_empty = λ _. refl;
    head_last = λ h. absurd (omega arith);
  }

  allocated-Created :
      {r : Option (ℕ × MemoryBuffer Queue)}
      → allocate max_queues c.m_data ≡ r
      → FirstFree 0 max_queues c.m_data r
      → Created c m n size buffer name
  unfolding create
  allocated-Created e (full all) = inl (λ j h. all j (omega arith) h, ground (arith, pointer, e))
  allocated-Created e (found id _ lt free _) = inr (
    id,
    new_queue n size buffer name,
    ground (arith, pointer, e, lt),
    lt,
    free,
    new_queue-IsValid,
    refl,
    refl,
    refl,
    refl,
  )

  -- `create` of a queue of at least one item of at least one byte, with a buffer that is not null and lies
  -- inside the address space, never stops at an assertion. It returns false exactly when all slots are
  -- in use, and then changes nothing; else it puts a valid queue with no items, of that buffer, item
  -- size and number of items, into a slot that was free, and changes no other slot.
  pub create-Created : Created c m n size buffer name
  create-Created = allocated-Created refl (allocate-FirstFree max_queues c.m_data)
