-- ===== src/Kernel/QueueApi/Laws.antt =====
-- The handle of a new queue: source/kernel.cpp, static_queue::create.
use cortex_m3_rtos.Prelude.{ℕ, ◌≡◌, inl, inr, Bool, none, some, done, arith, Outcome-cases}
use cortex_m3_rtos.Queue
use cortex_m3_rtos.Kernel.{Kernel}
use cortex_m3_rtos.Kernel.QueueApi.{create}

-- Whenever static_queue::create returns, with true or with false, the handle that it was given has the
-- value that it had before the call, so that it does not name the new queue.
pub create_keeps_handle :
    (k k' : Kernel) (handle h data_max_size data_type_size static_buffer name : ℕ) (created : Bool)
    → create k handle data_max_size data_type_size static_buffer name ≡ done (created, h, k')
    → h ≡ handle
unfolding create
create_keeps_handle k k' handle h data_max_size data_type_size static_buffer name created e =
    elim (Outcome-cases
      (Queue.create k.m_objects.queues data_max_size data_type_size static_buffer name)) [
        | inl stops ↦ ground (arith, stops, e)
        | inr ((none, queues), r) ↦ ground (arith, r, e)
        | inr ((some id, queues), r) ↦ ground (arith, r, e)
      ]
