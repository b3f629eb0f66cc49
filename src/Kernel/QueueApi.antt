-- ===== src/Kernel/QueueApi.antt =====
-- source/kernel.cpp, namespace kernel::static_queue. Messages are left out.
mod Laws
mod Examples
use cortex_m3_rtos.Prelude.{
  ℕ, Bool, true, false, not, ◌||◌, Option, none, some, ◌==◌, if◌then◌else◌, Outcome, done, ◌>>=◌,
}
use cortex_m3_rtos.Queue
use cortex_m3_rtos.Handle
use cortex_m3_rtos.Handle.{ObjectType, Objects}
use cortex_m3_rtos.Kernel.{Kernel}

abbrev pub is_queue : ObjectType → Bool
is_queue ObjectType.queue = true
is_queue _ = false

abbrev pub put_queues : Kernel → Queue.Context → Kernel
put_queues k c = record k { m_objects = record k.m_objects { queues = c } }

-- The handle `a_handle` is passed in and returned.
unfoldable pub create : Kernel → ℕ → ℕ → ℕ → ℕ → ℕ → Outcome (Bool × ℕ × Kernel)
create k handle data_max_size data_type_size static_buffer name =
    if (data_max_size == 0 || data_type_size == 0) || static_buffer == 0
    then done (false, handle, k)
    else (do
      (created, queues) ←
          Queue.create k.m_objects.queues data_max_size data_type_size static_buffer name
      done (elim created [
        | none ↦ (false, handle, put_queues k queues)
        | some id ↦ (true, handle, put_queues k queues)
      ]))

-- `open`. `none` is the result false; `some handle` is true, with the handle in `a_handle`.
unfoldable pub open_queue : Kernel → ℕ → Outcome (Option ℕ)
open_queue k name = if name == 0 then done none else (do
  opened ← Queue.open_queue k.m_objects.queues name
  done (elim opened [ none ↦ none | some id ↦ some (Handle.create ObjectType.queue id) ]))

unfoldable pub destroy : Kernel → ℕ → Outcome Kernel
destroy k handle =
    if is_queue (Handle.get_object_type handle)
    then (do
      queues ← Queue.destroy k.m_objects.queues (Handle.get_id handle)
      done (put_queues k queues))
    else done k

unfoldable pub send : Kernel → ℕ → ℕ → Outcome (Bool × Kernel)
send k handle ap_data =
    if not (is_queue (Handle.get_object_type handle)) || ap_data == 0 then done (false, k) else (do
      (sent, queues, memory) ← Queue.send k.m_objects.queues k.memory (Handle.get_id handle) ap_data
      done (sent, record (put_queues k queues) { memory = memory }))

unfoldable pub receive : Kernel → ℕ → ℕ → Outcome (Bool × Kernel)
receive k handle ap_data =
    if not (is_queue (Handle.get_object_type handle)) || ap_data == 0 then done (false, k) else (do
      (received, queues, memory) ←
          Queue.receive k.m_objects.queues k.memory (Handle.get_id handle) ap_data
      done (received, record (put_queues k queues) { memory = memory }))

-- `none` is the result false; `some` is true, with the value in the reference argument.
unfoldable pub size : Kernel → ℕ → Outcome (Option ℕ)
size k handle =
    if is_queue (Handle.get_object_type handle)
    then (do n ← Queue.get_size k.m_objects.queues (Handle.get_id handle); done (some n))
    else done none

unfoldable pub is_full : Kernel → ℕ → Outcome (Option Bool)
is_full k handle =
    if is_queue (Handle.get_object_type handle)
    then (do b ← Queue.is_full k.m_objects.queues (Handle.get_id handle); done (some b))
    else done none

unfoldable pub is_empty : Kernel → ℕ → Outcome (Option Bool)
is_empty k handle =
    if is_queue (Handle.get_object_type handle)
    then (do b ← Queue.is_empty k.m_objects.queues (Handle.get_id handle); done (some b))
    else done none
