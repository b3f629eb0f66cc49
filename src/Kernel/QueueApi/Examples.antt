-- ===== src/Kernel/QueueApi/Examples.antt =====
-- A second queue.
use cortex_m3_rtos.Prelude.{ℕ, ◌≡◌, refl, true, done}
use cortex_m3_rtos.Queue
use cortex_m3_rtos.Kernel.{Kernel}
use cortex_m3_rtos.Kernel.Examples.{two_ready}
use cortex_m3_rtos.Kernel.QueueApi.{create}
use cortex_m3_rtos.Kernel.QueueApi.Laws.{create_keeps_handle}

abbrev handle : ℕ
handle = 0xdead_beef

returned : (k' : Kernel) × (create two_ready handle 8 4 0x2000_1000 0 ≡ done (true, handle, k'))
unfolding create Queue.create
returned = (_, refl)

create_keeps_handle_example : handle ≡ handle
create_keeps_handle_example =
    create_keeps_handle two_ready returned.0 handle handle 8 4 0x2000_1000 0 true returned.1
