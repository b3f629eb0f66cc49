-- ===== src/Serial/KernelQueues/Program.antt =====
-- The serial example on the queues of the kernel.
use cortex_m3_rtos.Prelude.{ℕ, ◌+◌, ◌<◌, ◌≤◌, ◌≡◌, true, false, List, [], ◌++◌, arith}
use cortex_m3_rtos.Serial.Lines.{Line, rx, tx, length}
use cortex_m3_rtos.Serial.{
  finished, out_of_bounds, ◌>>=◌, Serial, response_buffer_size, usart_handler, flush_from,
  worker_round,
}
use cortex_m3_rtos.Serial.Echo.{AreCharacters, flush_from-overflows}
use cortex_m3_rtos.Serial.Round.{echo_lem}
use cortex_m3_rtos.Serial.KernelQueues.{kernel_queues, TwoQueues, line_contents}
use cortex_m3_rtos.Serial.KernelQueues.Laws.{kernel_queues-IsFifo}

module _ (id : Line → ℕ) (a capacity : ℕ) (l : List ℕ) (fuel : ℕ) (b : ℕ → ℕ)
    (s : Serial (kernel_queues id a)) (ok : TwoQueues id a capacity s.queues)
    (e : line_contents id a capacity s.queues rx ≡ l) where
  -- On two valid queues of the kernel, for bytes, with buffers apart: when the receive queue holds fewer
  -- than 64 characters, none of them zero, the transmit queue has room for them, and the fuel is for more
  -- rounds than both queues have bytes, a round of the worker task and the transmit interrupt behind
  -- it never stop, read or write no array outside its bounds, and write what was left in the
  -- transmit queue and then the characters received to the data register of the USART, in the order in
  -- which they came. Both queues are empty then, and the interrupt is off.
  pub kernel_echo :
      AreCharacters l
      → length l < response_buffer_size
      → length (line_contents id a capacity s.queues tx) + length l < fuel
      → length (line_contents id a capacity s.queues tx) + length l ≤ capacity
      → (s' : Serial (kernel_queues id a)) × ((worker_round (kernel_queues id a) fuel b s >>= λ s1.
            usart_handler (kernel_queues id a) fuel s1 false true 0)
          ≡ finished s')
        × (s'.data_register ≡ s.data_register ++ (line_contents id a capacity s.queues tx ++ l))
        × (line_contents id a capacity s'.queues tx ≡ [])
        × (line_contents id a capacity s'.queues rx ≡ [])
        × (s'.tx_interrupt ≡ false)
  kernel_echo chars short enough room =
      echo_lem (kernel_queues id a) (kernel_queues-IsFifo id a capacity) l fuel b s ok e chars short
        enough room

  -- On two valid queues of the kernel, for bytes, with buffers apart: when the receive queue holds 64 bytes
  -- or more, which is how many it holds in the program when it is full, and the fuel is for more rounds
  -- than that, the inner loop of the worker task writes outside its response buffer.
  pub kernel_overflow :
      response_buffer_size ≤ length l
      → length l < fuel
      → flush_from (kernel_queues id a) fuel 0 b s ≡ out_of_bounds
  kernel_overflow long enough =
      flush_from-overflows (kernel_queues id a) (kernel_queues-IsFifo id a capacity) l fuel 0 b s ok
        e (omega arith) (omega (arith, long)) enough
