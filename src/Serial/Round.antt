-- ===== src/Serial/Round.antt =====
-- The serial example sends back what it receives.
use cortex_m3_rtos.Prelude.{ℕ, ◌+◌, ◌<◌, ◌≤◌, ◌≡◌, true, false, List, [], ◌++◌, arith, ap, ◌∙◌}
use cortex_m3_rtos.Serial.Lines.{rx, tx, Queues, IsFifo, length, length-append}
use cortex_m3_rtos.Serial.{
  finished, ◌>>=◌, Serial, response_buffer_size, print, usart_handler, worker_round,
}
use cortex_m3_rtos.Serial.Echo.{
  AreCharacters, filled, filled-IsText, flush_from-fills, print_from-sends, transmit_handler_lem,
}

module _ (Q : Queues) (F : IsFifo Q) where
  -- A round of the worker task, with fewer than 64 characters in the receive queue, none of them zero, with
  -- room for them in the transmit queue and with enough fuel, moves them from the one queue behind the
  -- content of the other, and turns the transmit interrupt on.
  pub worker_round_lem :
      (l : List ℕ) (fuel : ℕ) (b : ℕ → ℕ) (s : Serial Q)
      → F.Valid s.queues
      → F.contents s.queues rx ≡ l
      → AreCharacters l
      → length l < response_buffer_size
      → length l < fuel
      → length (F.contents s.queues tx) + length l ≤ F.capacity
      → (s' : Serial Q) × (worker_round Q fuel b s ≡ finished s')
        × F.Valid s'.queues
        × (F.contents s'.queues tx ≡ F.contents s.queues tx ++ l)
        × (F.contents s'.queues rx ≡ [])
        × (s'.data_register ≡ s.data_register)
        × (s'.tx_interrupt ≡ true)
  unfolding worker_round print
  worker_round_lem l fuel b s v e chars short enough room =
      let (s1, r1, v1, gone1, kept1, same1) =
        flush_from-fills Q F l fuel 0 b s v e (omega (arith, short)) enough in
      let (s2, r2, v2, sent2, kept2, same2, on2) =
        print_from-sends Q F l fuel response_buffer_size 0 (filled b 0 l) s1 v1 chars
          (filled-IsText b 0 l) (omega (arith, short)) enough
          (omega (arith, room, ap length kept1)) in
      (
        s2,
        rw (worker_round, r1) r2,
        v2,
        sent2 ∙ ap (λ t. t ++ l) kept1,
        kept2 ∙ gone1,
        same2 ∙ same1,
        on2,
      )

  -- Such a round, and the transmit interrupt behind it, write what was left in the transmit queue and then
  -- the characters received to the data register of the USART, in the order in which they came, and
  -- leave both queues empty and the interrupt off.
  pub echo_lem :
      (l : List ℕ) (fuel : ℕ) (b : ℕ → ℕ) (s : Serial Q)
      → F.Valid s.queues
      → F.contents s.queues rx ≡ l
      → AreCharacters l
      → length l < response_buffer_size
      → length (F.contents s.queues tx) + length l < fuel
      → length (F.contents s.queues tx) + length l ≤ F.capacity
      → (s' : Serial Q) × ((worker_round Q fuel b s >>= λ s1. usart_handler Q fuel s1 false true 0)
          ≡ finished s')
        × (s'.data_register ≡ s.data_register ++ (F.contents s.queues tx ++ l))
        × (F.contents s'.queues tx ≡ [])
        × (F.contents s'.queues rx ≡ [])
        × (s'.tx_interrupt ≡ false)
  unfolding usart_handler
  echo_lem l fuel b s v e chars short enough room =
      let (s1, r1, v1, sent, gone, same, on) =
        worker_round_lem l fuel b s v e chars short (omega (arith, enough)) room in
      let (s2, r2, v2, written, empty, kept, off) =
        transmit_handler_lem Q F (F.contents s.queues tx ++ l) fuel s1 v1 sent
          (omega (arith, enough, length-append {0} (F.contents s.queues tx) l)) in
      (
        s2,
        rw r1 r2,
        written ∙ ap (λ t. t ++ (F.contents s.queues tx ++ l)) same,
        empty,
        kept ∙ gone,
        off,
      )
