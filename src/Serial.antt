-- ===== src/Serial.antt =====
-- examples/serial_interrupt/main.cpp: a program that sends back what it receives over USART 1. The queues
-- are those of the kernel, by the interface in Lines; the status register of the USART and the bytes
-- received are arguments, and the bytes written to its data register a list. A full queue is reported
-- to the debug port in the source, which is left out, as are the tasks' creation and the clock set-up.
pub mod Lines
pub mod Bytes
pub mod Echo
pub mod Round
pub mod KernelQueues
use cortex_m3_rtos.Prelude.{
  ℕ, zero, suc, ◌+◌, ◌%◌, Bool, true, false, Option, none, some, List, [], ◌∷◌, ◌++◌, ltb, ◌==◌,
  if◌then◌else◌, update, Outcome, done, halted,
}
use cortex_m3_rtos.Serial.Lines.{Line, rx, tx, Queues}

-- How a loop ends: it comes to a result, the processor stops in a function of the kernel, an array is
-- read or written outside its bounds, or the fuel is spent.
pub data Result (A : Type 0) : Type 0 where
  finished : A → Result A
  stopped out_of_bounds running : Result A

infixl 5 ◌>>=◌
abbrev pub ◌>>=◌ : {A B : Type 0} → Result A → (A → Result B) → Result B
finished a >>= f = f a
stopped >>= f = stopped
out_of_bounds >>= f = out_of_bounds
running >>= f = running

abbrev pub response_buffer_size : ℕ
response_buffer_size = 64

module _ (Q : Queues) where
  -- The queues, what has been written to USART1->DR, and the bit TXEIE of USART1->CR1.
  pub record Serial : Type 0 where
    pub queues : Q.State
    pub data_register : List ℕ
    pub tx_interrupt : Bool

  -- `print` of an array of `size` characters, from index `i`: the loop reads the character before it
  -- compares the index with the size.
  unfoldable pub print_from : ℕ → (ℕ → ℕ) → ℕ → ℕ → Serial → Result Serial
  print_from zero string size i s = running
  print_from (suc fuel) string size i s = elim (ltb i size) [
    | false ↦ out_of_bounds
    | true ↦ elim (0 == string i) [
      | true ↦ finished (record s { tx_interrupt = true })
      | false ↦ elim (Q.send s.queues tx (string i % 256)) [
        | halted ↦ stopped
        | done (false, q) ↦
            print_from fuel string size i (record s { queues = q; tx_interrupt = true })
        | done (true, q) ↦ print_from fuel string size (i + 1) (record s { queues = q })
      ]
    ]
  ]

  unfoldable pub print : ℕ → (ℕ → ℕ) → ℕ → Serial → Result Serial
  unfolding print_from
  print fuel string size s = print_from fuel string size 0 s

  -- The part of USART1_IRQHandler for a received byte.
  unfoldable pub receive_handler : Serial → ℕ → Result Serial
  receive_handler s byte = elim (Q.send s.queues rx (byte % 256)) [
    | halted ↦ stopped
    | done (sent, q) ↦ finished (record s { queues = q })
  ]

  -- The part for an empty transmit register: the loop empties the queue.
  unfoldable pub transmit_handler : ℕ → Serial → Result Serial
  transmit_handler zero s = running
  transmit_handler (suc fuel) s = elim (Q.receive s.queues tx) [
    | halted ↦ stopped
    | done (some c, q) ↦
        transmit_handler fuel (record s { queues = q; data_register = s.data_register ++ (c ∷ []) })
    | done (none, q) ↦ finished (record s { queues = q; tx_interrupt = false })
  ]

  -- USART1_IRQHandler, by the bits RXNE and TXE of the status register.
  unfoldable pub usart_handler : ℕ → Serial → Bool → Bool → ℕ → Result Serial
  unfolding receive_handler transmit_handler
  usart_handler fuel s rxne txe byte = do
    s' ← if rxne then receive_handler s byte else finished s
    if txe then transmit_handler fuel s' else finished s'

  -- The inner loop of `worker_task`, which empties the queue into the response buffer, from its index.
  unfoldable pub flush_from : ℕ → ℕ → (ℕ → ℕ) → Serial → Result ((ℕ → ℕ) × Serial)
  flush_from zero index response_buffer s = running
  flush_from (suc fuel) index response_buffer s = elim (Q.receive s.queues rx) [
    | halted ↦ stopped
    | done (some byte, q) ↦ elim (ltb index response_buffer_size) [
      | false ↦ out_of_bounds
      | true ↦
          flush_from fuel (index + 1) (update response_buffer index byte) (record s { queues = q })
    ]
    | done (none, q) ↦ elim (ltb index response_buffer_size) [
      | false ↦ out_of_bounds
      | true ↦ finished (update response_buffer index 0, record s { queues = q })
    ]
  ]

  -- A round of the loop of `worker_task`, when its wait has ended with ObjectSet.
  unfoldable pub worker_round : ℕ → (ℕ → ℕ) → Serial → Result Serial
  unfolding flush_from print
  worker_round fuel response_buffer s = do
    (response_buffer', s') ← flush_from fuel 0 response_buffer s
    print fuel response_buffer' response_buffer_size s'
