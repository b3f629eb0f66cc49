-- ===== src/Serial/Echo.antt =====
-- What the loops of the serial example do with the bytes.
use cortex_m3_rtos.Prelude.{
  ℕ, zero, suc, ◌+◌, ◌%◌, ◌<◌, ◌≤◌, ◌≡◌, refl, true, false, List, [], ◌∷◌, ◌++◌, ltb, ◌==◌, update,
  arith, ap, sym, ◌∙◌, inl, inr, Bool-cases,
}
use mathlib.Core.List.{append_assoc, append-nil}
use cortex_m3_rtos.Serial.Lines.{rx, tx, Queues, IsFifo, length, length-append}
use cortex_m3_rtos.Serial.{
  finished, out_of_bounds, Serial, response_buffer_size, print_from, transmit_handler, flush_from,
}

-- Characters: bytes that are not the end of a string.
abbrev pub AreCharacters : List ℕ → Type 0
AreCharacters [] = Unit {0}
AreCharacters (x ∷ xs) = (0 < x) × (x < 256) × AreCharacters xs

-- From index `i` on the array holds those characters and the end of the string.
abbrev pub IsText : (ℕ → ℕ) → ℕ → List ℕ → Type 0
IsText string i [] = string i ≡ 0
IsText string i (x ∷ xs) = (string i ≡ x) × IsText string (i + 1) xs

-- The array when the bytes and the end of the string have been written, from index `i` on.
abbrev pub filled : (ℕ → ℕ) → ℕ → List ℕ → ℕ → ℕ
filled b i [] = update b i 0
filled b i (x ∷ xs) = filled (update b i x) (i + 1) xs

filled-before : (b : ℕ → ℕ) (i : ℕ) (l : List ℕ) (k : ℕ) → k < i → filled b i l k ≡ b k
filled-before b i [] k lt = ground (arith, lt)
filled-before b i (x ∷ xs) k lt =
    ground (arith, lt, filled-before (update b i x) (i + 1) xs k (omega (arith, lt)))

pub filled-IsText : (b : ℕ → ℕ) (i : ℕ) (l : List ℕ) → IsText (filled b i l) i l
filled-IsText b i [] = ground arith
filled-IsText b i (x ∷ xs) = (
  ground (arith, filled-before (update b i x) (i + 1) xs i (omega arith)),
  filled-IsText (update b i x) (i + 1) xs,
)

module _ (Q : Queues) (F : IsFifo Q) where
  -- The transmit interrupt, with fuel for more rounds than the queue has bytes, writes all bytes of the transmit queue to the
  -- data register, the oldest first, leaves that queue empty and the other as it is, and turns itself
  -- off.
  pub transmit_handler_lem :
      (l : List ℕ) (fuel : ℕ) (s : Serial Q)
      → F.Valid s.queues
      → F.contents s.queues tx ≡ l
      → length l < fuel
      → (s' : Serial Q) × (transmit_handler Q fuel s ≡ finished s')
        × F.Valid s'.queues
        × (s'.data_register ≡ s.data_register ++ l)
        × (F.contents s'.queues tx ≡ [])
        × (F.contents s'.queues rx ≡ F.contents s.queues rx)
        × (s'.tx_interrupt ≡ false)
  unfolding transmit_handler
  transmit_handler_lem l zero s v e lt = absurd (omega (arith, lt))
  transmit_handler_lem [] (suc fuel) s v e lt =
      let (q, r, v', c) = F.receive_empty s.queues tx v e in
      (
        record s { queues = q; tx_interrupt = false },
        rw (transmit_handler, r) refl,
        v',
        sym (append-nil s.data_register),
        c tx ∙ e,
        c rx,
        refl,
      )
  transmit_handler_lem (x ∷ xs) (suc fuel) s v e lt =
      let (q, r, v', c) = F.receive_some s.queues tx x xs v e in
      let s1 : Serial Q = record s { queues = q; data_register = s.data_register ++ (x ∷ []) } in
      let (s', r', v'', sent, gone, kept, off) =
        transmit_handler_lem xs fuel s1 v' (c tx) (omega (arith, lt)) in
      (
        s',
        rw (transmit_handler, r) r',
        v'',
        sent ∙ append_assoc s.data_register (x ∷ []) xs,
        gone,
        kept ∙ c rx,
        off,
      )

  -- The characters go to the transmit queue.
  pub print_from-sends :
      (l : List ℕ) (fuel size i : ℕ) (string : ℕ → ℕ) (s : Serial Q)
      → F.Valid s.queues
      → AreCharacters l
      → IsText string i l
      → i + length l < size
      → length l < fuel
      → length (F.contents s.queues tx) + length l ≤ F.capacity
      → (s' : Serial Q) × (print_from Q fuel string size i s ≡ finished s')
        × F.Valid s'.queues
        × (F.contents s'.queues tx ≡ F.contents s.queues tx ++ l)
        × (F.contents s'.queues rx ≡ F.contents s.queues rx)
        × (s'.data_register ≡ s.data_register)
        × (s'.tx_interrupt ≡ true)
  unfolding print_from
  print_from-sends l zero size i string s v chars text inside lt room = absurd (omega (arith, lt))
  print_from-sends [] (suc fuel) size i string s v chars text inside lt room =
      let here : ltb i size ≡ true = ground (arith, inside) in
      let ends : (0 == string i) ≡ true = ground (arith, text) in
      (
        record s { tx_interrupt = true },
        rw (print_from, here, ends) refl,
        v,
        sym (append-nil (F.contents s.queues tx)),
        refl,
        refl,
        refl,
      )
  print_from-sends (x ∷ xs) (suc fuel) size i string s v chars text inside lt room =
      let (q, r, v', c) = F.send_room s.queues tx x v chars.1 (omega (arith, room)) in
      let here : ltb i size ≡ true = ground (arith, inside) in
      let goes_on : (0 == string i) ≡ false = ground (arith, text.0, chars.0) in
      let byte : string i % 256 ≡ x = omega (arith, text.0, chars.1) in
      let more : length (F.contents q tx) + length xs ≤ F.capacity =
        omega
          (arith, room, ap length (c tx), length-append {0} (F.contents s.queues tx) (x ∷ [])) in
      let (s', r', v'', sent, kept, same, on) =
        print_from-sends xs fuel size (i + 1) string (record s { queues = q }) v' chars.2 text.1
          (omega (arith, inside)) (omega (arith, lt)) more in
      (
        s',
        rw (print_from, here, goes_on, byte, r) r',
        v'',
        sent ∙ ap (λ t. t ++ xs) (c tx) ∙ append_assoc (F.contents s.queues tx) (x ∷ []) xs,
        kept ∙ c rx,
        same,
        on,
      )

  -- The receive queue goes to the buffer, as far as the buffer goes.
  pub flush_from-fills :
      (l : List ℕ) (fuel i : ℕ) (b : ℕ → ℕ) (s : Serial Q)
      → F.Valid s.queues
      → F.contents s.queues rx ≡ l
      → i + length l < response_buffer_size
      → length l < fuel
      → (s' : Serial Q) × (flush_from Q fuel i b s ≡ finished (filled b i l, s'))
        × F.Valid s'.queues
        × (F.contents s'.queues rx ≡ [])
        × (F.contents s'.queues tx ≡ F.contents s.queues tx)
        × (s'.data_register ≡ s.data_register)
  unfolding flush_from
  flush_from-fills l zero i b s v e inside lt = absurd (omega (arith, lt))
  flush_from-fills [] (suc fuel) i b s v e inside lt =
      let here : ltb i response_buffer_size ≡ true = ground (arith, inside) in
      let (q, r, v', c) = F.receive_empty s.queues rx v e in
      (record s { queues = q }, rw (flush_from, r, here) refl, v', c rx ∙ e, c tx, refl)
  flush_from-fills (x ∷ xs) (suc fuel) i b s v e inside lt =
      let (q, r, v', c) = F.receive_some s.queues rx x xs v e in
      let here : ltb i response_buffer_size ≡ true = ground (arith, inside) in
      let (s', r', v'', gone, kept, same) =
        flush_from-fills xs fuel (i + 1) (update b i x) (record s { queues = q }) v' (c rx)
          (omega (arith, inside)) (omega (arith, lt)) in
      (s', rw (flush_from, r, here) r', v'', gone, kept ∙ c tx, same)

  -- With fuel for more rounds than the receive queue has bytes, the inner loop of the worker task writes
  -- outside the response buffer whenever that queue holds 64 bytes or more, which is as many as the
  -- queues of the program hold when they are full.
  pub flush_from-overflows :
      (l : List ℕ) (fuel i : ℕ) (b : ℕ → ℕ) (s : Serial Q)
      → F.Valid s.queues
      → F.contents s.queues rx ≡ l
      → i ≤ response_buffer_size
      → response_buffer_size ≤ i + length l
      → length l < fuel
      → flush_from Q fuel i b s ≡ out_of_bounds
  unfolding flush_from
  flush_from-overflows l zero i b s v e inside long lt = absurd (omega (arith, lt))
  flush_from-overflows [] (suc fuel) i b s v e inside long lt =
      let here : ltb i response_buffer_size ≡ false = ground (arith, long) in
      let (q, r, _, _) = F.receive_empty s.queues rx v e in rw (flush_from, r, here) refl
  flush_from-overflows (x ∷ xs) (suc fuel) i b s v e inside long lt =
      let (q, r, v', c) = F.receive_some s.queues rx x xs v e in
      elim (Bool-cases (ltb i response_buffer_size)) [
        | inr out ↦ rw (flush_from, r, out) refl
        | inl here ↦
            rw (flush_from, r, here)
              (flush_from-overflows xs fuel (i + 1) (update b i x) (record s { queues = q }) v'
                (c rx) (ground (arith, here)) (omega (arith, long)) (omega (arith, lt)))
      ]
