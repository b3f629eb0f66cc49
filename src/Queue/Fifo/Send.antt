-- ===== src/Queue/Fifo/Send.antt =====
-- `send` appends an item.
use cortex_m3_rtos.Prelude.{
  ℕ, suc, ◌+◌, ◌*◌, ◌<◌, ◌≤◌, ◌≡◌, ◌≢◌, ◌⊎◌, inl, inr, true, false, [], ◌∷◌, ◌++◌, arith, ltb, ◌==◌,
  if◌then◌else◌, slice, slice-ext, slice-suc, update, done, ap, ap₂, sym, ◌∙◌,
}
use cortex_m3_rtos.Config.{max_queues}
use native.Mathlib.Decide.{ℕ_discrete}
use cortex_m3_rtos.Memory.{Memory, copy}
use cortex_m3_rtos.Memory.Laws.{bytes, copy_lem}
use cortex_m3_rtos.Queue.{Queue, Context, item_address, send}
use cortex_m3_rtos.Queue.Fifo.{
  place, IsValid, item, contents, Apart, item_range, place-lt, item_address-eq, max_elements-lt,
}

-- The context with another queue in slot `id`.
abbrev pub put : Context → ℕ → Queue → Context
put c id q = record { m_data = record c.m_data { m_data = update c.m_data.m_data id q } }

-- Where the next item goes.
abbrev pub next_head : Queue → ℕ
next_head q =
    if q.m_current_size == 0
    then q.m_head
    else if ltb (q.m_head + 1) q.m_data_max_elements
    then q.m_head + 1
    else 0

abbrev pub grown : Queue → Queue
grown q = record q { m_head = next_head q; m_current_size = q.m_current_size + 1 }

module _ (q : Queue) (v : IsValid q) (more : q.m_current_size < q.m_data_max_elements) where
  next_head-place : next_head q ≡ place q.m_data_max_elements q.m_tail q.m_current_size
  next_head-place = ground (arith, v.head_empty, v.head_last, v.tail_in)

  next_head-lt : next_head q < q.m_data_max_elements
  next_head-lt = ground (arith, v.head_in, v.tail_in)

  grown-IsValid : IsValid (grown q)
  grown-IsValid = record {
    some_items = v.some_items;
    some_bytes = v.some_bytes;
    fits = v.fits;
    size_in = omega arith;
    head_in = next_head-lt;
    tail_in = v.tail_in;
    head_empty = λ e. absurd (omega arith);
    head_last = λ _. next_head-place ∙ ap (place q.m_data_max_elements q.m_tail) (omega arith);
  }

  place-ne : (k : ℕ) → k < q.m_current_size → place q.m_data_max_elements q.m_tail k ≢ next_head q
  place-ne k h = rw next_head-place (ground (arith, v.tail_in))

  module _ (m m' : Memory) (a : ℕ)
      (written : bytes m' (item_address q (next_head q)) q.m_data_type_size
        ≡ bytes m a q.m_data_type_size)
      (kept : (b : ℕ)
        → ((b < item_address q (next_head q))
            ⊎ (item_address q (next_head q) + q.m_data_type_size ≤ b))
        → m' b ≡ m b) where
    item-kept : (i : ℕ) → i < q.m_data_max_elements → i ≢ next_head q → item m' q i ≡ item m q i
    item-kept i h ne = slice-ext _ _ 0 q.m_data_type_size (λ k _ lt. kept _ (
        rw (item_address-eq q (next_head q) v next_head-lt) (
          ground (
            arith,
            item_range q.m_data_type_size i (next_head q),
            item_range q.m_data_type_size (next_head q) i,
          ))))

    contents-grown : contents m' (grown q) ≡ contents m q ++ (bytes m a q.m_data_type_size ∷ [])
    contents-grown =
        ap (slice (λ k. item m' q (place q.m_data_max_elements q.m_tail k)) 0)
          (let e : q.m_current_size + 1 ≡ suc q.m_current_size = omega arith in e)
        ∙ slice-suc (λ k. item m' q (place q.m_data_max_elements q.m_tail k)) 0 q.m_current_size
        ∙ ap₂ ◌++◌
            (slice-ext _ _ 0 q.m_current_size
              (λ k _ lt. item-kept _ (place-lt v.tail_in (omega arith)) (place-ne k (omega arith))))
            (ap (λ x. x ∷ []) last_item)
      where
        last_item :
            item m' q (place q.m_data_max_elements q.m_tail (0 + q.m_current_size))
            ≡ bytes m a q.m_data_type_size
        last_item =
            ap (item m' q)
              (ap (place q.m_data_max_elements q.m_tail) (omega arith) ∙ sym next_head-place)
            ∙ ap (λ b. bytes m' b q.m_data_type_size)
                (sym (item_address-eq q (next_head q) v next_head-lt))
            ∙ written

-- Nothing but the bytes of the buffer of the queue is written.
abbrev pub KeepsOutside : Queue → Memory → Memory → Type 0
KeepsOutside q m m' =
    (b : ℕ)
    → ((b < q.mp_data) ⊎ (q.mp_data + q.m_data_type_size * q.m_data_max_elements ≤ b))
    → m' b ≡ m b

module _ (c : Context) (m : Memory) (id a : ℕ) where
  abbrev queue : Queue
  queue = c.m_data.m_data id

  module _ (inside : id < max_queues) (used : c.m_data.m_status id ≡ true) (v : IsValid queue)
      (pointer : a ≢ 0) where
    pub send-full :
        queue.m_current_size ≡ queue.m_data_max_elements → send c m id a ≡ done (false, c, m)
    unfolding send
    send-full h = ground arith

    send-eq :
        (m' : Memory)
        → queue.m_current_size < queue.m_data_max_elements
        → copy m (item_address queue (next_head queue)) a queue.m_data_type_size ≡ done m'
        → send c m id a ≡ done (true, put c id (grown queue), m')
    unfolding send
    send-eq m' more e = ground (arith, v.head_in, v.size_in, v.some_bytes, max_elements-lt queue v)

    -- A queue with room takes the item at its end.
    pub sent :
        Apart queue a
        → queue.m_current_size < queue.m_data_max_elements
        → (m' : Memory) × (send c m id a ≡ done (true, put c id (grown queue), m'))
          × IsValid (grown queue)
          × (contents m' (grown queue)
              ≡ contents m queue ++ (bytes m a queue.m_data_type_size ∷ []))
          × KeepsOutside queue m m'
    sent apart more =
        let lt = next_head-lt queue v more in
        let address = item_address-eq queue (next_head queue) v lt in
        let range =
          item_range queue.m_data_type_size (next_head queue) queue.m_data_max_elements lt in
        let (m', e, written, kept) =
          copy_lem m (item_address queue (next_head queue)) a queue.m_data_type_size v.some_bytes
            (omega (arith, address, range, v.fits)) apart.inside
            (ground (arith, address, range, apart.apart)) in
        (
          m',
          send-eq m' more e,
          grown-IsValid queue v more,
          contents-grown queue v more m m' a written kept,
          λ b out. kept b (ground (arith, address, range, out)),
        )

    -- `send` of the item at an address that is not null, in a valid queue with a buffer apart from the item,
    -- never stops at an assertion. It returns false exactly when the queue is full, and then changes
    -- nothing; else it appends the item to the queue, keeps the queue valid, and writes no byte outside
    -- the buffer.
    pub send_lem :
        Apart queue a
        → ((queue.m_current_size ≡ queue.m_data_max_elements)
            × (send c m id a ≡ done (false, c, m)))
          ⊎ ((queue.m_current_size < queue.m_data_max_elements)
              × ((q' : Queue) × (m' : Memory) × (send c m id a ≡ done (true, put c id q', m'))
                  × IsValid q'
                  × (contents m' q' ≡ contents m queue ++ (bytes m a queue.m_data_type_size ∷ []))
                  × KeepsOutside queue m m'))
    send_lem apart = elim (ℕ_discrete queue.m_current_size queue.m_data_max_elements) [
      | yes full ↦ inl (full, send-full full)
      | no not_full ↦
          let more : queue.m_current_size < queue.m_data_max_elements = omega (arith, v.size_in) in
          let (m', e, valid, grown_by, kept) = sent apart more in
          inr (more, (grown queue, m', e, valid, grown_by, kept))
    ]
