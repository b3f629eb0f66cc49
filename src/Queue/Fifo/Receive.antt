-- ===== src/Queue/Fifo/Receive.antt =====
-- `receive` takes the oldest item out.
use cortex_m3_rtos.Prelude.{
  ℕ, suc, ◌+◌, ◌-◌, ◌<◌, ◌≤◌, ◌≡◌, ◌≢◌, ◌⊎◌, inl, inr, true, false, ◌∷◌, arith, ltb, if◌then◌else◌,
  slice, slice-ext, slice-shift, done, ap, ap₂, sym, ◌∙◌,
}
use cortex_m3_rtos.Config.{max_queues}
use native.Mathlib.Decide.{ℕ_discrete}
use cortex_m3_rtos.Memory.{Memory, copy}
use cortex_m3_rtos.Memory.Laws.{bytes, copy_lem}
use cortex_m3_rtos.Queue.{Queue, Context, item_address, receive}
use cortex_m3_rtos.Queue.Fifo.{
  place, IsValid, item, contents, Apart, item_range, place-lt, item_address-eq, max_elements-lt,
}
use cortex_m3_rtos.Queue.Fifo.Send.{put}

abbrev pub next_tail : Queue → ℕ
next_tail q =
    if ltb 1 q.m_current_size
    then (if ltb (q.m_tail + 1) q.m_data_max_elements then q.m_tail + 1 else 0)
    else q.m_tail

abbrev pub shrunk : Queue → Queue
shrunk q = record q { m_tail = next_tail q; m_current_size = q.m_current_size - 1 }

module _ (q : Queue) (v : IsValid q) (more : 0 < q.m_current_size) where
  shrunk-IsValid : IsValid (shrunk q)
  shrunk-IsValid = record {
    some_items = v.some_items;
    some_bytes = v.some_bytes;
    fits = v.fits;
    size_in = omega (arith, v.size_in);
    head_in = v.head_in;
    tail_in = ground (arith, v.tail_in, v.some_items);
    head_empty = λ e. ground (arith, v.head_last more, v.tail_in);
    head_last = λ h. ground (arith, v.head_last more, v.tail_in, v.size_in);
  }

  module _ (m m' : Memory) (a : ℕ)
      (read : bytes m' a q.m_data_type_size ≡ bytes m (item_address q q.m_tail) q.m_data_type_size)
      (kept : (i : ℕ) → i < q.m_data_max_elements → item m' q i ≡ item m q i) where
    contents-shrunk : contents m q ≡ bytes m' a q.m_data_type_size ∷ contents m' (shrunk q)
    contents-shrunk =
        ap (slice (λ k. item m q (place q.m_data_max_elements q.m_tail k)) 0)
          (let e : q.m_current_size ≡ suc (q.m_current_size - 1) = omega arith in e)
        ∙ ap₂ ◌∷◌ oldest (
            sym (slice-shift (λ k. item m q (place q.m_data_max_elements q.m_tail k)) 0 _)
            ∙ slice-ext _ _ 0 (q.m_current_size - 1) (λ k _ lt. rest k (omega arith)))
      where
        oldest : item m q (place q.m_data_max_elements q.m_tail 0) ≡ bytes m' a q.m_data_type_size
        oldest =
            ap (item m q) (ground (arith, v.tail_in))
            ∙ ap (λ b. bytes m b q.m_data_type_size) (sym (item_address-eq q q.m_tail v v.tail_in))
            ∙ sym read

        rest :
            (k : ℕ)
            → k + 1 < q.m_current_size
            → item m q (place q.m_data_max_elements q.m_tail (k + 1))
              ≡ item m' q (place q.m_data_max_elements (next_tail q) k)
        rest k h =
            sym (kept _ (place-lt v.tail_in (omega (arith, v.size_in))))
            ∙ ap (item m' q) (ground (arith, v.tail_in, v.size_in))

module _ (c : Context) (m : Memory) (id a : ℕ) where
  abbrev queue : Queue
  queue = c.m_data.m_data id

  -- Nothing but the bytes that the item is received into is written.
  abbrev pub WritesItem : Memory → Type 0
  WritesItem m' = (b : ℕ) → ((b < a) ⊎ (a + queue.m_data_type_size ≤ b)) → m' b ≡ m b

  module _ (inside : id < max_queues) (used : c.m_data.m_status id ≡ true) (v : IsValid queue)
      (pointer : a ≢ 0) where
    pub receive-empty : queue.m_current_size ≡ 0 → receive c m id a ≡ done (false, c, m)
    unfolding receive
    receive-empty h = ground arith

    receive-eq :
        (m' : Memory)
        → 0 < queue.m_current_size
        → copy m a (item_address queue queue.m_tail) queue.m_data_type_size ≡ done m'
        → receive c m id a ≡ done (true, put c id (shrunk queue), m')
    unfolding receive
    receive-eq m' more e =
        ground (arith, v.tail_in, v.size_in, v.some_bytes, max_elements-lt queue v)

    -- A queue that is not empty gives its oldest item.
    pub received :
        Apart queue a
        → 0 < queue.m_current_size
        → (m' : Memory) × (receive c m id a ≡ done (true, put c id (shrunk queue), m'))
          × IsValid (shrunk queue)
          × (contents m queue ≡ bytes m' a queue.m_data_type_size ∷ contents m' (shrunk queue))
          × WritesItem m'
    received apart more =
        let address = item_address-eq queue queue.m_tail v v.tail_in in
        let range =
          item_range queue.m_data_type_size queue.m_tail queue.m_data_max_elements v.tail_in in
        let (m', e, read, kept) =
          copy_lem m a (item_address queue queue.m_tail) queue.m_data_type_size v.some_bytes
            apart.inside (omega (arith, address, range, v.fits))
            (ground (arith, address, range, apart.apart)) in
        (
          m',
          receive-eq m' more e,
          shrunk-IsValid queue v more,
          contents-shrunk queue v more m m' a read (λ i h.
              slice-ext _ _ 0 queue.m_data_type_size (λ k _ lt. kept _ (
                ground (
                  arith,
                  item_range queue.m_data_type_size i queue.m_data_max_elements h,
                  apart.apart,
                )))),
          kept,
        )

    -- `receive` into an address that is not null, from a valid queue with a buffer apart from the
    -- destination, never stops at an assertion. It returns false exactly when the queue is empty, and then
    -- changes nothing; else the destination holds the oldest item, which is gone from the queue, the
    -- queue is valid, and no byte but those of the destination is written.
    pub receive_lem :
        Apart queue a
        → ((queue.m_current_size ≡ 0) × (receive c m id a ≡ done (false, c, m)))
          ⊎ ((0 < queue.m_current_size)
              × ((q' : Queue) × (m' : Memory) × (receive c m id a ≡ done (true, put c id q', m'))
                  × IsValid q'
                  × (contents m queue ≡ bytes m' a queue.m_data_type_size ∷ contents m' q')
                  × WritesItem m'))
    receive_lem apart = elim (ℕ_discrete queue.m_current_size 0) [
      | yes empty ↦ inl (empty, receive-empty empty)
      | no some_item ↦
          let more : 0 < queue.m_current_size = omega arith in
          let (m', e, valid, oldest, kept) = received apart more in
          inr (more, (shrunk queue, m', e, valid, oldest, kept))
    ]
