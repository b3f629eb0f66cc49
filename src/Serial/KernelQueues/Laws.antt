-- ===== src/Serial/KernelQueues/Laws.antt =====
-- The queues of the kernel are bounded, and first in, first out.
use cortex_m3_rtos.Prelude.{
  ℕ, ◌<◌, ◌≤◌, ◌≡◌, refl, true, false, none, some, List, [], ◌∷◌, ◌++◌, map, if◌then◌else◌, done,
  ap, ap₂, sym, ◌∙◌, inl, inr, Bool-cases, arith,
}
use cortex_m3_rtos.Memory.{Memory}
use cortex_m3_rtos.Memory.Laws.{bytes}
use cortex_m3_rtos.Queue.{Queue}
use cortex_m3_rtos.Queue.Fifo
use cortex_m3_rtos.Queue.Fifo.{Apart}
use cortex_m3_rtos.Queue.Fifo.Send.{grown, sent, send-full}
use cortex_m3_rtos.Queue.Fifo.Receive.{shrunk, received, receive-empty, WritesItem}
use cortex_m3_rtos.Kernel.{Kernel}
use cortex_m3_rtos.Serial.Lines.{Line, same_line, IsFifo, length}
use cortex_m3_rtos.Serial.Bytes.{first, byte_contents, map-append, contents-kept}
use cortex_m3_rtos.Serial.KernelQueues.{
  with_byte, send_byte, receive_byte, kernel_queues, queue_of, IsByteQueue, TwoQueues, changed,
  queue_of-changed, changed-TwoQueues, line_contents, line_length, with_byte-contents,
  with_byte-TwoQueues, send-eq, receive-eq, other-contents,
}

first-bytes : (m : Memory) (a n : ℕ) → n ≡ 1 → first (bytes m a n) ≡ m a
first-bytes m a n e = rw e (ap m (omega arith))

module _ (id : Line → ℕ) (a capacity : ℕ) where
  abbrev pub contents_of : Kernel → Line → List ℕ
  contents_of = line_contents id a capacity

  -- The contents of the queues behind a change of one of them.
  contents-changed :
      (k k0 : Kernel) (l m : Line) (q : Queue) (w : Memory) (after : List ℕ)
      → TwoQueues id a capacity k
      → (same_line l m ≡ true → byte_contents w q ≡ after)
      → (same_line l m ≡ false → byte_contents w (queue_of id a k m) ≡ contents_of k0 m)
      → contents_of (changed id a capacity k l q w) m
        ≡ (if same_line l m then after else contents_of k0 m)
  contents-changed k k0 l m q w after h new old =
      let e = queue_of-changed id a capacity k l m q w h.distinct in
      ap (byte_contents w) e ∙ elim (Bool-cases (same_line l m)) [
        | inl same ↦ rw same (new same)
        | inr other ↦ rw other (old other)
      ]

  module _ (k : Kernel) (l : Line) (h : TwoQueues id a capacity k) where
    abbrev q : Queue
    q = queue_of id a k l

    grown-IsByteQueue : Fifo.IsValid (grown q) → IsByteQueue id a capacity (grown q)
    grown-IsByteQueue ok = record {
      valid = ok;
      one_byte = (h.queues l).one_byte;
      size = (h.queues l).size;
      user_apart = record {
        inside = (h.queues l).user_apart.inside;
        apart = (h.queues l).user_apart.apart;
      };
    }

    shrunk-IsByteQueue : Fifo.IsValid (shrunk q) → IsByteQueue id a capacity (shrunk q)
    shrunk-IsByteQueue ok = record {
      valid = ok;
      one_byte = (h.queues l).one_byte;
      size = (h.queues l).size;
      user_apart = record {
        inside = (h.queues l).user_apart.inside;
        apart = (h.queues l).user_apart.apart;
      };
    }

    pub send_room_lem :
        (x : ℕ)
        → length (contents_of k l) < capacity
        → (k' : Kernel) × (send_byte id a k l x ≡ done (true, k'))
          × TwoQueues id a capacity k'
          × ((m : Line)
              → contents_of k' m
                ≡ (if same_line l m then contents_of k l ++ (x ∷ []) else contents_of k m))
    unfolding send_byte
    send_room_lem x room =
        let k1 = with_byte id a k x in
        let h1 = with_byte-TwoQueues id a capacity k x h in
        let b = h.queues l in
        let more : q.m_current_size < q.m_data_max_elements =
          omega (arith, room, line_length id a capacity k l, b.size) in
        let (w, e, ok, appended, kept) =
          sent k.m_objects.queues k1.memory (id l) a (h.inside l) (h.used l) b.valid h.pointer
            b.user_apart more in
        let byte : byte_contents w (grown q) ≡ contents_of k l ++ (x ∷ []) =
          ap (map first) appended
          ∙ map-append (Fifo.contents k1.memory q) (bytes k1.memory a q.m_data_type_size ∷ [])
          ∙ ap₂ ◌++◌ (with_byte-contents id a capacity k x l h) (
              ap (λ y. y ∷ [])
                (first-bytes k1.memory a q.m_data_type_size b.one_byte ∙ ground arith)) in
        (
          changed id a capacity k1 l (grown q) w,
          send-eq id a capacity k1 l true _ w h1 e,
          changed-TwoQueues id a capacity k1 l (grown q) w h1 (grown-IsByteQueue ok) refl,
          λ m.
              contents-changed k1 k l m (grown q) w (contents_of k l ++ (x ∷ [])) h1 (λ _. byte)
                (λ apart.
                  other-contents id a capacity k1 w l m h1 apart kept
                  ∙ with_byte-contents id a capacity k x m h),
        )

    pub send_full_lem :
        (x : ℕ)
        → length (contents_of k l) ≡ capacity
        → (k' : Kernel) × (send_byte id a k l x ≡ done (false, k'))
          × TwoQueues id a capacity k'
          × ((m : Line) → contents_of k' m ≡ contents_of k m)
    unfolding send_byte
    send_full_lem x no_room =
        let k1 = with_byte id a k x in
        let h1 = with_byte-TwoQueues id a capacity k x h in
        let b = h.queues l in
        let e =
          send-full k.m_objects.queues k1.memory (id l) a (h.inside l) (h.used l) b.valid h.pointer
            (omega (arith, no_room, line_length id a capacity k l, b.size)) in
        (
          k1,
          send-eq id a capacity k1 l false _ k1.memory h1 e,
          h1,
          λ m. with_byte-contents id a capacity k x m h,
        )

    pub receive_empty_lem :
        contents_of k l ≡ []
        → (k' : Kernel) × (receive_byte id a k l ≡ done (none, k'))
          × TwoQueues id a capacity k'
          × ((m : Line) → contents_of k' m ≡ contents_of k m)
    unfolding receive_byte
    receive_empty_lem nothing =
        let b = h.queues l in
        let e =
          receive-empty k.m_objects.queues k.memory (id l) a (h.inside l) (h.used l) b.valid
            h.pointer (omega (arith, ap length nothing, line_length id a capacity k l)) in
        (k, rw (receive_byte, receive-eq id a capacity k l false _ k.memory h e) refl, h, λ m. refl)

    -- Receiving writes the byte of the user only, which is apart from the buffers.
    received-contents :
        (w : Memory) (m : Line)
        → WritesItem k.m_objects.queues k.memory (id l) a w
        → byte_contents w (queue_of id a k m) ≡ contents_of k m
    received-contents w m kept =
        let b = h.queues m in
        ap (map first) (
          contents-kept k.memory w (queue_of id a k m) b.valid (λ j p r.
            kept j (ground (arith, b.user_apart.apart, (h.queues l).one_byte, b.one_byte, p, r))))

    pub receive_some_lem :
        (x : ℕ) (xs : List ℕ)
        → contents_of k l ≡ x ∷ xs
        → (k' : Kernel) × (receive_byte id a k l ≡ done (some x, k'))
          × TwoQueues id a capacity k'
          × ((m : Line) → contents_of k' m ≡ (if same_line l m then xs else contents_of k m))
    unfolding receive_byte
    receive_some_lem x xs some_byte =
        let b = h.queues l in
        let more : 0 < q.m_current_size =
          omega (arith, ap length some_byte, line_length id a capacity k l) in
        let (w, e, ok, oldest, kept) =
          received k.m_objects.queues k.memory (id l) a (h.inside l) (h.used l) b.valid h.pointer
            b.user_apart more in
        let split : x ∷ xs ≡ first (bytes w a q.m_data_type_size) ∷ byte_contents w (shrunk q) =
          sym some_byte ∙ ap (map first) oldest in
        let byte : w a ≡ x =
          sym (first-bytes w a q.m_data_type_size b.one_byte) ∙ sym (ap first split) in
        let rest : byte_contents w (shrunk q) ≡ xs = cc in
        (
          changed id a capacity k l (shrunk q) w,
          rw (receive_byte, receive-eq id a capacity k l true _ w h e, byte) refl,
          changed-TwoQueues id a capacity k l (shrunk q) w h (shrunk-IsByteQueue ok) refl,
          λ m.
              contents-changed k k l m (shrunk q) w xs h (λ _. rest)
                (λ _. received-contents w m kept),
        )

  pub bounded_lem :
      (k : Kernel) (l : Line) → TwoQueues id a capacity k → length (contents_of k l) ≤ capacity
  bounded_lem k l h =
      omega (arith, line_length id a capacity k l, (h.queues l).valid.size_in, (h.queues l).size)

  -- With a slot and a buffer for each of two queues of bytes, and a byte of the user apart from both buffers,
  -- static_queue::send and static_queue::receive are what the serial example needs.
  abbrev pub kernel_queues-IsFifo : IsFifo (kernel_queues id a)
  kernel_queues-IsFifo = record {
    Valid = TwoQueues id a capacity;
    contents = contents_of;
    capacity = capacity;
    bounded = bounded_lem;
    send_full = λ k l x h e. send_full_lem k l h x e;
    send_room = λ k l x h _ e. send_room_lem k l h x e;
    receive_empty = λ k l h e. receive_empty_lem k l h e;
    receive_some = λ k l x xs h e. receive_some_lem k l h x xs e;
  }
