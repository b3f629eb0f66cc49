-- ===== src/Serial/KernelQueues.antt =====
-- The static queues of the kernel are what the serial example needs: two queues of bytes with buffers apart,
-- and a byte of the user that is sent and received into.
pub mod Laws
pub mod Program
mod Examples
use cortex_m3_rtos.Prelude.{
  ℕ, zero, suc, ◌+◌, ◌-◌, ◌*◌, ◌<◌, ◌≤◌, ◌≡◌, ◌≢◌, ◌⊎◌, inl, inr, refl, Bool, true, false, Option,
  none, some, List, [], ◌∷◌, ◌++◌, map, slice, slice-ext, update, ◌==◌, if◌then◌else◌, Outcome,
  done, ◌>>=◌, ap, sym, ◌∙◌, arith, Bool-cases, u32_mod,
}
use cortex_m3_rtos.Config.{max_queues}
use cortex_m3_rtos.Memory.{Memory}
use cortex_m3_rtos.Memory.Laws.{bytes}
use cortex_m3_rtos.Queue
use cortex_m3_rtos.Queue.{Queue}
use cortex_m3_rtos.Queue.Fifo
use cortex_m3_rtos.Queue.Fifo.{IsValid, Apart, item, place, place-lt, item_range}
use cortex_m3_rtos.Queue.Fifo.Send
use cortex_m3_rtos.Queue.Fifo.Send.{put, grown, KeepsOutside, sent, send-full}
use cortex_m3_rtos.Queue.Fifo.Receive
use cortex_m3_rtos.Queue.Fifo.Receive.{shrunk, received, receive-empty}
use cortex_m3_rtos.Handle
use cortex_m3_rtos.Handle.{ObjectType}
use cortex_m3_rtos.Handle.Laws.{create_lem}
use cortex_m3_rtos.Kernel.{Kernel}
use cortex_m3_rtos.Kernel.QueueApi
use cortex_m3_rtos.Serial.Lines.{Line, rx, tx, same_line, Queues, IsFifo, length}
use cortex_m3_rtos.Serial.Bytes.{first, byte_contents, contents-kept, length-slice}

-- The program's queues, by the slot of each, and the address of the byte of the user.
module _ (id : Line → ℕ) (a : ℕ) where
  abbrev pub handle : Line → ℕ
  handle l = Handle.create ObjectType.queue (id l)

  abbrev pub with_byte : Kernel → ℕ → Kernel
  with_byte k x = record k { memory = update k.memory a x }

  unfoldable pub send_byte : Kernel → Line → ℕ → Outcome (Bool × Kernel)
  send_byte k l x = QueueApi.send (with_byte k x) (handle l) a

  unfoldable pub receive_byte : Kernel → Line → Outcome (Option ℕ × Kernel)
  receive_byte k l = do
    (received, k') ← QueueApi.receive k (handle l) a
    done (if received then some (k'.memory a) else none, k')

  abbrev pub kernel_queues : Queues
  kernel_queues = record { State = Kernel; send = send_byte; receive = receive_byte }

  abbrev pub queue_of : Kernel → Line → Queue
  queue_of k l = k.m_objects.queues.m_data.m_data (id l)

  module _ (capacity : ℕ) where
    -- A queue of that many bytes, with its buffer apart from the byte of the user.
    pub record IsByteQueue (q : Queue) : Type 0 where
      pub valid : IsValid q
      pub one_byte : q.m_data_type_size ≡ 1
      pub size : q.m_data_max_elements ≡ capacity
      pub user_apart : Apart q a

    pub record TwoQueues (k : Kernel) : Type 0 where
      pub pointer : a ≢ 0
      pub inside : (l : Line) → id l < max_queues
      pub used : (l : Line) → k.m_objects.queues.m_data.m_status (id l) ≡ true
      pub queues : (l : Line) → IsByteQueue (queue_of k l)
      pub distinct : id rx ≢ id tx
      pub buffers_apart :
          ((queue_of k rx).mp_data + capacity ≤ (queue_of k tx).mp_data)
          ⊎ ((queue_of k tx).mp_data + capacity ≤ (queue_of k rx).mp_data)

    -- The kernel behind a change of a queue.
    abbrev pub changed : Kernel → Line → Queue → Memory → Kernel
    changed k l q m = record (QueueApi.put_queues k (put k.m_objects.queues (id l) q)) {
      memory = m;
    }

    pub queue_of-changed :
        (k : Kernel) (l m : Line) (q : Queue) (w : Memory)
        → id rx ≢ id tx
        → queue_of (changed k l q w) m ≡ (if same_line l m then q else queue_of k m)
    queue_of-changed k rx rx q w ne = ground arith
    queue_of-changed k tx tx q w ne = ground arith
    queue_of-changed k rx tx q w ne = ground (arith, ne)
    queue_of-changed k tx rx q w ne = ground (arith, ne)

    same_line-eq : (l m : Line) → same_line l m ≡ true → l ≡ m
    same_line-eq rx rx e = refl
    same_line-eq tx tx e = refl
    same_line-eq rx tx e = cc
    same_line-eq tx rx e = cc

    -- A property of the new queue, and of the others.
    for_changed :
        (P : Queue → Type 0) (k : Kernel) (l m : Line) (q : Queue) (w : Memory)
        → id rx ≢ id tx
        → (same_line l m ≡ true → P q)
        → P (queue_of k m)
        → P (queue_of (changed k l q w) m)
    for_changed P k l m q w ne new old =
        rw (queue_of-changed k l m q w ne) (elim (Bool-cases (same_line l m)) [
          | inl same ↦ rw same (new same)
          | inr other ↦ rw other old
        ])

    mp_data-changed :
        (k : Kernel) (l m : Line) (q : Queue) (w : Memory)
        → id rx ≢ id tx
        → q.mp_data ≡ (queue_of k l).mp_data
        → (queue_of (changed k l q w) m).mp_data ≡ (queue_of k m).mp_data
    mp_data-changed k l m q w ne same =
        for_changed (λ x. x.mp_data ≡ (queue_of k m).mp_data) k l m q w ne
          (λ e. same ∙ ap (λ n. (queue_of k n).mp_data) (same_line-eq l m e)) refl

    -- A change that leaves the queue in its buffer.
    pub changed-TwoQueues :
        (k : Kernel) (l : Line) (q : Queue) (w : Memory)
        → TwoQueues k
        → IsByteQueue q
        → q.mp_data ≡ (queue_of k l).mp_data
        → TwoQueues (changed k l q w)
    changed-TwoQueues k l q w h ok same = record {
      pointer = h.pointer;
      inside = h.inside;
      used = h.used;
      queues = λ m. for_changed IsByteQueue k l m q w h.distinct (λ _. ok) (h.queues m);
      distinct = h.distinct;
      buffers_apart = ground (
        arith,
        h.buffers_apart,
        mp_data-changed k l rx q w h.distinct same,
        mp_data-changed k l tx q w h.distinct same,
      );
    }

    -- The bytes in a queue.
    abbrev pub line_contents : Kernel → Line → List ℕ
    line_contents k l = byte_contents k.memory (queue_of k l)

    pub line_length :
        (k : Kernel) (l : Line) → length (line_contents k l) ≡ (queue_of k l).m_current_size
    line_length k l = length-slice _ 0 (queue_of k l).m_current_size

    -- Writing the byte of the user changes no queue.
    pub with_byte-contents :
        (k : Kernel) (x : ℕ) (l : Line)
        → TwoQueues k
        → line_contents (with_byte k x) l ≡ line_contents k l
    with_byte-contents k x l h =
        let q = h.queues l in
        ap (map first) (
          contents-kept k.memory (update k.memory a x) (queue_of k l) q.valid
            (λ b p r. ground (arith, q.user_apart.apart, q.one_byte, p, r)))

    pub with_byte-TwoQueues : (k : Kernel) (x : ℕ) → TwoQueues k → TwoQueues (with_byte k x)
    with_byte-TwoQueues k x h = record {
      pointer = h.pointer;
      inside = h.inside;
      used = h.used;
      queues = h.queues;
      distinct = h.distinct;
      buffers_apart = h.buffers_apart;
    }

    -- The handle names the queue.
    handle-names :
        (k : Kernel) (l : Line)
        → TwoQueues k
        → (Handle.get_object_type (handle l) ≡ ObjectType.queue) × (Handle.get_id (handle l) ≡ id l)
    handle-names k l h =
        let (_, type, index) =
          create_lem ObjectType.queue (id l) (omega arith) (omega (arith, h.inside l)) in
        (type, index)

    pub send-eq :
        (k : Kernel) (l : Line) (b : Bool) (queues : Queue.Context) (w : Memory)
        → TwoQueues k
        → Queue.send k.m_objects.queues k.memory (id l) a ≡ done (b, queues, w)
        → QueueApi.send k (handle l) a
          ≡ done (b, record (QueueApi.put_queues k queues) { memory = w })
    unfolding QueueApi.send
    send-eq k l b queues w h e =
        let names = handle-names k l h in
        let not_null : (a == 0) ≡ false = ground (arith, h.pointer) in
        rw (QueueApi.send, names.0, names.1, not_null, e) refl

    pub receive-eq :
        (k : Kernel) (l : Line) (b : Bool) (queues : Queue.Context) (w : Memory)
        → TwoQueues k
        → Queue.receive k.m_objects.queues k.memory (id l) a ≡ done (b, queues, w)
        → QueueApi.receive k (handle l) a
          ≡ done (b, record (QueueApi.put_queues k queues) { memory = w })
    unfolding QueueApi.receive
    receive-eq k l b queues w h e =
        let names = handle-names k l h in
        let not_null : (a == 0) ≡ false = ground (arith, h.pointer) in
        rw (QueueApi.receive, names.0, names.1, not_null, e) refl

    -- The other queue, when the buffer of one is written.
    pub other-contents :
        (k : Kernel) (w : Memory) (l m : Line)
        → TwoQueues k
        → same_line l m ≡ false
        → KeepsOutside (queue_of k l) k.memory w
        → byte_contents w (queue_of k m) ≡ line_contents k m
    other-contents k w rx rx h e kept = cc
    other-contents k w tx tx h e kept = cc
    other-contents k w rx tx h e kept =
        let one = h.queues rx in
        let two = h.queues tx in
        ap (map first) (
          contents-kept k.memory w (queue_of k tx) two.valid (λ b p r. kept b (
            ground (arith, h.buffers_apart, one.one_byte, two.one_byte, one.size, two.size, p, r))))
    other-contents k w tx rx h e kept =
        let one = h.queues tx in
        let two = h.queues rx in
        ap (map first) (
          contents-kept k.memory w (queue_of k rx) two.valid (λ b p r. kept b (
            ground (arith, h.buffers_apart, one.one_byte, two.one_byte, one.size, two.size, p, r))))
