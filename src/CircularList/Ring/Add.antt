-- ===== src/CircularList/Ring/Add.antt =====
-- `add` puts a node at the end of the ring.
use cortex_m3_rtos.Prelude.{
  ℕ, suc, ◌+◌, ◌-◌, ◌<◌, ◌≡◌, refl, ◌≢◌, true, false, [], ◌∷◌, ◌++◌, Option, none, some, arith,
  ◌==◌, if◌then◌else◌, update, slice, slice-ext, slice-suc, u32_mod, Outcome, done, add32, ap, ap₂,
  ◌∙◌,
}
use cortex_m3_rtos.MemoryBuffer.{MemoryBuffer, allocate}
use cortex_m3_rtos.MemoryBuffer.Laws.{FirstFree, full, found, allocate-FirstFree}
use cortex_m3_rtos.MemoryBuffer.Slots.{in_use, in_use-le, in_use-full, in_use-allocate}
use cortex_m3_rtos.CircularList.{Node, CircularList, add}
use cortex_m3_rtos.CircularList.Ring.{IsRing, nodes, after, contents}

-- The list after `add` has taken node `i`.
module _ (l : CircularList) (i d : ℕ) where
  abbrev joined : (ℕ → Node) → ℕ → CircularList
  joined f first = record {
    m_buffer = record {
      m_data = update f i (record (f i) { m_data = d });
      m_status = update l.m_buffer.m_status i true;
    };
    m_first = first;
    m_last = i;
    m_count = add32 l.m_count 1;
  }

  abbrev alone : ℕ → Node
  alone = update (nodes l) i (record (nodes l i) { m_next = i; m_prev = i })

  abbrev both : ℕ → Node
  both =
      let f = update (nodes l) l.m_first (record (nodes l l.m_first) { m_next = i; m_prev = i }) in
      update f i (record (f i) { m_next = l.m_first; m_prev = l.m_first })

  abbrev many : ℕ → Node
  many =
      let f = update (nodes l) l.m_last (record (nodes l l.m_last) { m_next = i }) in
      let g = update f l.m_first (record (f l.m_first) { m_prev = i }) in
      update g i (record (g i) { m_next = l.m_first; m_prev = l.m_last })

  abbrev pub added : CircularList
  added =
      if l.m_count == 0
      then joined alone i
      else if l.m_count == 1
      then joined both l.m_first
      else joined many l.m_first

  module _ (max_size : ℕ) (node : ℕ → ℕ) (ring : IsRing max_size l node) where
    module _ (inside : i < max_size) (free : l.m_buffer.m_status i ≡ false) where
      fresh : (k : ℕ) → k < l.m_count → node k ≢ i
      fresh k h e = ground (arith, ring.used k h)

      add-eq :
          allocate max_size l.m_buffer
            ≡ some (i, record l.m_buffer { m_status = update l.m_buffer.m_status i true })
          → add max_size l d ≡ done (some i, added)
      unfolding add
      add-eq e =
          rw (e, add)
            (ground (
              arith,
              ring.first,
              ring.last,
              ring.used 0,
              ring.inside 0,
              ring.used (l.m_count - 1),
              ring.inside (l.m_count - 1),
              fresh 0,
              fresh (l.m_count - 1),
            ))

      module _ (small : max_size < u32_mod) where
        room : in_use max_size l.m_buffer.m_status < max_size
        room = omega (
          arith,
          in_use-allocate max_size l.m_buffer.m_status i inside free,
          in_use-le max_size (update l.m_buffer.m_status i true),
        )

        m_count-added : added.m_count ≡ l.m_count + 1
        m_count-added = ground (arith, room, ring.counted)

        placed : ℕ → ℕ
        placed = update node l.m_count i

        next-added :
            (k : ℕ)
            → k < l.m_count + 1
            → (nodes added (placed k)).m_next ≡ placed (after (l.m_count + 1) k)
        unfolding placed
        next-added k h = ground (
          arith,
          ring.first,
          ring.last,
          fresh k,
          fresh 0,
          fresh (l.m_count - 1),
          ring.next k,
          ring.distinct k (l.m_count - 1),
          ring.distinct k 0,
        )

        prev-added :
            (k : ℕ)
            → k < l.m_count + 1
            → (nodes added (placed (after (l.m_count + 1) k))).m_prev ≡ placed k
        unfolding placed
        prev-added k h = ground (
          arith,
          ring.first,
          ring.last,
          fresh k,
          fresh 0,
          fresh (k + 1),
          fresh (l.m_count - 1),
          ring.prev k,
          ring.distinct (k + 1) (l.m_count - 1),
          ring.distinct (k + 1) 0,
        )

        add-IsRing : IsRing max_size added placed
        unfolding placed
        add-IsRing = record {
          counted = ground (
            arith,
            m_count-added,
            ring.counted,
            in_use-allocate max_size l.m_buffer.m_status i inside free,
          );
          inside = λ k h. ground (arith, m_count-added, ring.inside k);
          used = λ k h. ground (arith, m_count-added, ring.used k);
          distinct =
              λ j k hj hk. ground (arith, m_count-added, ring.distinct j k, fresh j, fresh k);
          first = λ h. ground (arith, m_count-added, ring.first);
          last = λ h. ground (arith, m_count-added);
          next = λ k h. ground (arith, m_count-added, next-added k);
          prev = λ k h. ground (arith, m_count-added, prev-added k);
        }

        -- The old entries are as before, and the new one is behind them.
        data-added :
            (k : ℕ)
            → k < l.m_count + 1
            → (nodes added (placed k)).m_data
              ≡ (if k == l.m_count then d else (nodes l (node k)).m_data)
        unfolding placed
        data-added k h =
            ground (arith, ring.first, ring.last, fresh k, fresh 0, fresh (l.m_count - 1))

        contents-added : contents added placed ≡ contents l node ++ (d ∷ [])
        unfolding placed
        contents-added =
            ap (slice (λ k. (nodes added (placed k)).m_data) 0)
              (let e : added.m_count ≡ suc l.m_count = omega (arith, m_count-added) in e)
            ∙ slice-suc (λ k. (nodes added (placed k)).m_data) 0 l.m_count
            ∙ ap₂ ◌++◌ (slice-ext _ _ 0 l.m_count (λ k p q. ground (arith, data-added k)))
                (ap (λ x. x ∷ []) (ground (arith, data-added l.m_count)))

-- What `add` comes to: the ring is full and stays as it is, or a node is added at its end.
pub data Adds (max_size : ℕ) (l : CircularList) (node : ℕ → ℕ) (d : ℕ)
    : Outcome (Option ℕ × CircularList) → Type 0 where
  refused : l.m_count ≡ max_size → Adds max_size l node d (done (none, l))
  accepted :
      (i : ℕ) (l' : CircularList)
      → l.m_count < max_size
      → IsRing max_size l' (update node l.m_count i)
      → l'.m_count ≡ l.m_count + 1
      → ((k : ℕ)
          → k < l.m_count + 1
          → (nodes l' (update node l.m_count i k)).m_data
            ≡ (if k == l.m_count then d else (nodes l (node k)).m_data))
      → contents l' (update node l.m_count i) ≡ contents l node ++ (d ∷ [])
      → Adds max_size l node d (done (some i, l'))

module _ (max_size : ℕ) (l : CircularList) (node : ℕ → ℕ) (d : ℕ) (small : max_size < u32_mod)
    (ring : IsRing max_size l node) where
  add_allocated :
      {r : Option (ℕ × MemoryBuffer Node)}
      → allocate max_size l.m_buffer ≡ r
      → FirstFree 0 max_size l.m_buffer r
      → Adds max_size l node d (add max_size l d)
  unfolding placed add
  add_allocated e (full all) =
      rw (e, add) (refused (ring.counted ∙ in_use-full max_size _ (λ j p. all j (omega arith) p)))
  add_allocated e (found i _ inside free _) = rw (add-eq l i d max_size node ring inside free e) (
      accepted i (added l i d)
        (omega (arith, ring.counted, room l i d max_size node ring inside free small))
        (add-IsRing l i d max_size node ring inside free small)
        (m_count-added l i d max_size node ring inside free small)
        (data-added l i d max_size node ring inside free small)
        (contents-added l i d max_size node ring inside free small))

  -- In a ring of at most max_size nodes, max_size below 2 ^ 32, `add` never stops at an assertion. It
  -- returns false exactly when all max_size nodes are taken, and then changes nothing; else it returns a
  -- ring with the new node behind the old ones, which keep their places, and with the new data at the
  -- end of its contents.
  pub add_lem : Adds max_size l node d (add max_size l d)
  add_lem = add_allocated refl (allocate-FirstFree max_size l.m_buffer)
