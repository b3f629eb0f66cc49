-- ===== src/CircularList/Ring/Remove.antt =====
-- `remove` takes a node out of the ring.
use cortex_m3_rtos.Prelude.{
  ℕ, suc, ◌+◌, ◌-◌, ◌<◌, ◌≡◌, false, arith, ◌==◌, ltb, if◌then◌else◌, update, slice, slice-ext,
  slice-skip, remove_at, u32_mod, done, sub32, ap, sym, ◌∙◌,
}
use cortex_m3_rtos.MemoryBuffer.Slots.{in_use-le, in_use-free}
use cortex_m3_rtos.CircularList.{Node, CircularList, remove}
use cortex_m3_rtos.CircularList.Ring.{IsRing, nodes, after, contents}

-- The nodes but the one at position `p`.
abbrev pub without : ℕ → (ℕ → ℕ) → ℕ → ℕ
without p node k = if ltb k p then node k else node (k + 1)

-- The position before `p` in a ring of `n`.
abbrev pub before : ℕ → ℕ → ℕ
before n p = if p == 0 then n - 1 else p - 1

module _ (max_size : ℕ) (l : CircularList) (node : ℕ → ℕ) (p : ℕ) (small : max_size < u32_mod)
    (ring : IsRing max_size l node) (at_p : p < l.m_count) where
  abbrev i : ℕ
  i = node p

  abbrev pv : ℕ
  pv = node (before l.m_count p)

  abbrev nx : ℕ
  nx = node (after l.m_count p)

  abbrev freed : (ℕ → Node) → ℕ → ℕ → CircularList
  freed f first last = record {
    m_buffer = record { m_data = f; m_status = update l.m_buffer.m_status i false };
    m_first = first;
    m_last = last;
    m_count = sub32 l.m_count 1;
  }

  abbrev joined : ℕ → Node
  joined =
      let f = update (nodes l) pv (record (nodes l pv) { m_next = nx }) in
      update f nx (record (f nx) { m_prev = pv })

  abbrev removed : CircularList
  removed =
      if l.m_count == 1
      then freed (nodes l) l.m_first l.m_last
      else freed joined (if p == 0 then nx else l.m_first)
          (if p == 0 then l.m_last else if p == l.m_count - 1 then pv else l.m_last)

  m_next-p : (nodes l i).m_next ≡ nx
  m_next-p = ring.next p at_p

  m_prev-p : (nodes l i).m_prev ≡ pv
  m_prev-p = ground (arith, ring.prev (before l.m_count p))

  remove-eq : remove max_size l i ≡ done removed
  unfolding remove
  remove-eq = ground (
    arith,
    ring.first,
    ring.last,
    ring.used p,
    ring.inside p,
    ring.used (before l.m_count p),
    ring.inside (before l.m_count p),
    ring.used (after l.m_count p),
    ring.inside (after l.m_count p),
    ring.distinct p 0,
    ring.distinct p (l.m_count - 1),
    m_next-p,
    m_prev-p,
  )

  bound : l.m_count < u32_mod
  bound = omega (arith, in_use-le max_size l.m_buffer.m_status, ring.counted)

  m_count-removed : removed.m_count + 1 ≡ l.m_count
  m_count-removed = ground (arith, bound)

  next-removed :
      (k : ℕ)
      → k + 1 < l.m_count
      → (nodes removed (without p node k)).m_next ≡ without p node (after (l.m_count - 1) k)
  next-removed k h = ground (
    arith,
    ring.next k,
    ring.next (k + 1),
    ring.distinct k (before l.m_count p),
    ring.distinct (k + 1) (before l.m_count p),
    ring.distinct k (after l.m_count p),
    ring.distinct (k + 1) (after l.m_count p),
  )

  prev-removed :
      (k : ℕ)
      → k + 1 < l.m_count
      → (nodes removed (without p node (after (l.m_count - 1) k))).m_prev ≡ without p node k
  prev-removed k h = ground (
    arith,
    ring.prev k,
    ring.prev (k + 1),
    ring.distinct (k + 1) (after l.m_count p),
    ring.distinct (k + 2) (after l.m_count p),
    ring.distinct 0 (after l.m_count p),
    ring.distinct 1 (after l.m_count p),
    ring.distinct 0 (before l.m_count p),
    ring.distinct 1 (before l.m_count p),
    ring.distinct (k + 1) (before l.m_count p),
    ring.distinct (k + 2) (before l.m_count p),
  )

  remove-IsRing : IsRing max_size removed (without p node)
  remove-IsRing = record {
    counted = ground (
      arith,
      m_count-removed,
      ring.counted,
      in_use-free max_size l.m_buffer.m_status i (ring.inside p at_p) (ring.used p at_p),
    );
    inside = λ k h. ground (arith, m_count-removed, ring.inside k, ring.inside (k + 1));
    used = λ k h. ground (
      arith,
      m_count-removed,
      ring.used k,
      ring.used (k + 1),
      ring.distinct k p,
      ring.distinct (k + 1) p,
    );
    distinct = λ j k hj hk. ground (
      arith,
      m_count-removed,
      ring.distinct j k,
      ring.distinct (j + 1) k,
      ring.distinct j (k + 1),
      ring.distinct (j + 1) (k + 1),
    );
    first = λ h. ground (arith, m_count-removed, ring.first);
    last = λ h. ground (arith, m_count-removed, ring.last);
    next = λ k h. ground (arith, m_count-removed, next-removed k);
    prev = λ k h. ground (arith, m_count-removed, prev-removed k);
  }

  data-removed :
      (k : ℕ)
      → k + 1 < l.m_count
      → (nodes removed (without p node k)).m_data
        ≡ (if ltb k p then (nodes l (node k)).m_data else (nodes l (node (k + 1))).m_data)
  data-removed k h = ground arith

  contents-removed : contents removed (without p node) ≡ remove_at p (contents l node)
  contents-removed =
      let c : l.m_count ≡ suc removed.m_count = omega (arith, m_count-removed) in
      slice-ext _ _ 0 removed.m_count (λ k _ h. data-removed k (omega arith))
      ∙ slice-skip (λ k. (nodes l (node k)).m_data) 0 p removed.m_count p (omega arith)
          (omega arith)
      ∙ ap (λ n. remove_at p (slice (λ k. (nodes l (node k)).m_data) 0 n)) (sym c)

  -- In a ring `remove` of the node at position p never stops at an assertion. It returns a ring of the
  -- other nodes in their order, with one entry fewer: the contents lose the one at position p.
  pub remove_lem :
      (l' : CircularList) × (remove max_size l (node p) ≡ done l')
      × IsRing max_size l' (without p node)
      × (l'.m_count + 1 ≡ l.m_count)
      × ((k : ℕ)
          → k + 1 < l.m_count
          → (nodes l' (without p node k)).m_data
            ≡ (if ltb k p then (nodes l (node k)).m_data else (nodes l (node (k + 1))).m_data))
      × (contents l' (without p node) ≡ remove_at p (contents l node))
  remove_lem = (removed, remove-eq, remove-IsRing, m_count-removed, data-removed, contents-removed)
