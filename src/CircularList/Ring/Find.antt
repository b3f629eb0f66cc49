-- ===== src/CircularList/Ring/Find.antt =====
-- Walking the ring: `find`, `at` and `nextIndex`.
use cortex_m3_rtos.Prelude.{
  ℕ, zero, suc, ◌+◌, ◌<◌, ◌≤◌, ◌≡◌, refl, ◌≢◌, true, false, Option, none, some, arith, ◌==◌,
  Outcome, done, Bool-cases, inl, inr,
}
use cortex_m3_rtos.MemoryBuffer.Slots.{at-eq}
use cortex_m3_rtos.CircularList.{CircularList, find_from, find, data_at, next_index}
use cortex_m3_rtos.CircularList.Ring.{IsRing, nodes, after}

-- The outcomes of a search for the data `key` from position `s` on.
pub data Finds (l : CircularList) (node : ℕ → ℕ) (key s : ℕ) : Outcome (Option ℕ) → Type 0 where
  missing :
      ((k : ℕ) → s ≤ k → k < l.m_count → (nodes l (node k)).m_data ≢ key)
      → Finds l node key s (done none)
  hit :
      (k : ℕ)
      → s ≤ k
      → k < l.m_count
      → (nodes l (node k)).m_data ≡ key
      → ((j : ℕ) → s ≤ j → j < k → (nodes l (node j)).m_data ≢ key)
      → Finds l node key s (done (some (node k)))

Finds-skip :
    {l : CircularList} {node : ℕ → ℕ} {key s : ℕ} {r : Outcome (Option ℕ)}
    → (nodes l (node s)).m_data ≢ key
    → Finds l node key (s + 1) r
    → Finds l node key s r
Finds-skip {s} ne (missing all) = missing (λ k p q. ground (arith, all k))
Finds-skip {s} ne (hit k p q e all) = hit k (omega arith) q e (λ j p' q'. ground (arith, all j))

module _ (max_size : ℕ) (l : CircularList) (node : ℕ → ℕ) (ring : IsRing max_size l node) where
  -- A round of the loop at position `s`.
  find_from-suc :
      (n s key : ℕ)
      → s < l.m_count
      → find_from max_size (suc n) l (node s) key ≡ (elim (key == (nodes l (node s)).m_data) [
        | true ↦ done (some (node s))
        | false ↦ find_from max_size n l (node (after l.m_count s)) key
      ])
  unfolding find_from
  find_from-suc n s key h =
      rw (at-eq max_size l.m_buffer (node s) (ring.inside s h) (ring.used s h), ring.next s h)

  find_from-zero : (i key : ℕ) → find_from max_size zero l i key ≡ done none
  unfolding find_from
  find_from-zero i key = refl

  find_from-Finds :
      (n s i key : ℕ)
      → s + n ≡ l.m_count
      → (s < l.m_count → i ≡ node s)
      → Finds l node key s (find_from max_size n l i key)
  find_from-Finds zero s i key e h =
      rw (find_from-zero i key) (missing (λ k p q. absurd (omega arith)))
  find_from-Finds (suc n) s i key e h =
      let lt : s < l.m_count = omega arith in
      rw (h lt, find_from-suc n s key lt)
        (elim (Bool-cases (key == (nodes l (node s)).m_data)) [
          | inl same ↦
              rw same (hit s (omega arith) lt (ground arith) (λ j p q. absurd (omega arith)))
          | inr other ↦ rw other (
              Finds-skip (ground arith) (
                find_from-Finds n (s + 1) (node (after l.m_count s)) key (omega arith)
                  (λ more. ground arith)))
        ])

  -- In a ring `find` never stops at an assertion: it returns the first node, in the order of the ring,
  -- that holds the key, or false exactly when no node of the ring holds it.
  pub find_lem : (key : ℕ) → Finds l node key 0 (find max_size l key)
  unfolding find
  find_lem key = find_from-Finds l.m_count 0 l.m_first key (omega arith) ring.first

  -- From the node at a position of a ring `nextIndex` leads to the next one, and from the last one to the
  -- first; `at` gives the data of the node, which stands at that position of the contents.
  pub next_index_lem :
      (k : ℕ)
      → k < l.m_count
      → (next_index max_size l (node k) ≡ done (node (after l.m_count k)))
        × (data_at max_size l (node k) ≡ done (nodes l (node k)).m_data)
  unfolding next_index data_at
  next_index_lem k h = (
    rw (at-eq max_size l.m_buffer (node k) (ring.inside k h) (ring.used k h))
        (ground (arith, ring.next k)),
    rw (at-eq max_size l.m_buffer (node k) (ring.inside k h) (ring.used k h)) refl,
  )
