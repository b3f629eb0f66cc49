-- ===== src/CircularList/Ring.antt =====
-- The ring of a CircularList: `node k` is its k-th node, from the first on.
pub mod Add
pub mod Remove
pub mod Find
use cortex_m3_rtos.Prelude.{
  ℕ, zero, suc, ◌+◌, ◌-◌, ◌<◌, ◌≤◌, ◌≡◌, refl, Bool, true, false, List, arith, ◌==◌, if◌then◌else◌,
  update, slice, u32_mod,
}
use cortex_m3_rtos.MemoryBuffer.{MemoryBuffer}
use cortex_m3_rtos.MemoryBuffer.Slots.{in_use, in_use-none}
use cortex_m3_rtos.CircularList.{Node, CircularList, empty}

-- The position after `k` in a ring of `n`.
abbrev pub after : ℕ → ℕ → ℕ
after n k = if k + 1 == n then 0 else k + 1

abbrev pub nodes : CircularList → ℕ → Node
nodes l = l.m_buffer.m_data

pub record IsRing (max_size : ℕ) (l : CircularList) (node : ℕ → ℕ) : Type 0 where
  pub counted : l.m_count ≡ in_use max_size l.m_buffer.m_status
  pub inside : (k : ℕ) → k < l.m_count → node k < max_size
  pub used : (k : ℕ) → k < l.m_count → l.m_buffer.m_status (node k) ≡ true
  pub distinct : (j k : ℕ) → j < l.m_count → k < l.m_count → node j ≡ node k → j ≡ k
  pub first : 0 < l.m_count → l.m_first ≡ node 0
  pub last : 0 < l.m_count → l.m_last ≡ node (l.m_count - 1)
  pub next : (k : ℕ) → k < l.m_count → (nodes l (node k)).m_next ≡ node (after l.m_count k)
  pub prev : (k : ℕ) → k < l.m_count → (nodes l (node (after l.m_count k))).m_prev ≡ node k

-- The data in the order of the ring, from the first node on.
abbrev pub contents : CircularList → (ℕ → ℕ) → List ℕ
contents l node = slice (λ k. (nodes l (node k)).m_data) 0 l.m_count

-- A new list is the ring of no node.
pub empty-IsRing :
    (max_size : ℕ) (garbage : ℕ → Node) (node : ℕ → ℕ) → IsRing max_size (empty garbage) node
unfolding empty
empty-IsRing max_size garbage node = record {
  counted = omega (arith, in_use-none max_size);
  inside = λ k h. absurd (omega arith);
  used = λ k h. absurd (omega arith);
  distinct = λ j k h. absurd (omega arith);
  first = λ h. absurd (omega arith);
  last = λ h. absurd (omega arith);
  next = λ k h. absurd (omega arith);
  prev = λ k h. absurd (omega arith);
}
