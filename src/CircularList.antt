-- ===== src/CircularList.antt =====
-- source/common/circular_list.hpp: a doubly linked ring of nodes in a MemoryBuffer. `max_size` is the
-- template argument MaxSize; an Id is the index of a node.
pub mod Ring
pub mod Examples
use cortex_m3_rtos.Prelude.{
  ℕ, zero, suc, ◌+◌, ◌-◌, ◌%◌, Bool, true, false, Option, none, some, ltb, ◌==◌, if◌then◌else◌,
  Outcome, done, halted, ◌>>=◌, ◌>>◌, add32, sub32,
}
use cortex_m3_rtos.MemoryBuffer.{MemoryBuffer, init, allocate, free, at, set_at, modify}

pub record Node : Type 0 where
  pub m_next : ℕ
  pub m_prev : ℕ
  pub m_data : ℕ

-- The element type is task::Id, a uint32_t.
pub record CircularList : Type 0 where
  pub m_buffer : MemoryBuffer Node
  pub m_first : ℕ
  pub m_last : ℕ
  pub m_count : ℕ

-- A new list: the slots of the buffer are free, and their content is not initialised.
unfoldable pub empty : (ℕ → Node) → CircularList
unfolding init
empty garbage = record { m_buffer = init garbage; m_first = 0; m_last = 0; m_count = 0 }

module _ (max_size : ℕ) where
  -- The `switch` of `add`: links node `i`, just allocated, behind the last one.
  unfoldable pub link : CircularList → ℕ → Outcome CircularList
  unfolding modify
  link l i =
      if l.m_count == 0
      then (do
        b ← modify max_size l.m_buffer i (λ n. record n { m_next = i; m_prev = i })
        done (record l { m_buffer = b; m_first = i }))
      else if l.m_count == 1
      then (do
        b ← modify max_size l.m_buffer l.m_first (λ n. record n { m_next = i; m_prev = i })
        b' ← modify max_size b i (λ n. record n { m_next = l.m_first; m_prev = l.m_first })
        done (record l { m_buffer = b' }))
      else (do
        b ← modify max_size l.m_buffer l.m_last (λ n. record n { m_next = i })
        b' ← modify max_size b l.m_first (λ n. record n { m_prev = i })
        b'' ← modify max_size b' i (λ n. record n { m_next = l.m_first; m_prev = l.m_last })
        done (record l { m_buffer = b'' }))

  -- `none` is the result false; `some i` is true, with the new node in `a_new_node_index`.
  unfoldable pub add : CircularList → ℕ → Outcome (Option ℕ × CircularList)
  unfolding allocate link modify
  add l new_data = elim (allocate max_size l.m_buffer) [
    | none ↦ done (none, l)
    | some (i, b) ↦ do
      l' ← link (record l { m_buffer = b }) i
      b' ← modify max_size l'.m_buffer i (λ n. record n { m_data = new_data })
      done (some i, record l' { m_buffer = b'; m_last = i; m_count = add32 l'.m_count 1 })
  ]

  -- The branch of `remove` for a list of several nodes: takes node `i` out of the ring.
  unfoldable pub unlink : CircularList → ℕ → Outcome CircularList
  unfolding at modify
  unlink l i = do
    n ← at max_size l.m_buffer i
    b ← modify max_size l.m_buffer n.m_prev (λ p. record p { m_next = n.m_next })
    b' ← modify max_size b n.m_next (λ p. record p { m_prev = n.m_prev })
    done (record l {
      m_buffer = b';
      m_first = if i == l.m_first then n.m_next else l.m_first;
      m_last = if i == l.m_first then l.m_last else if i == l.m_last then n.m_prev else l.m_last;
    })

  unfoldable pub remove : CircularList → ℕ → Outcome CircularList
  unfolding unlink free
  remove l i =
      if ltb 0 l.m_count
      then (do
        l' ← if ltb 1 l.m_count then unlink l i else done l
        b ← free max_size l'.m_buffer i
        done (record l' { m_buffer = b; m_count = sub32 l'.m_count 1 }))
      else done l

  -- The loop of `find` at node `i`, with `n` rounds left.
  unfoldable pub find_from : ℕ → CircularList → ℕ → ℕ → Outcome (Option ℕ)
  unfolding at
  find_from zero l i key = done none
  find_from (suc n) l i key = do
    node ← at max_size l.m_buffer i
    elim (key == node.m_data) [ true ↦ done (some i) | false ↦ find_from n l node.m_next key ]

  unfoldable pub find : CircularList → ℕ → Outcome (Option ℕ)
  unfolding find_from
  find l key = find_from l.m_count l l.m_first key

  -- `at`
  unfoldable pub data_at : CircularList → ℕ → Outcome ℕ
  unfolding at
  data_at l i = do n ← at max_size l.m_buffer i; done n.m_data

  unfoldable pub next_index : CircularList → ℕ → Outcome ℕ
  unfolding at
  next_index l i = do n ← at max_size l.m_buffer i; done n.m_next

unfoldable pub first_index : CircularList → ℕ
first_index l = l.m_first

-- `count`
unfoldable pub node_count : CircularList → ℕ
node_count l = l.m_count
