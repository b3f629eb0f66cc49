-- ===== src/ReadyList.antt =====
-- source/scheduler/ready_list.hpp: for each priority the ring of the tasks that are ready. A priority is
-- passed as its number, static_cast< uint32_t>.
pub mod Ready
pub mod Members
pub mod Examples
use cortex_m3_rtos.Prelude.{
  ℕ, zero, suc, ◌+◌, Bool, true, false, Option, none, some, ltb, ◌==◌, if◌then◌else◌, update,
  Outcome, done, halted, ◌>>=◌, ◌>>◌,
}
use cortex_m3_rtos.Config.{max_tasks}
use cortex_m3_rtos.CircularList.{CircularList, add, remove, find, data_at, next_index, node_count}

pub record TaskList : Type 0 where
  pub m_list : CircularList
  pub m_current : ℕ

pub record Context : Type 0 where
  pub m_ready_list : ℕ → TaskList

-- `addTask` on the list of the priority.
unfoldable pub add_to : TaskList → ℕ → Outcome (Bool × TaskList)
unfolding node_count
add_to t id = do
  let count = node_count t.m_list
  found ← find max_tasks t.m_list id
  elim found [
    | some i ↦ done (false, t)
    | none ↦ do
      (added, l) ← add max_tasks t.m_list id
      elim added [
        | none ↦ done (false, record t { m_list = l })
        | some i ↦
            done (true, record { m_list = l; m_current = if 0 == count then i else t.m_current })
      ]
  ]

-- `removeTask` on the list of the priority.
unfoldable pub remove_from : TaskList → ℕ → Outcome TaskList
unfolding node_count
remove_from t id = do
  let count = node_count t.m_list
  found ← find max_tasks t.m_list id
  elim found [
    | none ↦ done t
    | some i ↦ do
      current ←
          if t.m_current == i
          then (if ltb 1 count then next_index max_tasks t.m_list i else done t.m_current)
          else done t.m_current
      l ← remove max_tasks t.m_list i
      done (record { m_list = l; m_current = current })
  ]

-- `findNextTask` on the list of the priority; `none` is the result false.
unfoldable pub next_of : TaskList → Outcome (Option ℕ × TaskList)
unfolding data_at next_index node_count
next_of t =
    if ltb 1 (node_count t.m_list)
    then (do
      next ← next_index max_tasks t.m_list t.m_current
      id ← data_at max_tasks t.m_list next
      done (some id, record t { m_current = next }))
    else if 1 == node_count t.m_list
    then (do id ← data_at max_tasks t.m_list t.m_current; done (some id, t))
    else done (none, t)

-- `findCurrentTask` on the list of the priority; `none` is the result false.
unfoldable pub current_of : TaskList → Outcome (Option ℕ)
unfolding data_at node_count
current_of t =
    if ltb 0 (node_count t.m_list)
    then (do id ← data_at max_tasks t.m_list t.m_current; done (some id))
    else done none

abbrev pub put : Context → ℕ → TaskList → Context
put c priority t = record { m_ready_list = update c.m_ready_list priority t }

unfoldable pub add_task : Context → ℕ → ℕ → Outcome (Bool × Context)
add_task c priority id = do
  (added, t) ← add_to (c.m_ready_list priority) id
  done (added, put c priority t)

unfoldable pub remove_task : Context → ℕ → ℕ → Outcome Context
remove_task c priority id = do t ← remove_from (c.m_ready_list priority) id; done (put c priority t)

unfoldable pub find_next_task : Context → ℕ → Outcome (Option ℕ × Context)
find_next_task c priority = do
  (found, t) ← next_of (c.m_ready_list priority)
  done (found, put c priority t)

unfoldable pub find_current_task : Context → ℕ → Outcome (Option ℕ)
find_current_task c priority = current_of (c.m_ready_list priority)
