-- ===== src/Task/Laws.antt =====
-- What the operations on tasks do: source/task/task.hpp.
use cortex_m3_rtos.Prelude.{
  ℕ, ◌<◌, ◌≡◌, ◌⊎◌, inl, inr, true, arith, ltb, update, done, halted, Bool-cases,
}
use cortex_m3_rtos.Config.{max_tasks}
use cortex_m3_rtos.Api.{priority_value, WaitResult, TaskState}
use cortex_m3_rtos.Task.{
  Task, Context, get_priority, get_state, set_state, set_result, set_last_signal_index,
}

abbrev pub task_at : Context → ℕ → Task
task_at c id = c.m_data.m_data id

-- The slot of the task is in use.
abbrev pub IsTask : Context → ℕ → Type 0
IsTask c id = (id < max_tasks) × (c.m_data.m_status id ≡ true)

-- The context with another record in slot `id`.
abbrev pub put : Context → ℕ → Task → Context
put c id t = record { m_data = record c.m_data { m_data = update c.m_data.m_data id t } }

-- The slot is in use, or the functions that look at the task stop at an assertion.
pub IsTask-cases :
    (c : Context) (id : ℕ)
    → IsTask c id
      ⊎ ((get_priority c id ≡ halted)
          × (get_state c id ≡ halted)
          × ((x : TaskState) → set_state c id x ≡ halted))
unfolding get_priority get_state set_state
IsTask-cases c id = elim (Bool-cases (ltb id max_tasks)) [
  | inr out ↦ inr (ground (arith, out), ground (arith, out), λ x. ground (arith, out))
  | inl inside ↦ elim (Bool-cases (c.m_data.m_status id)) [
    | inl taken ↦ inl (ground arith, taken)
    | inr unused ↦ inr (
      ground (arith, inside, unused),
      ground (arith, inside, unused),
      λ x. ground (arith, inside, unused),
    )
  ]
]

-- The priority of the task, as the index of its list.
abbrev pub level_of : Context → ℕ → ℕ
level_of c id = priority_value (task_at c id).m_priority

pub set_state-eq :
    (c : Context) (id : ℕ) (s : TaskState)
    → IsTask c id
    → set_state c id s ≡ done (put c id (record (task_at c id) { m_state = s }))
unfolding set_state
set_state-eq c id s h = ground arith

pub get_priority-eq :
    (c : Context) (id : ℕ) → IsTask c id → get_priority c id ≡ done (task_at c id).m_priority
unfolding get_priority
get_priority-eq c id h = ground arith

pub get_state-eq :
    (c : Context) (id : ℕ) → IsTask c id → get_state c id ≡ done (task_at c id).m_state
unfolding get_state
get_state-eq c id h = ground arith

pub set_result-eq :
    (c : Context) (id : ℕ) (r : WaitResult)
    → IsTask c id
    → set_result c id r ≡ done (put c id (record (task_at c id) { m_result = r }))
unfolding set_result
set_result-eq c id r h = ground arith

pub set_last_signal_index-eq :
    (c : Context) (id i : ℕ)
    → IsTask c id
    → set_last_signal_index c id i
      ≡ done (put c id (record (task_at c id) { m_last_signal_index = i }))
unfolding set_last_signal_index
set_last_signal_index-eq c id i h = ground arith
