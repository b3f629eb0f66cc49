-- ===== src/WaitList.antt =====
-- source/scheduler/wait_list.hpp: the tasks that wait, with their conditions.
use cortex_m3_rtos.Prelude.{
  ℕ, zero, suc, ◌+◌, Bool, true, false, Option, none, some, ◌==◌, if◌then◌else◌, Outcome, done,
  ◌>>=◌,
}
use cortex_m3_rtos.Config.{max_tasks}
use cortex_m3_rtos.MemoryBuffer.{MemoryBuffer, allocate, free, at, set_at, modify, is_allocated}
use cortex_m3_rtos.WaitConditions.{Conditions, init_sleep, init_wait_for_obj}

pub record WaitItem : Type 0 where
  pub m_id : ℕ
  pub m_conditions : Conditions

pub record Context : Type 0 where
  pub m_list : MemoryBuffer WaitItem

unfoldable pub add_task_sleep : Context → ℕ → ℕ → ℕ → Outcome (Bool × Context)
add_task_sleep c task_id interval current = elim (allocate max_tasks c.m_list) [
  | none ↦ done (false, c)
  | some (i, b) ↦ do
    b' ← modify max_tasks b i (λ w. record w { m_id = task_id })
    b'' ←
        modify max_tasks b' i
          (λ w. record w { m_conditions = init_sleep w.m_conditions interval current })
    done (true, record { m_list = b'' })
]

-- A failure of `initWaitForObj` leaves the item allocated.
unfoldable pub add_task_wait_obj :
    Context → ℕ → Option (ℕ → ℕ) → ℕ → Bool → Bool → ℕ → ℕ → Outcome (Bool × Context)
add_task_wait_obj c task_id signals n all forever timeout current =
    elim (allocate max_tasks c.m_list) [
      | none ↦ done (false, c)
      | some (i, b) ↦ do
        b' ← modify max_tasks b i (λ w. record w { m_id = task_id })
        w ← at max_tasks b' i
        (init_successful, conditions) ←
            init_wait_for_obj w.m_conditions signals n all forever timeout current
        b'' ← set_at max_tasks b' i (record w { m_conditions = conditions })
        done (init_successful, record { m_list = b'' })
    ]

-- Whether slot `i` holds an item of that task.
unfoldable pub has_task : Context → ℕ → ℕ → Outcome Bool
has_task c i task_id = do
  used ← is_allocated max_tasks c.m_list i
  if used then (do w ← at max_tasks c.m_list i; done (w.m_id == task_id)) else done false

-- The loop of `removeTask` from slot `i`, with `n` rounds left.
unfoldable pub remove_from : ℕ → ℕ → Context → ℕ → Outcome Context
remove_from zero i c task_id = done c
remove_from (suc n) i c task_id = do
  hit ← has_task c i task_id
  elim hit [
    | true ↦ do b ← free max_tasks c.m_list i; done (record { m_list = b })
    | false ↦ remove_from n (i + 1) c task_id
  ]

unfoldable pub remove_task : Context → ℕ → Outcome Context
remove_task c task_id = remove_from max_tasks 0 c task_id
