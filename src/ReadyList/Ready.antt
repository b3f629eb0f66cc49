-- ===== src/ReadyList/Ready.antt =====
-- A ready list of one priority as the ring of its tasks, with the position of the current one.
pub mod Turns
pub mod Changes
use cortex_m3_rtos.Prelude.{
  ℕ, zero, suc, ◌+◌, ◌-◌, ◌<◌, ◌≡◌, refl, Option, none, some, arith, ◌==◌, ltb, if◌then◌else◌,
  Outcome, done, ap, ◌∙◌,
}
use cortex_m3_rtos.Config.{max_tasks}
use cortex_m3_rtos.CircularList.{next_index, data_at}
use cortex_m3_rtos.CircularList.Ring.{IsRing, nodes, after}
use cortex_m3_rtos.CircularList.Ring.Find.{next_index_lem}
use cortex_m3_rtos.ReadyList.{TaskList, next_of, current_of}

abbrev pub size : TaskList → ℕ
size t = t.m_list.m_count

-- The task at position `k`.
abbrev pub task_at : TaskList → (ℕ → ℕ) → ℕ → ℕ
task_at t node k = (nodes t.m_list (node k)).m_data

-- The nodes form a ring, the current task is the one at position `p` of it, and no task is twice in it.
pub record IsReady (t : TaskList) (node : ℕ → ℕ) (p : ℕ) : Type 0 where
  pub ring : IsRing max_tasks t.m_list node
  pub position : 0 < size t → p < size t
  pub current : 0 < size t → t.m_current ≡ node p
  pub unique : (j k : ℕ) → j < size t → k < size t → task_at t node j ≡ task_at t node k → j ≡ k

module _ (t : TaskList) (node : ℕ → ℕ) (p : ℕ) (ready : IsReady t node p) where
  open ready use {ring, position, current}

  pub next_of-empty : size t ≡ 0 → next_of t ≡ done (none, t)
  unfolding next_of
  next_of-empty h = ground arith

  pub current_of-empty : size t ≡ 0 → current_of t ≡ done none
  unfolding current_of
  current_of-empty h = ground arith

  pub next_of-eq :
      0 < size t
      → next_of t
        ≡ done (
          some (task_at t node (after (size t) p)),
          record t { m_current = node (after (size t) p) },
        )
  unfolding next_of
  next_of-eq h = ground (
    arith,
    position h,
    current h,
    ring.inside p,
    ring.used p,
    ring.next p,
    ring.inside (after (size t) p),
    ring.used (after (size t) p),
  )

  pub current_of-eq : 0 < size t → current_of t ≡ done (some (task_at t node p))
  unfolding current_of
  current_of-eq h = ground (arith, position h, current h, ring.inside p, ring.used p)

  -- findNextTask returns false exactly on the empty list; else it moves on to the next task in the ring,
  -- returns that task, and changes nothing else. findCurrentTask likewise, but it returns the current
  -- task. Neither stops at an assertion.
  pub next_of_lem :
      (size t ≡ 0 → (next_of t ≡ done (none, t)) × (current_of t ≡ done none))
      × (0 < size t
          → (next_of t
              ≡ done (
                some (task_at t node (after (size t) p)),
                record t { m_current = node (after (size t) p) },
              ))
            × (current_of t ≡ done (some (task_at t node p))))
  next_of_lem = (λ h. (next_of-empty h, current_of-empty h), λ h. (next_of-eq h, current_of-eq h))
