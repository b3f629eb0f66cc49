-- ===== src/Task/Lifetime.antt =====
-- Tasks that come into being and that end: source/task/task.hpp, create and destroy.
use cortex_m3_rtos.Prelude.{
  ℕ, ◌<◌, ◌≡◌, refl, inl, inr, Bool, true, false, Option, none, some, arith, ◌==◌, update, Outcome,
  done, Bool-cases,
}
use cortex_m3_rtos.Config.{max_tasks}
use cortex_m3_rtos.Api.{Priority}
use cortex_m3_rtos.MemoryBuffer.{MemoryBuffer, allocate}
use cortex_m3_rtos.MemoryBuffer.Laws.{FirstFree, full, found, allocate-FirstFree}
use cortex_m3_rtos.MemoryBuffer.Slots.{modify-eq, free-eq}
use cortex_m3_rtos.Task.{Task, Context, init_task, create, destroy}
use cortex_m3_rtos.Task.Laws.{task_at}

-- The context with a record in slot `id`, which is in use.
abbrev pub with_task : Context → ℕ → Task → Context
with_task c id t = record {
  m_data = record {
    m_data = update c.m_data.m_data id t;
    m_status = update c.m_data.m_status id true;
  };
}

-- The context where slot `id` is free.
abbrev pub without_task : Context → ℕ → Context
without_task c id = record {
  m_data = record c.m_data { m_status = update c.m_data.m_status id false };
}

pub destroy-eq : (c : Context) (id : ℕ) → id < max_tasks → destroy c id ≡ done (without_task c id)
unfolding destroy
destroy-eq c id h = rw (destroy, free-eq max_tasks c.m_data id h)

-- The outcomes of the creation of a task: with no routine, or with no free slot, nothing changes; else the
-- lowest free slot is taken, and `f` says what is written into its record.
pub data Creates (c : Context) (routine : ℕ) (f : Task → Task)
    : Outcome (Option ℕ × Context) → Type 0 where
  no_routine : routine ≡ 0 → Creates c routine f (done (none, c))
  no_slot :
      ((j : ℕ) → j < max_tasks → c.m_data.m_status j ≡ true) → Creates c routine f (done (none, c))
  made :
      (id : ℕ)
      → id < max_tasks
      → c.m_data.m_status id ≡ false
      → ((j : ℕ) → j < id → c.m_data.m_status j ≡ true)
      → Creates c routine f (done (some id, with_task c id (f (task_at c id))))

module _ (c : Context) (task_routine routine : ℕ) (priority : Priority) (parameter : ℕ)
    (create_suspended : Bool) where
  abbrev pub start : Task → Task
  start t = init_task t task_routine routine priority parameter create_suspended

  allocated :
      {r : Option (ℕ × MemoryBuffer Task)}
      → (routine == 0) ≡ false
      → allocate max_tasks c.m_data ≡ r
      → FirstFree 0 max_tasks c.m_data r
      → Creates c routine start (create c task_routine routine priority parameter create_suspended)
  unfolding create
  allocated some_routine e (full all) =
      rw (create, some_routine, e) (no_slot (λ j lt. all j (omega arith) lt))
  allocated some_routine e (found id _ lt free before) =
      let b : MemoryBuffer Task = record c.m_data { m_status = update c.m_data.m_status id true } in
      let taken : b.m_status id ≡ true = ground arith in
      rw (create, some_routine, e, modify-eq max_tasks b id lt taken start)
        (made id lt free (λ j p. before j (omega arith) p))

  -- Creating a task never stops at an assertion. With no routine, or with no free slot, the result is false
  -- and nothing changes. Else the lowest free slot is taken, its record is set up from the arguments,
  -- and no other slot changes.
  pub create-Creates :
      Creates c routine start (create c task_routine routine priority parameter create_suspended)
  unfolding create
  create-Creates = elim (Bool-cases (routine == 0)) [
    | inl e ↦ rw (create, e) (no_routine (ground arith))
    | inr e ↦ allocated e refl (allocate-FirstFree max_tasks c.m_data)
  ]
