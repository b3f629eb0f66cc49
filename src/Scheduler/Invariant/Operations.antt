-- ===== src/Scheduler/Invariant/Operations.antt =====
-- The operations of the scheduler on a well-formed state: none stops at an assertion, and each leaves a
-- well-formed state.
use cortex_m3_rtos.Prelude.{
  ℕ, ◌≡◌, Bool, true, false, inl, inr, ◌==◌, update, done, arith, Bool-cases,
}
use cortex_m3_rtos.Api.{suspended}
use cortex_m3_rtos.Task
use cortex_m3_rtos.Task.{Task}
use cortex_m3_rtos.Task.Laws.{task_at, IsTask, put, get_priority-eq}
use cortex_m3_rtos.ReadyList
use cortex_m3_rtos.WaitList
use cortex_m3_rtos.Scheduler.{Context, add_ready_task, remove_task}
use cortex_m3_rtos.Scheduler.Invariant.{
  WellFormed, WaitingTasks, NotWaiting, waiter, ReadyTasks-put, WaitingTasks-put, WaitingTasks-less,
}
use cortex_m3_rtos.Scheduler.Invariant.Ready.{add_ready_task-Ready, remove_task-Ready}
use cortex_m3_rtos.Scheduler.Invariant.Waiting.{remove_task-Waiting}

-- A ready task has no wait item.
pub ready-NotWaiting :
    {c : Context} {tasks : Task.Context} {s : ℕ → Bool} (id : ℕ)
    → WellFormed c tasks s
    → s id ≡ true
    → NotWaiting c.m_wait_list id
ready-NotWaiting id h e i lt w = ground (arith, h.waiting_tasks.not_ready i lt w, e)

-- A suspended task has none either.
pub suspended-NotWaiting :
    {c : Context} {tasks : Task.Context} {s : ℕ → Bool} (id : ℕ)
    → WellFormed c tasks s
    → (task_at tasks id).m_state ≡ suspended
    → NotWaiting c.m_wait_list id
suspended-NotWaiting {c} id h e i lt w = elim (Bool-cases (waiter c.m_wait_list i == id)) [
  | inl same ↦
      let here : waiter c.m_wait_list i ≡ id = ground arith in
      absurd (ground (arith, h.asleep i lt w, here, e))
  | inr other ↦ other
]

-- What is written into the record of a task that does not wait, but its priority, does not matter.
pub WellFormed-put :
    {c : Context} {tasks : Task.Context} {s : ℕ → Bool} (id : ℕ) (t : Task)
    → t.m_priority ≡ (task_at tasks id).m_priority
    → NotWaiting c.m_wait_list id
    → WellFormed c tasks s
    → WellFormed c (put tasks id t) s
WellFormed-put {tasks} {s} id t same idle h = record {
  ready_tasks = ReadyTasks-put tasks s id t same h.ready_tasks;
  waiting_tasks = WaitingTasks-put id t h.waiting_tasks;
  asleep = λ i lt w. ground (arith, h.asleep i lt w, idle i lt w);
}

-- What is written into the record of any task, but its priority and its state, does not matter.
pub WellFormed-same :
    {c : Context} {tasks : Task.Context} {s : ℕ → Bool} (id : ℕ) (t : Task)
    → t.m_priority ≡ (task_at tasks id).m_priority
    → t.m_state ≡ (task_at tasks id).m_state
    → WellFormed c tasks s
    → WellFormed c (put tasks id t) s
WellFormed-same {tasks} {s} id t priority state h = record {
  ready_tasks = ReadyTasks-put tasks s id t priority h.ready_tasks;
  waiting_tasks = WaitingTasks-put id t h.waiting_tasks;
  asleep = λ i lt w. ground (arith, state, h.asleep i lt w);
}

-- A task that does not wait gets ready.
pub WaitingTasks-more :
    {w : WaitList.Context} {tasks : Task.Context} {s : ℕ → Bool} (id : ℕ)
    → NotWaiting w id
    → WaitingTasks w tasks s
    → WaitingTasks w tasks (update s id true)
WaitingTasks-more id idle h = record {
  waiter_used = h.waiter_used;
  not_ready = λ i lt w. ground (arith, h.not_ready i lt w, idle i lt w);
  once = h.once;
}

module _ (c : Context) (tasks : Task.Context) (s : ℕ → Bool) (h : WellFormed c tasks s) where
  pub add_ready_task-WellFormed :
      (id : ℕ)
      → IsTask tasks id
      → s id ≡ false
      → NotWaiting c.m_wait_list id
      → (r' : ReadyList.Context) × (add_ready_task c tasks id
          ≡ done (true, record c { m_ready_list = r' }))
        × WellFormed (record c { m_ready_list = r' }) tasks (update s id true)
  add_ready_task-WellFormed id used out idle =
      let (r', e, ok) = add_ready_task-Ready c tasks s h.ready_tasks id used out in
      (
        r',
        e,
        record {
          ready_tasks = ok;
          waiting_tasks = WaitingTasks-more id idle h.waiting_tasks;
          asleep = h.asleep;
        },
      )

  -- removeTask takes a task out of the ready list and the wait list.
  pub remove_task-WellFormed :
      (id : ℕ)
      → IsTask tasks id
      → (r' : ReadyList.Context) × (w' : WaitList.Context) × (remove_task c tasks id
          ≡ done (record c { m_ready_list = r'; m_wait_list = w' }))
        × WellFormed (record c { m_ready_list = r'; m_wait_list = w' }) tasks (update s id false)
        × NotWaiting w' id
  unfolding remove_task
  remove_task-WellFormed id used =
      let (r', er, ok) = remove_task-Ready c.m_ready_list tasks s h.ready_tasks id in
      let (w', ew, waits, gone, fewer) =
        remove_task-Waiting c.m_wait_list tasks s h.waiting_tasks id in
      (
        r',
        w',
        rw (get_priority-eq tasks id used, er, ew),
        record {
          ready_tasks = ok;
          waiting_tasks = WaitingTasks-less id waits;
          asleep = λ i lt w. rw (fewer i w).1 (h.asleep i lt (fewer i w).0);
        },
        gone,
      )
