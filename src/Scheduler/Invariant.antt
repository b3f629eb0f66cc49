-- ===== src/Scheduler/Invariant.antt =====
-- The invariant of the scheduler: which tasks are ready, and which wait.
pub mod Ready
pub mod Choice
pub mod Waiting
pub mod Begin
pub mod Operations
pub mod States
pub mod Chosen
pub mod Conditions
pub mod Total
pub mod Lifetime
use cortex_m3_rtos.Prelude.{
  ℕ, ◌<◌, ◌≡◌, refl, ◌⊎◌, Bool, true, false, ◌&&◌, ◌==◌, if◌then◌else◌, update, arith, sym, ◌∙◌, ap,
}
use cortex_m3_rtos.Config.{max_tasks}
use cortex_m3_rtos.Api.{priority_value, waiting}
use cortex_m3_rtos.Task
use cortex_m3_rtos.Task.{Task}
use cortex_m3_rtos.Task.Laws.{level_of, task_at, IsTask, put}
use cortex_m3_rtos.ReadyList
use cortex_m3_rtos.ReadyList.{TaskList}
use cortex_m3_rtos.ReadyList.Members.{Holds}
use cortex_m3_rtos.WaitList
use cortex_m3_rtos.Scheduler.{Context, priorities_count}

-- The tasks of a priority in a set.
abbrev pub at_level : Task.Context → (ℕ → Bool) → ℕ → ℕ → Bool
at_level tasks s q id = s id && (level_of tasks id == q)

-- `s` is the set of the tasks that are ready: each of them is in use and stands once in the list of its own
-- priority, and no other task is in any list.
pub record ReadyTasks (r : ReadyList.Context) (tasks : Task.Context) (s : ℕ → Bool) : Type 0 where
  pub lists : (q : ℕ) → q < priorities_count → Holds (r.m_ready_list q) (at_level tasks s q)
  pub used : (id : ℕ) → s id ≡ true → IsTask tasks id

abbrev pub is_waiting : WaitList.Context → ℕ → Bool
is_waiting w i = w.m_list.m_status i

-- The task of the wait item in slot `i`.
abbrev pub waiter : WaitList.Context → ℕ → ℕ
waiter w i = (w.m_list.m_data i).m_id

-- The tasks with a wait item are in use and not ready, and none has two items.
pub record WaitingTasks (w : WaitList.Context) (tasks : Task.Context) (s : ℕ → Bool) : Type 0 where
  pub waiter_used : (i : ℕ) → i < max_tasks → is_waiting w i ≡ true → IsTask tasks (waiter w i)
  pub not_ready : (i : ℕ) → i < max_tasks → is_waiting w i ≡ true → s (waiter w i) ≡ false
  pub once :
      (i j : ℕ)
      → i < max_tasks
      → j < max_tasks
      → is_waiting w i ≡ true
      → is_waiting w j ≡ true
      → waiter w i ≡ waiter w j
      → i ≡ j

-- The task has no wait item.
abbrev pub NotWaiting : WaitList.Context → ℕ → Type 0
NotWaiting w id = (i : ℕ) → i < max_tasks → is_waiting w i ≡ true → (waiter w i == id) ≡ false

-- Every item of `w'` is one of `w`.
abbrev pub Fewer : WaitList.Context → WaitList.Context → Type 0
Fewer w' w = (i : ℕ) → is_waiting w' i ≡ true → (is_waiting w i ≡ true) × (waiter w' i ≡ waiter w i)

-- Every item of `w'` is one of `w`, or one of the task.
abbrev pub OneMore : WaitList.Context → WaitList.Context → ℕ → Type 0
OneMore w' w id =
    (i : ℕ)
    → is_waiting w' i ≡ true
    → (waiter w' i ≡ id) ⊎ ((is_waiting w i ≡ true) × (waiter w' i ≡ waiter w i))

-- The invariant of the scheduler: `s` is the set of the tasks that are ready, the tasks with a wait item are
-- not among them, and their state is Waiting.
pub record WellFormed (c : Context) (tasks : Task.Context) (s : ℕ → Bool) : Type 0 where
  pub ready_tasks : ReadyTasks c.m_ready_list tasks s
  pub waiting_tasks : WaitingTasks c.m_wait_list tasks s
  pub asleep :
      (i : ℕ)
      → i < max_tasks
      → is_waiting c.m_wait_list i ≡ true
      → (task_at tasks (waiter c.m_wait_list i)).m_state ≡ waiting

pub Holds-ext :
    {t : TaskList} {s s' : ℕ → Bool} → ((id : ℕ) → s id ≡ s' id) → Holds t s → Holds t s'
Holds-ext e h = record {
  node = h.node;
  position = h.position;
  ready = h.ready;
  members = λ id. h.members id ∙ e id;
  below = λ id i. h.below id (e id ∙ i);
}

pub level-lt : (tasks : Task.Context) (id : ℕ) → level_of tasks id < priorities_count
level-lt tasks id = ground arith

module _ (tasks : Task.Context) (s : ℕ → Bool) (id : ℕ) (t : Task)
    (same : t.m_priority ≡ (task_at tasks id).m_priority) where
  level-put : (j : ℕ) → level_of (put tasks id t) j ≡ level_of tasks j
  level-put j = ground (arith, same)

  -- What is written into the record of a task but its priority does not matter.
  pub ReadyTasks-put :
      {r : ReadyList.Context} → ReadyTasks r tasks s → ReadyTasks r (put tasks id t) s
  ReadyTasks-put h = record {
    lists = λ q lt. Holds-ext (λ j. ground (arith, level-put j)) (h.lists q lt);
    used = h.used;
  }

pub WaitingTasks-put :
    {tasks : Task.Context} {s : ℕ → Bool} {w : WaitList.Context} (id : ℕ) (t : Task)
    → WaitingTasks w tasks s
    → WaitingTasks w (put tasks id t) s
WaitingTasks-put id t h = record {
  waiter_used = h.waiter_used;
  not_ready = h.not_ready;
  once = h.once;
}

-- Fewer tasks are ready.
pub WaitingTasks-less :
    {w : WaitList.Context} {tasks : Task.Context} {s : ℕ → Bool} (id : ℕ)
    → WaitingTasks w tasks s
    → WaitingTasks w tasks (update s id false)
WaitingTasks-less id h = record {
  waiter_used = h.waiter_used;
  not_ready = λ i lt w. ground (arith, h.not_ready i lt w);
  once = h.once;
}
