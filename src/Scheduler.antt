-- ===== src/Scheduler.antt =====
-- source/scheduler/scheduler.hpp: which task is to run. The functions take the contexts of the scheduler
-- and of the tasks, and return them.
pub mod Choice
pub mod Moved
pub mod Turns
pub mod Wake
pub mod Invariant
pub mod Examples
use cortex_m3_rtos.Prelude.{
  ℕ, zero, suc, ◌+◌, Bool, true, false, not, Option, none, some, ◌==◌, if◌then◌else◌, Outcome, done,
  halted, ◌>>=◌, ◌>>◌,
}
use cortex_m3_rtos.Config.{max_tasks}
use cortex_m3_rtos.Api.{
  TaskState, suspended, waiting, ready, running, is_suspended, WaitResult, priority_value,
}
use cortex_m3_rtos.MemoryBuffer.{is_allocated, at, free}
use cortex_m3_rtos.Task
use cortex_m3_rtos.Handle.{Objects}
use cortex_m3_rtos.ReadyList
use cortex_m3_rtos.WaitConditions.{Conditions, Verdict, check}
use cortex_m3_rtos.WaitList

pub record Context : Type 0 where
  pub m_current : ℕ
  pub m_next : ℕ
  pub m_ready_list : ReadyList.Context
  pub m_wait_list : WaitList.Context

-- task::priorities_count, the number of Priority::Idle and one more.
abbrev pub priorities_count : ℕ
priorities_count = 4

unfoldable pub add_ready_task : Context → Task.Context → ℕ → Outcome (Bool × Context)
add_ready_task c tasks id = do
  priority ← Task.get_priority tasks id
  (added, r) ← ReadyList.add_task c.m_ready_list (priority_value priority) id
  done (added, record c { m_ready_list = r })

unfoldable pub add_suspended_task : Context → Task.Context → ℕ → Outcome (Bool × Task.Context)
add_suspended_task c tasks id = do tasks' ← Task.set_state tasks id suspended; done (true, tasks')

unfoldable pub resume_suspended_task :
    Context → Task.Context → ℕ → Outcome (Bool × Context × Task.Context)
resume_suspended_task c tasks id = do
  state ← Task.get_state tasks id
  if not (is_suspended state) then done (false, c, tasks) else (do
    (added, c') ← add_ready_task c tasks id
    tasks' ← if added then Task.set_state tasks c'.m_current ready else done tasks
    done (added, c', tasks'))

-- The two removals that `setTaskToSuspended` and `removeTask` end with.
unfoldable pub remove_task : Context → Task.Context → ℕ → Outcome Context
remove_task c tasks id = do
  priority ← Task.get_priority tasks id
  r ← ReadyList.remove_task c.m_ready_list (priority_value priority) id
  w ← WaitList.remove_task c.m_wait_list id
  done (record c { m_ready_list = r; m_wait_list = w })

unfoldable pub set_task_to_suspended : Context → Task.Context → ℕ → Outcome (Context × Task.Context)
set_task_to_suspended c tasks id = do
  tasks' ← Task.set_state tasks id suspended
  c' ← remove_task c tasks' id
  done (c', tasks')

-- What `setTaskToSleep` and `setTaskToWaitForObj` do when the wait list has taken the task.
unfoldable pub put_to_wait :
    Context → Task.Context → ℕ → Bool × WaitList.Context → Outcome (Bool × Context × Task.Context)
put_to_wait c tasks id (false, w) = done (false, record c { m_wait_list = w }, tasks)
put_to_wait c tasks id (true, w) = do
  priority ← Task.get_priority tasks id
  r ← ReadyList.remove_task c.m_ready_list (priority_value priority) id
  tasks' ← Task.set_state tasks id waiting
  done (true, record c { m_ready_list = r; m_wait_list = w }, tasks')

unfoldable pub set_task_to_sleep :
    Context → Task.Context → ℕ → ℕ → ℕ → Outcome (Bool × Context × Task.Context)
set_task_to_sleep c tasks id interval current = do
  r ← WaitList.add_task_sleep c.m_wait_list id interval current
  put_to_wait c tasks id r

unfoldable pub set_task_to_wait_for_obj :
    Context
    → Task.Context
    → ℕ
    → Option (ℕ → ℕ)
    → ℕ
    → Bool
    → Bool
    → ℕ
    → ℕ
    → Outcome (Bool × Context × Task.Context)
set_task_to_wait_for_obj c tasks id none n all forever timeout current = halted
set_task_to_wait_for_obj c tasks id (some signals) n all forever timeout current = do
  r ← WaitList.add_task_wait_obj c.m_wait_list id (some signals) n all forever timeout current
  put_to_wait c tasks id r

-- The loop of `getNextTask` from a priority, with `n` rounds left.
unfoldable pub next_from : ℕ → ℕ → ReadyList.Context → Outcome (Option ℕ × ReadyList.Context)
next_from zero priority r = done (none, r)
next_from (suc n) priority r = do
  (found, r') ← ReadyList.find_next_task r priority
  elim found [ some id ↦ done (some id, r') | none ↦ next_from n (suc priority) r' ]

-- `none` is the result false; `some id` is true, with the task in `a_next_task_id`.
unfoldable pub get_next_task : Context → Task.Context → Outcome (Option ℕ × Context × Task.Context)
get_next_task c tasks = do
  (found, r) ← next_from priorities_count 0 c.m_ready_list
  elim found [
    | none ↦ done (none, record c { m_ready_list = r }, tasks)
    | some id ↦ do
      tasks' ← Task.set_state tasks c.m_current ready
      tasks'' ← Task.set_state tasks' id running
      done (some id, record c { m_current = id; m_next = id; m_ready_list = r }, tasks'')
  ]

-- The loop of `getCurrentTask` from a priority, with `n` rounds left.
unfoldable pub current_from : ℕ → ℕ → ReadyList.Context → Outcome (Option ℕ)
current_from zero priority r = done none
current_from (suc n) priority r = do
  found ← ReadyList.find_current_task r priority
  elim found [ some id ↦ done (some id) | none ↦ current_from n (suc priority) r ]

unfoldable pub get_current_task :
    Context → Task.Context → Outcome (Option ℕ × Context × Task.Context)
get_current_task c tasks = do
  found ← current_from priorities_count 0 c.m_ready_list
  elim found [
    | none ↦ done (none, c, tasks)
    | some id ↦ do
      tasks' ← Task.set_state tasks id running
      done (some id, record c { m_current = id; m_next = id }, tasks')
  ]

unfoldable pub get_current_task_id : Context → ℕ
get_current_task_id c = c.m_current

-- The contexts that `checkWaitConditions` works on.
pub record State : Type 0 where
  pub scheduler : Context
  pub tasks : Task.Context
  pub objects : Objects

-- Wakes the task of the item in slot `i`, with the result of its wait.
unfoldable pub wake : State → ℕ → ℕ → WaitResult → ℕ → Outcome State
wake s i task_id result index = do
  (added, c) ← add_ready_task s.scheduler s.tasks task_id
  if added
      then (do
        t ← Task.set_state s.tasks task_id ready
        t' ← Task.set_result t task_id result
        t'' ← Task.set_last_signal_index t' task_id index
        b ← free max_tasks c.m_wait_list.m_list i
        done (record s {
          scheduler = record c { m_wait_list = record { m_list = b } };
          tasks = t'';
        }))
      else done (record s { scheduler = c })

-- The body of the loop: the wait item in slot `i`. `result` is the content of the variable
-- `a_wait_result`, which is not initialised.
unfoldable pub check_slot : State → WaitResult → ℕ → ℕ → Outcome State
check_slot s result current i = do
  used ← is_allocated max_tasks s.scheduler.m_wait_list.m_list i
  if used
      then (do
        item ← at max_tasks s.scheduler.m_wait_list.m_list i
        v ← check item.m_conditions s.objects result current 0
        let s' : State = record s { objects = v.objects }
        if v.fulfilled then wake s' i item.m_id v.result v.signaled_item_index else done s')
      else done s

-- The loop from slot `i`, with `n` rounds left.
unfoldable pub check_from : ℕ → ℕ → State → WaitResult → ℕ → Outcome State
check_from zero i s result current = done s
check_from (suc n) i s result current = do
  s' ← check_slot s result current i
  check_from n (i + 1) s' result current

unfoldable pub check_wait_conditions : State → WaitResult → ℕ → Outcome State
check_wait_conditions s result current = check_from max_tasks 0 s result current
