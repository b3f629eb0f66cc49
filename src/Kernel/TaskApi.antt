-- ===== src/Kernel/TaskApi.antt =====
-- source/kernel.cpp, namespaces kernel, kernel::task and kernel::internal: starting the kernel, and
-- creating, ending, suspending, resuming and putting to sleep a task. A function that ends in a system
-- call is modelled up to where the task runs that the call chooses. Messages are left out.
use cortex_m3_rtos.Prelude.{
  ℕ, Bool, true, false, not, ◌&&◌, Option, none, some, ltb, leb, ◌==◌, if◌then◌else◌, Outcome, done,
  halted, ◌>>=◌,
}
use cortex_m3_rtos.Config.{context_switch_interval_ms}
use cortex_m3_rtos.Api.{Priority, priority_value}
use cortex_m3_rtos.SystemTimer
use cortex_m3_rtos.Task
use cortex_m3_rtos.Handle
use cortex_m3_rtos.Handle.{ObjectType}
use cortex_m3_rtos.Scheduler
use cortex_m3_rtos.Kernel.{
  Kernel, lock_enter, lock_leave, syscall, load_next, execute_context_switch,
}

abbrev pub is_task : ObjectType → Bool
is_task ObjectType.task = true
is_task _ = false

-- The rest of `task::create` when the task is in the scheduler.
unfoldable pub created : Kernel → ℕ → Priority → Bool → Outcome (Bool × Option ℕ × Kernel)
created k id priority create_suspended = do
  let current = Scheduler.get_current_task_id k.m_scheduler
  current_priority ← Task.get_priority k.m_tasks current
  let higher = ltb (priority_value priority) (priority_value current_priority)
  k' ←
      if (k.m_started && higher) && not create_suspended
      then syscall k execute_context_switch
      else done (lock_leave k)
  done (true, some (Handle.create ObjectType.task id), k')

-- `task_routine` is the address of internal::taskRoutine. The results are what the function returns,
-- and the handle for `*a_handle`.
unfoldable pub create : Kernel → ℕ → ℕ → Priority → ℕ → Bool → Outcome (Bool × Option ℕ × Kernel)
create k task_routine routine priority parameter create_suspended = do
  let k1 = lock_enter k
  (task_created, tasks) ←
      Task.create k1.m_tasks task_routine routine priority parameter create_suspended
  let k2 : Kernel = record k1 { m_tasks = tasks }
  elim task_created [
    | none ↦ done (false, none, lock_leave k2)
    | some id ↦ do
      (added, k3) ←
          if create_suspended
          then (do
            (added, tasks') ← Scheduler.add_suspended_task k2.m_scheduler k2.m_tasks id
            done (added, record k2 { m_tasks = tasks' }))
          else (do
            (added, scheduler) ← Scheduler.add_ready_task k2.m_scheduler k2.m_tasks id
            done (added, record k2 { m_scheduler = scheduler }))
      if added then created k3 id priority create_suspended else (do
        tasks'' ← Task.destroy k3.m_tasks id
        done (false, none, lock_leave (record k3 { m_tasks = tasks'' })))
  ]

-- kernel::init, behind hardware::init. `idle_routine` is the address of idleTaskRoutine.
unfoldable pub init : Kernel → ℕ → ℕ → Outcome Kernel
init k task_routine idle_routine = if k.m_started then done k else (do
  (created, _, k') ← create k task_routine idle_routine Priority.idle 0 false
  if created then done k' else halted)

-- kernel::start, without hardware::start, which Hardware.Vendor has.
unfoldable pub start : Kernel → Outcome Kernel
start k =
    if k.m_started then done k else syscall (record (lock_enter k) { m_started = true }) load_next

-- getCurrent
unfoldable pub get_current : Kernel → ℕ × Kernel
get_current k =
    let current = Scheduler.get_current_task_id (lock_enter k).m_scheduler in
    (Handle.create ObjectType.task current, lock_leave (lock_enter k))

-- internal::terminateTask
unfoldable pub terminate_task : Kernel → ℕ → Outcome Kernel
terminate_task k id = do
  let k1 = lock_enter k
  let current_task = Scheduler.get_current_task_id k1.m_scheduler
  scheduler ← Scheduler.remove_task k1.m_scheduler k1.m_tasks id
  tasks ← Task.destroy k1.m_tasks id
  let k2 : Kernel = record k1 { m_scheduler = scheduler; m_tasks = tasks }
  if (current_task == id) && k2.m_started then syscall k2 load_next else done (lock_leave k2)

unfoldable pub terminate : Kernel → ℕ → Outcome Kernel
terminate k handle =
    if is_task (Handle.get_object_type handle)
    then terminate_task k (Handle.get_id handle)
    else done k

unfoldable pub suspend : Kernel → ℕ → Outcome Kernel
suspend k handle =
    if is_task (Handle.get_object_type handle) && k.m_started
    then (do
      let k1 = lock_enter k
      let id = Handle.get_id handle
      (scheduler, tasks) ← Scheduler.set_task_to_suspended k1.m_scheduler k1.m_tasks id
      let k2 : Kernel = record k1 { m_scheduler = scheduler; m_tasks = tasks }
      if Scheduler.get_current_task_id k2.m_scheduler == id
          then syscall k2 execute_context_switch
          else done (lock_leave k2))
    else done k

-- The part of `resume` for another task than the current one.
unfoldable pub resume_other : Kernel → ℕ → ℕ → Outcome Kernel
resume_other k id current = do
  (resumed, scheduler, tasks) ← Scheduler.resume_suspended_task k.m_scheduler k.m_tasks id
  let k' : Kernel = record k { m_scheduler = scheduler; m_tasks = tasks }
  if not resumed then done (lock_leave k') else (do
    current_priority ← Task.get_priority tasks current
    resumed_priority ← Task.get_priority tasks id
    if ltb (priority_value resumed_priority) (priority_value current_priority)
        then syscall k' execute_context_switch
        else done (lock_leave k'))

unfoldable pub resume : Kernel → ℕ → Outcome Kernel
resume k handle =
    if is_task (Handle.get_object_type handle) && k.m_started
    then (let k1 = lock_enter k in
        let id = Handle.get_id handle in
        let current = Scheduler.get_current_task_id k1.m_scheduler in
        if id == current then done (lock_leave k1) else resume_other k1 id current)
    else done k

-- For a short time the task spins, which changes nothing.
unfoldable pub sleep : Kernel → ℕ → Outcome Kernel
sleep k time = if leb time context_switch_interval_ms then done k else (do
  let k1 = lock_enter k
  let current = Scheduler.get_current_task_id k1.m_scheduler
  let current_time = SystemTimer.get k1.m_system_timer
  (_, scheduler, tasks) ←
      Scheduler.set_task_to_sleep k1.m_scheduler k1.m_tasks current time current_time
  syscall (record k1 { m_scheduler = scheduler; m_tasks = tasks }) execute_context_switch)

-- taskRoutine up to the call of the user's routine: the routine, its parameter and the task.
unfoldable pub task_routine_entry : Kernel → Outcome (ℕ × ℕ × ℕ × Kernel)
task_routine_entry k = do
  let k1 = lock_enter k
  let current = Scheduler.get_current_task_id k1.m_scheduler
  routine ← Task.get_routine k1.m_tasks current
  parameter ← Task.get_parameter k1.m_tasks current
  done (routine, parameter, current, lock_leave k1)

-- taskRoutine from the return of the user's routine on.
unfoldable pub task_routine_exit : Kernel → ℕ → Outcome Kernel
task_routine_exit k current_task = terminate_task k current_task

-- getTime
unfoldable pub get_time : Kernel → ℕ
get_time k = SystemTimer.get k.m_system_timer
