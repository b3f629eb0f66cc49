-- ===== src/Kernel/Invariant/Create.antt =====
-- What kernel::task::create does once the kernel has started: source/kernel.cpp.
use cortex_m3_rtos.Prelude.{
  ℕ, ◌<◌, ◌≡◌, ◌≢◌, refl, Bool, true, false, inl, inr, not, ◌&&◌, Option, some, ltb, if◌then◌else◌,
  update, Outcome, done, arith, Bool-cases,
}
use cortex_m3_rtos.Config.{max_tasks}
use cortex_m3_rtos.Api.{Priority, priority_value}
use cortex_m3_rtos.Task
use cortex_m3_rtos.Task.Laws.{level_of, task_at, get_priority-eq}
use cortex_m3_rtos.Task.Lifetime.{
  with_task, start, Creates, no_routine, no_slot, made, create-Creates,
}
use cortex_m3_rtos.Handle
use cortex_m3_rtos.Handle.{ObjectType}
use cortex_m3_rtos.Scheduler.{get_current_task_id}
use cortex_m3_rtos.Scheduler.Invariant.Choice.{IsTop}
use cortex_m3_rtos.Scheduler.Invariant.Operations.{add_ready_task-WellFormed}
use cortex_m3_rtos.Scheduler.Invariant.Lifetime.{
  unused-not_ready, unused-NotWaiting, with_task-WellFormed,
}
use cortex_m3_rtos.Kernel.{Kernel, lock_enter, lock_leave}
use cortex_m3_rtos.Kernel.TaskApi.{created, create}
use cortex_m3_rtos.Kernel.Invariant.{Well, Locked, lock_enter-Locked, lock_leave-Well}
use cortex_m3_rtos.Kernel.Invariant.Switch.{execute_context_switch_returns}

-- What the creation of task `id` comes to, in a kernel whose tasks are `tasks`, where those of `s` are ready
-- and `current` runs: a task of a higher priority than the running one is switched to, unless there
-- is an even higher one.
abbrev pub Created :
    Task.Context → (ℕ → Bool) → ℕ → ℕ → Priority → Outcome (Bool × Option ℕ × Kernel) → Type 0
Created tasks s current id priority o =
    (k' : Kernel) × (o ≡ done (true, some (Handle.create ObjectType.task id), k'))
    × Well k' s
    × (if ltb (priority_value priority) (level_of tasks current)
        then IsTop tasks s k'.m_scheduler.m_current
        else (k'.m_scheduler.m_current ≡ current))

created-Created :
    (k : Kernel) (s : ℕ → Bool) (id : ℕ) (priority : Priority)
    → Locked k s
    → k.m_started ≡ true
    → s k.m_scheduler.m_current ≡ true
    → Created k.m_tasks s k.m_scheduler.m_current id priority (created k id priority false)
unfolding created get_current_task_id lock_leave
created-Created k s id priority h started member =
    let current = k.m_scheduler.m_current in
    let used = h.scheduled.ready_tasks.used current member in
    let higher = ltb (priority_value priority) (level_of k.m_tasks current) in
    let read = get_priority-eq k.m_tasks current used in
    elim (Bool-cases higher) [
      | inl yes_higher ↦
          let switches : ((k.m_started && higher) && not false) ≡ true =
            ground (arith, started, yes_higher) in
          let (k', e, ok, top, _) = execute_context_switch_returns k s h current member used in
          (k', rw (created, read, switches, e) refl, ok, rw yes_higher top)
      | inr lower ↦
          let stays : ((k.m_started && higher) && not false) ≡ false = ground (arith, lower) in
          (
            lock_leave k,
            rw (created, read, stays) refl,
            lock_leave-Well h (λ _. member),
            rw lower refl,
          )
    ]

module _ (k : Kernel) (s : ℕ → Bool) (h : Well k s) (started : k.m_started ≡ true)
    (task_routine routine : ℕ) (priority : Priority) (parameter : ℕ) where
  -- The tasks with the new one in slot `id`.
  abbrev pub with_new : ℕ → Task.Context
  with_new id =
      with_task k.m_tasks id
        (start k.m_tasks task_routine routine priority parameter false (task_at k.m_tasks id))

  made-Created :
      {o : Outcome (Option ℕ × Task.Context)}
      → routine ≢ 0
      → (j : ℕ) → j < max_tasks
      → k.m_tasks.m_data.m_status j ≡ false
      → Task.create k.m_tasks task_routine routine priority parameter false ≡ o
      → Creates k.m_tasks routine (start k.m_tasks task_routine routine priority parameter false) o
      → (id : ℕ) × (id < max_tasks)
        × (k.m_tasks.m_data.m_status id ≡ false)
        × Created
            (with_new id)
            (update s id true)
            k.m_scheduler.m_current
            id
            priority
            (create k task_routine routine priority parameter false)
  unfolding create lock_enter
  made-Created some_routine j lt free e (no_routine none_given) = absurd (some_routine none_given)
  made-Created some_routine j lt free e (no_slot full) = absurd (ground (arith, full j lt, free))
  made-Created some_routine j lt free e (made id small unused before) =
      let tasks = with_new id in
      let (r', added, ok) =
        add_ready_task-WellFormed k.m_scheduler tasks s
          (with_task-WellFormed id h.scheduled
            (start k.m_tasks task_routine routine priority parameter false (task_at k.m_tasks id))
            unused)
          id (small, ground arith) (unused-not_ready id h.scheduled unused)
          (unused-NotWaiting id h.scheduled unused) in
      let k1 = lock_enter k in
      let k3 : Kernel = record k1 {
        m_tasks = tasks;
        m_scheduler = record k.m_scheduler { m_ready_list = r' };
      } in
      let (k', q, ok', chosen) =
        created-Created k3 (update s id true) id priority
          (record {
            scheduled = ok;
            locked = (lock_enter-Locked h).locked;
            no_switch = h.no_switch;
          })
          started (ground (arith, h.runs_ready started)) in
      (id, small, unused, (k', rw (create, e, added) q, ok', chosen))

  -- Creating a task, not a suspended one, in a state with the invariant of the kernel, when it has started,
  -- with a routine and while a slot is free, never stops at an assertion, and leaves the invariant. The
  -- new task gets a slot that was free, is ready, and its handle is returned. If its
  -- priority is higher than the running task's, one of the highest priority among the ready tasks
  -- runs behind the call, else the task goes on that runs.
  pub create_preempts :
      (free_slot : ℕ)
      → routine ≢ 0
      → free_slot < max_tasks
      → k.m_tasks.m_data.m_status free_slot ≡ false
      → (id : ℕ) × (id < max_tasks)
        × (k.m_tasks.m_data.m_status id ≡ false)
        × Created
            (with_new id)
            (update s id true)
            k.m_scheduler.m_current
            id
            priority
            (create k task_routine routine priority parameter false)
  create_preempts free_slot some_routine lt free =
      made-Created some_routine free_slot lt free refl
        (create-Creates k.m_tasks task_routine routine priority parameter false)
