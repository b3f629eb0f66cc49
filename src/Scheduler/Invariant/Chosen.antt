-- ===== src/Scheduler/Invariant/Chosen.antt =====
-- The choice of the task that runs keeps the scheduler well-formed.
use cortex_m3_rtos.Prelude.{ℕ, ◌≡◌, refl, Bool, true, some, done}
use cortex_m3_rtos.Api.{ready, running}
use cortex_m3_rtos.Task
use cortex_m3_rtos.Task.{Task}
use cortex_m3_rtos.Task.Laws.{task_at}
use cortex_m3_rtos.ReadyList
use cortex_m3_rtos.Scheduler.{Context, get_next_task, get_current_task}
use cortex_m3_rtos.Scheduler.Choice.{Handed}
use cortex_m3_rtos.Scheduler.Invariant.{WellFormed}
use cortex_m3_rtos.Scheduler.Invariant.Choice.{IsTop, get_next_task-IsTop, get_current_task-IsTop}
use cortex_m3_rtos.Scheduler.Invariant.Operations.{ready-NotWaiting, WellFormed-put}
use cortex_m3_rtos.Scheduler.Invariant.States.{with_state}

module _ (c : Context) (tasks : Task.Context) (s : ℕ → Bool) (h : WellFormed c tasks s) where
  -- With the current task ready, getNextTask chooses one of the highest priority among the ready tasks.
  pub get_next_task-WellFormed :
      s c.m_current ≡ true
      → (a : ℕ) × (r' : ReadyList.Context) × let c' : Context = record c {
        m_current = a;
        m_next = a;
        m_ready_list = r';
      } in
          (get_next_task c tasks ≡ done (some a, c', Handed tasks c.m_current a))
          × IsTop tasks s a
          × WellFormed c' (Handed tasks c.m_current a) s
  get_next_task-WellFormed current =
      let used = h.ready_tasks.used c.m_current current in
      let (a, r', e, top, ok) =
        get_next_task-IsTop tasks s c.m_current current c h.ready_tasks used in
      let x = record (task_at tasks c.m_current) { m_state = ready } in
      let h' : WellFormed (record c { m_current = a; m_next = a; m_ready_list = r' }) tasks s =
        record { ready_tasks = ok; waiting_tasks = h.waiting_tasks; asleep = h.asleep } in
      (
        a,
        r',
        (
          e,
          top,
          WellFormed-put a _ refl (ready-NotWaiting a h top.0)
              (WellFormed-put c.m_current x refl (ready-NotWaiting c.m_current h current) h'),
        ),
      )

  -- With a task ready, getCurrentTask chooses one of the highest priority among the ready tasks.
  pub get_current_task-WellFormed :
      (one : ℕ)
      → s one ≡ true
      → (a : ℕ) × let c' : Context = record c { m_current = a; m_next = a } in
          (get_current_task c tasks ≡ done (some a, c', with_state tasks a running))
          × IsTop tasks s a
          × WellFormed c' (with_state tasks a running) s
  get_current_task-WellFormed one member =
      let (a, e, top) = get_current_task-IsTop tasks s one member c h.ready_tasks in
      let h' : WellFormed (record c { m_current = a; m_next = a }) tasks s = record {
        ready_tasks = h.ready_tasks;
        waiting_tasks = h.waiting_tasks;
        asleep = h.asleep;
      } in
      (a, (e, top, WellFormed-put a _ refl (ready-NotWaiting a h top.0) h'))
