-- ===== src/Scheduler/Invariant/States.antt =====
-- The operations that change the state of a task: suspending, resuming and waiting.
use cortex_m3_rtos.Prelude.{
  ℕ, ◌<◌, ◌≡◌, refl, Bool, true, false, inl, inr, some, update, Outcome, done, arith, Bool-cases,
}
use cortex_m3_rtos.Config.{max_input_signals}
use cortex_m3_rtos.Api.{TaskState, suspended, waiting, ready, is_suspended}
use cortex_m3_rtos.Task
use cortex_m3_rtos.Task.{Task}
use cortex_m3_rtos.Task.Laws.{task_at, IsTask, put, set_state-eq, get_state-eq, get_priority-eq}
use cortex_m3_rtos.ReadyList
use cortex_m3_rtos.WaitList
use cortex_m3_rtos.Scheduler.{
  Context, remove_task, resume_suspended_task, set_task_to_suspended, put_to_wait,
  set_task_to_sleep, set_task_to_wait_for_obj,
}
use cortex_m3_rtos.Scheduler.Invariant.{
  WellFormed, WaitingTasks, NotWaiting, OneMore, ReadyTasks-put, WaitingTasks-put,
  WaitingTasks-less,
}
use cortex_m3_rtos.Scheduler.Invariant.Ready.{add_ready_task-member, remove_task-Ready}
use cortex_m3_rtos.Scheduler.Invariant.Waiting.{remove_task-Waiting}
use cortex_m3_rtos.Scheduler.Invariant.Begin.{add_task_sleep-Waiting, add_task_wait_obj-Waiting}
use cortex_m3_rtos.Scheduler.Invariant.Operations.{
  ready-NotWaiting, suspended-NotWaiting, WellFormed-put, add_ready_task-WellFormed,
}

-- The tasks when the state of `id` is `x`.
abbrev pub with_state : Task.Context → ℕ → TaskState → Task.Context
with_state tasks id x = put tasks id (record (task_at tasks id) { m_state = x })

is_suspended-eq : {x : TaskState} → is_suspended x ≡ true → x ≡ suspended
is_suspended-eq e = ground arith

module _ (c : Context) (tasks : Task.Context) (s : ℕ → Bool) (h : WellFormed c tasks s) where
  -- setTaskToSuspended: the task is neither ready nor does it wait.
  pub set_task_to_suspended-WellFormed :
      (id : ℕ)
      → IsTask tasks id
      → (r' : ReadyList.Context) × (w' : WaitList.Context) × (set_task_to_suspended c tasks id
          ≡ done (record c { m_ready_list = r'; m_wait_list = w' }, with_state tasks id suspended))
        × WellFormed
            (record c { m_ready_list = r'; m_wait_list = w' })
            (with_state tasks id suspended)
            (update s id false)
        × NotWaiting w' id
  unfolding set_task_to_suspended remove_task
  set_task_to_suspended-WellFormed id used =
      let x = record (task_at tasks id) { m_state = suspended } in
      let c1 = with_state tasks id suspended in
      let (r', er, ok) =
        remove_task-Ready c.m_ready_list c1 s (ReadyTasks-put tasks s id x refl h.ready_tasks) id in
      let (w', ew, waits, gone, fewer) =
        remove_task-Waiting c.m_wait_list c1 s (WaitingTasks-put id x h.waiting_tasks) id in
      (
        r',
        w',
        rw (set_state-eq tasks id suspended used, remove_task, get_priority-eq c1 id used, er, ew),
        record {
          ready_tasks = ok;
          waiting_tasks = WaitingTasks-less id waits;
          asleep = λ i lt w. ground (arith, gone i lt w, fewer i w, h.asleep i lt (fewer i w).0);
        },
        gone,
      )

  -- resumeSuspendedTask of a suspended task that is not ready.
  pub resume-suspended :
      (id : ℕ)
      → IsTask tasks id
      → s c.m_current ≡ true
      → (task_at tasks id).m_state ≡ suspended
      → s id ≡ false
      → (r' : ReadyList.Context) × (resume_suspended_task c tasks id
          ≡ done (true, record c { m_ready_list = r' }, with_state tasks c.m_current ready))
        × WellFormed
            (record c { m_ready_list = r' })
            (with_state tasks c.m_current ready)
            (update s id true)
  unfolding resume_suspended_task
  resume-suspended id used current asleep out =
      let (r', e, ok) =
        add_ready_task-WellFormed c tasks s h id used out (suspended-NotWaiting id h asleep) in
      let x = record (task_at tasks c.m_current) { m_state = ready } in
      (
        r',
        rw (
          resume_suspended_task,
          get_state-eq tasks id used,
          asleep,
          e,
          set_state-eq tasks c.m_current ready (h.ready_tasks.used c.m_current current),
        ),
        WellFormed-put c.m_current x refl (ready-NotWaiting c.m_current h current) ok,
      )

  -- resumeSuspendedTask of any task.
  pub resume-WellFormed :
      (id : ℕ)
      → IsTask tasks id
      → s c.m_current ≡ true
      → (b : Bool) × (r' : ReadyList.Context) × (tasks' : Task.Context) × (s' : ℕ → Bool)
        × (resume_suspended_task c tasks id ≡ done (b, record c { m_ready_list = r' }, tasks'))
        × WellFormed (record c { m_ready_list = r' }) tasks' s'
        × ((j : ℕ) → s j ≡ true → s' j ≡ true)
  unfolding resume_suspended_task
  resume-WellFormed id used current = elim (Bool-cases (is_suspended (task_at tasks id).m_state)) [
    | inr awake ↦
        (false, c.m_ready_list, tasks, s, rw (get_state-eq tasks id used, awake), h, λ j e. e)
    | inl asleep ↦ elim (Bool-cases (s id)) [
      | inl member ↦
          let (r', e, ok) = add_ready_task-member c tasks s h.ready_tasks id member in
          (
            false,
            r',
            tasks,
            s,
            rw (get_state-eq tasks id used, asleep, e),
            record { ready_tasks = ok; waiting_tasks = h.waiting_tasks; asleep = h.asleep },
            λ j e. e,
          )
      | inr out ↦
          let (r', e, ok) = resume-suspended id used current (is_suspended-eq asleep) out in
          (
            true,
            r',
            with_state tasks c.m_current ready,
            update s id true,
            e,
            ok,
            λ j m. ground arith,
          )
    ]
  ]

  -- A ready task begins to wait.
  put_to_wait-WellFormed :
      (id : ℕ) (w' : WaitList.Context)
      → s id ≡ true
      → WaitingTasks w' tasks (update s id false)
      → OneMore w' c.m_wait_list id
      → (r' : ReadyList.Context) × (put_to_wait c tasks id (true, w')
          ≡ done
              (true, record c { m_ready_list = r'; m_wait_list = w' }, with_state tasks id waiting))
        × WellFormed
            (record c { m_ready_list = r'; m_wait_list = w' })
            (with_state tasks id waiting)
            (update s id false)
  unfolding put_to_wait
  put_to_wait-WellFormed id w' member waits more =
      let (r', er, ok) = remove_task-Ready c.m_ready_list tasks s h.ready_tasks id in
      let used = h.ready_tasks.used id member in
      (
        r',
        rw (get_priority-eq tasks id used, er, set_state-eq tasks id waiting used),
        record {
          ready_tasks = ReadyTasks-put tasks (update s id false) id _ refl ok;
          waiting_tasks = WaitingTasks-put id _ waits;
          asleep = λ i lt w. elim (more i w) [
            | inl here ↦ ground (arith, here)
            | inr (old, same) ↦ ground (arith, h.asleep i lt old, same)
          ];
        },
      )

  -- What a call that puts a ready task to wait comes to.
  abbrev pub Waits : ℕ → Outcome (Bool × Context × Task.Context) → Type 0
  Waits id o =
      (r' : ReadyList.Context) × (w' : WaitList.Context) × (o
        ≡ done
            (true, record c { m_ready_list = r'; m_wait_list = w' }, with_state tasks id waiting))
      × WellFormed (record c { m_ready_list = r'; m_wait_list = w' }) (with_state tasks id waiting)
          (update s id false)

  pub set_task_to_sleep-WellFormed :
      (id interval current : ℕ)
      → s id ≡ true
      → Waits id (set_task_to_sleep c tasks id interval current)
  unfolding set_task_to_sleep
  set_task_to_sleep-WellFormed id interval current member =
      let used = h.ready_tasks.used id member in
      let (w', ew, waits, more) =
        add_task_sleep-Waiting c.m_wait_list tasks s h.waiting_tasks id used member interval
          current in
      let (r', e, ok) = put_to_wait-WellFormed id w' member waits more in (r', w', rw ew e, ok)

  pub set_task_to_wait_for_obj-WellFormed :
      (id : ℕ) (signals : ℕ → ℕ) (n : ℕ) (all forever : Bool) (timeout current : ℕ)
      → s id ≡ true
      → 0 < n
      → n < max_input_signals
      → Waits id (set_task_to_wait_for_obj c tasks id (some signals) n all forever timeout current)
  unfolding set_task_to_wait_for_obj
  set_task_to_wait_for_obj-WellFormed id signals n all forever timeout current member p q =
      let used = h.ready_tasks.used id member in
      let (w', ew, waits, more) =
        add_task_wait_obj-Waiting c.m_wait_list tasks s h.waiting_tasks id used member signals n all
          forever timeout current p q in
      let (r', e, ok) = put_to_wait-WellFormed id w' member waits more in (r', w', rw ew e, ok)
