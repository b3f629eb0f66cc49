-- ===== src/Kernel/Invariant/Ticks.antt =====
-- The system timer's interrupt leaves the invariant: source/kernel.cpp, tick.
pub mod Examples
use cortex_m3_rtos.Prelude.{
  ℕ, ◌<◌, ◌≡◌, refl, Bool, true, false, inl, inr, if◌then◌else◌, Outcome, done, ◌>>=◌, arith,
  Bool-cases,
}
use cortex_m3_rtos.Api.{WaitResult}
use cortex_m3_rtos.SystemTimer
use cortex_m3_rtos.Timer
use cortex_m3_rtos.Timer.Laws.{tick_lem}
use cortex_m3_rtos.Scheduler.{State}
use cortex_m3_rtos.Scheduler.Invariant.Conditions.{Keeps, keeps, check_wait_conditions-Keeps}
use cortex_m3_rtos.Scheduler.Invariant.Total.{
  ObjectsExist, ObjectsExist-kept, check_wait_conditions_returns,
}
use cortex_m3_rtos.WaitConditions.Total.{is_due}
use cortex_m3_rtos.Scheduler.Invariant.{is_waiting, waiter}
use cortex_m3_rtos.Config.{max_tasks}
use cortex_m3_rtos.Handle.Alive.{SameSlots}
use cortex_m3_rtos.Kernel.{Kernel, rotate, schedule, sys_tick_handler}
use cortex_m3_rtos.Kernel.Invariant.{Well, Leaves, Sound, leaves}
use cortex_m3_rtos.Kernel.Invariant.Rotate.{
  after_schedule, sys_tick_handler-eq, is_locked_free, Comes, stays, RunsTop, rotate_returns,
}

-- What `tick` does behind checkWaitConditions.
abbrev after_conditions : Kernel → State → Outcome (Bool × Kernel)
after_conditions k s =
    let (elapsed, system_timer) = SystemTimer.is_interval_elapsed k.m_system_timer in
    let k' : Kernel = record k {
      m_scheduler = s.scheduler;
      m_tasks = s.tasks;
      m_objects = s.objects;
      m_system_timer = system_timer;
    } in
    if elapsed then rotate k' else done (false, k')

-- The kernel behind checkWaitConditions.
abbrev checked : Kernel → State → Kernel
checked k st = record k {
  m_scheduler = st.scheduler;
  m_tasks = st.tasks;
  m_objects = st.objects;
  m_system_timer = (SystemTimer.is_interval_elapsed k.m_system_timer).1;
}

-- The part of the interrupt behind checkWaitConditions. When the round-robin interval has passed, it
-- comes to a task of the highest priority.
scheduled_returns :
    (k : Kernel) (s : ℕ → Bool) (st : State)
    → Well (checked k st) s
    → k.m_started ≡ true
    → Comes
        (λ k'. (SystemTimer.is_interval_elapsed k.m_system_timer).0 ≡ true → RunsTop s k')
        s
        (after_conditions k st >>= after_schedule)
scheduled_returns k s st h started =
    elim (Bool-cases (SystemTimer.is_interval_elapsed k.m_system_timer).0) [
      | inl e ↦
          let (k', q, ok, top) = rotate_returns (checked k st) s h started in
          (k', rw e q, ok, λ _. top)
      | inr e ↦
          let (k', q, ok, _) = stays (checked k st) s h in
          (k', rw e q, ok, λ elapsed. absurd (ground (arith, e, elapsed)))
    ]

scheduled-Sound :
    (k : Kernel) (s : ℕ → Bool) (timers : Timer.Context) {o : Outcome State}
    → Well k s
    → k.m_started ≡ true
    → let st : State = record {
      scheduler = k.m_scheduler;
      tasks = k.m_tasks;
      objects = record k.m_objects { timers = timers };
    } in
      Keeps st s o → Sound (o >>= after_conditions k >>= after_schedule)
scheduled-Sound k s timers h started Keeps.stops = Leaves.stops
scheduled-Sound k s timers h started (keeps st' s' ok same more) =
    let well : Well (checked k st') s' = record {
      scheduled = ok;
      runs_ready = λ x. rw same (more k.m_scheduler.m_current (h.runs_ready x));
      unlocked = h.unlocked;
      no_switch = h.no_switch;
    } in
    let (k', q, well', _) = scheduled_returns k s' st' well started in rw q (leaves k' s' well')

module _ (k : Kernel) (s : ℕ → Bool) (r : WaitResult) (h : Well k s)
    (started : k.m_started ≡ true) where
  -- The contexts that checkWaitConditions is called with.
  abbrev ticked : Timer.Context → State
  ticked timers = record {
    scheduler = k.m_scheduler;
    tasks = k.m_tasks;
    objects = record k.m_objects { timers = timers };
  }

  -- An interrupt of the system timer, once the kernel has started.
  pub sys_tick_handler-Sound : Sound (sys_tick_handler k r)
  unfolding schedule
  sys_tick_handler-Sound =
      let now = SystemTimer.get k.m_system_timer in
      let (timers, e, _, _, _) = tick_lem k.m_objects.timers now in
      rw (sys_tick_handler-eq k r (is_locked_free k h.unlocked), schedule, e)
        (scheduled-Sound k s timers h started
          (check_wait_conditions-Keeps (ticked timers) s r now h.scheduled))

  -- An interrupt of the system timer, in a state with the invariant of the kernel, when it has started and
  -- the objects that are waited for exist, never stops at an assertion, and leaves the invariant. Every task that was ready still is, and the tasks
  -- get ready that sleep, or wait with a time limit, and whose time is over. When the round-robin
  -- interval has passed, one of the highest priority among the ready tasks runs behind it.
  pub sys_tick_handler_lem :
      ObjectsExist k.m_scheduler.m_wait_list k.m_objects
      → let w = k.m_scheduler.m_wait_list in
        (k' : Kernel) × (s' : ℕ → Bool) × (sys_tick_handler k r ≡ done k')
        × Well k' s'
        × ((j : ℕ) → s j ≡ true → s' j ≡ true)
        × ((i : ℕ)
            → i < max_tasks
            → is_waiting w i ≡ true
            → is_due (w.m_list.m_data i).m_conditions k.m_system_timer.m_current_time ≡ true
            → s' (waiter w i) ≡ true)
        × ((SystemTimer.is_interval_elapsed k.m_system_timer).0 ≡ true → RunsTop s' k')
  unfolding schedule SystemTimer.get
  sys_tick_handler_lem exist =
      let now = SystemTimer.get k.m_system_timer in
      let (timers, e, status, _, _) = tick_lem k.m_objects.timers now in
      let st = ticked timers in
      let same : SameSlots k.m_objects st.objects = record {
        events = λ j. refl;
        timers = status;
        queues = λ j. refl;
      } in
      let (st', s', q, looked) =
        check_wait_conditions_returns st s r now h.scheduled
          (ObjectsExist-kept k.m_scheduler.m_wait_list same exist) in
      let well : Well (checked k st') s' = record {
        scheduled = looked.well_formed;
        runs_ready = λ x. rw looked.current (looked.more k.m_scheduler.m_current (h.runs_ready x));
        unlocked = h.unlocked;
        no_switch = h.no_switch;
      } in
      let (k', q', well', top) = scheduled_returns k s' st' well started in
      (
        k',
        s',
        rw (sys_tick_handler-eq k r (is_locked_free k h.unlocked), schedule, e, q) q',
        well',
        looked.more,
        λ i lt waits due. looked.woken i (omega arith) (omega arith) waits due,
        top,
      )
