-- ===== src/Kernel/Invariant/Start.antt =====
-- Creating tasks and starting the kernel leave the invariant: source/kernel.cpp, kernel::init,
-- kernel::start and kernel::task::create.
use cortex_m3_rtos.Prelude.{
  ℕ, ◌≡◌, refl, Bool, true, false, inl, inr, not, ◌&&◌, Option, some, ltb, if◌then◌else◌, update,
  Outcome, done, halted, ◌>>=◌, ap, arith, Bool-cases, Outcome-cases,
}
use cortex_m3_rtos.Api.{Priority, suspended, priority_value}
use cortex_m3_rtos.Task
use cortex_m3_rtos.Task.Laws.{task_at, put, set_state-eq}
use cortex_m3_rtos.Task.Lifetime.{with_task, Creates, no_routine, no_slot, made, create-Creates}
use cortex_m3_rtos.Handle
use cortex_m3_rtos.Handle.{ObjectType}
use cortex_m3_rtos.Scheduler.{add_suspended_task, get_current_task_id}
use cortex_m3_rtos.Scheduler.Invariant.Operations.{WellFormed-put, add_ready_task-WellFormed}
use cortex_m3_rtos.Scheduler.Invariant.Lifetime.{
  unused-not_ready, unused-NotWaiting, with_task-WellFormed,
}
use cortex_m3_rtos.Kernel.{Kernel, lock_enter}
use cortex_m3_rtos.Kernel.TaskApi.{created, create, init, start}
use cortex_m3_rtos.Kernel.Calls.{kernel_third}
use cortex_m3_rtos.Kernel.Invariant.{
  Well, Locked, RunsReady, Leaves, Sound, stops, leaves, then_Leaves, lock_enter-Locked,
  lock_leave-Well,
}
use cortex_m3_rtos.Kernel.Invariant.Switch.{execute_context_switch-Sound, load_next-Sound}

created-Leaves :
    (k : Kernel) (s : ℕ → Bool) (id : ℕ) (priority : Priority) (create_suspended : Bool)
    → Locked k s
    → RunsReady k s
    → Leaves kernel_third (created k id priority create_suspended)
unfolding created get_current_task_id
created-Leaves k s id priority create_suspended h runs =
    let current = k.m_scheduler.m_current in
    elim (Outcome-cases (Task.get_priority k.m_tasks current)) [
      | inl e ↦ rw (created, e) stops
      | inr (p, e) ↦
          elim (Bool-cases (
            (k.m_started && ltb (priority_value priority) (priority_value p))
            && not create_suspended)) [
              | inl preempts ↦
                  rw (created, e, preempts)
                    (then_Leaves (λ k'. done (true, some (Handle.create ObjectType.task id), k'))
                      (execute_context_switch-Sound k s h
                        (h.scheduled.ready_tasks.used current (runs (ground arith))))
                      (λ k' s' ok. leaves _ s' ok))
              | inr stays ↦ rw (created, e, stays) (leaves _ s (lock_leave-Well h runs))
            ]
    ]

init-again : (k : Kernel) (r i : ℕ) → k.m_started ≡ true → init k r i ≡ done k
unfolding init
init-again k r i e = ground arith

-- What init does with the result of the creation.
abbrev after_create : Bool × Option ℕ × Kernel → Outcome Kernel
after_create (b, _, k) = if b then done k else halted

init-first :
    (k : Kernel) (r i : ℕ)
    → k.m_started ≡ false
    → init k r i ≡ (create k r i Priority.idle 0 false >>= after_create)
unfolding init
init-first k r i e =
    ap (λ b. if b then done k else (create k r i Priority.idle 0 false >>= after_create)) e

checked :
    {o : Outcome (Bool × Option ℕ × Kernel)} → Leaves kernel_third o → Sound (o >>= after_create)
checked stops = stops
checked (leaves (true, _, k') s' ok) = leaves k' s' ok
checked (leaves (false, _, k') s' ok) = stops

start-again : (k : Kernel) → k.m_started ≡ true → start k ≡ done k
unfolding start
start-again k e = ground arith

module _ (k : Kernel) (s : ℕ → Bool) (h : Well k s) where
  module _ (task_routine routine : ℕ) (priority : Priority) (parameter : ℕ) where
    creates :
        (create_suspended : Bool) {f : Task.Task → Task.Task}
        {o : Outcome (Option ℕ × Task.Context)}
        → Task.create k.m_tasks task_routine routine priority parameter create_suspended ≡ o
        → Creates k.m_tasks routine f o
        → Leaves kernel_third (create k task_routine routine priority parameter create_suspended)
    unfolding create lock_enter add_suspended_task
    creates b e (no_routine _) =
        rw (create, e) (leaves _ s (lock_leave-Well (lock_enter-Locked h) h.runs_ready))
    creates b e (no_slot _) =
        rw (create, e) (leaves _ s (lock_leave-Well (lock_enter-Locked h) h.runs_ready))
    creates true {f} e (made id lt free _) =
        let tasks = with_task k.m_tasks id (f (task_at k.m_tasks id)) in
        let k1 = lock_enter k in
        let k3 : Kernel = record k1 {
          m_tasks = put tasks id (record (task_at tasks id) { m_state = suspended });
        } in
        rw (create, e, add_suspended_task, set_state-eq tasks id suspended (lt, ground arith))
          (created-Leaves k3 s id priority true
            (record {
              scheduled =
                  WellFormed-put id _ refl (unused-NotWaiting id h.scheduled free)
                    (with_task-WellFormed id h.scheduled (f (task_at k.m_tasks id)) free);
              locked = (lock_enter-Locked h).locked;
              no_switch = h.no_switch;
            })
            h.runs_ready)
    creates false {f} e (made id lt free _) =
        let tasks = with_task k.m_tasks id (f (task_at k.m_tasks id)) in
        let (r', added, ok) =
          add_ready_task-WellFormed k.m_scheduler tasks s
            (with_task-WellFormed id h.scheduled (f (task_at k.m_tasks id)) free) id
            (lt, ground arith) (unused-not_ready id h.scheduled free)
            (unused-NotWaiting id h.scheduled free) in
        let k1 = lock_enter k in
        let k3 : Kernel = record k1 {
          m_tasks = tasks;
          m_scheduler = record k.m_scheduler { m_ready_list = r' };
        } in
        rw (create, e, added)
          (created-Leaves k3 (update s id true) id priority false
            (record {
              scheduled = ok;
              locked = (lock_enter-Locked h).locked;
              no_switch = h.no_switch;
            })
            (λ x. ground (arith, h.runs_ready x)))

    pub create-Leaves :
        (create_suspended : Bool)
        → Leaves kernel_third (create k task_routine routine priority parameter create_suspended)
    create-Leaves b =
        creates b refl (create-Creates k.m_tasks task_routine routine priority parameter b)

  pub init-Sound : (task_routine idle_routine : ℕ) → Sound (init k task_routine idle_routine)
  unfolding init
  init-Sound task_routine idle_routine = elim (Bool-cases k.m_started) [
    | inl e ↦ rw (init-again k task_routine idle_routine e) (leaves k s h)
    | inr e ↦
        rw (init-first k task_routine idle_routine e)
          (checked (create-Leaves task_routine idle_routine Priority.idle 0 false))
  ]

  pub start-Sound : Sound (start k)
  unfolding start lock_enter
  start-Sound = elim (Bool-cases k.m_started) [
    | inl e ↦ rw (start-again k e) (leaves k s h)
    | inr e ↦
        let k1 : Kernel = record (lock_enter k) { m_started = true } in
        rw (start, e)
          (load_next-Sound k1 s (record {
            scheduled = h.scheduled;
            locked = (lock_enter-Locked h).locked;
            no_switch = h.no_switch;
          }))
  ]
