-- ===== src/Kernel/Invariant/Rotate.antt =====
-- Round robin at an interrupt of the system timer: source/kernel.cpp, tick, and the handlers of
-- source/hardware/armv7m/hardware.cpp.
use cortex_m3_rtos.Prelude.{
  ℕ, ◌≡◌, refl, Bool, true, false, inl, inr, some, ◌==◌, if◌then◌else◌, Outcome, done, halted,
  ◌>>=◌, arith, Bool-cases,
}
use cortex_m3_rtos.Api.{WaitResult}
use cortex_m3_rtos.Lock.{is_locked}
use cortex_m3_rtos.SystemTimer
use cortex_m3_rtos.Task
use cortex_m3_rtos.Task.Laws.{IsTask}
use cortex_m3_rtos.Scheduler
use cortex_m3_rtos.Scheduler.{State, get_current_task_id, get_next_task, check_wait_conditions}
use cortex_m3_rtos.Scheduler.Choice.{Handed}
use cortex_m3_rtos.Scheduler.Invariant.Choice.{IsTop}
use cortex_m3_rtos.Scheduler.Invariant.Operations.{WellFormed-same}
use cortex_m3_rtos.Scheduler.Invariant.Chosen.{get_next_task-WellFormed}
use cortex_m3_rtos.Kernel.{
  Kernel, store_context, load_context, rotate, schedule, tick, tail_chain, set_pend_sv,
  sys_tick_handler,
}
use cortex_m3_rtos.Kernel.Switch.{
  sp_saved, saved, running_on, switching, store_context-eq, load_context-eq, pend_sv-eq,
}
use cortex_m3_rtos.Kernel.Invariant.{Well}

-- What SysTick_Handler does with the result of the scheduling, with the part of `tick` behind it.
abbrev pub after_schedule : Bool × Kernel → Outcome Kernel
after_schedule (switch, k) =
    let k' : Kernel = record k { m_system_timer = SystemTimer.increment k.m_system_timer } in
    tail_chain (if switch then set_pend_sv k' else k')

joined :
    (o : Outcome (Bool × Kernel))
    → ((o >>= λ (b, k).
          done (b, record k { m_system_timer = SystemTimer.increment k.m_system_timer }))
        >>= λ (b, k). tail_chain (if b then set_pend_sv k else k))
      ≡ (o >>= after_schedule)
joined (done (b, k)) = refl
joined halted = refl

pub sys_tick_handler-eq :
    (k : Kernel) (r : WaitResult)
    → is_locked k.m_lock ≡ true
    → sys_tick_handler k r ≡ (schedule k r >>= after_schedule)
unfolding sys_tick_handler tick
sys_tick_handler-eq k r h = rw h (joined (schedule k r))

pub is_locked_free : (k : Kernel) → k.m_lock.m_interlock ≡ 0 → is_locked k.m_lock ≡ true
unfolding is_locked
is_locked_free k h = ground arith

pub no_tail : (k : Kernel) → k.cpu.pend_sv ≡ false → tail_chain k ≡ done k
unfolding tail_chain
no_tail k h = ground arith

-- The call returns, with the invariant.
abbrev pub Comes : (Kernel → Type 0) → (ℕ → Bool) → Outcome Kernel → Type 0
Comes P s o = (k' : Kernel) × (o ≡ done k') × Well k' s × P k'

-- Nothing is switched.
pub stays :
    (k : Kernel) (s : ℕ → Bool) → Well k s → Comes (λ k'. Unit {0}) s (after_schedule (false, k))
stays k s h =
    let later : Kernel = record k { m_system_timer = SystemTimer.increment k.m_system_timer } in
    (
      later,
      no_tail later h.no_switch,
      record {
        scheduled = h.scheduled;
        runs_ready = h.runs_ready;
        unlocked = h.unlocked;
        no_switch = h.no_switch;
      },
      tt,
    )

-- One of the highest priority among the ready tasks runs.
abbrev pub RunsTop : (ℕ → Bool) → Kernel → Type 0
RunsTop s k = IsTop k.m_tasks s k.m_scheduler.m_current

module _ (k : Kernel) (a : ℕ) (scheduler : Scheduler.Context) (tasks : Task.Context)
    (chosen : get_next_task k.m_scheduler k.m_tasks ≡ done (some a, scheduler, tasks)) where
  abbrev pub handed : Kernel
  handed = record k { m_scheduler = scheduler; m_tasks = tasks }

  pub rotate-stays : (k.m_scheduler.m_current == a) ≡ true → rotate k ≡ done (false, handed)
  unfolding rotate get_current_task_id
  rotate-stays itself = rw (rotate, chosen, itself) refl

  rotates :
      (k2 k3 : Kernel)
      → (k.m_scheduler.m_current == a) ≡ false
      → store_context handed k.m_scheduler.m_current ≡ done k2
      → load_context k2 a ≡ done k3
      → rotate k ≡ done (true, k3)
  unfolding rotate get_current_task_id
  rotates k2 k3 another stored loaded = rw (rotate, chosen, another, stored, loaded) refl

  pub rotate-switches :
      (k.m_scheduler.m_current == a) ≡ false
      → IsTask tasks k.m_scheduler.m_current
      → IsTask tasks a
      → rotate k ≡ done (true, switching handed k.m_scheduler.m_current a)
  rotate-switches another used_current used =
      let current = k.m_scheduler.m_current in
      let k2 : Kernel = record handed {
        m_tasks = sp_saved handed tasks current;
        current_task_context = some current;
      } in
      rotates k2 _ another (store_context-eq handed current used_current)
        (load_context-eq k2 a used)

module _ (k : Kernel) (s : ℕ → Bool) (h : Well k s) where
  -- Round robin comes to one of the highest priority among the ready tasks.
  pub rotate_returns : k.m_started ≡ true → Comes (RunsTop s) s (rotate k >>= after_schedule)
  rotate_returns started =
      let current = k.m_scheduler.m_current in
      let member = h.runs_ready started in
      let (a, r', (e, top, ok)) =
        get_next_task-WellFormed k.m_scheduler k.m_tasks s h.scheduled member in
      let scheduler : Scheduler.Context = record k.m_scheduler {
        m_current = a;
        m_next = a;
        m_ready_list = r';
      } in
      let tasks = Handed k.m_tasks current a in
      let k1 : Kernel = record k { m_scheduler = scheduler; m_tasks = tasks } in
      let later : Kernel = record k1 { m_system_timer = SystemTimer.increment k.m_system_timer } in
      elim (Bool-cases (current == a)) [
        | inl itself ↦ (
          later,
          rw (rotate-stays k a scheduler tasks e itself) (no_tail later h.no_switch),
          record {
            scheduled = ok;
            runs_ready = λ _. top.0;
            unlocked = h.unlocked;
            no_switch = h.no_switch;
          },
          (top.0, λ j m. ground (arith, top.1 j m)),
        )
        | inr another ↦
            let used = h.scheduled.ready_tasks.used in
            (
              running_on
                  (record later {
                    m_tasks = saved later tasks current;
                    current_task_context = some current;
                  })
                  a,
              rw
                  (rotate-switches k a scheduler tasks e another (used current member)
                    (used a top.0))
                  (pend_sv-eq later current a),
              record {
                scheduled = WellFormed-same current _ refl refl ok;
                runs_ready = λ _. top.0;
                unlocked = h.unlocked;
                no_switch = refl;
              },
              (top.0, λ j m. ground (arith, top.1 j m)),
            )
      ]
