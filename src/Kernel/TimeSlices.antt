-- ===== src/Kernel/TimeSlices.antt =====
-- An interrupt of the system timer, source/kernel.cpp, tick, while nobody waits, within a round-robin
-- interval and at its end.
pub mod Rounds
mod Examples
use cortex_m3_rtos.Prelude.{
  bind_assoc, ℕ, zero, suc, ◌+◌, ◌-◌, ◌*◌, ◌%◌, ◌<◌, ◌≤◌, ◌≡◌, refl, Bool, true, false, inl, inr,
  some, ◌==◌, if◌then◌else◌, Outcome, done, halted, ◌>>=◌, arith, Bool-cases, u32_mod, sym, ◌∙◌, ap,
  update, subst, fun_ext,
}
use native.Mathlib.Decide.{ℕ_discrete}
use native.Mathlib.Nat.{mod-lt}
use cortex_m3_rtos.Api.{WaitResult, running}
use cortex_m3_rtos.Config.{max_tasks, context_switch_interval_ms}
use cortex_m3_rtos.MemoryBuffer.{is_allocated}
use cortex_m3_rtos.SystemTimer
use cortex_m3_rtos.Handle.{Objects}
use cortex_m3_rtos.Timer
use cortex_m3_rtos.Timer.Laws.{tick_lem}
use cortex_m3_rtos.Task
use cortex_m3_rtos.Task.Laws.{IsTask, task_at, put}
use cortex_m3_rtos.Scheduler
use cortex_m3_rtos.Scheduler.{State, check_slot, check_from, check_wait_conditions, get_next_task}
use cortex_m3_rtos.Scheduler.Choice.{AreReady, IsHighest, Handed}
use cortex_m3_rtos.ReadyList.Ready.{size}
use cortex_m3_rtos.Scheduler.Turns.{id_at, reaches, turned, list, step, RunsAlone, Handed-RunsAlone}
use cortex_m3_rtos.ReadyList.Ready.Turns.{mod-suc, mod-zero}
use cortex_m3_rtos.Kernel.{Kernel, rotate, schedule, sys_tick_handler}
use cortex_m3_rtos.Kernel.Switch.{saved, running_on, pend_sv-eq}
use cortex_m3_rtos.Kernel.Ticks.{ticks}
use cortex_m3_rtos.Kernel.Invariant.Rotate.{
  after_schedule, sys_tick_handler-eq, is_locked_free, no_tail, handed, rotate-stays,
  rotate-switches,
}

abbrev pub Nobody : Scheduler.Context → Type 0
Nobody c = (i : ℕ) → c.m_wait_list.m_list.m_status i ≡ false

-- With nobody waiting, checkWaitConditions does nothing.
check_from-nobody :
    (n i : ℕ) (s : State) (r : WaitResult) (t : ℕ)
    → Nobody s.scheduler
    → i + n ≡ max_tasks
    → check_from n i s r t ≡ done s
unfolding check_from check_slot is_allocated
check_from-nobody zero i s r t h e = refl
check_from-nobody (suc n) i s r t h e =
    let looked : check_slot s r t i ≡ done s = ground (arith, h i) in
    rw looked (check_from-nobody n (i + 1) s r t h (omega arith))

-- What the scheduling and a switch leave of a task: its state, and that it is in use.
pub record SameTasks (tasks tasks' : Task.Context) : Type 0 where
  pub status : (j : ℕ) → tasks'.m_data.m_status j ≡ tasks.m_data.m_status j
  pub state : (j : ℕ) → (task_at tasks' j).m_state ≡ (task_at tasks j).m_state

saved-SameTasks : (k : Kernel) (tasks : Task.Context) (a : ℕ) → SameTasks tasks (saved k tasks a)
saved-SameTasks k tasks a = record {
  status = λ j. refl;
  state = λ j. elim (ℕ_discrete a j) [
    | yes e ↦ let same : (a == j) ≡ true = ground arith in rw (same, e) refl
    | no ne ↦ let other : (a == j) ≡ false = ground arith in rw other refl
  ];
}

-- The kernel behind the interrupt.
pub record After (k : Kernel) (c : Scheduler.Context) (tasks : Task.Context)
    (t : SystemTimer.Context) (k' : Kernel) : Type 0 where
  pub scheduler : k'.m_scheduler ≡ c
  pub same_tasks : SameTasks tasks k'.m_tasks
  pub timer : k'.m_system_timer ≡ SystemTimer.increment t
  pub lock : k'.m_lock ≡ k.m_lock
  pub clear : k'.cpu.pend_sv ≡ false

pub rotated :
    (k : Kernel) (a : ℕ) (scheduler : Scheduler.Context) (tasks : Task.Context)
    → get_next_task k.m_scheduler k.m_tasks ≡ done (some a, scheduler, tasks)
    → k.cpu.pend_sv ≡ false
    → IsTask tasks k.m_scheduler.m_current
    → IsTask tasks a
    → (k' : Kernel) × ((rotate k >>= after_schedule) ≡ done k')
      × After k scheduler tasks k.m_system_timer k'
rotated k a scheduler tasks e clear used_current used =
    let current = k.m_scheduler.m_current in
    let k1 : Kernel = record k { m_scheduler = scheduler; m_tasks = tasks } in
    let later : Kernel = record k1 { m_system_timer = SystemTimer.increment k.m_system_timer } in
    elim (Bool-cases (current == a)) [
      | inl itself ↦ (
        later,
        rw (rotate-stays k a scheduler tasks e itself) (no_tail later clear),
        record {
          scheduler = refl;
          same_tasks = record { status = λ j. refl; state = λ j. refl };
          timer = refl;
          lock = refl;
          clear = clear;
        },
      )
      | inr another ↦ (
        running_on
            (record later {
              m_tasks = saved later tasks current;
              current_task_context = some current;
            })
            a,
        rw (rotate-switches k a scheduler tasks e another used_current used)
            (pend_sv-eq later current a),
        record {
          scheduler = refl;
          same_tasks = saved-SameTasks later tasks current;
          timer = refl;
          lock = refl;
          clear = refl;
        },
      )
    ]

-- An interrupt with nobody waiting: the timers, and the round-robin interval.
pub interrupted :
    (k : Kernel) (r : WaitResult)
    → k.m_lock.m_interlock ≡ 0
    → Nobody k.m_scheduler
    → let (elapsed, t) = SystemTimer.is_interval_elapsed k.m_system_timer in
      (objects : Objects) × (let k1 : Kernel = record k {
        m_objects = objects;
        m_system_timer = t;
      } in
        sys_tick_handler k r
        ≡ ((if elapsed then rotate k1 else done (false, k1)) >>= after_schedule))
unfolding schedule check_wait_conditions
interrupted k r free nobody =
    let now = SystemTimer.get k.m_system_timer in
    let (timers, e, _, _, _) = tick_lem k.m_objects.timers now in
    let objects = record k.m_objects { timers = timers } in
    (
      objects,
      rw
          (
            sys_tick_handler-eq k r (is_locked_free k free),
            e,
            check_from-nobody max_tasks 0
                (record { scheduler = k.m_scheduler; tasks = k.m_tasks; objects = objects }) r now
                nobody refl,
          )
          refl,
    )

-- The clock is `d` milliseconds behind the time stamp of the round-robin interval.
abbrev pub IsPhase : ℕ → SystemTimer.Context → Type 0
IsPhase d t = (t.m_old_time < u32_mod) × (t.m_current_time ≡ (t.m_old_time + d) % u32_mod)

pub IsPhase-goes_on :
    (d : ℕ) (t : SystemTimer.Context)
    → IsPhase d t
    → d ≤ context_switch_interval_ms
    → (SystemTimer.is_interval_elapsed t ≡ (false, t)) × IsPhase (d + 1) (SystemTimer.increment t)
unfolding SystemTimer.is_interval_elapsed SystemTimer.increment
IsPhase-goes_on d t (lt, e) h = (ground (arith, e), (lt, omega (arith, e)))

pub IsPhase-ends :
    (t : SystemTimer.Context)
    → let d = context_switch_interval_ms + 1 in
      IsPhase d t
      → let t' : SystemTimer.Context = record t { m_old_time = t.m_current_time } in
        (SystemTimer.is_interval_elapsed t ≡ (true, t')) × IsPhase 1 (SystemTimer.increment t')
unfolding SystemTimer.is_interval_elapsed SystemTimer.increment
IsPhase-ends t (lt, e) = (ground (arith, e), (omega (arith, e), omega arith))

bind_done : (o : Outcome Kernel) → (o >>= done) ≡ o
bind_done (done k) = refl
bind_done halted = refl

pub ticks_add :
    (m n : ℕ) (k : Kernel) (r : WaitResult)
    → ticks (m + n) k r ≡ (ticks m k r >>= λ k'. ticks n k' r)
unfolding ticks
ticks_add zero n k r = let e : 0 + n ≡ n = omega arith in ap (λ x. ticks x k r) e
ticks_add (suc m) n k r =
    let e : suc m + n ≡ suc (m + n) = omega arith in
    ap (λ x. ticks x k r) e
    ∙ ap (λ f. sys_tick_handler k r >>= f) (fun_ext λ k'. ticks_add m n k' r)
    ∙ sym (bind_assoc (sys_tick_handler k r) (λ k'. ticks m k' r) (λ k'. ticks n k' r))

pub one_tick : (k : Kernel) (r : WaitResult) → ticks 1 k r ≡ sys_tick_handler k r
unfolding ticks
one_tick k r = bind_done (sys_tick_handler k r)
