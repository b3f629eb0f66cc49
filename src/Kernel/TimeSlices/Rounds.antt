-- ===== src/Kernel/TimeSlices/Rounds.antt =====
-- Time slices: the interrupts of the system timer, source/kernel.cpp, tick, while the same tasks are ready.
use cortex_m3_rtos.Prelude.{
  ℕ, zero, suc, ◌+◌, ◌*◌, ◌%◌, ◌<◌, ◌≤◌, ◌≡◌, refl, false, some, done, arith, sym, ◌∙◌, ap, subst,
}
use native.Mathlib.Nat.{mod-lt}
use cortex_m3_rtos.Api.{WaitResult}
use cortex_m3_rtos.Config.{context_switch_interval_ms}
use cortex_m3_rtos.SystemTimer
use cortex_m3_rtos.Task
use cortex_m3_rtos.Task.Laws.{IsTask}
use cortex_m3_rtos.Scheduler
use cortex_m3_rtos.Scheduler.{State, check_slot, check_from, check_wait_conditions, get_next_task}
use cortex_m3_rtos.Scheduler.Choice.{AreReady, IsHighest, Handed}
use cortex_m3_rtos.ReadyList.Ready.{size}
use cortex_m3_rtos.Scheduler.Turns.{id_at, reaches, turned, list, step, RunsAlone, Handed-RunsAlone}
use cortex_m3_rtos.ReadyList.Ready.Turns.{mod-suc, mod-zero}
use cortex_m3_rtos.Kernel.{Kernel, sys_tick_handler}
use cortex_m3_rtos.Kernel.Ticks.{ticks}
use cortex_m3_rtos.Kernel.Invariant.Rotate.{no_tail}
use cortex_m3_rtos.Kernel.TimeSlices.{
  Nobody, SameTasks, rotated, interrupted, IsPhase, IsPhase-goes_on, IsPhase-ends, ticks_add,
  one_tick,
}

module _ (c : Scheduler.Context) (node : ℕ → ℕ → ℕ) (p : ℕ → ℕ) (q : ℕ)
    (all : AreReady c.m_ready_list node p) (highest : IsHighest c.m_ready_list q)
    (nobody : Nobody c) where
  abbrev pub count : ℕ
  count = size (list c node p q all highest)

  abbrev pub task : ℕ → ℕ
  task j = id_at c node p q all highest j

  -- The task at position `j` of its list runs, for `d` milliseconds now.
  pub record InSlice (d j : ℕ) (k : Kernel) : Type 0 where
    pub scheduler : k.m_scheduler ≡ turned c node p q all highest j
    pub position : j < count
    pub phase : IsPhase d k.m_system_timer
    pub free : k.m_lock.m_interlock ≡ 0
    pub clear : k.cpu.pend_sv ≡ false
    pub used : (i : ℕ) → i < count → IsTask k.m_tasks (task i)
    pub alone : RunsAlone k.m_tasks (task j)

  tick-InSlice :
      (d j : ℕ) (k : Kernel) (r : WaitResult)
      → InSlice d j k
      → d ≤ context_switch_interval_ms
      → (k' : Kernel) × (sys_tick_handler k r ≡ done k') × InSlice (d + 1) j k'
  tick-InSlice d j k r h lt =
      let (objects, e) = interrupted k r h.free (rw h.scheduler nobody) in
      let (still, phase) = IsPhase-goes_on d k.m_system_timer h.phase lt in
      let k1 : Kernel = record k {
        m_objects = objects;
        m_system_timer = SystemTimer.increment k.m_system_timer;
      } in
      (
        k1,
        e ∙ rw still (no_tail k1 h.clear),
        record {
          scheduler = h.scheduler;
          position = h.position;
          phase = phase;
          free = h.free;
          clear = h.clear;
          used = h.used;
          alone = h.alone;
        },
      )

  RunsAlone-same :
      (tasks tasks' : Task.Context) (a : ℕ)
      → SameTasks tasks tasks'
      → RunsAlone tasks a
      → RunsAlone tasks' a
  RunsAlone-same tasks tasks' a same (e, others) =
      (same.state a ∙ e, λ j used s. others j (sym (same.status j) ∙ used) (sym (same.state j) ∙ s))

  tick_at_end :
      (j : ℕ) (k : Kernel) (r : WaitResult)
      → InSlice (context_switch_interval_ms + 1) j k
      → (k' : Kernel) × (sys_tick_handler k r ≡ done k') × InSlice 1 ((j + 1) % count) k'
  tick_at_end j k r h =
      let next = (j + 1) % count in
      let inside : next < count = mod-lt (j + 1) (omega (arith, h.position)) in
      let (objects, e) = interrupted k r h.free (rw h.scheduler nobody) in
      let (ends, phase) = IsPhase-ends k.m_system_timer h.phase in
      let t : SystemTimer.Context = record k.m_system_timer {
        m_old_time = k.m_system_timer.m_current_time;
      } in
      let k1 : Kernel = record k { m_objects = objects; m_system_timer = t } in
      let tasks = Handed k.m_tasks (task j) (task next) in
      let chosen : get_next_task k1.m_scheduler k1.m_tasks
          ≡ done (some (task next), turned c node p q all highest next, tasks) =
        rw h.scheduler (
          step c node p q all highest k.m_tasks j h.position (h.used j h.position)
            (h.used next inside)) in
      let (k', run, after) =
        rotated k1 (task next) (turned c node p q all highest next) tasks chosen h.clear
          (rw h.scheduler (h.used j h.position)) (h.used next inside) in
      (
        k',
        e ∙ rw ends run,
        record {
          scheduler = after.scheduler;
          position = inside;
          phase = rw after.timer phase;
          free = rw after.lock h.free;
          clear = after.clear;
          used = λ i lt. ((h.used i lt).0, after.same_tasks.status (task i) ∙ (h.used i lt).1);
          alone =
              RunsAlone-same tasks k'.m_tasks (task next) after.same_tasks
                (Handed-RunsAlone k.m_tasks (task j) (task next) h.alone.1);
        },
      )

  abbrev Runs : ℕ → ℕ → ℕ → Kernel → WaitResult → Type 0
  Runs n d j k r = (k' : Kernel) × (ticks n k r ≡ done k') × InSlice d j k'

  then-Runs :
      (m n d e i j : ℕ) (k : Kernel) (r : WaitResult)
      → Runs m d i k r
      → ((k' : Kernel) → InSlice d i k' → Runs n e j k' r)
      → Runs (m + n) e j k r
  then-Runs m n d e i j k r (k', run, h) rest =
      let (k'', run', h') = rest k' h in (k'', ticks_add m n k r ∙ rw run run', h')

  -- The part of a slice behind its first `d` milliseconds.
  in_slice :
      (n d j : ℕ) (k : Kernel) (r : WaitResult)
      → InSlice d j k
      → d + n ≤ context_switch_interval_ms + 1
      → Runs n (d + n) j k r
  unfolding ticks
  in_slice zero d j k r h lt = (k, refl, subst (λ x. InSlice x j k) (omega arith) h)
  in_slice (suc n) d j k r h lt =
      let (k', run, h') = tick-InSlice d j k r h (omega (arith, lt)) in
      let (k'', run', h'') = in_slice n (d + 1) j k' r h' (omega (arith, lt)) in
      (k'', rw run run', subst (λ x. InSlice x j k'') (omega arith) h'')

  one_slice :
      (j : ℕ) (k : Kernel) (r : WaitResult)
      → InSlice 1 j k
      → Runs (context_switch_interval_ms + 1) 1 ((j + 1) % count) k r
  one_slice j k r h =
      let d = context_switch_interval_ms + 1 in
      then-Runs context_switch_interval_ms 1 d 1 j ((j + 1) % count) k r
        (in_slice context_switch_interval_ms 1 j k r h (omega arith))
        (λ k' h'.
          let (k'', run, after) = tick_at_end j k' r h' in (k'', one_tick k' r ∙ run, after))

  slices :
      (n j : ℕ) (k : Kernel) (r : WaitResult)
      → InSlice 1 j k
      → Runs (n * (context_switch_interval_ms + 1)) 1 ((j + n) % count) k r
  unfolding ticks
  slices zero j k r h = (k, refl, subst (λ x. InSlice 1 x k) (mod-zero count j h.position) h)
  slices (suc n) j k r h =
      let end : ((j + 1) % count + n) % count ≡ (j + suc n) % count =
        mod-suc count j n ∙ ap (λ i. (j + i) % count) (omega arith) in
      subst (λ i. Runs (suc n * (context_switch_interval_ms + 1)) 1 i k r) end
        (subst (λ m. Runs m 1 (((j + 1) % count + n) % count) k r) (omega arith)
          (then-Runs (context_switch_interval_ms + 1) (n * (context_switch_interval_ms + 1)) 1 1
            ((j + 1) % count) _ k r (one_slice j k r h)
            (λ k' h'. slices n ((j + 1) % count) k' r h')))

  -- While nobody waits and no task calls the kernel, the task at position j of the list of the highest
  -- priority with a task ready has begun its slice, the lists of all priorities are well-formed, no task
  -- else runs, the lock is free and no PendSV is pending: the interrupts of the system timer never stop at
  -- an assertion, and the task n places behind position j, counted round the list, runs alone in the
  -- slice from interrupt n * (interval + 1) on, for all of its interval + 1 milliseconds. Every
  -- task of that list gets a slice within as many slices as it has tasks.
  pub time_slices :
      (j : ℕ) (k : Kernel) (r : WaitResult)
      → InSlice 1 j k
      → ((n m : ℕ)
          → m ≤ context_switch_interval_ms
          → (k' : Kernel) × (ticks (n * (context_switch_interval_ms + 1) + m) k r ≡ done k')
            × InSlice (1 + m) ((j + n) % count) k')
        × ((i : ℕ) → i < count → (l : ℕ) × (l < count) × ((j + suc l) % count ≡ i))
  time_slices j k r h = (
    λ n m lt.
        then-Runs (n * (context_switch_interval_ms + 1)) m 1 (1 + m) ((j + n) % count)
          ((j + n) % count) k r (slices n j k r h)
          (λ k' h'. in_slice m 1 ((j + n) % count) k' r h' (omega (arith, lt))),
    λ i lt. reaches c node p q all highest j i h.position lt,
  )
