-- ===== src/Kernel/SectionApi/Exclusion.antt =====
-- Mutual exclusion by a critical section: source/kernel.cpp, namespace kernel::critical_section.
use cortex_m3_rtos.Prelude.{
  ℕ, ◌≡◌, refl, Bool, true, false, inl, inr, done, arith, ◌+◌, ◌%◌, u32_mod, sym, ◌∙◌, subst,
}
use cortex_m3_rtos.Api.{WaitResult}
use cortex_m3_rtos.Kernel.{Kernel, sys_tick_handler}
use cortex_m3_rtos.Kernel.Calls.{here, later}
use cortex_m3_rtos.Kernel.Ticks.{at_time, locked_tick}
use cortex_m3_rtos.Kernel.SectionApi.{Section}
use cortex_m3_rtos.Kernel.SectionApi.Steps.{Place, outside, inside}
use cortex_m3_rtos.Kernel.SectionApi.Places.{
  holds, Fits-free, place_of, Run, begin, acts, calls, interrupts,
}
use cortex_m3_rtos.Kernel.SectionApi.Consistent.{
  Mode, free, held, nobody, Consistent, moved, Mode-Well, Count-one, Count-unique,
}
use cortex_m3_rtos.Kernel.Invariant.{Well}
use cortex_m3_rtos.Kernel.Invariant.WaitEnd.{done-injective}
use cortex_m3_rtos.Kernel.Invariant.Reachable.{Reachable-Well, done-Well}
use cortex_m3_rtos.Kernel.Invariant.Ticks.{sys_tick_handler-Sound}
use cortex_m3_rtos.Kernel.SectionApi.Moves.{Moves, moves, stepped}

-- What a step that returns has led to.
moves-done :
    (k : Kernel) (places : ℕ → Place) {p : Place} {c' : Section} {k' : Kernel}
    → Moves k places (done (p, c', k'))
    → Consistent c' k' (moved k places p)
moves-done k places (moves p c' k' h) = h

-- The state between two steps, when no task holds the lock for the section.
between :
    (c : Section) (k k' : Kernel) (places : ℕ → Place) (s : ℕ → Bool)
    → Consistent c k places
    → holds (place_of k places) ≡ false
    → Well k' s
    → Consistent c k' places
between c k k' places s h e ok =
    let (no_task, _, _) = Mode-Well k places outside h.mode e in
    record {
      mode = free no_task s ok;
      count = h.count;
      fits =
          Fits-free (places k'.m_scheduler.m_current) c.m_lock_count
            (no_task k'.m_scheduler.m_current);
    }

-- The timer may interrupt anywhere.
interrupted :
    (c : Section) (k k' : Kernel) (places : ℕ → Place) (r : WaitResult)
    → Consistent c k places
    → k.m_started ≡ true
    → sys_tick_handler k r ≡ done k'
    → Consistent c k' places
interrupted c k k' places r h started e = go h.mode
  where
    go : Mode k places → Consistent c k' places
    go (free no_task s ok) =
        let (s', ok') = done-Well k' (sys_tick_handler-Sound k s r ok started) e in
        between c k k' places s' h (no_task k.m_scheduler.m_current) ok'
    go (held mine others s locked runs) =
        let time = (k.m_system_timer.m_current_time + 1) % u32_mod in
        let same : at_time k time ≡ k' = done-injective (
          sym (locked_tick k r (λ z. absurd (omega (arith, z, locked.locked))) locked.no_switch)
          ∙ e) in
        subst (λ x. Consistent c x places) same
          (record {
            mode =
                held mine others s
                  (record {
                    scheduled = locked.scheduled;
                    locked = locked.locked;
                    no_switch = locked.no_switch;
                  })
                  runs;
            count = h.count;
            fits = h.fits;
          })

Run-Consistent :
    {start c : Section} {k : Kernel} {places : ℕ → Place}
    → start.m_lock_count ≡ 0
    → Run start c k places
    → Consistent c k places
Run-Consistent z (begin k s h) = record {
  mode = free (λ t. refl) s h;
  count = nobody z (λ t. refl);
  fits = tt;
}
Run-Consistent z (acts {c} {c'} {k} {k'} {places} {p} run started e) =
    let h = Run-Consistent z run in
    moves-done k places
      (subst (Moves k places) e (stepped c k places h started (place_of k places) refl))
Run-Consistent z (calls {c} {k} {k'} {places} run away e) =
    let h = Run-Consistent z run in
    let not_held : holds (place_of k places) ≡ false = elim away [
      | inl q ↦ rw q refl
      | inr q ↦ rw q refl
    ] in
    let (_, s, ok) = Mode-Well k places outside h.mode not_held in
    let (s', ok') = Reachable-Well ok (later here e) in between c k k' places s' h not_held ok'
Run-Consistent z (interrupts {c} {k} {k'} {places} run started r e) =
    interrupted c k k' places r (Run-Consistent z run) started e

-- Whatever any number of tasks do with a section, set up with count 0, from a state with the invariant of
-- the kernel on: the task that runs takes a step of `enter` or `leave`, once the kernel has started, or
-- makes another call of the API, as one step, where it is outside or inside; and the system timer
-- may interrupt between any two steps, under the kernel lock too. At every moment, if tasks a and b are both inside, they are
-- the same task, and the lock count is 1.
pub mutual_exclusion :
    {start c : Section} {k : Kernel} {places : ℕ → Place} (a b : ℕ)
    → start.m_lock_count ≡ 0
    → Run start c k places
    → places a ≡ inside
    → places b ≡ inside
    → (a ≡ b) × (c.m_lock_count ≡ 1)
mutual_exclusion {c} {places} a b z run ea eb =
    let h = Run-Consistent z run in
    (
      Count-unique c.m_lock_count places h.count a b (rw ea refl) (rw eb refl),
      Count-one c.m_lock_count a places h.count (rw ea refl),
    )
