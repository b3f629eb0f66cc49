-- ===== src/Kernel/SectionApi/Moves.antt =====
-- Every step of a task on a critical section keeps the tasks consistent: source/kernel.cpp, namespace
-- kernel::critical_section.
use cortex_m3_rtos.Prelude.{
  ℕ, ◌≡◌, refl, Bool, true, false, inl, inr, Option, none, some, Outcome, done, halted, ◌>>=◌,
  arith, Outcome-cases, Bool-cases, leb, ◌==◌, add32, sub32, ap, sym, ◌∙◌, subst,
}
use cortex_m3_rtos.Api.{WaitResult, object_set, timeout_occurred}
use cortex_m3_rtos.Event
use cortex_m3_rtos.Handle
use cortex_m3_rtos.Kernel.{Kernel, lock_enter, lock_leave}
use cortex_m3_rtos.Kernel.Calls.{kernel_second, kernel_third}
use cortex_m3_rtos.Kernel.EventApi.{put_events}
use cortex_m3_rtos.Kernel.SyncApi.{wait_single_begin}
use cortex_m3_rtos.Kernel.SectionApi.{Section}
use cortex_m3_rtos.Kernel.SectionApi.Steps.{
  Place, outside, locks, tests, loads, stores, returns, unlocks, spins, waits, inside, leave_locks,
  leave_loads, leave_stores, leave_tests, leave_unlocks, start_wait, end_wait, signal, step,
}
use cortex_m3_rtos.Kernel.SectionApi.Places.{holds, owns, Fits, Fits-free, place_of}
use cortex_m3_rtos.Kernel.SectionApi.Consistent.{
  Mode, free, Count, Consistent, moved, Mode-Well, Mode-stays, Mode-locks, Mode-goes_on,
  Mode-unlocks, Count-same, Count-enters, Count-leaves, Count-one, at_place, all_false,
}
use cortex_m3_rtos.Kernel.Invariant.{Well, Leaves, stops, leaves}
use cortex_m3_rtos.Kernel.Invariant.Sync.{wait_begin-Leaves, wait_end-Leaves}

-- A step of the task that runs stops the processor, or keeps the tasks consistent.
pub data Moves (k : Kernel) (places : ℕ → Place) : Outcome (Place × Section × Kernel) → Type 0 where
  stopped : Moves k places halted
  moves :
      (p : Place) (c' : Section) (k' : Kernel)
      → Consistent c' k' (moved k places p)
      → Moves k places (done (p, c', k'))

module _ (c : Section) (k : Kernel) (places : ℕ → Place) (h : Consistent c k places)
    (started : k.m_started ≡ true) where
  abbrev at : Place
  at = place_of k places

  -- The step, when the task that runs stays the same.
  goes_to :
      (p : Place) (c' : Section) (k' : Kernel)
      → k'.m_scheduler.m_current ≡ k.m_scheduler.m_current
      → Mode k' (moved k places p)
      → Count c'.m_lock_count (moved k places p)
      → Fits p c'.m_lock_count
      → Moves k places (done (p, c', k'))
  goes_to p c' k' same mode count fits = moves p c' k' (record {
    mode = mode;
    count = count;
    fits =
        subst (λ x. Fits x c'.m_lock_count)
          (sym (ap (moved k places p) same ∙ at_place places k.m_scheduler.m_current p)) fits;
  })

  -- A step outside the lock, and one that ends in another task.
  stays :
      (p : Place)
      → holds at ≡ false
      → holds p ≡ false
      → owns at ≡ owns p
      → Moves k places (done (p, c, k))
  stays p e e' same =
      goes_to p c k refl (Mode-stays k places p h.mode e e')
        (Count-same k places p c.m_lock_count h.count same) (Fits-free p c.m_lock_count e')

  leads_to :
      (p : Place) (k' : Kernel) (s : ℕ → Bool)
      → holds at ≡ false
      → holds p ≡ false
      → owns at ≡ owns p
      → Well k' s
      → Moves k places (done (p, c, k'))
  leads_to p k' s e e' same ok =
      let (no_task, _, _) = Mode-Well k places p h.mode e in
      let all = all_false holds places k.m_scheduler.m_current p (λ t _. no_task t) e' in
      moves p c k' (record {
        mode = free all s ok;
        count = Count-same k places p c.m_lock_count h.count same;
        fits =
            Fits-free (moved k places p k'.m_scheduler.m_current) c.m_lock_count
              (all k'.m_scheduler.m_current);
      })

  takes :
      (p : Place)
      → holds at ≡ false
      → holds p ≡ true
      → owns at ≡ owns p
      → Fits p c.m_lock_count
      → Moves k places (done (p, c, lock_enter k))
  unfolding lock_enter
  takes p e e' same fits =
      goes_to p c (lock_enter k) refl (Mode-locks k places p h.mode e e')
        (Count-same k places p c.m_lock_count h.count same) fits

  goes_on :
      (p : Place)
      → holds at ≡ true
      → holds p ≡ true
      → owns at ≡ owns p
      → Fits p c.m_lock_count
      → Moves k places (done (p, c, k))
  goes_on p e e' same fits =
      goes_to p c k refl (Mode-goes_on k places p k.m_objects h.mode e e')
        (Count-same k places p c.m_lock_count h.count same) fits

  releases :
      (p : Place)
      → holds at ≡ true
      → holds p ≡ false
      → owns at ≡ owns p
      → Moves k places (done (p, c, lock_leave k))
  unfolding lock_leave
  releases p e e' same =
      goes_to p c (lock_leave k) refl (Mode-unlocks k places p h.mode e e')
        (Count-same k places p c.m_lock_count h.count same) (Fits-free p c.m_lock_count e')

  well : holds at ≡ false → (s : ℕ → Bool) × Well k s
  well e = let (_, s, ok) = Mode-Well k places at h.mode e in (s, ok)

  starts_wait : holds at ≡ false → owns at ≡ false → Moves k places (start_wait c k)
  unfolding start_wait wait_single_begin
  starts_wait e o =
      let (s, ok) = well e in
      waited (wait_begin-Leaves k s ok (some (λ _. c.m_event)) 1 false true 0 started)
    where
      waited :
          {r : Outcome (Option WaitResult × Kernel)}
          → Leaves kernel_second r
          → Moves k places (
              r >>= λ (returned, k'). elim returned [
                | none ↦ done (waits, c, k')
                | some x ↦ halted
              ])
      waited stops = stopped
      waited (leaves (none, k') s ok) = leads_to waits k' s e refl o ok
      waited (leaves (some x, k') s ok) = stopped

  ends_wait : at ≡ waits → Moves k places (end_wait c k)
  unfolding end_wait
  ends_wait e = let (s, ok) = well (rw e refl) in ended (wait_end-Leaves k s ok)
    where
      ended :
          {r : Outcome (WaitResult × ℕ × Kernel)}
          → Leaves kernel_third r
          → Moves k places (
              r >>= λ (result, index, k'). elim result [
                | object_set ↦ done (locks 0, c, k')
                | _ ↦ halted
              ])
      ended stops = stopped
      ended (leaves (object_set, n, k') s ok) =
          leads_to (locks 0) k' s (rw e refl) refl (rw e refl) ok
      ended (leaves (timeout_occurred, n, k') s ok) = stopped
      ended (leaves (_, n, k') s ok) = stopped

  signals : at ≡ leave_tests → Moves k places (signal c k)
  unfolding signal
  signals e = elim (Outcome-cases (Event.set_event k.m_objects.events (Handle.get_id c.m_event))) [
    | inl r ↦ rw r stopped
    | inr (events, r) ↦
        let o = record k.m_objects { events = events } in
        rw r (
          goes_to leave_unlocks c (put_events k events) refl
            (Mode-goes_on k places leave_unlocks o h.mode (rw e refl) refl)
            (Count-same k places leave_unlocks c.m_lock_count h.count (rw e refl)) tt)
  ]

  -- Every step keeps the tasks consistent.
  pub stepped : (q : Place) → at ≡ q → Moves k places (step q c k)
  unfolding step
  stepped outside e = stays (locks 0) (rw e refl) refl (rw e refl)
  stepped (locks i) e = takes (tests i) (rw e refl) refl (rw e refl) tt
  stepped (tests i) e = elim (Bool-cases (0 == c.m_lock_count)) [
    | inl z ↦ rw z (goes_on loads (rw e refl) refl (rw e refl) (ground arith))
    | inr nz ↦ rw nz (goes_on (unlocks i) (rw e refl) refl (rw e refl) tt)
  ]
  stepped loads e =
      let zero_count : c.m_lock_count ≡ 0 = subst (λ x. Fits x c.m_lock_count) e h.fits in
      goes_on (stores (add32 c.m_lock_count 1)) (rw e refl) refl (rw e refl)
        (zero_count, omega (arith, zero_count))
  stepped (stores n) e =
      let (z, o) : (c.m_lock_count ≡ 0) × (n ≡ 1) = subst (λ x. Fits x c.m_lock_count) e h.fits in
      goes_to returns (record c { m_lock_count = n }) k refl
        (Mode-goes_on k places returns k.m_objects h.mode (rw e refl) refl)
        (Count-enters k places returns c.m_lock_count n h.count z o) tt
  stepped returns e = releases inside (rw e refl) refl (rw e refl)
  stepped (unlocks i) e = releases (spins i) (rw e refl) refl (rw e refl)
  stepped (spins i) e = elim (Bool-cases (leb c.m_spin_lock i)) [
    | inl over ↦ rw over (starts_wait (rw e refl) (rw e refl))
    | inr more ↦ rw more (stays (locks (add32 i 1)) (rw e refl) refl (rw e refl))
  ]
  stepped waits e = ends_wait e
  stepped inside e = stays leave_locks (rw e refl) refl (rw e refl)
  stepped leave_locks e = takes leave_loads (rw e refl) refl (rw e refl) tt
  stepped leave_loads e =
      let one_count : c.m_lock_count ≡ 1 =
        Count-one c.m_lock_count k.m_scheduler.m_current places h.count (rw e refl) in
      goes_on (leave_stores (sub32 c.m_lock_count 1)) (rw e refl) refl (rw e refl)
        (omega (arith, one_count))
  stepped (leave_stores n) e =
      let z : n ≡ 0 = subst (λ x. Fits x c.m_lock_count) e h.fits in
      goes_to leave_tests (record c { m_lock_count = n }) k refl
        (Mode-goes_on k places leave_tests k.m_objects h.mode (rw e refl) refl)
        (Count-leaves k places leave_tests c.m_lock_count n h.count (rw e refl) z refl) tt
  stepped leave_tests e = elim (Bool-cases (0 == c.m_lock_count)) [
    | inl z ↦ rw z (signals e)
    | inr nz ↦ rw nz (goes_on leave_unlocks (rw e refl) refl (rw e refl) tt)
  ]
  stepped leave_unlocks e = releases outside (rw e refl) refl (rw e refl)
