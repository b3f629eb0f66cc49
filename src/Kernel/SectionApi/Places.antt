-- ===== src/Kernel/SectionApi/Places.antt =====
-- The tasks on a critical section and the timer, step by step: source/kernel.cpp, namespace
-- kernel::critical_section.
use cortex_m3_rtos.Prelude.{ℕ, ◌⊎◌, ◌≡◌, Bool, true, false, done, update}
use cortex_m3_rtos.Api.{WaitResult}
use cortex_m3_rtos.Kernel.{Kernel, sys_tick_handler}
use cortex_m3_rtos.Kernel.Calls.{Step}
use cortex_m3_rtos.Kernel.SectionApi.{Section}
use cortex_m3_rtos.Kernel.SectionApi.Steps.{
  Place, outside, locks, tests, loads, stores, returns, unlocks, spins, waits, inside, leave_locks,
  leave_loads, leave_stores, leave_tests, leave_unlocks, step,
}
use cortex_m3_rtos.Kernel.Invariant.{Well}

-- The task holds the kernel lock for the section.
abbrev pub holds : Place → Bool
holds (tests _) = true
holds loads = true
holds (stores _) = true
holds returns = true
holds (unlocks _) = true
holds leave_loads = true
holds (leave_stores _) = true
holds leave_tests = true
holds leave_unlocks = true
holds _ = false

-- The task is counted in m_lockCount.
abbrev pub owns : Place → Bool
owns returns = true
owns inside = true
owns leave_locks = true
owns leave_loads = true
owns (leave_stores _) = true
owns _ = false

-- What a task that holds the lock relies on.
abbrev pub Fits : Place → ℕ → Type 0
Fits loads count = count ≡ 0
Fits (stores n) count = (count ≡ 0) × (n ≡ 1)
Fits (leave_stores n) count = n ≡ 0
Fits _ count = Unit {0}

pub Fits-free : (p : Place) (n : ℕ) → holds p ≡ false → Fits p n
Fits-free outside n e = tt
Fits-free (locks i) n e = tt
Fits-free (tests i) n e = tt
Fits-free loads n e = cc
Fits-free (stores i) n e = cc
Fits-free returns n e = tt
Fits-free (unlocks i) n e = tt
Fits-free (spins i) n e = tt
Fits-free waits n e = tt
Fits-free inside n e = tt
Fits-free leave_locks n e = tt
Fits-free leave_loads n e = tt
Fits-free (leave_stores i) n e = cc
Fits-free leave_tests n e = tt
Fits-free leave_unlocks n e = tt

-- Where the task that runs is.
abbrev pub place_of : Kernel → (ℕ → Place) → Place
place_of k places = places k.m_scheduler.m_current

-- What any number of tasks do with a section that is set up with `start`: the task that runs takes a step of
-- `enter` or `leave`, or, outside and inside, makes any other call of the API; and the system timer
-- interrupts between any two steps. Who runs is what the kernel says.
pub data Run (start : Section) : Section → Kernel → (ℕ → Place) → Type 0 where
  begin : (k : Kernel) (s : ℕ → Bool) → Well k s → Run start start k (λ _. outside)
  acts :
      {c c' : Section} {k k' : Kernel} {places : ℕ → Place} {p : Place}
      → Run start c k places
      → k.m_started ≡ true
      → step (place_of k places) c k ≡ done (p, c', k')
      → Run start c' k' (update places k.m_scheduler.m_current p)
  calls :
      {c : Section} {k k' : Kernel} {places : ℕ → Place}
      → Run start c k places
      → (place_of k places ≡ outside) ⊎ (place_of k places ≡ inside)
      → Step k k'
      → Run start c k' places
  interrupts :
      {c : Section} {k k' : Kernel} {places : ℕ → Place}
      → Run start c k places
      → k.m_started ≡ true
      → (r : WaitResult) → sys_tick_handler k r ≡ done k'
      → Run start c k' places
