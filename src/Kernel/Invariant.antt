-- ===== src/Kernel/Invariant.antt =====
-- The invariant of the kernel between the calls of its API and its interrupts.
pub mod Switch
pub mod Tasks
pub mod Start
pub mod Create
pub mod Resume
pub mod Sync
pub mod Rotate
pub mod Ticks
pub mod Objects
pub mod Sections
pub mod Sleep
pub mod Leaving
pub mod WaitEnd
pub mod Signaled
pub mod SectionWake
pub mod Reachable
pub mod Examples
use cortex_m3_rtos.Prelude.{ℕ, ◌≡◌, Bool, true, false, Outcome, done, halted, ◌>>=◌}
use cortex_m3_rtos.Lock.Laws.{enter_free, leave_once}
use cortex_m3_rtos.Scheduler.Invariant.{WellFormed}
use cortex_m3_rtos.Kernel.{Kernel, lock_enter, lock_leave}

-- Once the kernel has started, the task that runs is one of those that are ready.
abbrev pub RunsReady : Kernel → (ℕ → Bool) → Type 0
RunsReady k s = k.m_started ≡ true → s k.m_scheduler.m_current ≡ true

-- The scheduler is well-formed, with `s` the set of the ready tasks, of which the running one is one; nobody
-- holds the kernel lock, and no PendSV is pending.
pub record Well (k : Kernel) (s : ℕ → Bool) : Type 0 where
  pub scheduled : WellFormed k.m_scheduler k.m_tasks s
  pub runs_ready : RunsReady k s
  pub unlocked : k.m_lock.m_interlock ≡ 0
  pub no_switch : k.cpu.pend_sv ≡ false

-- The same inside a function of the API, which holds the lock. Here the current task may be one that has
-- just ceased to be ready.
pub record Locked (k : Kernel) (s : ℕ → Bool) : Type 0 where
  pub scheduled : WellFormed k.m_scheduler k.m_tasks s
  pub locked : k.m_lock.m_interlock ≡ 1
  pub no_switch : k.cpu.pend_sv ≡ false

pub lock_enter-Locked : {k : Kernel} {s : ℕ → Bool} → Well k s → Locked (lock_enter k) s
unfolding lock_enter
lock_enter-Locked {k} h = record {
  scheduled = h.scheduled;
  locked = enter_free k.m_lock h.unlocked;
  no_switch = h.no_switch;
}

pub lock_leave-Well :
    {k : Kernel} {s : ℕ → Bool} → Locked k s → RunsReady k s → Well (lock_leave k) s
unfolding lock_leave
lock_leave-Well {k} h runs = record {
  scheduled = h.scheduled;
  runs_ready = runs;
  unlocked = leave_once k.m_lock h.locked;
  no_switch = h.no_switch;
}

-- A call stops the processor, or leaves the invariant; `kernel_of` takes the kernel from its results.
pub data Leaves {A : Type 0} (kernel_of : A → Kernel) : Outcome A → Type 0 where
  stops : Leaves kernel_of halted
  leaves : (a : A) (s : ℕ → Bool) → Well (kernel_of a) s → Leaves kernel_of (done a)

-- A call whose result is the kernel.
abbrev pub Sound : Outcome Kernel → Type 0
Sound o = Leaves (λ k. k) o

-- What follows such a call.
pub then_Leaves :
    {A : Type 0} {kernel_of : A → Kernel} {o : Outcome Kernel} (f : Kernel → Outcome A)
    → Sound o
    → ((k : Kernel) (s : ℕ → Bool) → Well k s → Leaves kernel_of (f k))
    → Leaves kernel_of (o >>= f)
then_Leaves f stops h = stops
then_Leaves f (leaves k s ok) h = h k s ok
