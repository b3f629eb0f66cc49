-- ===== src/Kernel/SectionApi/Consistent.antt =====
-- What is true of the tasks on a critical section between any two steps: source/kernel.cpp, namespace
-- kernel::critical_section.
use cortex_m3_rtos.Prelude.{ℕ, ◌≡◌, ◌≢◌, refl, Bool, true, false, arith, update, ◌==◌, ap, sym, ◌∙◌}
use native.Mathlib.Decide.{ℕ_discrete}
use cortex_m3_rtos.Handle.{Objects}
use cortex_m3_rtos.Kernel.{Kernel, lock_enter, lock_leave}
use cortex_m3_rtos.Kernel.SectionApi.{Section}
use cortex_m3_rtos.Kernel.SectionApi.Steps.{Place}
use cortex_m3_rtos.Kernel.Invariant.{Well, Locked, RunsReady, lock_enter-Locked, lock_leave-Well}
use cortex_m3_rtos.Kernel.Invariant.Objects.{Locked-objects}
use cortex_m3_rtos.Kernel.SectionApi.Places.{holds, owns, Fits, place_of}

-- The kernel lock is free, and no task holds it; or the task that runs holds it, and no other.
pub data Mode (k : Kernel) (places : ℕ → Place) : Type 0 where
  free : ((t : ℕ) → holds (places t) ≡ false) → (s : ℕ → Bool) → Well k s → Mode k places
  held :
      holds (place_of k places) ≡ true
      → ((t : ℕ) → holds (places t) ≡ true → t ≡ k.m_scheduler.m_current)
      → (s : ℕ → Bool) → Locked k s
      → RunsReady k s
      → Mode k places

-- The count says whether a task has the section.
pub data Count (n : ℕ) (places : ℕ → Place) : Type 0 where
  nobody : n ≡ 0 → ((t : ℕ) → owns (places t) ≡ false) → Count n places
  one : n ≡ 1 → (o : ℕ) → ((t : ℕ) → owns (places t) ≡ true → t ≡ o) → Count n places

pub record Consistent (c : Section) (k : Kernel) (places : ℕ → Place) : Type 0 where
  pub mode : Mode k places
  pub count : Count c.m_lock_count places
  pub fits : Fits (place_of k places) c.m_lock_count

-- A test on all tasks, when task `i` moves.
pub all_false :
    (f : Place → Bool) (places : ℕ → Place) (i : ℕ) (p : Place)
    → ((t : ℕ) → t ≢ i → f (places t) ≡ false)
    → f p ≡ false
    → (t : ℕ) → f (update places i p t) ≡ false
all_false f places i p h e t = elim (ℕ_discrete i t) [
  | yes q ↦ let same : (i == t) ≡ true = ground arith in rw same e
  | no ne ↦ let other : (i == t) ≡ false = ground arith in rw other (h t (λ x. ne (sym x)))
]

only_at :
    (f : Place → Bool) (places : ℕ → Place) (i o : ℕ) (p : Place)
    → ((t : ℕ) → t ≢ i → f (places t) ≡ true → t ≡ o)
    → (f p ≡ true → i ≡ o)
    → (t : ℕ) → f (update places i p t) ≡ true
    → t ≡ o
only_at f places i o p h e t q = elim (ℕ_discrete i t) [
  | yes x ↦ let same : update places i p t ≡ p = ground arith in sym x ∙ e (ap f (sym same) ∙ q)
  | no ne ↦
      let other : update places i p t ≡ places t = ground arith in
      h t (λ x. ne (sym x)) (ap f (sym other) ∙ q)
]

not_true : (b : Bool) → (b ≡ true → ⊥) → b ≡ false
not_true true h = absurd (h refl)
not_true false h = refl

pub at_place : (places : ℕ → Place) (i : ℕ) (p : Place) → update places i p i ≡ p
at_place places i p = ground arith

module _ (k : Kernel) (places : ℕ → Place) (p : Place) where
  abbrev pub moved : ℕ → Place
  moved = update places k.m_scheduler.m_current p

  -- Outside the lock the kernel has its invariant.
  pub Mode-Well :
      Mode k places
      → holds (place_of k places) ≡ false
      → ((t : ℕ) → holds (places t) ≡ false) × (s : ℕ → Bool) × Well k s
  Mode-Well (free no_task s h) e = (no_task, s, h)
  Mode-Well (held mine others s h runs) e = cc

  pub Mode-stays :
      Mode k places → holds (place_of k places) ≡ false → holds p ≡ false → Mode k moved
  Mode-stays m e e' =
      let (no_task, s, h) = Mode-Well m e in
      free (all_false holds places k.m_scheduler.m_current p (λ t _. no_task t) e') s h

  pub Mode-locks :
      Mode k places → holds (place_of k places) ≡ false → holds p ≡ true → Mode (lock_enter k) moved
  unfolding lock_enter
  Mode-locks m e e' =
      let i = k.m_scheduler.m_current in
      let (no_task, s, h) = Mode-Well m e in
      held (ap holds (at_place places i p) ∙ e')
        (only_at holds places i i p (λ t _ q. let n = no_task t in cc) (λ _. refl)) s
        (lock_enter-Locked h) h.runs_ready

  -- Under the lock; the events may change.
  pub Mode-goes_on :
      (o : Objects)
      → Mode k places
      → holds (place_of k places) ≡ true
      → holds p ≡ true
      → Mode (record k { m_objects = o }) moved
  Mode-goes_on o (free no_task s h) e e' = let n = no_task k.m_scheduler.m_current in cc
  Mode-goes_on o (held mine others s h runs) e e' =
      let i = k.m_scheduler.m_current in
      held (ap holds (at_place places i p) ∙ e')
        (only_at holds places i i p (λ t _ q. others t q) (λ _. refl)) s (Locked-objects o h) runs

  pub Mode-unlocks :
      Mode k places → holds (place_of k places) ≡ true → holds p ≡ false → Mode (lock_leave k) moved
  Mode-unlocks (free no_task s h) e e' = let n = no_task k.m_scheduler.m_current in cc
  Mode-unlocks (held mine others s h runs) e e' =
      free
        (all_false holds places k.m_scheduler.m_current p
          (λ t ne. not_true (holds (places t)) (λ q. ne (others t q))) e')
        s (lock_leave-Well h runs)

  -- The task that runs has the section as before.
  pub Count-same : (n : ℕ) → Count n places → owns (place_of k places) ≡ owns p → Count n moved
  Count-same n (nobody e no_task) same =
      let i = k.m_scheduler.m_current in
      nobody e (all_false owns places i p (λ t _. no_task t) (sym same ∙ no_task i))
  Count-same n (one e o others) same =
      let i = k.m_scheduler.m_current in
      one e o (only_at owns places i o p (λ t _ q. others t q) (λ q. others i (same ∙ q)))

  pub Count-enters : (n m : ℕ) → Count n places → n ≡ 0 → m ≡ 1 → Count m moved
  Count-enters n m (one e o others) z e' = absurd (omega (arith, e, z))
  Count-enters n m (nobody e no_task) z e' =
      let i = k.m_scheduler.m_current in
      one e' i (only_at owns places i i p (λ t _ q. let x = no_task t in cc) (λ _. refl))

  pub Count-leaves :
      (n m : ℕ)
      → Count n places
      → owns (place_of k places) ≡ true
      → m ≡ 0
      → owns p ≡ false
      → Count m moved
  Count-leaves n m (nobody e no_task) mine z e' = let x = no_task k.m_scheduler.m_current in cc
  Count-leaves n m (one e o others) mine z e' =
      let i = k.m_scheduler.m_current in
      nobody z (
        all_false owns places i p
          (λ t ne. not_true (owns (places t)) (λ q. ne (others t q ∙ sym (others i mine)))) e')

pub Count-one : (n i : ℕ) (places : ℕ → Place) → Count n places → owns (places i) ≡ true → n ≡ 1
Count-one n i places (nobody e no_task) mine = let x = no_task i in cc
Count-one n i places (one e o others) mine = e

pub Count-unique :
    (n : ℕ) (places : ℕ → Place)
    → Count n places
    → (a b : ℕ) → owns (places a) ≡ true
    → owns (places b) ≡ true
    → a ≡ b
Count-unique n places (nobody e no_task) a b ea eb = let x = no_task a in cc
Count-unique n places (one e o others) a b ea eb = others a ea ∙ sym (others b eb)
