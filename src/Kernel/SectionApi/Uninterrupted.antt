-- ===== src/Kernel/SectionApi/Uninterrupted.antt =====
-- The steps of `leave` and of a round of `enter` that nothing interrupts come to what the functions do:
-- source/kernel.cpp, namespace kernel::critical_section.
use cortex_m3_rtos.Prelude.{
  ℕ, zero, suc, ◌≡◌, refl, inl, inr, ◌==◌, Outcome, done, ◌>>=◌, sub32, arith, Bool-cases,
  Outcome-cases,
}
use cortex_m3_rtos.Event
use cortex_m3_rtos.Handle
use cortex_m3_rtos.Kernel.{Kernel, lock_enter}
use cortex_m3_rtos.Kernel.SectionApi.{Section, entered, enter_round, leave}
use cortex_m3_rtos.Kernel.SectionApi.Steps.{
  Place, outside, locks, inside, leave_locks, signal, step,
}

-- `n` steps.
unfoldable pub steps : ℕ → Place → Section → Kernel → Outcome (Place × Section × Kernel)
steps zero p c k = done (p, c, k)
steps (suc n) p c k = do (p', c', k') ← step p c k; steps n p' c' k'

-- Entering a free section.
enter_round-steps :
    (i : ℕ) (c c' : Section) (k k' : Kernel)
    → c.m_lock_count ≡ 0
    → enter_round k c i ≡ done (entered, c', k')
    → steps 5 (locks i) c k ≡ done (inside, c', k')
unfolding steps step enter_round
enter_round-steps i c c' k k' z e = ground (arith, z, e)

leave-steps :
    (c : Section) (k : Kernel)
    → steps 5 leave_locks c k ≡ (leave k c >>= λ (c', k'). done (outside, c', k'))
unfolding steps step leave signal lock_enter
leave-steps c k = elim (Bool-cases (0 == sub32 c.m_lock_count 1)) [
  | inr e ↦ rw (leave, e) refl
  | inl e ↦ elim (Outcome-cases (Event.set_event k.m_objects.events (Handle.get_id c.m_event))) [
    | inl r ↦ rw (leave, e, r) refl
    | inr (events, r) ↦ rw (leave, e, r) refl
  ]
]
