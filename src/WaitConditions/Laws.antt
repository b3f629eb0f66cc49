-- ===== src/WaitConditions/Laws.antt =====
-- When a wait is over: source/scheduler/wait_conditions.hpp.
use cortex_m3_rtos.Prelude.{
  ℕ, zero, suc, ◌+◌, ◌%◌, ◌<◌, ◌≤◌, ◌≡◌, refl, ◌↔◌, inl, inr, Bool, true, false, not, ◌&&◌, arith,
  ◌∙◌, ltb, if◌then◌else◌, done, u32_mod, Outcome-cases, sub32,
}
use native.Mathlib.Decide.{ℕ_discrete}
use cortex_m3_rtos.Api.{WaitResult, object_set, timeout_occurred, wait_failed}
use cortex_m3_rtos.Handle.{Objects, test_condition}
use cortex_m3_rtos.WaitConditions.Reset.{
  IsReset, among, is_event_type, is_timer_type, reset_all-IsReset, test_condition-IsObject,
}
use cortex_m3_rtos.WaitConditions.{
  wait_for_obj, Conditions, init_sleep, Verdict, finish, test_from, test_wait_signals, check,
}

-- The object of the handle is of a supported type and is signaled.
abbrev pub IsSignaled : Objects → ℕ → Type 0
IsSignaled o handle = test_condition o handle ≡ done (true, true)

-- The rest of the first loop, in a wait for all, where every object up to there is signaled.
test_from-all :
    (n i number : ℕ) (signals : ℕ → ℕ) (v : Verdict)
    → ((k : ℕ) → i ≤ k → k < i + n → IsSignaled v.objects (signals k))
    → test_from n i number signals true true v ≡ finish number signals true true v
unfolding test_from
test_from-all zero i number signals v h = refl
test_from-all (suc n) i number signals v h =
    rw (h i (omega arith) (omega arith))
      (test_from-all n (i + 1) number signals v (λ k p q. h k (omega arith) (omega arith)))

-- The first loop, in a wait for all, up to an object at position `k` that ends it.
test_from-stops :
    (n i k number : ℕ) (signals : ℕ → ℕ) (v : Verdict) (valid : Bool)
    → i ≤ k
    → k < i + n
    → ((j : ℕ) → i ≤ j → j < k → IsSignaled v.objects (signals j))
    → test_condition v.objects (signals k) ≡ done (valid, false)
    → test_from n i number signals true true v
      ≡ done (record v { fulfilled = false; result = if valid then v.result else wait_failed })
unfolding test_from
test_from-stops zero i k number signals v valid p q h e = absurd (omega arith)
test_from-stops (suc n) i k number signals v valid p q h e = elim (ℕ_discrete i k) [
  | yes here ↦ rw (here, e) (ground arith)
  | no on ↦ rw (h i (omega arith) (omega arith)) (
      test_from-stops n (i + 1) k number signals v valid (omega arith) (omega arith)
        (λ j a b. h j (omega arith) b) e)
]

-- A wait for n objects, all of them signaled, never stops at an assertion and is over, with the result
-- ObjectSet. Every event among the n handles has lost its signal, unless it is to be reset by hand,
-- and every timer among them is stopped; no other object changes, and no queue.
pub wait_all_met :
    (n : ℕ) (signals : ℕ → ℕ) (v : Verdict)
    → ((k : ℕ) → k < n → IsSignaled v.objects (signals k))
    → (o' : Objects) × (test_wait_signals n signals true v
        ≡ done (record v { fulfilled = true; objects = o'; result = object_set }))
      × IsReset
          (λ j. among is_event_type j n 0 signals)
          (λ j. among is_timer_type j n 0 signals)
          v.objects
          o'
unfolding test_wait_signals finish
wait_all_met n signals v all =
    let (o', e, reset) = reset_all-IsReset n 0 signals v.objects (λ k _ lt.
      test_condition-IsObject v.objects (signals k) (true, true) (all k (omega arith))) in
    (o', test_from-all n 0 n signals v (λ k _ h. all k (omega arith)) ∙ rw e refl, reset)

-- A wait for all of n objects, of which the one at position k is the first that is not signaled, goes on
-- and changes no object. If the type of that object is not supported, the result is WaitFailed, but
-- the wait goes on all the same.
pub wait_all_goes_on :
    (n : ℕ) (signals : ℕ → ℕ) (v : Verdict) (k : ℕ) (valid : Bool)
    → k < n
    → ((j : ℕ) → j < k → IsSignaled v.objects (signals j))
    → test_condition v.objects (signals k) ≡ done (valid, false)
    → test_wait_signals n signals true v
      ≡ done (record v { fulfilled = false; result = if valid then v.result else wait_failed })
unfolding test_wait_signals
wait_all_goes_on n signals v k valid lt before e =
    test_from-stops n 0 k n signals v valid (omega arith) (omega arith) (λ j _ h. before j h) e

-- A wait for any of n objects, n at least 1, looks at the first handle only: it comes to the same as the wait
-- for that handle alone, whatever the other handles are and whatever state their objects have.
pub wait_any_first :
    (n : ℕ) (signals others : ℕ → ℕ) (v : Verdict)
    → 0 < n
    → others 0 ≡ signals 0
    → test_wait_signals n others false v ≡ test_wait_signals 1 signals false v
unfolding test_wait_signals test_from
wait_any_first zero signals others v h e = absurd (omega arith)
wait_any_first (suc n) signals others v h e =
    rw e (elim (Outcome-cases (test_condition v.objects (signals 0))) [
      | inl r ↦ rw r
      | inr (c, r) ↦ rw r (ground arith)
    ])

-- A task that sleeps since time s for an interval, looked at when n milliseconds, fewer than 2 ^ 32, have
-- passed, is woken with the result ObjectSet exactly if n exceeds the interval, also when the clock has
-- wrapped round; no object changes.
pub check-init_sleep :
    (c : Conditions) (o : Objects) (r : WaitResult) (s n interval i : ℕ)
    → s < u32_mod
    → n < u32_mod
    → (v : Verdict) × (check (init_sleep c interval s) o r ((s + n) % u32_mod) i ≡ done v)
      × ((v.fulfilled ≡ true) ↔ (interval < n))
      × (v.result ≡ (if v.fulfilled then object_set else r))
      × (v.objects ≡ o)
unfolding check init_sleep
check-init_sleep c o r s n interval i hs hn = (_, refl, ground arith, ground arith, ground arith)

elapsed : (s n : ℕ) → s < u32_mod → n < u32_mod → sub32 ((s + n) % u32_mod) s ≡ n
elapsed s n hs hn = omega arith

-- A wait for objects with a time limit ends with the result TimeoutOccurred when more milliseconds than its
-- interval have passed, whether or not its objects are signaled, and no object changes; in all other
-- cases it depends on the objects alone.
pub check_timeout :
    (c : Conditions) (o : Objects) (r : WaitResult) (n i : ℕ)
    → c.m_type ≡ wait_for_obj
    → c.m_start < u32_mod
    → n < u32_mod
    → let w : Verdict = record {
      fulfilled = false;
      objects = o;
      result = r;
      signaled_item_index = 0;
    } in
      check c o r ((c.m_start + n) % u32_mod) i ≡ (
        if not c.m_wait_forver && ltb c.m_interval n
        then done (record w { fulfilled = true; result = timeout_occurred })
        else test_wait_signals c.m_number_of_signals c.m_wait_signals c.m_wait_for_all_signals w)
unfolding check
check_timeout c o r n i e hs hn = rw (check, e) (ground (arith, elapsed c.m_start n hs hn))
