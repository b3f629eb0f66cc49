-- ===== src/WaitConditions/Total.antt =====
-- A look at a wait whose objects exist never stops at an assertion: source/scheduler/wait_conditions.hpp.
use cortex_m3_rtos.Prelude.{
  ℕ, zero, suc, ◌+◌, ◌<◌, ◌≡◌, refl, ◌⊎◌, inl, inr, Bool, true, false, not, ◌&&◌, if◌then◌else◌,
  Outcome, done, halted, ap, sym, ◌∙◌, arith, Bool-cases,
}
use cortex_m3_rtos.Api.{WaitResult, object_set, timeout_occurred, wait_failed}
use cortex_m3_rtos.Handle.{Objects}
use cortex_m3_rtos.Handle.Alive.{IsObject, SameSlots, SameSlots-refl, test_condition_returns}
use cortex_m3_rtos.WaitConditions.Reset.{
  among, among-false, is_event_type, IsReset-SameSlots, reset_all-IsReset, reset_state-IsReset,
}
use cortex_m3_rtos.WaitConditions.{
  WaitType, sleep, wait_for_obj, Conditions, is_over, Verdict, finish, test_from, test_wait_signals,
  check,
}

-- The events in slots that no handle names stay as they are.
abbrev pub Spares : ℕ → (ℕ → ℕ) → Objects → Objects → Type 0
Spares n signals o o' =
    (j : ℕ)
    → among is_event_type j n 0 signals ≡ false
    → o'.events.m_data.m_data j ≡ o.events.m_data.m_data j

-- The call returns, the same objects exist behind it, and events that no handle names stay as they are.
abbrev Returns : ℕ → (ℕ → ℕ) → Objects → Outcome Verdict → Type 0
Returns n signals o r =
    (v : Verdict) × (r ≡ done v) × SameSlots o v.objects × Spares n signals o v.objects

WaitType-cases : (t : WaitType) → (t ≡ sleep) ⊎ (t ≡ wait_for_obj)
WaitType-cases sleep = inl refl
WaitType-cases wait_for_obj = inr refl

else_taken :
    {A : Type 0} {b : Bool} (x : A) {y z : A} → b ≡ true → y ≡ z → (if not b then x else y) ≡ z
else_taken x e q = rw e q

module _ (number : ℕ) (signals : ℕ → ℕ) (all : Bool) where
  finish-Returns :
      (fulfilled : Bool) (v : Verdict)
      → ((k : ℕ) → k < number → IsObject v.objects (signals k))
      → Returns number signals v.objects (finish number signals all fulfilled v)
  unfolding finish
  finish-Returns fulfilled v h = elim (Bool-cases (all && fulfilled)) [
    | inr e ↦ (record v { fulfilled = false }, rw e refl, SameSlots-refl v.objects, λ j free. refl)
    | inl e ↦
        let (o, r, reset) =
          reset_all-IsReset number 0 signals v.objects (λ k _ lt. h k (omega arith)) in
        (
          record v { fulfilled = true; objects = o; result = object_set },
          rw (e, r) refl,
          IsReset-SameSlots reset,
          λ j free. reset.event_at j ∙ rw free refl,
        )
  ]

  test_from-Returns :
      (n i : ℕ) (fulfilled : Bool) (v : Verdict)
      → i + n ≡ number
      → ((k : ℕ) → k < number → IsObject v.objects (signals k))
      → Returns number signals v.objects (test_from n i number signals all fulfilled v)
  unfolding test_from
  test_from-Returns zero i fulfilled v e h = finish-Returns fulfilled v h
  test_from-Returns (suc n) i fulfilled v e h =
      let object = h i (omega arith) in
      let (valid, condition, r) = test_condition_returns v.objects (signals i) object in
      elim (Bool-cases valid) [
        | inr bad ↦ (
          record v { fulfilled = false; result = wait_failed },
          rw (test_from, r, bad) refl,
          SameSlots-refl v.objects,
          λ j free. refl,
        )
        | inl good ↦ elim (Bool-cases condition) [
          | inr unmet ↦ (
            record v { fulfilled = false },
            rw (test_from, r, good, unmet) (ground arith),
            SameSlots-refl v.objects,
            λ j free. refl,
          )
          | inl met ↦ elim (Bool-cases all) [
            | inl every ↦
                let (v', q, same, spared) = test_from-Returns n (i + 1) true v (omega arith) h in
                (v', rw (test_from, r, good, met) (else_taken _ every q), same, spared)
            | inr any ↦
                let (o, q, reset) = reset_state-IsReset v.objects (signals i) object in
                (
                  record {
                    fulfilled = true;
                    objects = o;
                    result = object_set;
                    signaled_item_index = i;
                  },
                  rw (test_from, r, good, met, any, q) refl,
                  IsReset-SameSlots reset,
                  λ j free.
                      let other =
                        among-false is_event_type j number 0 i signals free (omega arith)
                          (omega (arith, e)) in
                      reset.event_at j ∙ rw other refl,
                )
          ]
        ]
      ]

-- The objects that the wait is for exist.
abbrev pub WaitsForObjects : Conditions → Objects → Type 0
WaitsForObjects c o =
    c.m_type ≡ wait_for_obj → (k : ℕ) → k < c.m_number_of_signals → IsObject o (c.m_wait_signals k)

-- The wait is not for event `j`.
abbrev pub NotFor : Conditions → ℕ → Type 0
NotFor c j =
    c.m_type ≡ wait_for_obj → among is_event_type j c.m_number_of_signals 0 c.m_wait_signals ≡ false

module _ (c : Conditions) (o : Objects) (r : WaitResult) (current index : ℕ) where
  -- The verdict before the look.
  abbrev before : Verdict
  before = record { fulfilled = false; objects = o; result = r; signaled_item_index = index }

  abbrev Checks : Type 0
  Checks =
      (v : Verdict) × (check c o r current index ≡ done v)
      × SameSlots o v.objects
      × ((j : ℕ) → NotFor c j → v.objects.events.m_data.m_data j ≡ o.events.m_data.m_data j)

  sleep-Returns : c.m_type ≡ sleep → Checks
  unfolding check
  sleep-Returns e = elim (Bool-cases (is_over c current)) [
    | inl over ↦ (
      record before { fulfilled = true; result = object_set },
      rw (check, e, over) refl,
      SameSlots-refl o,
      λ j free. refl,
    )
    | inr on ↦ (before, rw (check, e, on) refl, SameSlots-refl o, λ j free. refl)
  ]

  wait-Returns : c.m_type ≡ wait_for_obj → WaitsForObjects c o → Checks
  unfolding check test_wait_signals
  wait-Returns e h =
      let w : Verdict = record before { signaled_item_index = 0 } in
      elim (Bool-cases (not c.m_wait_forver && is_over c current)) [
        | inl over ↦ (
          record w { fulfilled = true; result = timeout_occurred },
          rw (check, e, over) refl,
          SameSlots-refl o,
          λ j free. refl,
        )
        | inr on ↦
            let n = c.m_number_of_signals in
            let (v, q, same, spared) =
              test_from-Returns n c.m_wait_signals c.m_wait_for_all_signals n 0 true w (omega arith)
                (h e) in
            (v, rw (check, e, on) q, same, λ j free. spared j (free e))
      ]

  -- A look at a wait whose objects exist returns, and the same objects exist behind it. It leaves an
  -- event alone that the wait is not for.
  pub check-Returns : WaitsForObjects c o → Checks
  check-Returns h = elim (WaitType-cases c.m_type) [
    | inl e ↦ sleep-Returns e
    | inr e ↦ wait-Returns e h
  ]

-- The time of the wait is over.
abbrev pub is_due : Conditions → ℕ → Bool
is_due c now =
    (elim c.m_type [ sleep ↦ true | wait_for_obj ↦ not c.m_wait_forver ]) && is_over c now

-- A look at such a wait says that it is over.
pub check-due :
    (c : Conditions) (o : Objects) (r : WaitResult) (current index : ℕ) {v : Verdict}
    → is_due c current ≡ true
    → check c o r current index ≡ done v
    → v.fulfilled ≡ true
unfolding check
check-due c o r current index {v} due e =
    let fulfilled : Outcome Verdict → Bool = λ x. elim x [ done y ↦ y.fulfilled | halted ↦ true ] in
    elim (WaitType-cases c.m_type) [
      | inl t ↦
          let over : is_over c current ≡ true = ground (arith, due, t) in
          ap fulfilled (sym e) ∙ rw (check, t, over) refl
      | inr t ↦
          let over : (not c.m_wait_forver && is_over c current) ≡ true = ground (arith, due, t) in
          ap fulfilled (sym e) ∙ rw (check, t, over) refl
    ]
