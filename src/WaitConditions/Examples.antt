-- ===== src/WaitConditions/Examples.antt =====
-- Waits for an event and a queue.
use cortex_m3_rtos.Prelude.{
  ℕ, zero, suc, ◌+◌, ◌%◌, ◌<◌, ◌≡◌, refl, ◌↔◌, true, false, ltb, ◌==◌, if◌then◌else◌, done, u32_mod,
  arith,
}
use cortex_m3_rtos.Api.{object_set, wait_failed}
use cortex_m3_rtos.Timer.Examples.{timers}
use cortex_m3_rtos.Event
use cortex_m3_rtos.Queue.Examples.{queues}
use cortex_m3_rtos.Handle.{Objects, test_condition}
use cortex_m3_rtos.WaitConditions.Reset.{IsReset, among, is_event_type, is_timer_type}
use cortex_m3_rtos.WaitConditions.{
  wait_for_obj, Conditions, init_sleep, Verdict, test_wait_signals, check,
}
use cortex_m3_rtos.WaitConditions.Laws.{
  IsSignaled, wait_all_met, wait_all_goes_on, wait_any_first, check-init_sleep,
}

-- Event 0 is set.
abbrev pub events : Event.Context
events = record {
  m_data = record {
    m_data = λ _. record { m_state = Event.State.set_state; mp_name = 0; m_manual_reset = false };
    m_status = λ i. ltb i 1;
  };
}

abbrev pub objects : Objects
objects = record { timers = timers; events = events; queues = queues }

-- Event 0 and queue 0.
abbrev handles : ℕ → ℕ
handles i = if i == 0 then 0x2_0000 else 0x3_0000

abbrev untested : Verdict
untested = record {
  fulfilled = false;
  objects = objects;
  result = wait_failed;
  signaled_item_index = 0;
}

abbrev conditions : Conditions
conditions = record {
  m_type = wait_for_obj;
  m_wait_signals = handles;
  m_number_of_signals = 2;
  m_wait_for_all_signals = true;
  m_wait_forver = false;
  m_interval = 5;
  m_start = 0xffff_ffff;
}

handles-IsSignaled : (k : ℕ) → k < 2 → IsSignaled objects (handles k)
unfolding test_condition
handles-IsSignaled zero h = refl
handles-IsSignaled (suc zero) h = refl
handles-IsSignaled (suc (suc k)) h = absurd (omega arith)

wait_all_met_example :
    (o' : Objects) × (test_wait_signals 2 handles true untested
      ≡ done (record untested { fulfilled = true; objects = o'; result = object_set }))
    × IsReset
        (λ j. among is_event_type j 2 0 handles)
        (λ j. among is_timer_type j 2 0 handles)
        objects
        o'
wait_all_met_example = wait_all_met 2 handles untested handles-IsSignaled

-- Event 0, and a handle with no known type.
abbrev bad_handles : ℕ → ℕ
bad_handles i = if i == 0 then 0x2_0000 else 0x7_0000

bad_handles-IsSignaled : (j : ℕ) → j < 1 → IsSignaled objects (bad_handles j)
unfolding test_condition
bad_handles-IsSignaled zero h = refl
bad_handles-IsSignaled (suc j) h = absurd (omega arith)

unsupported : test_condition objects (bad_handles 1) ≡ done (false, false)
unfolding test_condition
unsupported = refl

wait_all_goes_on_example :
    test_wait_signals 2 bad_handles true untested
    ≡ done (record untested { fulfilled = false; result = wait_failed })
wait_all_goes_on_example =
    wait_all_goes_on 2 bad_handles untested 1 false (omega arith) bad_handles-IsSignaled unsupported

wait_any_first_example :
    test_wait_signals 2 handles false untested ≡ test_wait_signals 1 (λ _. 0x2_0000) false untested
wait_any_first_example = wait_any_first 2 (λ _. 0x2_0000) handles untested (omega arith) refl

check-init_sleep_example :
    (v : Verdict) × (check
        (init_sleep conditions 10 0xffff_ffff)
        objects
        wait_failed
        ((0xffff_ffff + 11) % u32_mod)
        0
      ≡ done v)
    × ((v.fulfilled ≡ true) ↔ (10 < 11))
    × (v.result ≡ (if v.fulfilled then object_set else wait_failed))
    × (v.objects ≡ objects)
check-init_sleep_example =
    check-init_sleep conditions objects wait_failed 0xffff_ffff 11 10 0 (omega arith) (omega arith)
