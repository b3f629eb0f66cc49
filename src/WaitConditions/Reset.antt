-- ===== src/WaitConditions/Reset.antt =====
-- What a wait for all resets: source/scheduler/wait_conditions.hpp, the second loop of testWaitSignals, and
-- source/handle/handle.hpp, resetState.
use cortex_m3_rtos.Prelude.{
  ℕ, zero, suc, ◌+◌, ◌<◌, ◌≤◌, ◌≡◌, refl, ◌⊎◌, inl, inr, Bool, true, false, ◌&&◌, ◌||◌, ltb, ◌==◌,
  if◌then◌else◌, update, done, halted, ap, sym, ◌∙◌, arith, Bool-cases,
}
use cortex_m3_rtos.Config.{max_events, max_timers, max_queues}
use native.Mathlib.Decide.{ℕ_discrete}
use cortex_m3_rtos.MemoryBuffer.{MemoryBuffer, at}
use cortex_m3_rtos.Event
use cortex_m3_rtos.Timer
use cortex_m3_rtos.Queue
use cortex_m3_rtos.Handle.{
  ObjectType, task, timer, event, queue, other, Objects, get_object_type, get_id, test_condition,
  reset_state,
}
use cortex_m3_rtos.Handle.Alive.{InUse, ObjectAt, IsObject, IsObject-kept, SameSlots}
use cortex_m3_rtos.WaitConditions.{reset_all}

abbrev pub is_event_type : ObjectType → Bool
is_event_type event = true
is_event_type _ = false

abbrev pub is_timer_type : ObjectType → Bool
is_timer_type timer = true
is_timer_type _ = false

-- The handle has such a type, and the index `j`.
abbrev pub names : (ObjectType → Bool) → ℕ → ℕ → Bool
names is_type j handle = is_type (get_object_type handle) && (get_id handle == j)

-- One of the `n` handles from position `i` on does.
abbrev pub among : (ObjectType → Bool) → ℕ → ℕ → ℕ → (ℕ → ℕ) → Bool
among is_type j zero i signals = false
among is_type j (suc n) i signals = names is_type j (signals i) || among is_type j n (i + 1) signals

-- An event that is not to be reset by hand loses its signal; a timer stops.
abbrev pub without_signal : Event.Event → Event.Event
without_signal e = record e {
  m_state = if e.m_manual_reset then e.m_state else Event.State.reset_state;
}

abbrev pub stopped_timer : Timer.Timer → Timer.Timer
stopped_timer t = record t { m_state = Timer.State.stopped }

-- From `o` to `o'` the objects are reset that the tests say, and nothing else changes.
pub record IsReset (events timers : ℕ → Bool) (o o' : Objects) : Type 0 where
  pub event_at :
      (j : ℕ)
      → o'.events.m_data.m_data j
        ≡ (if events j then without_signal (o.events.m_data.m_data j) else o.events.m_data.m_data j)
  pub timer_at :
      (j : ℕ)
      → o'.timers.m_data.m_data j
        ≡ (if timers j then stopped_timer (o.timers.m_data.m_data j) else o.timers.m_data.m_data j)
  pub event_slots : (j : ℕ) → o'.events.m_data.m_status j ≡ o.events.m_data.m_status j
  pub timer_slots : (j : ℕ) → o'.timers.m_data.m_status j ≡ o.timers.m_data.m_status j
  pub queues : o'.queues ≡ o.queues

update_lem :
    {A : Type 0} (f : ℕ → A) (g : A → A) (i j : ℕ)
    → update f i (g (f i)) j ≡ (if i == j then g (f j) else f j)
update_lem f g i j = elim (ℕ_discrete i j) [
  | yes e ↦ let same : (j == j) ≡ true = ground arith in rw (e, same) refl
  | no ne ↦ let other : (i == j) ≡ false = ground arith in rw other refl
]

-- The slot is in use, or reading it stops at an assertion.
at-cases :
    {A : Type 0} (max_size : ℕ) (b : MemoryBuffer A) (id : ℕ)
    → InUse max_size b id ⊎ (at max_size b id ≡ halted)
unfolding at
at-cases max_size b id = elim (Bool-cases (ltb id max_size)) [
  | inr out ↦ inr (ground (arith, out))
  | inl inside ↦ elim (Bool-cases (b.m_status id)) [
    | inr unused ↦ inr (ground (arith, inside, unused))
    | inl used ↦ inl (ground (arith, inside), used)
  ]
]

abbrev same_objects : (o : Objects) → IsReset (λ j. false) (λ j. false) o o
same_objects o = record {
  event_at = λ j. refl;
  timer_at = λ j. refl;
  event_slots = λ j. refl;
  timer_slots = λ j. refl;
  queues = refl;
}

module _ (o : Objects) (handle : ℕ) where
  exists :
      (t : ObjectType) (r : Bool × Bool)
      → get_object_type handle ≡ t
      → test_condition o handle ≡ done r
      → ObjectAt o t (get_id handle)
  unfolding test_condition Event.is_signaled Timer.get_state Queue.is_empty
  exists event r e h = elim (at-cases max_events o.events.m_data (get_id handle)) [
    | inl used ↦ used
    | inr stops ↦
        let halts : test_condition o handle ≡ halted = rw (test_condition, e, stops) refl in cc
  ]
  exists timer r e h = elim (at-cases max_timers o.timers.m_data (get_id handle)) [
    | inl used ↦ used
    | inr stops ↦
        let halts : test_condition o handle ≡ halted = rw (test_condition, e, stops) refl in cc
  ]
  exists queue r e h = elim (at-cases max_queues o.queues.m_data (get_id handle)) [
    | inl used ↦ used
    | inr stops ↦
        let halts : test_condition o handle ≡ halted = rw (test_condition, e, stops) refl in cc
  ]
  exists task r e h = tt
  exists (other n) r e h = tt

  resets :
      (t : ObjectType)
      → get_object_type handle ≡ t
      → ObjectAt o t (get_id handle)
      → (o' : Objects) × (reset_state o handle ≡ done o')
        × IsReset
            (λ j. is_event_type t && (get_id handle == j))
            (λ j. is_timer_type t && (get_id handle == j))
            o
            o'
  unfolding reset_state Event.manual_reset Timer.stop
  resets event e h =
      let b = o.events.m_data in
      let id = get_id handle in
      (
        record o {
          events = record {
            m_data = record b { m_data = update b.m_data id (without_signal (b.m_data id)) };
          };
        },
        rw (reset_state, e) (ground (arith, h)),
        record {
          event_at = update_lem b.m_data without_signal id;
          timer_at = λ j. refl;
          event_slots = λ j. refl;
          timer_slots = λ j. refl;
          queues = refl;
        },
      )
  resets timer e h =
      let b = o.timers.m_data in
      let id = get_id handle in
      (
        record o {
          timers = record {
            m_data = record b { m_data = update b.m_data id (stopped_timer (b.m_data id)) };
          };
        },
        rw (reset_state, e) (ground (arith, h)),
        record {
          event_at = λ j. refl;
          timer_at = update_lem b.m_data stopped_timer id;
          event_slots = λ j. refl;
          timer_slots = λ j. refl;
          queues = refl;
        },
      )
  resets queue e h = (o, rw (reset_state, e) refl, same_objects o)
  resets task e h = (o, rw (reset_state, e) refl, same_objects o)
  resets (other n) e h = (o, rw (reset_state, e) refl, same_objects o)

  -- An object whose test returns exists.
  pub test_condition-IsObject :
      (r : Bool × Bool) → test_condition o handle ≡ done r → IsObject o handle
  test_condition-IsObject r h = exists (get_object_type handle) r refl h

  -- What one reset does.
  pub reset_state-IsReset :
      IsObject o handle
      → (o' : Objects) × (reset_state o handle ≡ done o')
        × IsReset (λ j. names is_event_type j handle) (λ j. names is_timer_type j handle) o o'
  reset_state-IsReset = resets (get_object_type handle) refl

done_twice :
    {A : Type 0} (f : A → A) (x : A) (a b : Bool)
    → f (f x) ≡ f x
    → (if b then f (if a then f x else x) else (if a then f x else x)) ≡ (if a || b then f x else x)
done_twice f x true true e = e
done_twice f x true false e = refl
done_twice f x false true e = refl
done_twice f x false false e = refl

without_signal_twice : (x : Event.Event) → without_signal (without_signal x) ≡ without_signal x
without_signal_twice x = elim (Bool-cases x.m_manual_reset) [
  | inl e ↦ rw e refl
  | inr e ↦ rw e refl
]

-- One reset after another: an event or a timer that is reset twice is as after one reset.
IsReset-trans :
    (e1 t1 e2 t2 : ℕ → Bool) (o o1 o2 : Objects)
    → IsReset e1 t1 o o1
    → IsReset e2 t2 o1 o2
    → IsReset (λ j. e1 j || e2 j) (λ j. t1 j || t2 j) o o2
IsReset-trans e1 t1 e2 t2 o o1 o2 a b = record {
  event_at = λ j.
      b.event_at j
      ∙ ap (λ x. if e2 j then without_signal x else x) (a.event_at j)
      ∙ done_twice without_signal (o.events.m_data.m_data j) (e1 j) (e2 j)
          (without_signal_twice (o.events.m_data.m_data j));
  timer_at = λ j.
      b.timer_at j
      ∙ ap (λ x. if t2 j then stopped_timer x else x) (a.timer_at j)
      ∙ done_twice stopped_timer (o.timers.m_data.m_data j) (t1 j) (t2 j) refl;
  event_slots = λ j. b.event_slots j ∙ a.event_slots j;
  timer_slots = λ j. b.timer_slots j ∙ a.timer_slots j;
  queues = b.queues ∙ a.queues;
}

pub IsReset-SameSlots : {e t : ℕ → Bool} {o o' : Objects} → IsReset e t o o' → SameSlots o o'
IsReset-SameSlots r = record {
  events = r.event_slots;
  timers = r.timer_slots;
  queues = λ j. ap (λ q. q.m_data.m_status j) r.queues;
}

pub reset_all-IsReset :
    (n i : ℕ) (signals : ℕ → ℕ) (o : Objects)
    → ((k : ℕ) → i ≤ k → k < i + n → IsObject o (signals k))
    → (o' : Objects) × (reset_all n i signals o ≡ done o')
      × IsReset
          (λ j. among is_event_type j n i signals)
          (λ j. among is_timer_type j n i signals)
          o
          o'
unfolding reset_all
reset_all-IsReset zero i signals o h = (o, refl, same_objects o)
reset_all-IsReset (suc n) i signals o h =
    let (o1, q1, r1) = reset_state-IsReset o (signals i) (h i (omega arith) (omega arith)) in
    let (o2, q2, r2) = reset_all-IsReset n (i + 1) signals o1 (λ k a b.
      IsObject-kept (signals k) (IsReset-SameSlots r1) (h k (omega arith) (omega arith))) in
    (o2, rw q1 q2, IsReset-trans _ _ _ _ o o1 o2 r1 r2)

or-false : (a b : Bool) → (a || b) ≡ false → (a ≡ false) × (b ≡ false)
or-false true b e = cc
or-false false b e = (refl, e)

pub among-false :
    (is_type : ObjectType → Bool) (j n i k : ℕ) (signals : ℕ → ℕ)
    → among is_type j n i signals ≡ false
    → i ≤ k
    → k < i + n
    → names is_type j (signals k) ≡ false
among-false is_type j zero i k signals e p q = absurd (omega arith)
among-false is_type j (suc n) i k signals e p q = elim (ℕ_discrete i k) [
  | yes here ↦
      let (first, _) = or-false (names is_type j (signals i)) _ e in
      ap (λ x. names is_type j (signals x)) (sym here) ∙ first
  | no on ↦
      let (_, rest) = or-false (names is_type j (signals i)) _ e in
      among-false is_type j n (i + 1) k signals rest (omega arith) (omega arith)
]
