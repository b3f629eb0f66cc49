-- ===== src/Handle/Alive.antt =====
-- Handles whose object exists: source/handle/handle.hpp, testCondition and resetState.
use cortex_m3_rtos.Prelude.{
  ℕ, ◌<◌, ◌≡◌, ◌∙◌, refl, Bool, true, false, not, done, ◌==◌, if◌then◌else◌, update, arith,
}
use cortex_m3_rtos.Config.{max_events, max_timers, max_queues}
use cortex_m3_rtos.MemoryBuffer.{MemoryBuffer}
use cortex_m3_rtos.Event
use cortex_m3_rtos.Timer
use cortex_m3_rtos.Queue
use cortex_m3_rtos.Handle.{
  ObjectType, task, timer, event, queue, other, Objects, get_object_type, get_id, is_finished,
  test_condition, reset_state,
}

-- The slot is in use.
abbrev pub InUse : {A : Type 0} → ℕ → MemoryBuffer A → ℕ → Type 0
InUse max_size b id = (id < max_size) × (b.m_status id ≡ true)

-- The object exists; of the other types every handle will do.
abbrev pub ObjectAt : Objects → ObjectType → ℕ → Type 0
ObjectAt o event id = InUse max_events o.events.m_data id
ObjectAt o timer id = InUse max_timers o.timers.m_data id
ObjectAt o queue id = InUse max_queues o.queues.m_data id
ObjectAt o task id = Unit {0}
ObjectAt o (other n) id = Unit {0}

abbrev pub IsObject : Objects → ℕ → Type 0
IsObject o handle = ObjectAt o (get_object_type handle) (get_id handle)

-- The same objects exist.
pub record SameSlots (o o' : Objects) : Type 0 where
  pub events : (j : ℕ) → o'.events.m_data.m_status j ≡ o.events.m_data.m_status j
  pub timers : (j : ℕ) → o'.timers.m_data.m_status j ≡ o.timers.m_data.m_status j
  pub queues : (j : ℕ) → o'.queues.m_data.m_status j ≡ o.queues.m_data.m_status j

pub SameSlots-refl : (o : Objects) → SameSlots o o
SameSlots-refl o = record { events = λ j. refl; timers = λ j. refl; queues = λ j. refl }

pub SameSlots-trans : {o o' o'' : Objects} → SameSlots o o' → SameSlots o' o'' → SameSlots o o''
SameSlots-trans a b = record {
  events = λ j. b.events j ∙ a.events j;
  timers = λ j. b.timers j ∙ a.timers j;
  queues = λ j. b.queues j ∙ a.queues j;
}

ObjectAt-kept :
    {o o' : Objects} (t : ObjectType) (id : ℕ) → SameSlots o o' → ObjectAt o t id → ObjectAt o' t id
ObjectAt-kept event id same h = (h.0, same.events id ∙ h.1)
ObjectAt-kept timer id same h = (h.0, same.timers id ∙ h.1)
ObjectAt-kept queue id same h = (h.0, same.queues id ∙ h.1)
ObjectAt-kept task id same h = tt
ObjectAt-kept (other n) id same h = tt

pub IsObject-kept :
    {o o' : Objects} (handle : ℕ) → SameSlots o o' → IsObject o handle → IsObject o' handle
IsObject-kept handle = ObjectAt-kept (get_object_type handle) (get_id handle)

module _ (o : Objects) (handle : ℕ) where
  tested :
      (t : ObjectType)
      → get_object_type handle ≡ t
      → ObjectAt o t (get_id handle)
      → (b c : Bool) × (test_condition o handle ≡ done (b, c))
  unfolding test_condition Event.is_signaled Timer.get_state Queue.is_empty
  tested event e h = (
    true,
    elim (o.events.m_data.m_data (get_id handle)).m_state [
      | Event.State.set_state ↦ true
      | Event.State.reset_state ↦ false
    ],
    rw (test_condition, e) (ground (arith, h)),
  )
  tested timer e h = (
    true,
    is_finished (o.timers.m_data.m_data (get_id handle)).m_state,
    rw (test_condition, e) (ground (arith, h)),
  )
  tested queue e h = (
    true,
    not (0 == (o.queues.m_data.m_data (get_id handle)).m_current_size),
    rw (test_condition, e) (ground (arith, h)),
  )
  tested task e h = (false, false, rw (test_condition, e) refl)
  tested (other n) e h = (false, false, rw (test_condition, e) refl)

  -- The test of an object that exists does not stop at an assertion.
  pub test_condition_returns :
      IsObject o handle → (b c : Bool) × (test_condition o handle ≡ done (b, c))
  test_condition_returns = tested (get_object_type handle) refl

  resets :
      (t : ObjectType)
      → get_object_type handle ≡ t
      → ObjectAt o t (get_id handle)
      → (o' : Objects) × (reset_state o handle ≡ done o') × SameSlots o o'
  unfolding reset_state Event.manual_reset Timer.stop
  resets event e h =
      let b = o.events.m_data in
      let id = get_id handle in
      let f : Event.Event → Event.Event =
        λ x. if x.m_manual_reset then x else record x { m_state = Event.State.reset_state } in
      (
        record o {
          events = record { m_data = record b { m_data = update b.m_data id (f (b.m_data id)) } };
        },
        rw (reset_state, e) (ground (arith, h)),
        record { events = λ j. refl; timers = λ j. refl; queues = λ j. refl },
      )
  resets timer e h =
      let b = o.timers.m_data in
      let id = get_id handle in
      (
        record o {
          timers = record {
            m_data = record b {
              m_data = update b.m_data id (record (b.m_data id) { m_state = Timer.State.stopped });
            };
          };
        },
        rw (reset_state, e) (ground (arith, h)),
        record { events = λ j. refl; timers = λ j. refl; queues = λ j. refl },
      )
  resets queue e h = (o, rw (reset_state, e) refl, SameSlots-refl o)
  resets task e h = (o, rw (reset_state, e) refl, SameSlots-refl o)
  resets (other n) e h = (o, rw (reset_state, e) refl, SameSlots-refl o)

  -- Neither does its reset, and the same objects exist behind it.
  pub reset_state_returns :
      IsObject o handle → (o' : Objects) × (reset_state o handle ≡ done o') × SameSlots o o'
  reset_state_returns = resets (get_object_type handle) refl
