-- ===== src/Event/Laws.antt =====
-- What the operations on events do: source/event/event.hpp.
use cortex_m3_rtos.Prelude.{
  ℕ, zero, suc, ◌+◌, ◌<◌, ◌≡◌, refl, ◌≢◌, inl, inr, Bool, true, false, ◌&&◌, Option, none, some,
  ◌==◌, done, ◌>>=◌, arith, Bool-cases,
}
use native.Mathlib.Decide.{ℕ_discrete}
use cortex_m3_rtos.Config.{max_events}
use cortex_m3_rtos.Event.{
  State, set_state, reset_state, Event, Context, has_name, open_from, open_event, set_event,
  reset_event, manual_reset, is_signaled,
}

abbrev pub event_at : Context → ℕ → Event
event_at c i = c.m_data.m_data i

abbrev pub is_used : Context → ℕ → Bool
is_used c i = c.m_data.m_status i

-- Slot `i` is in use and its event has that name.
abbrev pub is_named : Context → ℕ → ℕ → Bool
is_named c name i = is_used c i && (name == (event_at c i).mp_name)

-- What `open` is to return: the first event of that name, or false where there is none.
pub data Opened (c : Context) (name : ℕ) : Option ℕ → Type 0 where
  missing : ((j : ℕ) → j < max_events → is_named c name j ≡ false) → Opened c name none
  found :
      (i : ℕ)
      → i < max_events
      → is_named c name i ≡ true
      → ((j : ℕ) → j < i → is_named c name j ≡ false)
      → Opened c name (some i)

has_name-eq :
    (c : Context) (i name : ℕ) → i < max_events → has_name c i name ≡ done (is_named c name i)
unfolding has_name
has_name-eq c i name h = ground arith

open_from-Opened :
    (n i : ℕ) (c : Context) (name : ℕ)
    → i + n ≡ max_events
    → ((j : ℕ) → j < i → is_named c name j ≡ false)
    → (r : Option ℕ) × (open_from n i c name ≡ done r) × Opened c name r
unfolding open_from
open_from-Opened zero i c name e before = (none, refl, missing (λ j h. before j (omega arith)))
open_from-Opened (suc n) i c name e before = elim (Bool-cases (is_named c name i)) [
  | inl hit ↦
      (some i, rw (has_name-eq c i name (omega arith), hit), found i (omega arith) hit before)
  | inr miss ↦
      let (r, eq, opened) = open_from-Opened n (i + 1) c name (omega arith) (λ j h.
        elim (ℕ_discrete j i) [ yes same ↦ rw same miss | no other ↦ before j (omega arith) ]) in
      (r, rw (has_name-eq c i name (omega arith), miss) eq, opened)
]

-- `open` of a name that is not null never stops at an assertion, and returns the first event of that name;
-- it returns false exactly when no event has it.
pub open_event-Opened :
    (c : Context) (name : ℕ)
    → name ≢ 0
    → (r : Option ℕ) × (open_event c name ≡ done r) × Opened c name r
unfolding open_event
open_event-Opened c name h =
    let (r, e, opened) = open_from-Opened max_events 0 c name refl (λ j lt. absurd (omega arith)) in
    (r, ground (arith, e), opened)

abbrev is_set : State → Bool
is_set set_state = true
is_set reset_state = false

-- An event in use is signaled after `set` and not signaled after `reset`; `manualReset`, which a wait that
-- is over calls, keeps the signal of an event that is to be reset by hand and takes back any other.
-- None of them stops at an assertion.
pub signal_lem :
    (c : Context) (id : ℕ)
    → id < max_events
    → is_used c id ≡ true
    → ((set_event c id >>= λ c'. is_signaled c' id) ≡ done true)
      × ((reset_event c id >>= λ c'. is_signaled c' id) ≡ done false)
      × ((manual_reset c id >>= λ c'. is_signaled c' id)
          ≡ done ((event_at c id).m_manual_reset && is_set (event_at c id).m_state))
unfolding set_event reset_event manual_reset is_signaled
signal_lem c id h used = ground arith
