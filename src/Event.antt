-- ===== src/Event.antt =====
-- source/event/event.hpp: events. The hardware critical section that each function holds keeps
-- interrupts out while it runs, so that a function is one step here.
pub mod Laws
mod Examples
use cortex_m3_rtos.Prelude.{
  ℕ, zero, suc, ◌+◌, Bool, true, false, not, Option, none, some, ◌==◌, if◌then◌else◌, Outcome, done,
  ◌>>=◌, ◌>>◌, assert,
}
use cortex_m3_rtos.Config.{max_events}
use cortex_m3_rtos.MemoryBuffer.{MemoryBuffer, allocate, free, at, set_at, modify, is_allocated}

pub data State : Type 0 where
  reset_state set_state : State

-- `mp_name` is the address of the name: names are compared as pointers.
pub record Event : Type 0 where
  pub m_state : State
  pub mp_name : ℕ
  pub m_manual_reset : Bool

pub record Context : Type 0 where
  pub m_data : MemoryBuffer Event

-- `none` is the result false; `some id` is true, with the id in `a_id`.
unfoldable pub create : Context → Bool → ℕ → Outcome (Option ℕ × Context)
unfolding allocate set_at
create c manual_reset name = elim (allocate max_events c.m_data) [
  | none ↦ done (none, c)
  | some (id, b) ↦ do
    b' ←
        set_at max_events b id
          (record { m_state = reset_state; mp_name = name; m_manual_reset = manual_reset })
    done (some id, record { m_data = b' })
]

-- Whether slot `i` holds an event of that name.
unfoldable pub has_name : Context → ℕ → ℕ → Outcome Bool
unfolding is_allocated at
has_name c i name = do
  used ← is_allocated max_events c.m_data i
  if used then (do e ← at max_events c.m_data i; done (name == e.mp_name)) else done false

-- The loop of `open` from slot `i`, with `n` rounds left.
unfoldable pub open_from : ℕ → ℕ → Context → ℕ → Outcome (Option ℕ)
unfolding has_name
open_from zero i c name = done none
open_from (suc n) i c name = do
  hit ← has_name c i name
  elim hit [ true ↦ done (some i) | false ↦ open_from n (i + 1) c name ]

-- `open`
unfoldable pub open_event : Context → ℕ → Outcome (Option ℕ)
unfolding open_from
open_event c name = do assert (not (name == 0)); open_from max_events 0 c name

unfoldable pub destroy : Context → ℕ → Outcome Context
unfolding free
destroy c id = do b ← free max_events c.m_data id; done (record { m_data = b })

-- An assignment to fields of event `id`.
unfoldable pub write : Context → ℕ → (Event → Event) → Outcome Context
unfolding modify
write c id f = do b ← modify max_events c.m_data id f; done (record { m_data = b })

-- `set`
unfoldable pub set_event : Context → ℕ → Outcome Context
unfolding write
set_event c id = write c id (λ e. record e { m_state = set_state })

-- `reset`
unfoldable pub reset_event : Context → ℕ → Outcome Context
unfolding write
reset_event c id = write c id (λ e. record e { m_state = reset_state })

-- Resets the event unless it is to be reset by hand.
unfoldable pub manual_reset : Context → ℕ → Outcome Context
unfolding write
manual_reset c id =
    write c id (λ e. if e.m_manual_reset then e else record e { m_state = reset_state })

unfoldable pub is_signaled : Context → ℕ → Outcome Bool
unfolding at
is_signaled c id = do
  e ← at max_events c.m_data id
  done (elim e.m_state [ set_state ↦ true | reset_state ↦ false ])
