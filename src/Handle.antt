-- ===== src/Handle.antt =====
-- source/handle/handle.hpp: a handle is a 32-bit word, the type of the object in the upper half and its
-- index in the lower half.
pub mod Laws
pub mod Alive
use cortex_m3_rtos.Prelude.{
  ℕ, zero, suc, ◌+◌, ◌*◌, ◌/◌, ◌%◌, ◌^◌, Bool, true, false, not, Option, none, some, if◌then◌else◌,
  Outcome, done, halted, ◌>>=◌, ◌>>◌,
}
use cortex_m3_rtos.Timer
use cortex_m3_rtos.Event
use cortex_m3_rtos.Queue

-- The enumeration has an underlying uint32_t, and so also values with no enumerator.
pub data ObjectType : Type 0 where
  task timer event queue : ObjectType
  other : ℕ → ObjectType

-- static_cast< uint32_t>( a_type)
abbrev pub type_value : ObjectType → ℕ
type_value task = 0
type_value timer = 1
type_value event = 2
type_value queue = 3
type_value (other n) = suc (suc (suc (suc n)))

-- static_cast< ObjectType>
abbrev pub type_of_value : ℕ → ObjectType
type_of_value zero = task
type_of_value (suc zero) = timer
type_of_value (suc (suc zero)) = event
type_of_value (suc (suc (suc zero))) = queue
type_of_value (suc (suc (suc (suc n)))) = other n

-- `<< 16U`, `& 0xFFFFU` and `|` of two words with no bit in common.
unfoldable pub create : ObjectType → ℕ → ℕ
create t index = type_value t * 2 ^ 16 % 2 ^ 32 + index % 2 ^ 16

unfoldable pub get_object_type : ℕ → ObjectType
get_object_type handle = type_of_value (handle / 2 ^ 16 % 2 ^ 16)

unfoldable pub get_id : ℕ → ℕ
get_id handle = handle % 2 ^ 16

-- The contexts of the objects that a task can wait for.
pub record Objects : Type 0 where
  pub timers : Timer.Context
  pub events : Event.Context
  pub queues : Queue.Context

abbrev pub is_finished : Timer.State → Bool
is_finished Timer.State.finished = true
is_finished _ = false

-- The result: whether the type of the object is supported, and whether the object is signaled.
unfoldable pub test_condition : Objects → ℕ → Outcome (Bool × Bool)
unfolding get_object_type get_id Event.is_signaled Timer.get_state Queue.is_empty
test_condition o handle = elim (get_object_type handle) [
  | event ↦ do s ← Event.is_signaled o.events (get_id handle); done (true, s)
  | timer ↦ do s ← Timer.get_state o.timers (get_id handle); done (true, is_finished s)
  | queue ↦ do e ← Queue.is_empty o.queues (get_id handle); done (true, not e)
  | task ↦ done (false, false)
  | other n ↦ done (false, false)
]

unfoldable pub reset_state : Objects → ℕ → Outcome Objects
unfolding get_object_type get_id Event.manual_reset Timer.stop
reset_state o handle = elim (get_object_type handle) [
  | event ↦ do c ← Event.manual_reset o.events (get_id handle); done (record o { events = c })
  | timer ↦ do c ← Timer.stop o.timers (get_id handle); done (record o { timers = c })
  | _ ↦ done o
]
