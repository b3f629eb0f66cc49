-- ===== src/Timer.antt =====
-- source/timer/timer.hpp: software timers. The hardware critical section that each function holds keeps
-- interrupts out while it runs, so that a function is one step here.
pub mod Laws
pub mod Examples
use cortex_m3_rtos.Prelude.{
  ℕ, zero, suc, ◌+◌, ◌-◌, ◌%◌, Bool, true, false, Option, none, some, ltb, if◌then◌else◌, Outcome,
  done, halted, ◌>>=◌, ◌>>◌, sub32, arith,
}
use cortex_m3_rtos.Config.{max_timers}
use cortex_m3_rtos.MemoryBuffer.{MemoryBuffer, allocate, free, at, set_at, modify, is_allocated}

pub data State : Type 0 where
  stopped started finished : State

pub record Timer : Type 0 where
  pub m_start : ℕ
  pub m_interval : ℕ
  pub m_current : ℕ
  pub m_state : State

pub record Context : Type 0 where
  pub m_data : MemoryBuffer Timer

-- `none` is the result false; `some id` is true, with the id in `a_id`.
unfoldable pub create : Context → ℕ → ℕ → Outcome (Option ℕ × Context)
unfolding allocate set_at
create c start interval = elim (allocate max_timers c.m_data) [
  | none ↦ done (none, c)
  | some (id, b) ↦ do
    b' ←
        set_at max_timers b id
          (record { m_start = start; m_interval = interval; m_current = start; m_state = stopped })
    done (some id, record { m_data = b' })
]

unfoldable pub destroy : Context → ℕ → Outcome Context
unfolding free
destroy c id = do b ← free max_timers c.m_data id; done (record { m_data = b })

-- An assignment to fields of timer `id`.
unfoldable pub write : Context → ℕ → (Timer → Timer) → Outcome Context
unfolding modify
write c id f = do b ← modify max_timers c.m_data id f; done (record { m_data = b })

unfoldable pub start : Context → ℕ → Outcome Context
unfolding write
start c id = write c id (λ t. record t { m_state = started })

unfoldable pub restart : Context → ℕ → Outcome Context
unfolding write
restart c id = write c id (λ t. record t { m_start = t.m_current; m_state = started })

unfoldable pub stop : Context → ℕ → Outcome Context
unfolding write
stop c id = write c id (λ t. record t { m_state = stopped })

unfoldable pub get_state : Context → ℕ → Outcome State
unfolding at
get_state c id = do t ← at max_timers c.m_data id; done t.m_state

-- The body of the loop of `tick`, for a timer in use.
unfoldable pub tick_timer : ℕ → Timer → Timer
tick_timer now t = record t {
  m_current = now;
  m_state = elim t.m_state [
    | started ↦ if ltb t.m_interval (sub32 now t.m_start) then finished else started
    | s ↦ s
  ];
}

-- The loop of `tick` from slot `i`, with `n` rounds left.
unfoldable pub tick_from : ℕ → ℕ → Context → ℕ → Outcome Context
unfolding is_allocated write tick_timer
tick_from zero i c now = done c
tick_from (suc n) i c now = do
  used ← is_allocated max_timers c.m_data i
  c' ← if used then write c i (tick_timer now) else done c
  tick_from n (i + 1) c' now

unfoldable pub tick : Context → ℕ → Outcome Context
unfolding tick_from
tick c now = tick_from max_timers 0 c now
