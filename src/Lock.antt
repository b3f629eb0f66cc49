-- ===== src/Lock.antt =====
-- source/lock/lock.hpp: the counter that keeps the tick handler from scheduling while a kernel function
-- runs. `m_interlock` is a uint32_t.
pub mod Laws
mod Examples
use cortex_m3_rtos.Prelude.{ℕ, ◌+◌, ◌-◌, ◌%◌, Bool, ◌==◌, add32, sub32, arith}

pub record Context : Type 0 where
  pub m_interlock : ℕ

unfoldable pub is_locked : Context → Bool
is_locked c = 0 == c.m_interlock

unfoldable pub enter : Context → Context
enter c = record { m_interlock = add32 c.m_interlock 1 }

unfoldable pub leave : Context → Context
leave c = record { m_interlock = sub32 c.m_interlock 1 }
