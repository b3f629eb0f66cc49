-- ===== src/Lock/Laws.antt =====
-- The lock counts: source/lock/lock.hpp.
use cortex_m3_rtos.Prelude.{ℕ, zero, suc, ◌+◌, ◌-◌, ◌<◌, ◌≤◌, ◌≡◌, true, ◌↔◌, u32_mod, arith}
use cortex_m3_rtos.Lock.{Context, is_locked, enter, leave}

-- `n` calls of `enter`.
abbrev pub enters : ℕ → Context → Context
enters zero c = c
enters (suc n) c = enter (enters n c)

-- `n` calls of `leave`.
abbrev pub leaves : ℕ → Context → Context
leaves zero c = c
leaves (suc n) c = leave (leaves n c)

m_interlock-enters :
    (n : ℕ) (c : Context)
    → c.m_interlock + n < u32_mod
    → (enters n c).m_interlock ≡ c.m_interlock + n
unfolding enter
m_interlock-enters zero c h = omega arith
m_interlock-enters (suc n) c h = omega (arith, m_interlock-enters n c (omega arith))

m_interlock-leaves :
    (n : ℕ) (c : Context)
    → c.m_interlock < u32_mod
    → n ≤ c.m_interlock
    → (leaves n c).m_interlock ≡ c.m_interlock - n
unfolding leave
m_interlock-leaves zero c h le = omega arith
m_interlock-leaves (suc n) c h le = omega (arith, m_interlock-leaves n c h (omega arith))

-- Taking a free lock, and releasing one that is held once.
pub enter_free : (c : Context) → c.m_interlock ≡ 0 → (enter c).m_interlock ≡ 1
unfolding enter
enter_free c h = omega arith

pub leave_once : (c : Context) → c.m_interlock ≡ 1 → (leave c).m_interlock ≡ 0
unfolding leave
leave_once c h = omega arith

-- The lock of a kernel that has just been set up.
abbrev pub unlocked : Context
unlocked = record { m_interlock = 0 }

-- After n calls of enter, fewer than 2 ^ 32, and k of leave, at most n, isLocked returns true exactly
-- when every call of enter has had its leave: it says that the lock is free.
pub lock_counts :
    (n k : ℕ) → n < u32_mod → k ≤ n → (is_locked (leaves k (enters n unlocked)) ≡ true) ↔ (k ≡ n)
unfolding is_locked
lock_counts n k h le =
    let entered = m_interlock-enters n unlocked (omega arith) in
    ground (
      arith,
      entered,
      m_interlock-leaves k (enters n unlocked) (omega (arith, entered)) (omega (arith, entered)),
    )
