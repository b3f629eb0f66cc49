-- ===== src/Lock/Examples.antt =====
-- The lock, entered twice and left once.
use cortex_m3_rtos.Prelude.{ℕ, ◌≡◌, true, ◌↔◌, arith}
use cortex_m3_rtos.Lock.{is_locked}
use cortex_m3_rtos.Lock.Laws.{enters, leaves, unlocked, lock_counts}

abbrev entered : ℕ
entered = 2

abbrev left : ℕ
left = 1

lock_counts_example : (is_locked (leaves 1 (enters 2 unlocked)) ≡ true) ↔ (left ≡ entered)
lock_counts_example = lock_counts 2 1 (omega arith) (omega arith)
