-- ===== src/Memory/Examples.antt =====
-- Copying four bytes.
use cortex_m3_rtos.Prelude.{ℕ, ◌+◌, ◌<◌, ◌≤◌, ◌≡◌, ◌⊎◌, inr, done, arith}
use cortex_m3_rtos.Memory.{Memory, copy}
use cortex_m3_rtos.Memory.Laws.{bytes, copy_lem}

abbrev counting : Memory
counting = λ a. a

copy_lem_example :
    (m' : Memory) × (copy counting 100 10 4 ≡ done m')
    × (bytes m' 100 4 ≡ bytes counting 10 4)
    × ((a : ℕ) → ((a < 100) ⊎ (100 + 4 ≤ a)) → m' a ≡ counting a)
copy_lem_example =
    copy_lem counting 100 10 4 (omega arith) (omega arith) (omega arith) (inr (omega arith))
