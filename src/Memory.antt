-- ===== src/Memory.antt =====
-- source/common/memory.hpp: copying and comparing bytes. The memory is a function from addresses; an
-- address is a 32-bit word, and the two branches of `copy` differ in `volatile` only.
pub mod Laws
mod Examples
use cortex_m3_rtos.Prelude.{
  ℕ, zero, suc, ◌+◌, ◌%◌, Bool, true, false, ltb, ◌==◌, if◌then◌else◌, update, Outcome, done,
  halted, ◌>>=◌, ◌>>◌, assert, add32,
}

abbrev pub Memory : Type 0
Memory = ℕ → ℕ

-- The loop of `copy` from byte `i`, with `n` rounds left.
unfoldable pub copy_from : ℕ → ℕ → Memory → ℕ → ℕ → Memory
copy_from zero i m destination source = m
copy_from (suc n) i m destination source =
    copy_from n (i + 1) (update m (add32 destination i) (m (add32 source i))) destination source

unfoldable pub copy : Memory → ℕ → ℕ → ℕ → Outcome Memory
unfolding copy_from
copy m destination source number_of_bytes = do
  assert (ltb 0 number_of_bytes)
  done (copy_from number_of_bytes 0 m destination source)

-- The loop of `compare`.
unfoldable pub compare_from : ℕ → ℕ → Memory → ℕ → ℕ → Bool
compare_from zero i m left right = true
compare_from (suc n) i m left right =
    let rest = compare_from n (i + 1) m left right in
    if m (add32 left i) == m (add32 right i) then rest else false

unfoldable pub compare : Memory → ℕ → ℕ → ℕ → Outcome Bool
unfolding compare_from
compare m left right number_of_bytes = do
  assert (ltb 0 number_of_bytes)
  done (compare_from number_of_bytes 0 m left right)
