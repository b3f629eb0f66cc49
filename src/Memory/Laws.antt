-- ===== src/Memory/Laws.antt =====
-- What copying and comparing do to the bytes: source/common/memory.hpp.
use cortex_m3_rtos.Prelude.{
  ℕ, zero, suc, ◌+◌, ◌-◌, ◌<◌, ◌≤◌, ◌≡◌, refl, ◌⊎◌, ◌↔◌, Bool, true, ◌&&◌, arith, ltb, leb,
  if◌then◌else◌, done, u32_mod, add32, List, slice, slice-ext, update, ◌∙◌,
}
use cortex_m3_rtos.Memory.{Memory, copy_from, copy, compare_from, compare}

-- The `n` bytes at address `a`.
abbrev pub bytes : Memory → ℕ → ℕ → List ℕ
bytes m a n = slice (λ k. m (a + k)) 0 n

-- What byte `a` is after a copy of `n` bytes from `s` to `d`.
abbrev pub copied : Memory → ℕ → ℕ → ℕ → ℕ → ℕ
copied m d s n a = if leb d a && ltb a (d + n) then m (s + (a - d)) else m a

copy_from-copied :
    (n i : ℕ) (m : Memory) (d s a : ℕ)
    → d + i + n ≤ u32_mod
    → s + i + n ≤ u32_mod
    → ((d ≤ s) ⊎ (s + i + n ≤ d + i))
    → copy_from n i m d s a ≡ copied m (d + i) (s + i) n a
unfolding copy_from
copy_from-copied zero i m d s a hd hs apart = ground arith
copy_from-copied (suc n) i m d s a hd hs apart =
    let m' : Memory = update m (add32 d i) (m (add32 s i)) in
    copy_from-copied n (i + 1) m' d s a (omega arith) (omega arith) (ground arith) ∙ first_byte
  where
    first_byte :
        copied (update m (add32 d i) (m (add32 s i))) (d + (i + 1)) (s + (i + 1)) n a
        ≡ copied m (d + i) (s + i) (suc n) a
    first_byte = ground arith

-- `copy` of at least one byte between two ranges inside the 32-bit address space, where the source does
-- not begin before the destination inside it, never stops: the destination gets the bytes that the
-- source had, and no other byte changes.
pub copy_lem :
    (m : Memory) (d s n : ℕ)
    → 0 < n
    → d + n ≤ u32_mod
    → s + n ≤ u32_mod
    → ((d ≤ s) ⊎ (s + n ≤ d))
    → (m' : Memory) × (copy m d s n ≡ done m')
      × (bytes m' d n ≡ bytes m s n)
      × ((a : ℕ) → ((a < d) ⊎ (d + n ≤ a)) → m' a ≡ m a)
unfolding copy
copy_lem m d s n pos hd hs apart = (
  copy_from n 0 m d s,
  ground arith,
  slice-ext _ _ 0 n (λ k _ lt. all (d + k) ∙ ground arith),
  λ a out. all a ∙ ground arith,
)
  where
    all : (a : ℕ) → copy_from n 0 m d s a ≡ copied m d s n a
    all a = copy_from-copied n 0 m d s a (omega arith) (omega arith) (ground arith) ∙ ground arith

compare_from_lem :
    (n i : ℕ) (m : Memory) (l r : ℕ)
    → l + i + n ≤ u32_mod
    → r + i + n ≤ u32_mod
    → (compare_from n i m l r ≡ true) ↔ (slice (λ k. m (l + k)) i n ≡ slice (λ k. m (r + k)) i n)
unfolding compare_from
compare_from_lem zero i m l r hl hr = (λ _. refl, λ _. refl)
compare_from_lem (suc n) i m l r hl hr =
    ground (arith, compare_from_lem n (suc i) m l r (omega arith) (omega arith))

-- `compare` of at least one byte of two ranges inside the 32-bit address space returns true exactly if
-- the ranges hold the same bytes.
pub compare_lem :
    (m : Memory) (l r n : ℕ)
    → 0 < n
    → l + n ≤ u32_mod
    → r + n ≤ u32_mod
    → (b : Bool) × (compare m l r n ≡ done b) × ((b ≡ true) ↔ (bytes m l n ≡ bytes m r n))
unfolding compare
compare_lem m l r n pos hl hr =
    (_, ground arith, compare_from_lem n 0 m l r (omega arith) (omega arith))
