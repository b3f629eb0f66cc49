-- ===== src/Prelude/Members.antt =====
-- The members of a list of numbers, as a test.
use Prim.Native.Nat.{ℕ, zero, suc, ◌+◌, ◌≤◌, ◌<◌}
use mathlib.Core.Path.{◌≡◌, refl}
use mathlib.Core.Logic.{inl, inr}
use mathlib.Core.Bool.{Bool, true, false, ◌||◌}
use mathlib.Core.List.{List, [], ◌∷◌, ◌++◌}
use native.Mathlib.Omega.{arith}
use cortex_m3_rtos.Prelude.Tests.{◌==◌, if◌then◌else◌, Bool-cases}
use cortex_m3_rtos.Prelude.Slices.{slice, remove_at}

abbrev pub has : ℕ → List ℕ → Bool
has a [] = false
has a (x ∷ xs) = if x == a then true else has a xs

pub has-append : (a : ℕ) (xs ys : List ℕ) → has a (xs ++ ys) ≡ (has a xs || has a ys)
has-append a [] ys = refl
has-append a (x ∷ xs) ys = ground (arith, has-append a xs ys)

pub has-slice : (f : ℕ → ℕ) (i n k : ℕ) → i ≤ k → k < i + n → has (f k) (slice f i n) ≡ true
has-slice f i zero k p q = absurd (omega arith)
has-slice f i (suc n) k p q = elim (Bool-cases (i == k)) [
  | inl e ↦ ground (arith, e)
  | inr ne ↦ ground (arith, has-slice f (suc i) n k (ground arith) (omega arith))
]

-- A member of a slice stands somewhere in it.
pub slice-has :
    (f : ℕ → ℕ) (i n a : ℕ)
    → has a (slice f i n) ≡ true
    → (k : ℕ) × (i ≤ k) × (k < i + n) × (f k ≡ a)
slice-has f i zero a h = cc
slice-has f i (suc n) a h = elim (Bool-cases (f i == a)) [
  | inl e ↦ (i, omega arith, omega arith, ground arith)
  | inr ne ↦
      let (k, p, q, e) = slice-has f (suc i) n a (ground arith) in (k, omega arith, omega arith, e)
]

-- Where no entry is twice in the slice, taking one out takes that member out.
pub has-remove_at :
    (f : ℕ → ℕ) (i n p a : ℕ)
    → ((j k : ℕ) → i ≤ j → j < i + n → i ≤ k → k < i + n → f j ≡ f k → j ≡ k)
    → p < n
    → has a (remove_at p (slice f i n)) ≡ (if f (i + p) == a then false else has a (slice f i n))
has-remove_at f i zero p a once lt = absurd (omega arith)
has-remove_at f i (suc n) zero a once lt = elim (Bool-cases (has a (slice f (suc i) n))) [
  | inl member ↦
      let (k, q, r, e) = slice-has f (suc i) n a member in ground (arith, member, once i k, e)
  | inr absent ↦ ground (arith, absent)
]
has-remove_at f i (suc n) (suc p) a once lt = ground (
  arith,
  has-remove_at f (suc i) n p a
      (λ j k p' q r s. once j k (omega arith) (omega arith) (omega arith) (omega arith))
      (omega arith),
  once i (i + suc p),
)
