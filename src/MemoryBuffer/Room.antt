-- ===== src/MemoryBuffer/Room.antt =====
-- A buffer has a free slot where the items are fewer than the slots.
use cortex_m3_rtos.Prelude.{
  ℕ, zero, suc, ◌<◌, ◌≡◌, ◌≢◌, Bool, true, false, inl, inr, arith, ◌==◌, update, Bool-cases,
}
use cortex_m3_rtos.MemoryBuffer.Slots.{in_use, in_use-none, in_use-le, in_use-allocate}

-- The first `n` values of `f`.
abbrev pub values : (ℕ → ℕ) → ℕ → ℕ → Bool
values f zero = λ _. false
values f (suc n) = update (values f n) (f n) true

pub values-at : (f : ℕ → ℕ) (n a : ℕ) → values f n a ≡ true → (k : ℕ) × (k < n) × (f k ≡ a)
values-at f zero a h = cc
values-at f (suc n) a h = elim (Bool-cases (f n == a)) [
  | inl e ↦ (n, omega arith, ground arith)
  | inr ne ↦ let (k, p, e) = values-at f n a (ground arith) in (k, omega arith, e)
]

in_use-values :
    (f : ℕ → ℕ) (n m : ℕ)
    → ((k : ℕ) → k < n → f k < m)
    → ((j k : ℕ) → j < n → k < n → f j ≡ f k → j ≡ k)
    → in_use m (values f n) ≡ n
in_use-values f zero m below once = in_use-none m
in_use-values f (suc n) m below once =
    let fresh : values f n (f n) ≡ false = elim (Bool-cases (values f n (f n))) [
      | inl old ↦
          let (k, p, e) = values-at f n (f n) old in
          absurd (omega (arith, once k n (omega arith) (omega arith) e))
      | inr new ↦ new
    ] in
    omega (
      arith,
      in_use-allocate m (values f n) (f n) (below n (omega arith)) fresh,
      in_use-values f n m (λ k h. below k (omega arith))
          (λ j k p q. once j k (omega arith) (omega arith)),
    )

-- Numbers below `m` that are all different, and among which `a` is not, are fewer than `m`.
pub pigeonhole :
    (f : ℕ → ℕ) (n m a : ℕ)
    → ((k : ℕ) → k < n → f k < m)
    → ((j k : ℕ) → j < n → k < n → f j ≡ f k → j ≡ k)
    → a < m
    → ((k : ℕ) → k < n → f k ≢ a)
    → n < m
pigeonhole f n m a below once small missing =
    let absent : values f n a ≡ false = elim (Bool-cases (values f n a)) [
      | inl old ↦ let (k, p, e) = values-at f n a old in absurd (missing k p e)
      | inr new ↦ new
    ] in
    omega (
      arith,
      in_use-allocate m (values f n) a small absent,
      in_use-values f n m below once,
      in_use-le m (update (values f n) a true),
    )
