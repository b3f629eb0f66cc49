-- ===== src/MemoryBuffer/Slots.antt =====
-- The operations of MemoryBuffer on a slot in use, and the number of slots in use.
use cortex_m3_rtos.Prelude.{
  ℕ, zero, suc, ◌+◌, ◌<◌, ◌≤◌, ◌≡◌, refl, Bool, true, false, arith, update, done, if◌then◌else◌,
}
use cortex_m3_rtos.MemoryBuffer.{MemoryBuffer, at, set_at, modify, free, is_allocated}

module _ {ℓ} {A : Type ℓ} (max_size : ℕ) (b : MemoryBuffer A) (id : ℕ) where
  pub is_allocated-eq : id < max_size → is_allocated max_size b id ≡ done (b.m_status id)
  unfolding is_allocated
  is_allocated-eq h = ground arith

  pub free-eq :
      id < max_size → free max_size b id ≡ done (record b { m_status = update b.m_status id false })
  unfolding free
  free-eq h = ground arith

  module _ (inside : id < max_size) (used : b.m_status id ≡ true) where
    pub at-eq : at max_size b id ≡ done (b.m_data id)
    unfolding at
    at-eq = ground arith

    pub set_at-eq :
        (v : A) → set_at max_size b id v ≡ done (record b { m_data = update b.m_data id v })
    unfolding set_at
    set_at-eq v = ground arith

    pub modify-eq :
        (f : A → A)
        → modify max_size b id f ≡ done (record b { m_data = update b.m_data id (f (b.m_data id)) })
    unfolding modify
    modify-eq f = ground arith

-- The number of slots in use among the first `n`.
unfoldable pub in_use : ℕ → (ℕ → Bool) → ℕ
in_use zero s = 0
in_use (suc n) s = in_use n s + (if s n then 1 else 0)

pub in_use-none : (n : ℕ) → in_use n (λ _. false) ≡ 0
unfolding in_use
in_use-none zero = refl
in_use-none (suc n) = omega (arith, in_use-none n)

pub in_use-le : (n : ℕ) (s : ℕ → Bool) → in_use n s ≤ n
unfolding in_use
in_use-le zero s = omega arith
in_use-le (suc n) s = ground (arith, in_use-le n s)

pub in_use-full : (n : ℕ) (s : ℕ → Bool) → ((j : ℕ) → j < n → s j ≡ true) → in_use n s ≡ n
unfolding in_use
in_use-full zero s h = refl
in_use-full (suc n) s h =
    ground (arith, in_use-full n s (λ j p. h j (omega arith)), h n (omega arith))

in_use-above :
    (n : ℕ) (s : ℕ → Bool) (i : ℕ) (v : Bool) → n ≤ i → in_use n (update s i v) ≡ in_use n s
unfolding in_use
in_use-above zero s i v h = refl
in_use-above (suc n) s i v h = ground (arith, in_use-above n s i v)

pub in_use-allocate :
    (n : ℕ) (s : ℕ → Bool) (i : ℕ)
    → i < n
    → s i ≡ false
    → in_use n (update s i true) ≡ in_use n s + 1
unfolding in_use
in_use-allocate zero s i h e = elim h [ ]
in_use-allocate (suc n) s i h e = ground (arith, in_use-allocate n s i, in_use-above n s i true)

pub in_use-free :
    (n : ℕ) (s : ℕ → Bool) (i : ℕ)
    → i < n
    → s i ≡ true
    → in_use n (update s i false) + 1 ≡ in_use n s
unfolding in_use
in_use-free zero s i h e = elim h [ ]
in_use-free (suc n) s i h e = ground (arith, in_use-free n s i, in_use-above n s i false)
