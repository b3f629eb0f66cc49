-- ===== src/MemoryBuffer/Laws.antt =====
-- What the operations of MemoryBuffer do to the slots.
use cortex_m3_rtos.Prelude.{
  ℕ, zero, suc, ◌+◌, ◌<◌, ◌≤◌, ◌≡◌, inl, inr, true, false, Option, none, some, arith, update,
  Bool-cases,
}
use cortex_m3_rtos.MemoryBuffer.{MemoryBuffer, allocate_from, allocate, free}

module _ {ℓ} {A : Type ℓ} where
  -- The outcomes of a search for a free slot among those from `i` to below `k`.
  pub data FirstFree (i k : ℕ) (b : MemoryBuffer A) : Option (ℕ × MemoryBuffer A) → Type ℓ where
    full : ((j : ℕ) → i ≤ j → j < k → b.m_status j ≡ true) → FirstFree i k b none
    found :
        (id : ℕ)
        → i ≤ id
        → id < k
        → b.m_status id ≡ false
        → ((j : ℕ) → i ≤ j → j < id → b.m_status j ≡ true)
        → FirstFree i k b (some (id, record b { m_status = update b.m_status id true }))

  FirstFree-skip :
      {i k : ℕ} {b : MemoryBuffer A} {r : Option (ℕ × MemoryBuffer A)}
      → b.m_status i ≡ true
      → FirstFree (i + 1) k b r
      → FirstFree i k b r
  FirstFree-skip {i} h (full all) = full (λ j p q. ground (arith, all j))
  FirstFree-skip {i} h (found id p q free all) =
      found id (omega arith) q free (λ j p' q'. ground (arith, all j))

  allocate_from-FirstFree :
      (n i k : ℕ) (b : MemoryBuffer A) → i + n ≡ k → FirstFree i k b (allocate_from n i b)
  unfolding allocate_from
  allocate_from-FirstFree zero i k b e = full (λ j p q. absurd (omega arith))
  allocate_from-FirstFree (suc n) i k b e = elim (Bool-cases (b.m_status i)) [
    | inl used ↦ rw used (FirstFree-skip used (allocate_from-FirstFree n (i + 1) k b (omega arith)))
    | inr unused ↦
        rw unused (found i (omega arith) (omega arith) unused (λ j p q. absurd (omega arith)))
  ]

  -- `allocate` takes the first free slot and touches no other, or every slot is in use.
  pub allocate-FirstFree :
      (max_size : ℕ) (b : MemoryBuffer A) → FirstFree 0 max_size b (allocate max_size b)
  unfolding allocate
  allocate-FirstFree max_size b = allocate_from-FirstFree max_size 0 max_size b (omega arith)
