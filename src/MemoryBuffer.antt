-- ===== src/MemoryBuffer.antt =====
-- source/common/memory_buffer.hpp: a fixed number of slots, each with a flag that says whether it is
-- in use. `max_size` is the template argument MaxSize, and an Id is the index of a slot.
pub mod Laws
pub mod Slots
pub mod Room
use cortex_m3_rtos.Prelude.{
  ℕ, zero, suc, ◌+◌, Bool, true, false, Option, none, some, ltb, if◌then◌else◌, update, Outcome,
  done, halted, ◌>>=◌, ◌>>◌, assert,
}

pub record MemoryBuffer {ℓ} (A : Type ℓ) : Type ℓ where
  pub m_data : ℕ → A
  pub m_status : ℕ → Bool

-- The constructor: no slot is in use. `m_data` is not initialised, so its content is an argument.
unfoldable pub init {ℓ} : {A : Type ℓ} → (ℕ → A) → MemoryBuffer A
init garbage = record { m_data = garbage; m_status = λ _. false }

-- The search loop of `allocate` from index `i`, with `n` rounds left; `none` is the result false.
unfoldable pub allocate_from {ℓ} :
    {A : Type ℓ} → ℕ → ℕ → MemoryBuffer A → Option (ℕ × MemoryBuffer A)
allocate_from zero i b = none
allocate_from (suc n) i b =
    if b.m_status i
    then allocate_from n (i + 1) b
    else some (i, record b { m_status = update b.m_status i true })

-- The loop of `freeAll`.
unfoldable pub free_from {ℓ} : {A : Type ℓ} → ℕ → ℕ → MemoryBuffer A → MemoryBuffer A
free_from zero i b = b
free_from (suc n) i b = free_from n (i + 1) (record b { m_status = update b.m_status i false })

module _ {ℓ} {A : Type ℓ} (max_size : ℕ) where
  unfoldable pub allocate : MemoryBuffer A → Option (ℕ × MemoryBuffer A)
  unfolding allocate_from
  allocate b = allocate_from max_size 0 b

  unfoldable pub free : MemoryBuffer A → ℕ → Outcome (MemoryBuffer A)
  free b id = do assert (ltb id max_size); done (record b { m_status = update b.m_status id false })

  unfoldable pub free_all : MemoryBuffer A → MemoryBuffer A
  unfolding free_from
  free_all b = free_from max_size 0 b

  -- `at` as the right side of an assignment.
  unfoldable pub at : MemoryBuffer A → ℕ → Outcome A
  at b id = do assert (ltb id max_size); assert (b.m_status id); done (b.m_data id)

  -- `at` as the target of an assignment.
  unfoldable pub set_at : MemoryBuffer A → ℕ → A → Outcome (MemoryBuffer A)
  set_at b id v = do
    assert (ltb id max_size)
    assert (b.m_status id)
    done (record b { m_data = update b.m_data id v })

  unfoldable pub is_allocated : MemoryBuffer A → ℕ → Outcome Bool
  is_allocated b id = do assert (ltb id max_size); done (b.m_status id)

  -- An assignment to a part of the item: `at( id).m_field = …`.
  unfoldable pub modify : MemoryBuffer A → ℕ → (A → A) → Outcome (MemoryBuffer A)
  unfolding at set_at
  modify b id f = do v ← at b id; set_at b id (f v)
