-- ===== src/ReadyList/Ready/Turns.antt =====
-- Round robin: the turns that findNextTask gives to the tasks of one priority.
use cortex_m3_rtos.Prelude.{
  ℕ, zero, suc, ◌+◌, ◌-◌, ◌%◌, ◌<◌, ◌≡◌, refl, List, [], ◌∷◌, Option, some, arith, ltb,
  if◌then◌else◌, slice, slice-ext, slice-shift, Outcome, done, ◌>>=◌, ap, ap₂, sym, ◌∙◌,
}
use native.Mathlib.Decide.{ℕ_discrete, dec_lt}
use native.Mathlib.Nat.{mod-lt, mod-eq_of_lt, mod-add-mod, mod-eq-sub-mod}
use cortex_m3_rtos.CircularList.Ring.{after}
use cortex_m3_rtos.ReadyList.{TaskList, next_of}
use cortex_m3_rtos.ReadyList.Ready.{size, task_at, IsReady, next_of-eq}

-- The tasks that `n` calls of findNextTask choose, and the list afterwards.
unfoldable pub turns : ℕ → TaskList → Outcome (List (Option ℕ) × TaskList)
turns zero t = done ([], t)
turns (suc n) t = do (chosen, t') ← next_of t; (rest, t'') ← turns n t'; done (chosen ∷ rest, t'')

pub IsReady-moved :
    (t : TaskList) (node : ℕ → ℕ) (p q : ℕ)
    → IsReady t node p
    → q < size t
    → IsReady (record t { m_current = node q }) node q
IsReady-moved t node p q ready h = record {
  ring = ready.ring;
  position = λ _. h;
  current = λ _. refl;
  unique = ready.unique;
}

pub after-mod : (n p : ℕ) → p < n → after n p ≡ (p + 1) % n
after-mod n p h = elim (ℕ_discrete (p + 1) n) [
  | yes e ↦ rw e (grind arith)
  | no ne ↦ rw (mod-eq_of_lt {n = p + 1} {m = n} (omega arith)) (ground arith)
]

pub mod-suc : (n p k : ℕ) → ((p + 1) % n + k) % n ≡ (p + (k + 1)) % n
mod-suc n p k = rw mod-add-mod (ap (λ j. j % n) (omega arith))

pub mod-zero : (n p : ℕ) → p < n → p ≡ (p + 0) % n
mod-zero n p h = sym (ap (λ k. k % n) (omega arith) ∙ mod-eq_of_lt h)

-- `%` within two rounds.
pub mod-twice : (n x : ℕ) → x < n + n → x % n ≡ (if ltb x n then x else x - n)
mod-twice n x h = elim (dec_lt x n) [
  | yes p ↦ rw (mod-eq_of_lt p) (ground arith)
  | no p ↦
      rw
        (
          mod-eq-sub-mod {n = x} {m = n} (omega arith),
          mod-eq_of_lt {n = x - n} {m = n} (omega arith),
        )
        (ground arith)
]

mod_cancel : (n p j k : ℕ) → p < n → j < n → k < n → (p + suc j) % n ≡ (p + suc k) % n → j ≡ k
mod_cancel n p j k hp hj hk e =
    ground (arith, mod-twice n (p + suc j) (omega arith), mod-twice n (p + suc k) (omega arith), e)

-- The k-th of `n` calls chooses the task `k` places behind the current one, counted round the ring.
turns-eq :
    (n : ℕ) (t : TaskList) (node : ℕ → ℕ) (p : ℕ)
    → IsReady t node p
    → p < size t
    → turns n t
      ≡ done (
        slice (λ k. some (task_at t node ((p + k) % size t))) 1 n,
        record t { m_current = node ((p + n) % size t) },
      )
unfolding turns
turns-eq zero t node p ready h =
    ap (λ c. done ([], record t { m_current = c }))
      (ready.current (omega arith) ∙ ap node (mod-zero (size t) p h))
turns-eq (suc n) t node p ready h =
    let q = (p + 1) % size t in
    let lt : q < size t = mod-lt (p + 1) (omega arith) in
    rw
      (
        next_of-eq t node p ready (omega arith),
        after-mod (size t) p h,
        turns-eq n (record t { m_current = node q }) node q (IsReady-moved t node p q ready lt) lt,
      )
      (ap₂ (λ xs c. done (some (task_at t node q) ∷ xs, record t { m_current = c }))
        (slice-ext _ _ 1 n (λ k _ _. ap (λ j. some (task_at t node j)) (mod-suc (size t) p k))
          ∙ slice-shift (λ k. some (task_at t node ((p + k) % size t))) 1 n)
        (ap node (mod-suc (size t) p n ∙ ap (λ k. (p + k) % size t) (omega arith))))

-- When the list is not empty, n calls of findNextTask never stop at an assertion. The k-th of them chooses
-- the task k places behind the current one, counted round the ring, so that each of as many calls as
-- there are tasks chooses another task: every position is chosen by exactly one of them. After these
-- calls the list is as it was before.
pub round_robin :
    (t : TaskList) (node : ℕ → ℕ) (p : ℕ)
    → IsReady t node p
    → 0 < size t
    → ((n : ℕ)
        → turns n t
          ≡ done (
            slice (λ k. some (task_at t node ((p + k) % size t))) 1 n,
            record t { m_current = node ((p + n) % size t) },
          ))
      × ((j k : ℕ) → j < size t → k < size t → (p + suc j) % size t ≡ (p + suc k) % size t → j ≡ k)
      × (record t { m_current = node ((p + size t) % size t) } ≡ t)
round_robin t node p ready h = (
  λ n. turns-eq n t node p ready (ready.position h),
  λ j k hj hk e. mod_cancel (size t) p j k (ready.position h) hj hk e,
  ap (λ c. record t { m_current = c }) (ap node (round (ready.position h)) ∙ sym (ready.current h)),
)
  where
    round : p < size t → (p + size t) % size t ≡ p
    round lt = mod-twice (size t) (p + size t) (omega arith) ∙ ground arith
