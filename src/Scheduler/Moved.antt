-- ===== src/Scheduler/Moved.antt =====
-- The ready lists when the one of priority `q` has another current task: source/scheduler/ready_list.hpp.
use cortex_m3_rtos.Prelude.{ℕ, ◌<◌, ◌≡◌, refl, arith, ap, ◌∙◌, update, fun_ext, true, false, ◌==◌}
use native.Mathlib.Decide.{ℕ_discrete}
use cortex_m3_rtos.ReadyList
use cortex_m3_rtos.ReadyList.{TaskList, put}
use cortex_m3_rtos.ReadyList.Ready.{size}
use cortex_m3_rtos.ReadyList.Ready.Turns.{IsReady-moved}
use cortex_m3_rtos.Scheduler.{priorities_count}
use cortex_m3_rtos.Scheduler.Choice.{AreReady, IsHighest, list_of}

module _ (q : ℕ) where
  -- The lists with another current task of priority `q`.
  abbrev pub moved : ReadyList.Context → ℕ → ReadyList.Context
  moved r i = put r q (record (list_of r q) { m_current = i })

  pub moved-AreReady :
      (r : ReadyList.Context) (node : ℕ → ℕ → ℕ) (p : ℕ → ℕ) (k : ℕ)
      → AreReady r node p
      → q < priorities_count
      → k < size (list_of r q)
      → AreReady (moved r (node q k)) node (update p q k)
  moved-AreReady r node p k all inside lt j h = elim (ℕ_discrete j q) [
    | yes e ↦
        let same : (q == q) ≡ true = ground arith in
        rw (e, same) (IsReady-moved (list_of r q) (node q) (p q) k (all q inside) lt)
    | no ne ↦ let other : (q == j) ≡ false = ground arith in rw other (all j h)
  ]

  pub moved-size :
      (r : ReadyList.Context) (i j : ℕ) → size (list_of (moved r i) j) ≡ size (list_of r j)
  moved-size r i j = elim (ℕ_discrete j q) [
    | yes e ↦ let same : (q == q) ≡ true = ground arith in rw (e, same) refl
    | no ne ↦ let other : (q == j) ≡ false = ground arith in rw other refl
  ]

  pub moved-IsHighest : (r : ReadyList.Context) (i : ℕ) → IsHighest r q → IsHighest (moved r i) q
  moved-IsHighest r i (inside, some_task, none_above) =
      (inside, rw (moved-size r i q) some_task, λ j h. moved-size r i j ∙ none_above j h)

  pub moved-list :
      (r : ReadyList.Context) (i : ℕ)
      → list_of (moved r i) q ≡ record (list_of r q) { m_current = i }
  moved-list r i = let same : (q == q) ≡ true = ground arith in rw same refl

  pub moved_twice :
      (r : ReadyList.Context) (i j : ℕ)
      → put (moved r i) q (record (list_of r q) { m_current = j }) ≡ moved r j
  moved_twice r i j = ap (λ f. record { m_ready_list = f }) (fun_ext λ n. ground arith)
