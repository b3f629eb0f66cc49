-- ===== src/Scheduler/Invariant/Waiting.antt =====
-- Tasks that no longer wait.
use cortex_m3_rtos.Prelude.{
  ℕ, zero, suc, ◌+◌, ◌<◌, ◌≡◌, refl, Bool, true, false, inl, inr, ◌&&◌, ◌==◌, done, arith,
  Bool-cases,
}
use native.Mathlib.Decide.{ℕ_discrete}
use cortex_m3_rtos.Config.{max_tasks}
use cortex_m3_rtos.MemoryBuffer.Slots.{is_allocated-eq, at-eq, free-eq}
use cortex_m3_rtos.Task
use cortex_m3_rtos.WaitList
use cortex_m3_rtos.WaitList.{
  WaitItem, add_task_sleep, add_task_wait_obj, has_task, remove_from, remove_task,
}
use cortex_m3_rtos.Scheduler.Wake.{without_item}
use cortex_m3_rtos.Scheduler.Invariant.{WaitingTasks, NotWaiting, Fewer, is_waiting, waiter}

-- The item in slot `i` is gone.
pub without_item-Waiting :
    {w : WaitList.Context} {tasks : Task.Context} {s : ℕ → Bool} (i : ℕ)
    → WaitingTasks w tasks s
    → WaitingTasks (without_item w i) tasks s
without_item-Waiting i h = record {
  waiter_used = λ j lt e. ground (arith, h.waiter_used j);
  not_ready = λ j lt e. ground (arith, h.not_ready j);
  once = λ j k hj hk ej ek e. ground (arith, h.once j k);
}

pub without_item-Fewer : (w : WaitList.Context) (i : ℕ) → Fewer (without_item w i) w
without_item-Fewer w i j e = (ground arith, refl)

-- The only item of its task is gone.
pub without_item-NotWaiting :
    {w : WaitList.Context} {tasks : Task.Context} {s : ℕ → Bool} (i : ℕ)
    → WaitingTasks w tasks s
    → i < max_tasks
    → is_waiting w i ≡ true
    → NotWaiting (without_item w i) (waiter w i)
without_item-NotWaiting i h lt e j hj ej = ground (arith, h.once i j)

has_task-eq :
    (w : WaitList.Context) (i id : ℕ)
    → i < max_tasks
    → has_task w i id ≡ done (is_waiting w i && (waiter w i == id))
unfolding has_task
has_task-eq w i id lt = elim (Bool-cases (is_waiting w i)) [
  | inl e ↦ rw (is_allocated-eq max_tasks w.m_list i lt, e, at-eq max_tasks w.m_list i lt e)
  | inr e ↦ rw (is_allocated-eq max_tasks w.m_list i lt, e)
]

module _ (w : WaitList.Context) (tasks : Task.Context) (s : ℕ → Bool) (h : WaitingTasks w tasks s)
    (id : ℕ) where
  remove_from-Waiting :
      (n i : ℕ)
      → i + n ≡ max_tasks
      → ((j : ℕ) → j < i → is_waiting w j ≡ true → (waiter w j == id) ≡ false)
      → (w' : WaitList.Context) × (remove_from n i w id ≡ done w')
        × WaitingTasks w' tasks s
        × NotWaiting w' id
        × Fewer w' w
  unfolding remove_from
  remove_from-Waiting zero i e before =
      (w, refl, h, λ j hj ej. before j (omega arith) ej, λ j ej. (ej, refl))
  remove_from-Waiting (suc n) i e before =
      let lt : i < max_tasks = omega arith in
      elim (Bool-cases (is_waiting w i && (waiter w i == id))) [
        | inl hit ↦
            let is : is_waiting w i ≡ true = ground arith in
            let same : waiter w i ≡ id = ground arith in
            (
              without_item w i,
              rw (has_task-eq w i id lt, hit, free-eq max_tasks w.m_list i lt),
              without_item-Waiting i h,
              rw (← same) (without_item-NotWaiting i h lt is),
              without_item-Fewer w i,
            )
        | inr miss ↦
            let (w', eq, ok, gone, fewer) = remove_from-Waiting n (i + 1) (omega arith) (λ j hj ej.
              elim (ℕ_discrete j i) [
                | yes here ↦ ground (arith, here, miss)
                | no other ↦ before j (omega arith) ej
              ]) in
            (w', rw (has_task-eq w i id lt, miss) eq, ok, gone, fewer)
      ]

  pub remove_task-Waiting :
      (w' : WaitList.Context) × (remove_task w id ≡ done w')
      × WaitingTasks w' tasks s
      × NotWaiting w' id
      × Fewer w' w
  unfolding remove_task
  remove_task-Waiting = remove_from-Waiting max_tasks 0 refl (λ j hj. absurd (omega arith))
