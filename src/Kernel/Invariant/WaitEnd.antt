-- ===== src/Kernel/Invariant/WaitEnd.antt =====
-- What a task finds when its wait has ended: source/kernel.cpp, waitForMultipleObjects behind its system
-- call.
mod Examples
use cortex_m3_rtos.Prelude.{
  ℕ, ◌<◌, ◌≡◌, refl, Bool, true, update, Outcome, done, ap, ap₂, sym, ◌∙◌, arith,
}
use cortex_m3_rtos.Config.{max_tasks}
use cortex_m3_rtos.Api.{WaitResult}
use cortex_m3_rtos.Lock
use cortex_m3_rtos.MemoryBuffer.Slots.{is_allocated-eq, at-eq}
use cortex_m3_rtos.Task.{get_result, get_last_signal_index}
use cortex_m3_rtos.Task.Laws.{task_at, IsTask}
use cortex_m3_rtos.WaitConditions.{Verdict, check}
use cortex_m3_rtos.Scheduler.{State, check_slot, wake, get_current_task_id}
use cortex_m3_rtos.Scheduler.Wake.{item_at}
use cortex_m3_rtos.Scheduler.Invariant.{WellFormed, is_waiting}
use cortex_m3_rtos.Scheduler.Invariant.Conditions.{wake-WellFormed, woken_at}
use cortex_m3_rtos.Kernel.{Kernel, lock_enter, lock_leave}
use cortex_m3_rtos.Kernel.SyncApi.{wait_end}
use cortex_m3_rtos.Kernel.Invariant.{Well}

-- The look at a slot whose wait is over.
check_slot-wake :
    (st : State) (r : WaitResult) (now i : ℕ) (v : Verdict)
    → i < max_tasks
    → is_waiting st.scheduler.m_wait_list i ≡ true
    → check (item_at st i).m_conditions st.objects r now 0 ≡ done v
    → v.fulfilled ≡ true
    → check_slot st r now i
      ≡ wake
          (record st { objects = v.objects })
          i
          (item_at st i).m_id
          v.result
          v.signaled_item_index
unfolding check_slot
check_slot-wake st r now i v lt taken e over =
    let w = st.scheduler.m_wait_list.m_list in
    rw (is_allocated-eq max_tasks w i lt, taken, at-eq max_tasks w i lt taken, e, over) refl

-- The same in a well-formed scheduler.
pub check_slot-over :
    (st : State) (s : ℕ → Bool) (h : WellFormed st.scheduler st.tasks s) (r : WaitResult)
    (now i : ℕ) (v : Verdict)
    → i < max_tasks
    → is_waiting st.scheduler.m_wait_list i ≡ true
    → check (item_at st i).m_conditions st.objects r now 0 ≡ done v
    → v.fulfilled ≡ true
    → (st' : State) × (check_slot st r now i ≡ done st')
      × WellFormed st'.scheduler st'.tasks (update s (item_at st i).m_id true)
      × ((task_at st'.tasks (item_at st i).m_id).m_result ≡ v.result)
      × ((task_at st'.tasks (item_at st i).m_id).m_last_signal_index ≡ v.signaled_item_index)
check_slot-over st s h r now i v lt taken e over =
    let (r', woke, ok) = wake-WellFormed st s h i v lt taken in
    (
      woken_at st s h i v r',
      check_slot-wake st r now i v lt taken e over ∙ woke,
      ok,
      ground arith,
      ground arith,
    )

pub done-injective : {A : Type 0} {a b : A} → done a ≡ done b → a ≡ b
done-injective e = cc

-- Taking a free lock and releasing it changes nothing.
lock_leave-lock_enter : (k : Kernel) → k.m_lock.m_interlock ≡ 0 → lock_leave (lock_enter k) ≡ k
unfolding lock_leave lock_enter Lock.leave Lock.enter
lock_leave-lock_enter k free =
    ap (λ n. record k { m_lock = record { m_interlock = n } }) (omega (arith, free))

pub wait_end-eq :
    (k : Kernel) (s : ℕ → Bool)
    → Well k s
    → IsTask k.m_tasks k.m_scheduler.m_current
    → let t = task_at k.m_tasks k.m_scheduler.m_current in
      wait_end k ≡ done (t.m_result, t.m_last_signal_index, k)
unfolding wait_end get_result get_last_signal_index lock_enter get_current_task_id
wait_end-eq k s h used =
    let t = task_at k.m_tasks k.m_scheduler.m_current in
    let read : wait_end k ≡ done (t.m_result, t.m_last_signal_index, lock_leave (lock_enter k)) =
      ground arith in
    read
    ∙ ap (λ x. done (t.m_result, t.m_last_signal_index, x)) (lock_leave-lock_enter k h.unlocked)

module _ (st st' : State) (s s' : ℕ → Bool) (k : Kernel) (r : WaitResult) (now i : ℕ)
    (v : Verdict) where
  -- When the wait of the task in slot i of the wait list of a well-formed scheduler is over with verdict v,
  -- and later, in a state with the invariant of the kernel, that task runs and nothing has changed the
  -- result and the index in its record, waitForMultipleObjects returns to it the result and the index of
  -- v, and changes nothing.
  pub wait_end-check_slot :
      WellFormed st.scheduler st.tasks s
      → i < max_tasks
      → is_waiting st.scheduler.m_wait_list i ≡ true
      → check (item_at st i).m_conditions st.objects r now 0 ≡ done v
      → v.fulfilled ≡ true
      → check_slot st r now i ≡ done st'
      → Well k s'
      → let id = (item_at st i).m_id in
        k.m_scheduler.m_current ≡ id
        → IsTask k.m_tasks id
        → (task_at k.m_tasks id).m_result ≡ (task_at st'.tasks id).m_result
        → (task_at k.m_tasks id).m_last_signal_index ≡ (task_at st'.tasks id).m_last_signal_index
        → wait_end k ≡ done (v.result, v.signaled_item_index, k)
  wait_end-check_slot h lt taken e over looked well runs used result index =
      let (st1, q, _, result1, index1) = check_slot-over st s h r now i v lt taken e over in
      let id = (item_at st i).m_id in
      let same : st' ≡ st1 = done-injective (sym looked ∙ q) in
      let read = wait_end-eq k s' well (rw runs used) in
      let a : (task_at k.m_tasks k.m_scheduler.m_current).m_result ≡ v.result =
        rw runs (result ∙ ap (λ x. (task_at x.tasks id).m_result) same ∙ result1) in
      let b : (task_at k.m_tasks k.m_scheduler.m_current).m_last_signal_index
          ≡ v.signaled_item_index =
        rw runs (index ∙ ap (λ x. (task_at x.tasks id).m_last_signal_index) same ∙ index1) in
      read ∙ ap₂ (λ x y. done (x, y, k)) a b
