-- ===== src/Scheduler/Invariant/Begin.antt =====
-- A ready task that begins to wait finds a slot for its item.
use cortex_m3_rtos.Prelude.{
  ℕ, ◌<◌, ◌≡◌, ◌≢◌, refl, Bool, true, false, inl, inr, Option, some, ◌==◌, if◌then◌else◌, update,
  done, arith, lt→ltb, Bool-cases,
}
use cortex_m3_rtos.Config.{max_tasks, max_input_signals}
use cortex_m3_rtos.MemoryBuffer.{MemoryBuffer, allocate}
use cortex_m3_rtos.MemoryBuffer.Laws.{FirstFree, full, found, allocate-FirstFree}
use cortex_m3_rtos.MemoryBuffer.Slots.{at-eq, set_at-eq, modify-eq}
use cortex_m3_rtos.MemoryBuffer.Room.{pigeonhole}
use cortex_m3_rtos.Task
use cortex_m3_rtos.Task.Laws.{IsTask}
use cortex_m3_rtos.WaitConditions.{
  wait_for_obj, Conditions, init_sleep, copy_signals, init_wait_for_obj,
}
use cortex_m3_rtos.WaitList
use cortex_m3_rtos.WaitList.{
  WaitItem, add_task_sleep, add_task_wait_obj, has_task, remove_from, remove_task,
}
use cortex_m3_rtos.Scheduler.Invariant.{WaitingTasks, OneMore, is_waiting, waiter}

init_wait_for_obj-eq :
    (c : Conditions) (signals : ℕ → ℕ) (n : ℕ) (all forever : Bool) (timeout current : ℕ)
    → 0 < n
    → n < max_input_signals
    → (c' : Conditions) × (init_wait_for_obj c (some signals) n all forever timeout current
        ≡ done (true, c'))
unfolding init_wait_for_obj
init_wait_for_obj-eq c signals n all forever timeout current p q = (
  record {
    m_type = wait_for_obj;
    m_wait_signals = copy_signals n 0 c.m_wait_signals signals;
    m_number_of_signals = n;
    m_wait_for_all_signals = all;
    m_wait_forver = forever;
    m_interval = timeout;
    m_start = current;
  },
  rw (lt→ltb 0 n p, lt→ltb n max_input_signals q),
)

module _ (w : WaitList.Context) (tasks : Task.Context) (s : ℕ → Bool) (h : WaitingTasks w tasks s)
    (id : ℕ) (used : IsTask tasks id) (is_ready : s id ≡ true) where
  -- A ready task has no item.
  not_its_item : (i : ℕ) → i < max_tasks → is_waiting w i ≡ true → waiter w i ≢ id
  not_its_item i lt e same = ground (arith, h.not_ready i lt e, same)

  -- So one slot is free.
  not_full : ((i : ℕ) → i < max_tasks → is_waiting w i ≡ true) → ⊥
  not_full all = absurd (
      omega (
        arith,
        pigeonhole (waiter w) max_tasks max_tasks id (λ k lt. (h.waiter_used k lt (all k lt)).0)
            (λ j k hj hk e. h.once j k hj hk (all j hj) (all k hk) e) used.0
            (λ k lt. not_its_item k lt (all k lt)),
      ))

  -- The context with a new item of the task in slot `i`.
  with_item-Waiting :
      (w' : WaitList.Context) (i : ℕ)
      → ((j : ℕ) → is_waiting w' j ≡ (if i == j then true else is_waiting w j))
      → ((j : ℕ) → waiter w' j ≡ (if i == j then id else waiter w j))
      → WaitingTasks w' tasks (update s id false) × OneMore w' w id
  with_item-Waiting w' i status ids = (
    record {
      waiter_used = λ j lt e. ground (arith, status j, ids j, h.waiter_used j, used);
      not_ready = λ j lt e. ground (arith, status j, ids j, h.not_ready j);
      once = λ j k hj hk ej ek e.
          ground
            (arith, status j, status k, ids j, ids k, h.once j k, not_its_item j, not_its_item k);
    },
    λ j e. elim (Bool-cases (i == j)) [
      | inl here ↦ inl (ground (arith, here, ids j))
      | inr other ↦ inr (ground (arith, other, e, status j), ground (arith, other, ids j))
    ],
  )

  slept :
      {r : Option (ℕ × MemoryBuffer WaitItem)} (interval current : ℕ)
      → allocate max_tasks w.m_list ≡ r
      → FirstFree 0 max_tasks w.m_list r
      → (w' : WaitList.Context) × (add_task_sleep w id interval current ≡ done (true, w'))
        × WaitingTasks w' tasks (update s id false)
        × OneMore w' w id
  unfolding add_task_sleep
  slept interval current e (full all) = absurd (not_full (λ i lt. all i (omega arith) lt))
  slept interval current e (found i _ lt _ _) =
      let b : MemoryBuffer WaitItem = record w.m_list {
        m_status = update w.m_list.m_status i true;
      } in
      let b' : MemoryBuffer WaitItem = record b {
        m_data = update b.m_data i (record (b.m_data i) { m_id = id });
      } in
      let f : WaitItem → WaitItem =
        λ x. record x { m_conditions = init_sleep x.m_conditions interval current } in
      let taken : b.m_status i ≡ true = ground arith in
      let w' : WaitList.Context = record {
        m_list = record b' { m_data = update b'.m_data i (f (b'.m_data i)) };
      } in
      let more = with_item-Waiting w' i (λ j. refl) (λ j. ground arith) in
      (
        w',
        rw (
          add_task_sleep,
          e,
          modify-eq max_tasks b i lt taken (λ x. record x { m_id = id }),
          modify-eq max_tasks b' i lt taken f,
        ),
        more.0,
        more.1,
      )

  -- A ready task that goes to sleep finds a free slot.
  pub add_task_sleep-Waiting :
      (interval current : ℕ)
      → (w' : WaitList.Context) × (add_task_sleep w id interval current ≡ done (true, w'))
        × WaitingTasks w' tasks (update s id false)
        × OneMore w' w id
  add_task_sleep-Waiting interval current =
      slept interval current refl (allocate-FirstFree max_tasks w.m_list)

  waits_for :
      {r : Option (ℕ × MemoryBuffer WaitItem)} (signals : ℕ → ℕ) (n : ℕ) (all forever : Bool)
      (timeout current : ℕ)
      → 0 < n
      → n < max_input_signals
      → allocate max_tasks w.m_list ≡ r
      → FirstFree 0 max_tasks w.m_list r
      → (w' : WaitList.Context) × (add_task_wait_obj w id
            (some signals)
            n
            all
            forever
            timeout
            current
          ≡ done (true, w'))
        × WaitingTasks w' tasks (update s id false)
        × OneMore w' w id
  unfolding add_task_wait_obj
  waits_for signals n all forever timeout current p q e (full every) =
      absurd (not_full (λ i lt. every i (omega arith) lt))
  waits_for signals n all forever timeout current p q e (found i _ lt _ _) =
      let b : MemoryBuffer WaitItem = record w.m_list {
        m_status = update w.m_list.m_status i true;
      } in
      let b' : MemoryBuffer WaitItem = record b {
        m_data = update b.m_data i (record (b.m_data i) { m_id = id });
      } in
      let taken : b.m_status i ≡ true = ground arith in
      let x = b'.m_data i in
      let (c, init) =
        init_wait_for_obj-eq x.m_conditions signals n all forever timeout current p q in
      let y : WaitItem = record x { m_conditions = c } in
      let w' : WaitList.Context = record { m_list = record b' { m_data = update b'.m_data i y } } in
      let more = with_item-Waiting w' i (λ j. refl) (λ j. ground arith) in
      (
        w',
        rw (
          add_task_wait_obj,
          e,
          modify-eq max_tasks b i lt taken (λ x. record x { m_id = id }),
          at-eq max_tasks b' i lt taken,
          init,
          set_at-eq max_tasks b' i lt taken y,
        ),
        more.0,
        more.1,
      )

  -- So does a ready task that waits for objects, of which there are few enough.
  pub add_task_wait_obj-Waiting :
      (signals : ℕ → ℕ) (n : ℕ) (all forever : Bool) (timeout current : ℕ)
      → 0 < n
      → n < max_input_signals
      → (w' : WaitList.Context) × (add_task_wait_obj w id
            (some signals)
            n
            all
            forever
            timeout
            current
          ≡ done (true, w'))
        × WaitingTasks w' tasks (update s id false)
        × OneMore w' w id
  add_task_wait_obj-Waiting signals n all forever timeout current p q =
      waits_for signals n all forever timeout current p q refl
        (allocate-FirstFree max_tasks w.m_list)
