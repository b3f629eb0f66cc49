-- ===== src/Scheduler/Invariant/Conditions.antt =====
-- checkWaitConditions keeps the scheduler well-formed.
use cortex_m3_rtos.Prelude.{
  ℕ, zero, suc, ◌+◌, ◌<◌, ◌≡◌, refl, Bool, true, inl, inr, update, Outcome, done, halted, ◌>>=◌,
  ◌∙◌, arith, Bool-cases, Outcome-cases,
}
use cortex_m3_rtos.Config.{max_tasks}
use cortex_m3_rtos.Api.{WaitResult}
use cortex_m3_rtos.MemoryBuffer.Slots.{is_allocated-eq, at-eq}
use cortex_m3_rtos.Task.Laws.{task_at, put}
use cortex_m3_rtos.ReadyList
use cortex_m3_rtos.WaitConditions.{Verdict, check}
use cortex_m3_rtos.Scheduler.{State, wake, check_slot, check_from, check_wait_conditions}
use cortex_m3_rtos.Scheduler.Wake.{wake-eq, woken, item_at, without_item}
use cortex_m3_rtos.Scheduler.Invariant.{
  WellFormed, is_waiting, waiter, ReadyTasks-put, WaitingTasks-put,
}
use cortex_m3_rtos.Scheduler.Invariant.Ready.{add_ready_task-Ready}
use cortex_m3_rtos.Scheduler.Invariant.Waiting.{
  without_item-Waiting, without_item-Fewer, without_item-NotWaiting,
}
use cortex_m3_rtos.Scheduler.Invariant.Operations.{WaitingTasks-more}

-- The call stops at an assertion, or leaves the scheduler well-formed, with the same current task, where
-- every task is ready that was, and perhaps more are.
pub data Keeps (st : State) (s : ℕ → Bool) : Outcome State → Type 0 where
  stops : Keeps st s halted
  keeps :
      (st' : State) (s' : ℕ → Bool)
      → WellFormed st'.scheduler st'.tasks s'
      → st'.scheduler.m_current ≡ st.scheduler.m_current
      → ((j : ℕ) → s j ≡ true → s' j ≡ true)
      → Keeps st s (done st')

module _ (st : State) (s : ℕ → Bool) (h : WellFormed st.scheduler st.tasks s) where
  -- The state when the task of the item in slot `i` has got ready, in another ready list.
  abbrev pub woken_at : ℕ → Verdict → ReadyList.Context → State
  woken_at i v r' = record {
    scheduler = record st.scheduler {
      m_ready_list = r';
      m_wait_list = without_item st.scheduler.m_wait_list i;
    };
    tasks = put st.tasks (item_at st i).m_id (woken (task_at st.tasks (item_at st i).m_id) v);
    objects = v.objects;
  }

  pub wake-WellFormed :
      (i : ℕ) (v : Verdict)
      → i < max_tasks
      → is_waiting st.scheduler.m_wait_list i ≡ true
      → (r' : ReadyList.Context) × (wake
            (record st { objects = v.objects })
            i
            (item_at st i).m_id
            v.result
            v.signaled_item_index
          ≡ done (woken_at i v r'))
        × WellFormed
            (woken_at i v r').scheduler
            (woken_at i v r').tasks
            (update s (item_at st i).m_id true)
  wake-WellFormed i v lt taken =
      let w = st.scheduler.m_wait_list in
      let id = waiter w i in
      let used = h.waiting_tasks.waiter_used i lt taken in
      let (r', e, ok) =
        add_ready_task-Ready st.scheduler st.tasks s h.ready_tasks id used
          (h.waiting_tasks.not_ready i lt taken) in
      let gone = without_item-NotWaiting i h.waiting_tasks lt taken in
      let fewer = without_item-Fewer w i in
      let t = woken (task_at st.tasks id) v in
      (
        r',
        wake-eq (record st { objects = v.objects }) r' i id v lt used e,
        record {
          ready_tasks = ReadyTasks-put st.tasks (update s id true) id t refl ok;
          waiting_tasks =
              WaitingTasks-put id t
                (WaitingTasks-more id gone (without_item-Waiting i h.waiting_tasks));
          asleep = λ j hj ej. ground (arith, gone j hj ej, h.asleep j hj (fewer j ej).0);
        },
      )

  -- The task of an item gets ready.
  wake-Keeps :
      (i : ℕ) (v : Verdict)
      → i < max_tasks
      → is_waiting st.scheduler.m_wait_list i ≡ true
      → let s1 : State = record st { objects = v.objects } in
        Keeps st s (wake s1 i (item_at st i).m_id v.result v.signaled_item_index)
  wake-Keeps i v lt taken =
      let (r', e, ok) = wake-WellFormed i v lt taken in
      rw e (keeps _ (update s (item_at st i).m_id true) ok refl (λ j e. ground arith))

  pub check_slot-Keeps :
      (r : WaitResult) (current i : ℕ) → i < max_tasks → Keeps st s (check_slot st r current i)
  unfolding check_slot
  check_slot-Keeps r current i lt =
      let w = st.scheduler.m_wait_list.m_list in
      elim (Bool-cases (w.m_status i)) [
        | inr free ↦ rw (is_allocated-eq max_tasks w i lt, free) (keeps st s h refl (λ j e. e))
        | inl taken ↦
            elim (Outcome-cases (check (item_at st i).m_conditions st.objects r current 0)) [
              | inl e ↦
                  rw (is_allocated-eq max_tasks w i lt, taken, at-eq max_tasks w i lt taken, e)
                    stops
              | inr (v, e) ↦ elim (Bool-cases v.fulfilled) [
                | inl over ↦
                    rw
                      (
                        is_allocated-eq max_tasks w i lt,
                        taken,
                        at-eq max_tasks w i lt taken,
                        e,
                        over,
                      )
                      (wake-Keeps i v lt taken)
                | inr on ↦
                    rw
                      (is_allocated-eq max_tasks w i lt, taken, at-eq max_tasks w i lt taken, e, on)
                      (keeps (record st { objects = v.objects }) s h refl (λ j e. e))
              ]
            ]
      ]

-- One call after another.
then_Keeps :
    {st : State} {s : ℕ → Bool} {o : Outcome State} (f : State → Outcome State)
    → Keeps st s o
    → ((st' : State) (s' : ℕ → Bool) → WellFormed st'.scheduler st'.tasks s' → Keeps st' s' (f st'))
    → Keeps st s (o >>= f)
then_Keeps f stops h = stops
then_Keeps f (keeps st1 s1 ok same more) h = follows same more (h st1 s1 ok)
  where
    follows :
        {st st1 : State} {s s1 : ℕ → Bool} {o : Outcome State}
        → st1.scheduler.m_current ≡ st.scheduler.m_current
        → ((j : ℕ) → s j ≡ true → s1 j ≡ true)
        → Keeps st1 s1 o
        → Keeps st s o
    follows same more stops = stops
    follows same more (keeps st2 s2 ok again most) =
        keeps st2 s2 ok (again ∙ same) (λ j e. most j (more j e))

check_from-Keeps :
    (n i : ℕ) (st : State) (s : ℕ → Bool) (r : WaitResult) (current : ℕ)
    → i + n ≡ max_tasks
    → WellFormed st.scheduler st.tasks s
    → Keeps st s (check_from n i st r current)
unfolding check_from
check_from-Keeps zero i st s r current e h = keeps st s h refl (λ j e. e)
check_from-Keeps (suc n) i st s r current e h =
    then_Keeps (λ st'. check_from n (i + 1) st' r current)
      (check_slot-Keeps st s h r current i (omega arith))
      (λ st' s' ok. check_from-Keeps n (i + 1) st' s' r current (omega arith) ok)

-- checkWaitConditions of a well-formed scheduler stops at an assertion, or leaves the scheduler
-- well-formed, with the same current task and with every task ready that was.
pub check_wait_conditions-Keeps :
    (st : State) (s : ℕ → Bool) (r : WaitResult) (current : ℕ)
    → WellFormed st.scheduler st.tasks s
    → Keeps st s (check_wait_conditions st r current)
unfolding check_wait_conditions
check_wait_conditions-Keeps st s r current h = check_from-Keeps max_tasks 0 st s r current refl h
