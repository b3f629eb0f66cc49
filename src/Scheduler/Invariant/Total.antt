-- ===== src/Scheduler/Invariant/Total.antt =====
-- checkWaitConditions never stops at an assertion when the objects that are waited for exist.
use cortex_m3_rtos.Prelude.{
  ℕ, zero, suc, ◌+◌, ◌<◌, ◌≤◌, ◌≡◌, refl, Bool, true, false, inl, inr, update, done, ap, sym, subst,
  ◌∙◌, arith, Bool-cases,
}
use cortex_m3_rtos.Config.{max_tasks}
use cortex_m3_rtos.Api.{WaitResult}
use cortex_m3_rtos.MemoryBuffer.Slots.{is_allocated-eq, at-eq}
use cortex_m3_rtos.Handle.{Objects}
use cortex_m3_rtos.Handle.Alive.{IsObject-kept, SameSlots}
use cortex_m3_rtos.WaitConditions.Total.{WaitsForObjects, check-Returns, NotFor, is_due, check-due}
use cortex_m3_rtos.WaitList
use cortex_m3_rtos.Task.Laws.{task_at}
use cortex_m3_rtos.Scheduler.{State, check_slot, check_from, check_wait_conditions}
use cortex_m3_rtos.Scheduler.Wake.{item_at}
use cortex_m3_rtos.Scheduler.Invariant.{WellFormed, is_waiting}
use cortex_m3_rtos.Scheduler.Invariant.Waiting.{without_item-Fewer}
use cortex_m3_rtos.Scheduler.Invariant.Conditions.{wake-WellFormed, woken_at}
use native.Mathlib.Decide.{ℕ_discrete}

-- The objects that the tasks in the wait list wait for exist.
abbrev pub ObjectsExist : WaitList.Context → Objects → Type 0
ObjectsExist w o =
    (i : ℕ) → is_waiting w i ≡ true → WaitsForObjects (w.m_list.m_data i).m_conditions o

pub ObjectsExist-kept :
    (w : WaitList.Context) {o o' : Objects} → SameSlots o o' → ObjectsExist w o → ObjectsExist w o'
ObjectsExist-kept w same h i e t k lt = IsObject-kept _ same (h i e t k lt)

-- From the state `st`, where the tasks of `s` are ready, a look at the `n` slots from `i` on leads to `st'`,
-- where those of `s'` are. The scheduler is well-formed and has the same current task, every task that was
-- ready still is, the objects that are still waited for exist, every task gets ready whose item in
-- one of those slots is due, and the other slots are as they were. The records of the tasks that were
-- ready stay as they are, and so does every event that no task in those slots waits for.
pub record Looked (now : ℕ) (st : State) (s : ℕ → Bool) (i n : ℕ) (st' : State) (s' : ℕ → Bool)
    : Type 0 where
  pub well_formed : WellFormed st'.scheduler st'.tasks s'
  pub current : st'.scheduler.m_current ≡ st.scheduler.m_current
  pub more : (j : ℕ) → s j ≡ true → s' j ≡ true
  pub exist : ObjectsExist st'.scheduler.m_wait_list st'.objects
  pub woken :
      (j : ℕ)
      → i ≤ j
      → j < i + n
      → is_waiting st.scheduler.m_wait_list j ≡ true
      → is_due (item_at st j).m_conditions now ≡ true
      → s' (item_at st j).m_id ≡ true
  pub items : (j : ℕ) → item_at st' j ≡ item_at st j
  pub results : (j : ℕ) → s j ≡ true → task_at st'.tasks j ≡ task_at st.tasks j
  pub events :
      (e : ℕ)
      → ((j : ℕ)
          → i ≤ j
          → j < i + n
          → is_waiting st.scheduler.m_wait_list j ≡ true
          → NotFor (item_at st j).m_conditions e)
      → st'.objects.events.m_data.m_data e ≡ st.objects.events.m_data.m_data e
  pub untouched :
      (j : ℕ)
      → i + n ≤ j
      → is_waiting st'.scheduler.m_wait_list j ≡ is_waiting st.scheduler.m_wait_list j

module _ (st : State) (s : ℕ → Bool) (r : WaitResult) (now i : ℕ)
    (h : WellFormed st.scheduler st.tasks s)
    (exist : ObjectsExist st.scheduler.m_wait_list st.objects) (lt : i < max_tasks) where
  abbrev pub Looks : Type 0
  Looks =
      (st' : State) × (s' : ℕ → Bool) × (check_slot st r now i ≡ done st')
      × Looked now st s i 1 st' s'

  looks_free : is_waiting st.scheduler.m_wait_list i ≡ false → Looks
  unfolding check_slot
  looks_free free = (
    st,
    s,
    rw (is_allocated-eq max_tasks st.scheduler.m_wait_list.m_list i lt, free) refl,
    record {
      well_formed = h;
      current = refl;
      more = λ j e. e;
      exist = exist;
      woken = λ j p q w. ground (arith, free, w);
      items = λ j. refl;
      results = λ j m. refl;
      events = λ e free. refl;
      untouched = λ j p. refl;
    },
  )

  looks_taken : is_waiting st.scheduler.m_wait_list i ≡ true → Looks
  unfolding check_slot
  looks_taken taken =
      let w = st.scheduler.m_wait_list.m_list in
      let (v, e, same, spared) =
        check-Returns (item_at st i).m_conditions st.objects r now 0 (exist i taken) in
      let due = check-due (item_at st i).m_conditions st.objects r now 0 in
      elim (Bool-cases v.fulfilled) [
        | inr on ↦ (
          record st { objects = v.objects },
          s,
          rw (is_allocated-eq max_tasks w i lt, taken, at-eq max_tasks w i lt taken, e, on) refl,
          record {
            well_formed = h;
            current = refl;
            more = λ j m. m;
            exist = ObjectsExist-kept st.scheduler.m_wait_list same exist;
            woken = λ j p q waits is.
                let here : j ≡ i = omega arith in
                let due_here = ap (λ x. is_due (item_at st x).m_conditions now) (sym here) ∙ is in
                absurd (ground (arith, on, due due_here e));
            items = λ j. refl;
            results = λ j m. refl;
            events = λ x free. spared x (free i (omega arith) (omega arith) taken);
            untouched = λ j p. refl;
          },
        )
        | inl over ↦
            let id = (item_at st i).m_id in
            let (r', woke, ok) = wake-WellFormed st s h i v lt taken in
            let fewer = without_item-Fewer st.scheduler.m_wait_list i in
            (
              woken_at st s h i v r',
              update s id true,
              rw (is_allocated-eq max_tasks w i lt, taken, at-eq max_tasks w i lt taken, e, over)
                  woke,
              record {
                well_formed = ok;
                current = refl;
                more = λ j m. ground arith;
                exist = λ j waits.
                    ObjectsExist-kept st.scheduler.m_wait_list same exist j (fewer j waits).0;
                woken = λ j p q waits is. let here : j ≡ i = omega arith in rw here (ground arith);
                items = λ j. refl;
                results = λ j m. ground (arith, m, h.waiting_tasks.not_ready i lt taken);
                events = λ x free. spared x (free i (omega arith) (omega arith) taken);
                untouched = λ j p. ground arith;
              },
            )
      ]

  pub looks : Looks
  looks = elim (Bool-cases (is_waiting st.scheduler.m_wait_list i)) [
    | inl taken ↦ looks_taken taken
    | inr free ↦ looks_free free
  ]

-- One look after another.
Looked-trans :
    (now : ℕ) (st st1 st2 : State) (s s1 s2 : ℕ → Bool) (i n : ℕ)
    → Looked now st s i 1 st1 s1
    → Looked now st1 s1 (i + 1) n st2 s2
    → Looked now st s i (suc n) st2 s2
Looked-trans now st st1 st2 s s1 s2 i n a b = record {
  well_formed = b.well_formed;
  current = b.current ∙ a.current;
  more = λ j m. b.more j (a.more j m);
  exist = b.exist;
  woken = λ j p q w is. elim (ℕ_discrete j i) [
    | yes here ↦ b.more (item_at st j).m_id (a.woken j p (omega arith) w is)
    | no other ↦
        let same = a.items j in
        let w1 = a.untouched j (omega arith) ∙ w in
        ap (λ x. s2 x.m_id) (sym same)
        ∙ b.woken j (omega arith) (omega arith) w1 (ap (λ x. is_due x.m_conditions now) same ∙ is)
  ];
  items = λ j. b.items j ∙ a.items j;
  results = λ j m. b.results j (a.more j m) ∙ a.results j m;
  events = λ x free.
      b.events x (λ j p q w.
        let same = a.items j in
        subst (λ y. NotFor y.m_conditions x) (sym same)
          (free j (omega arith) (omega arith) (sym (a.untouched j (omega arith)) ∙ w)))
      ∙ a.events x (λ j p q w. free j p (omega arith) w);
  untouched = λ j p. b.untouched j (omega arith) ∙ a.untouched j (omega arith);
}

pub check_from_returns :
    (n i : ℕ) (st : State) (s : ℕ → Bool) (r : WaitResult) (now : ℕ)
    → i + n ≤ max_tasks
    → WellFormed st.scheduler st.tasks s
    → ObjectsExist st.scheduler.m_wait_list st.objects
    → (st' : State) × (s' : ℕ → Bool) × (check_from n i st r now ≡ done st')
      × Looked now st s i n st' s'
unfolding check_from
check_from_returns zero i st s r now e h exist = (
  st,
  s,
  refl,
  record {
    well_formed = h;
    current = refl;
    more = λ j m. m;
    exist = exist;
    woken = λ j p q. absurd (omega arith);
    items = λ j. refl;
    results = λ j m. refl;
    events = λ x free. refl;
    untouched = λ j p. refl;
  },
)
check_from_returns (suc n) i st s r now e h exist =
    let (st1, s1, q, a) = looks st s r now i h exist (omega arith) in
    let (st2, s2, q2, b) =
      check_from_returns n (i + 1) st1 s1 r now (omega arith) a.well_formed a.exist in
    (st2, s2, rw q q2, Looked-trans now st st1 st2 s s1 s2 i n a b)

-- When the objects that are waited for exist, checkWaitConditions of a well-formed scheduler never stops
-- at an assertion. It leaves the scheduler well-formed, with the same current task and every task ready
-- that was, and the tasks get ready that sleep, or wait with a time limit, and whose time is over.
pub check_wait_conditions_returns :
    (st : State) (s : ℕ → Bool) (r : WaitResult) (now : ℕ)
    → WellFormed st.scheduler st.tasks s
    → ObjectsExist st.scheduler.m_wait_list st.objects
    → (st' : State) × (s' : ℕ → Bool) × (check_wait_conditions st r now ≡ done st')
      × Looked now st s 0 max_tasks st' s'
unfolding check_wait_conditions
check_wait_conditions_returns st s r now h exist =
    check_from_returns max_tasks 0 st s r now (omega arith) h exist
