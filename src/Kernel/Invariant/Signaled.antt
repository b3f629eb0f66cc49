-- ===== src/Kernel/Invariant/Signaled.antt =====
-- A task that waits for an event gets ready when the wait conditions are checked and the event is set:
-- source/scheduler/scheduler.hpp, checkWaitConditions.
use cortex_m3_rtos.Prelude.{
  ℕ, zero, suc, ◌+◌, ◌-◌, ◌<◌, ◌≡◌, refl, Bool, true, false, some, update, done, ◌>>=◌, arith, ap,
  sym, subst, ◌∙◌, fun_ext, bind_assoc,
}
use cortex_m3_rtos.Config.{max_events, max_tasks}
use cortex_m3_rtos.Api.{WaitResult, object_set}
use cortex_m3_rtos.Event
use cortex_m3_rtos.Handle
use cortex_m3_rtos.Handle.{ObjectType, Objects, test_condition, reset_state}
use cortex_m3_rtos.Handle.Alive.{InUse, IsObject, ObjectAt, reset_state_returns}
use cortex_m3_rtos.Task.Laws.{task_at}
use cortex_m3_rtos.WaitConditions.{
  wait_for_obj, Conditions, init_wait_for_obj, test_wait_signals, check,
}
use cortex_m3_rtos.Scheduler.{State, check_slot, check_from, check_wait_conditions}
use cortex_m3_rtos.Scheduler.Invariant.Total.{ObjectsExist, looks, check_from_returns}
use cortex_m3_rtos.WaitConditions.Total.{NotFor}
use cortex_m3_rtos.Scheduler.Wake.{item_at}
use cortex_m3_rtos.Scheduler.Invariant.{WellFormed, is_waiting}
use cortex_m3_rtos.Kernel.Invariant.WaitEnd.{check_slot-over, done-injective}

-- A wait for that object alone, with no time limit.
pub record WaitsFor (c : Conditions) (handle : ℕ) : Type 0 where
  pub type : c.m_type ≡ wait_for_obj
  pub forever : c.m_wait_forver ≡ true
  pub any : c.m_wait_for_all_signals ≡ false
  pub one : c.m_number_of_signals ≡ 1
  pub signal : c.m_wait_signals 0 ≡ handle

-- It is what `enter` waits for.
pub init_wait_for_obj-WaitsFor :
    (c : Conditions) (handle now : ℕ)
    → (c' : Conditions) × (init_wait_for_obj c (some (λ _. handle)) 1 false true 0 now
        ≡ done (true, c'))
      × WaitsFor c' handle
unfolding init_wait_for_obj
init_wait_for_obj-WaitsFor c handle now =
    (_, refl, record { type = refl; forever = refl; any = refl; one = refl; signal = refl })

test_condition-set :
    (o : Objects) (handle : ℕ)
    → Handle.get_object_type handle ≡ ObjectType.event
    → InUse max_events o.events.m_data (Handle.get_id handle)
    → (o.events.m_data.m_data (Handle.get_id handle)).m_state ≡ Event.State.set_state
    → test_condition o handle ≡ done (true, true)
unfolding test_condition Event.is_signaled
test_condition-set o handle e h set = rw (test_condition, e) (ground (arith, h, set))

-- A wait for a signaled object is over.
check-signaled :
    (c : Conditions) (o o' : Objects) (r : WaitResult) (now handle : ℕ)
    → WaitsFor c handle
    → test_condition o handle ≡ done (true, true)
    → reset_state o handle ≡ done o'
    → check c o r now 0
      ≡ done
          (record { fulfilled = true; objects = o'; result = object_set; signaled_item_index = 0 })
unfolding check test_wait_signals
check-signaled c o o' r now handle w e q =
    rw (check, w.type, w.forever, w.one, w.any, w.signal, e, q) refl

-- The look at the slots, in two parts.
check_from_add :
    (m n i : ℕ) (st : State) (r : WaitResult) (now : ℕ)
    → check_from (m + n) i st r now
      ≡ (check_from m i st r now >>= λ st'. check_from n (i + m) st' r now)
unfolding check_from
check_from_add zero n i st r now =
    let a : 0 + n ≡ n = omega arith in let b : i + 0 ≡ i = omega arith in rw (a, b) refl
check_from_add (suc m) n i st r now =
    let a : suc m + n ≡ suc (m + n) = omega arith in
    let b : i + 1 + m ≡ i + suc m = omega arith in
    ap (λ x. check_from x i st r now) a
    ∙ ap (λ f. check_slot st r now i >>= f)
        (fun_ext λ st'.
          check_from_add m n (i + 1) st' r now
          ∙ ap (λ x. check_from m (i + 1) st' r now >>= λ st''. check_from n x st'' r now) b)
    ∙ sym (
        bind_assoc (check_slot st r now i) (λ st'. check_from m (i + 1) st' r now)
          (λ st'. check_from n (i + suc m) st' r now))

check_from-through :
    (i rest : ℕ) (st st1 st2 st3 : State) (r : WaitResult) (now : ℕ)
    → check_from i 0 st r now ≡ done st1
    → check_slot st1 r now i ≡ done st2
    → check_from rest (i + 1) st2 r now ≡ done st3
    → check_from (i + suc rest) 0 st r now ≡ done st3
unfolding check_from
check_from-through i rest st st1 st2 st3 r now q1 q2 q3 =
    let start : 0 + i ≡ i = omega arith in
    check_from_add i (suc rest) 0 st r now ∙ rw (q1, start, q2, q3) refl

-- The task in slot i waits for the event, and no earlier slot is for it.
pub record FirstWaiter (st : State) (handle i : ℕ) : Type 0 where
  pub inside : i < max_tasks
  pub taken : is_waiting st.scheduler.m_wait_list i ≡ true
  pub waits : WaitsFor (item_at st i).m_conditions handle
  pub first :
      (j : ℕ)
      → j < i
      → is_waiting st.scheduler.m_wait_list j ≡ true
      → NotFor (item_at st j).m_conditions (Handle.get_id handle)

module _ (st : State) (s : ℕ → Bool) (r : WaitResult) (now handle i : ℕ)
    (h : WellFormed st.scheduler st.tasks s)
    (exist : ObjectsExist st.scheduler.m_wait_list st.objects)
    (type : Handle.get_object_type handle ≡ ObjectType.event)
    (set : (st.objects.events.m_data.m_data (Handle.get_id handle)).m_state ≡ Event.State.set_state)
    (lt : i < max_tasks) (taken : is_waiting st.scheduler.m_wait_list i ≡ true)
    (waits : WaitsFor (item_at st i).m_conditions handle) where
  abbrev id : ℕ
  id = (item_at st i).m_id

  -- The look at slot i, when the event is still set.
  look_wakes :
      (st' : State) × (check_slot st r now i ≡ done st')
      × WellFormed st'.scheduler st'.tasks (update s id true)
      × ((task_at st'.tasks id).m_result ≡ object_set)
      × ObjectsExist st'.scheduler.m_wait_list st'.objects
      × ((j : ℕ) → item_at st' j ≡ item_at st j)
  look_wakes =
      let object : IsObject st.objects handle =
        subst (IsObject st.objects) waits.signal
          (exist i taken waits.type 0 (rw waits.one (omega arith))) in
      let used : InUse max_events st.objects.events.m_data (Handle.get_id handle) =
        subst (λ t. ObjectAt st.objects t (Handle.get_id handle)) type object in
      let (o', q, _) = reset_state_returns st.objects handle object in
      let over =
        check-signaled (item_at st i).m_conditions st.objects o' r now handle waits
          (test_condition-set st.objects handle type used set) q in
      let (st', looked, fine, result, _) = check_slot-over st s h r now i _ lt taken over refl in
      let (st1, s1, looked1, more) = looks st s r now i h exist lt in
      let same : st1 ≡ st' = done-injective (sym looked1 ∙ looked) in
      (
        st',
        looked,
        fine,
        result,
        subst (λ x. ObjectsExist x.scheduler.m_wait_list x.objects) same more.exist,
        λ j. ap (λ x. item_at x j) (sym same) ∙ more.items j,
      )

-- When all wait conditions are checked and the event is set, the first task in the wait list that waits for
-- it gets ready.
pub check_wait_conditions-signaled :
    (st : State) (s : ℕ → Bool) (r : WaitResult) (now handle i : ℕ)
    → WellFormed st.scheduler st.tasks s
    → ObjectsExist st.scheduler.m_wait_list st.objects
    → Handle.get_object_type handle ≡ ObjectType.event
    → (st.objects.events.m_data.m_data (Handle.get_id handle)).m_state ≡ Event.State.set_state
    → FirstWaiter st handle i
    → let id = (item_at st i).m_id in
      (st' : State) × (s' : ℕ → Bool) × (check_wait_conditions st r now ≡ done st')
      × WellFormed st'.scheduler st'.tasks s'
      × (s' id ≡ true)
      × ((task_at st'.tasks id).m_result ≡ object_set)
      × ((j : ℕ) → s j ≡ true → s' j ≡ true)
unfolding check_wait_conditions
check_wait_conditions-signaled st s r now handle i h exist type set w =
    let id = (item_at st i).m_id in
    let rest = (max_tasks - 1) - i in
    let (st1, s1, q1, a) = check_from_returns i 0 st s r now (omega (arith, w.inside)) h exist in
    let event = Handle.get_id handle in
    let still =
      ap (λ e. e.m_state) (a.events event (λ j _ lt taken. w.first j (omega arith) taken)) ∙ set in
    let same = a.items i in
    let (st2, q2, fine, result, exist2, items) =
      look_wakes st1 s1 r now handle i a.well_formed a.exist type still w.inside
        (a.untouched i (omega arith) ∙ w.taken)
        (subst (λ x. WaitsFor x.m_conditions handle) (sym same) w.waits) in
    let (st3, s3, q3, c) =
      check_from_returns rest (i + 1) st2 (update s1 (item_at st1 i).m_id true) r now
        (omega (arith, w.inside)) fine exist2 in
    let there : (item_at st1 i).m_id ≡ id = ap (λ x. x.m_id) same in
    let ready : update s1 (item_at st1 i).m_id true id ≡ true = rw there (ground arith) in
    let all : max_tasks ≡ i + suc rest = omega (arith, w.inside) in
    (
      st3,
      s3,
      ap (λ n. check_from n 0 st r now) all
          ∙ check_from-through i rest st st1 st2 st3 r now q1 q2 q3,
      c.well_formed,
      c.more id ready,
      ap (λ t. t.m_result) (c.results id ready)
          ∙ ap (λ x. (task_at st2.tasks x).m_result) (sym there)
          ∙ result,
      λ j m. c.more j (let m1 = a.more j m in ground arith),
    )
