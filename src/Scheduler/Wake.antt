-- ===== src/Scheduler/Wake.antt =====
-- A task that gets ready again: the end of a wait, and the end of a suspension.
mod Examples
use cortex_m3_rtos.Prelude.{
  ℕ, ◌+◌, ◌<◌, ◌≡◌, refl, ◌≢◌, Bool, true, false, List, [], ◌∷◌, ◌++◌, ◌==◌, if◌then◌else◌, update,
  Outcome, done, arith, ap, fun_ext,
}
use cortex_m3_rtos.Config.{max_tasks}
use cortex_m3_rtos.Api.{suspended, ready, WaitResult, priority_value}
use cortex_m3_rtos.MemoryBuffer.Slots.{is_allocated-eq, at-eq, free-eq}
use cortex_m3_rtos.Task
use cortex_m3_rtos.Task.{Task}
use cortex_m3_rtos.Task.Laws.{
  level_of, task_at, IsTask, put, set_state-eq, get_priority-eq, get_state-eq, set_result-eq,
  set_last_signal_index-eq,
}
use cortex_m3_rtos.ReadyList
use cortex_m3_rtos.ReadyList.{TaskList, add_task}
use cortex_m3_rtos.ReadyList.Ready.{IsReady, size}
use cortex_m3_rtos.ReadyList.Ready.Changes.{Absent, Appended, has_room, add_to_lem}
use cortex_m3_rtos.WaitConditions.{Verdict, check}
use cortex_m3_rtos.WaitList
use cortex_m3_rtos.WaitList.{WaitItem}
use cortex_m3_rtos.Scheduler.{
  Context, State, add_ready_task, resume_suspended_task, wake, check_slot,
}
use cortex_m3_rtos.Scheduler.Choice.{list_of}

add_ready_task-eq :
    (c : Context) (tasks : Task.Context) (id : ℕ) (node : ℕ → ℕ) (p : ℕ)
    → IsTask tasks id
    → let t = list_of c.m_ready_list (level_of tasks id) in
      IsReady t node p
      → Absent t node id
      → size t < max_tasks
      → (t' : TaskList) × (add_ready_task c tasks id
          ≡ done (
            true,
            record c { m_ready_list = ReadyList.put c.m_ready_list (level_of tasks id) t' },
          ))
        × Appended t node p id t'
unfolding add_ready_task add_task
add_ready_task-eq c tasks id node p used ok absent room =
    let t = list_of c.m_ready_list (level_of tasks id) in
    let (t', e, appended) = has_room refl (add_to_lem t node p id ok) absent room in
    (t', rw (get_priority-eq tasks id used, e), appended)

-- What the end of a wait writes into the record of the task.
abbrev pub woken : Task → Verdict → Task
woken t v = record t {
  m_state = ready;
  m_result = v.result;
  m_last_signal_index = v.signaled_item_index;
}

writes-woken :
    (c : Task.Context) (id : ℕ) (v : Verdict)
    → let c1 = put c id (record (task_at c id) { m_state = ready }) in
      let c2 = put c1 id (record (task_at c1 id) { m_result = v.result }) in
      put c2 id (record (task_at c2 id) { m_last_signal_index = v.signaled_item_index })
      ≡ put c id (woken (task_at c id) v)
writes-woken c id v =
    ap (λ f. record { m_data = record c.m_data { m_data = f } }) (fun_ext λ j. ground arith)

abbrev pub item_at : State → ℕ → WaitItem
item_at s i = s.scheduler.m_wait_list.m_list.m_data i

-- The wait list when the item in slot `i` is free.
abbrev pub without_item : WaitList.Context → ℕ → WaitList.Context
without_item w i = record {
  m_list = record w.m_list { m_status = update w.m_list.m_status i false };
}

-- The end of a wait, when the task gets to the list of its priority.
pub wake-eq :
    (s : State) (r' : ReadyList.Context) (i id : ℕ) (v : Verdict)
    → i < max_tasks
    → IsTask s.tasks id
    → add_ready_task s.scheduler s.tasks id ≡ done (true, record s.scheduler { m_ready_list = r' })
    → wake s i id v.result v.signaled_item_index
      ≡ done (record s {
        scheduler = record s.scheduler {
          m_ready_list = r';
          m_wait_list = without_item s.scheduler.m_wait_list i;
        };
        tasks = put s.tasks id (woken (task_at s.tasks id) v);
      })
unfolding wake
wake-eq s r' i id v inside used added =
    let c1 = put s.tasks id (record (task_at s.tasks id) { m_state = ready }) in
    let c2 = put c1 id (record (task_at c1 id) { m_result = v.result }) in
    let after : Task.Context → State = λ tasks. record s {
      scheduler = record s.scheduler {
        m_ready_list = r';
        m_wait_list = without_item s.scheduler.m_wait_list i;
      };
      tasks = tasks;
    } in
    rw
      (
        added,
        set_state-eq s.tasks id ready used,
        set_result-eq c1 id v.result used,
        set_last_signal_index-eq c2 id v.signaled_item_index used,
        free-eq max_tasks s.scheduler.m_wait_list.m_list i inside,
      )
      (ap (λ ts. done (after ts)) (writes-woken s.tasks id v))

-- When the wait of the task in slot i of the wait list is over, and the task is in use, is not in the
-- well-formed ready list of its priority and finds room there, the look at slot i never stops at an
-- assertion: the task gets to the end of that list, its state is ready, it has the result and the
-- index of its wait, its slot is free, and no other list, task or slot changes.
pub check_slot_wakes :
    (s : State) (r : WaitResult) (current i : ℕ) (v : Verdict) (node : ℕ → ℕ) (p : ℕ)
    → i < max_tasks
    → s.scheduler.m_wait_list.m_list.m_status i ≡ true
    → check (item_at s i).m_conditions s.objects r current 0 ≡ done v
    → v.fulfilled ≡ true
    → let id = (item_at s i).m_id in
      let q = level_of s.tasks id in
      let t = list_of s.scheduler.m_ready_list q in
      IsTask s.tasks id
      → IsReady t node p
      → Absent t node id
      → size t < max_tasks
      → (t' : TaskList) × (check_slot s r current i
          ≡ done (record {
            scheduler = record s.scheduler {
              m_ready_list = ReadyList.put s.scheduler.m_ready_list q t';
              m_wait_list = without_item s.scheduler.m_wait_list i;
            };
            tasks = put s.tasks id (woken (task_at s.tasks id) v);
            objects = v.objects;
          }))
        × Appended t node p id t'
unfolding check_slot
check_slot_wakes s r current i v node p inside taken e over used ok absent room =
    let id = (item_at s i).m_id in
    let w = s.scheduler.m_wait_list.m_list in
    let s' : State = record s { objects = v.objects } in
    let (t', added, appended) =
      add_ready_task-eq s.scheduler s.tasks id node p used ok absent room in
    let r' = ReadyList.put s.scheduler.m_ready_list (level_of s.tasks id) t' in
    (
      t',
      rw (is_allocated-eq max_tasks w i inside, taken, at-eq max_tasks w i inside taken, e, over)
          (wake-eq s' r' i id v inside used added),
      appended,
    )

-- Resuming a suspended task, in use, that is not in the well-formed ready list of its priority and finds
-- room there, never stops at an assertion and returns true: the task gets to the end of that list. It
-- is the current task, not the resumed one, whose state is set to ready.
pub resume_lem :
    (c : Context) (tasks : Task.Context) (id : ℕ) (node : ℕ → ℕ) (p : ℕ)
    → IsTask tasks id
    → IsTask tasks c.m_current
    → (task_at tasks id).m_state ≡ suspended
    → let q = level_of tasks id in
      let t = list_of c.m_ready_list q in
      IsReady t node p
      → Absent t node id
      → size t < max_tasks
      → (t' : TaskList) × (resume_suspended_task c tasks id
          ≡ done (
            true,
            record c { m_ready_list = ReadyList.put c.m_ready_list q t' },
            put tasks c.m_current (record (task_at tasks c.m_current) { m_state = ready }),
          ))
        × Appended t node p id t'
unfolding resume_suspended_task
resume_lem c tasks id node p used used_current e ok absent room =
    let (t', added_eq, appended) = add_ready_task-eq c tasks id node p used ok absent room in
    (
      t',
      rw (
        get_state-eq tasks id used,
        e,
        added_eq,
        set_state-eq tasks c.m_current ready used_current,
      ),
      appended,
    )
