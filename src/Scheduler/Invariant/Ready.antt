-- ===== src/Scheduler/Invariant/Ready.antt =====
-- Tasks that get ready, and tasks that no longer are.
use cortex_m3_rtos.Prelude.{ℕ, ◌≡◌, Bool, true, false, ◌==◌, update, done, arith}
use native.Mathlib.Decide.{ℕ_discrete}
use cortex_m3_rtos.Task
use cortex_m3_rtos.Task.Laws.{level_of, IsTask, get_priority-eq}
use cortex_m3_rtos.ReadyList
use cortex_m3_rtos.ReadyList.{add_task, remove_task, find_next_task, find_current_task}
use cortex_m3_rtos.ReadyList.Members.{Holds, add_to-Holds, add_to-member, remove_from-Holds}
use cortex_m3_rtos.Scheduler.{Context, add_ready_task}
use cortex_m3_rtos.Scheduler.Invariant.{ReadyTasks, Holds-ext, level-lt, at_level}

put_same_list :
    (r : ReadyList.Context) (q p : ℕ)
    → (ReadyList.put r q (r.m_ready_list q)).m_ready_list p ≡ r.m_ready_list p
put_same_list r q p = ground arith

module _ (r : ReadyList.Context) (tasks : Task.Context) (s : ℕ → Bool)
    (h : ReadyTasks r tasks s) where
  -- Another list at the priority of `id`, where `id` is in or out.
  changed :
      (id : ℕ) (b : Bool) (t : ReadyList.TaskList)
      → (b ≡ true → IsTask tasks id)
      → Holds t (update (at_level tasks s (level_of tasks id)) id b)
      → ReadyTasks (ReadyList.put r (level_of tasks id) t) tasks (update s id b)
  changed id b t is_task holds = record {
    lists = λ q lt. elim (ℕ_discrete (level_of tasks id) q) [
      | yes here ↦
          let e : (level_of tasks id == q) ≡ true = ground arith in
          rw e (Holds-ext (λ j. ground (arith, here)) holds)
      | no other ↦
          let e : (level_of tasks id == q) ≡ false = ground arith in
          rw e (Holds-ext (λ j. ground (arith, other)) (h.lists q lt))
    ];
    used = λ j e. ground (arith, is_task, h.used j);
  }

  pub remove_task-Ready :
      (id : ℕ)
      → (r' : ReadyList.Context) × (remove_task r (level_of tasks id) id ≡ done r')
        × ReadyTasks r' tasks (update s id false)
  unfolding remove_task
  remove_task-Ready id =
      let q = level_of tasks id in
      let (t', e, holds) =
        remove_from-Holds (r.m_ready_list q) (at_level tasks s q) (h.lists q (level-lt tasks id))
          id in
      (_, rw e, changed id false t' (λ w. cc) holds)

module _ (c : Context) (tasks : Task.Context) (s : ℕ → Bool)
    (h : ReadyTasks c.m_ready_list tasks s) where
  pub add_ready_task-Ready :
      (id : ℕ)
      → IsTask tasks id
      → s id ≡ false
      → (r' : ReadyList.Context) × (add_ready_task c tasks id
          ≡ done (true, record c { m_ready_list = r' }))
        × ReadyTasks r' tasks (update s id true)
  unfolding add_ready_task add_task
  add_ready_task-Ready id used out =
      let q = level_of tasks id in
      let (t', e, holds) =
        add_to-Holds (c.m_ready_list.m_ready_list q) (at_level tasks s q)
          (h.lists q (level-lt tasks id)) id used.0 (ground (arith, out)) in
      (
        ReadyList.put c.m_ready_list q t',
        rw (get_priority-eq tasks id used, e),
        changed c.m_ready_list tasks s h id true t' (λ w. used) holds,
      )

  -- A task that is ready already is not added.
  pub add_ready_task-member :
      (id : ℕ)
      → s id ≡ true
      → (r' : ReadyList.Context) × (add_ready_task c tasks id
          ≡ done (false, record c { m_ready_list = r' }))
        × ReadyTasks r' tasks s
  unfolding add_ready_task add_task
  add_ready_task-member id member =
      let q = level_of tasks id in
      let e =
        add_to-member (c.m_ready_list.m_ready_list q) (at_level tasks s q)
          (h.lists q (level-lt tasks id)) id (ground (arith, member)) in
      (
        ReadyList.put c.m_ready_list q (c.m_ready_list.m_ready_list q),
        rw (get_priority-eq tasks id (h.used id member), e),
        record {
          lists = λ p lt. rw (put_same_list c.m_ready_list q p) (h.lists p lt);
          used = h.used;
        },
      )
