-- ===== src/Scheduler/Invariant/Choice.antt =====
-- The choices of the scheduler, in terms of the set of the tasks that are ready.
use cortex_m3_rtos.Prelude.{
  ℕ, zero, suc, ◌+◌, ◌≤◌, ◌≡◌, refl, Bool, true, false, inl, inr, ◌⊎◌, none, some, ◌==◌, done,
  arith,
}
use native.Mathlib.Decide.{ℕ_discrete}
use cortex_m3_rtos.Api.{ready, running}
use cortex_m3_rtos.Task
use cortex_m3_rtos.Task.Laws.{level_of, task_at, IsTask, put, set_state-eq}
use cortex_m3_rtos.ReadyList
use cortex_m3_rtos.ReadyList.{find_next_task, find_current_task}
use cortex_m3_rtos.ReadyList.Members.{
  Holds, Holds-cases, next_of-Holds, next_of-nobody, current_of-Holds, current_of-nobody,
}
use cortex_m3_rtos.Scheduler.{
  Context, priorities_count, next_from, current_from, get_next_task, get_current_task,
}
use cortex_m3_rtos.Scheduler.Choice.{Handed}
use cortex_m3_rtos.Scheduler.Invariant.{ReadyTasks, level-lt, at_level}

-- The task is ready, and no task that is ready has a higher priority.
abbrev pub IsTop : Task.Context → (ℕ → Bool) → ℕ → Type 0
IsTop tasks s a = (s a ≡ true) × ((j : ℕ) → s j ≡ true → level_of tasks a ≤ level_of tasks j)

-- Another list with the same tasks.
replaced :
    {r : ReadyList.Context} {tasks : Task.Context} {s : ℕ → Bool} (q : ℕ) {t : ReadyList.TaskList}
    → ReadyTasks r tasks s
    → Holds t (at_level tasks s q)
    → ReadyTasks (ReadyList.put r q t) tasks s
replaced {r} {tasks} {s} q {t} h holds = record {
  lists = λ i lt. elim (ℕ_discrete q i) [
    | yes here ↦ let e : (q == i) ≡ true = ground arith in rw e (rw (← here) holds)
    | no other ↦ let e : (q == i) ≡ false = ground arith in rw e (h.lists i lt)
  ];
  used = h.used;
}

-- Some task is ready, or the search finds none.
current_from-cases :
    (tasks : Task.Context) (s : ℕ → Bool) (n i : ℕ) (r : ReadyList.Context)
    → i + n ≡ priorities_count
    → ReadyTasks r tasks s
    → ((id : ℕ) × (s id ≡ true)) ⊎ (current_from n i r ≡ done none)
unfolding current_from find_current_task
current_from-cases tasks s zero i r e h = inr refl
current_from-cases tasks s (suc n) i r e h =
    let list = h.lists i (omega arith) in
    elim (Holds-cases (r.m_ready_list i) (at_level tasks s i) list) [
      | inl (b, member) ↦ inl (b, ground (arith, member))
      | inr nobody ↦ elim (current_from-cases tasks s n (suc i) r (omega arith) h) [
        | inl one ↦ inl one
        | inr eq ↦
            inr (rw (current_of-nobody (r.m_ready_list i) (at_level tasks s i) list nobody) eq)
      ]
    ]

pub get_current_task-cases :
    (c : Context) (tasks : Task.Context) (s : ℕ → Bool)
    → ReadyTasks c.m_ready_list tasks s
    → ((id : ℕ) × (s id ≡ true)) ⊎ (get_current_task c tasks ≡ done (none, c, tasks))
unfolding get_current_task
get_current_task-cases c tasks s h =
    elim (current_from-cases tasks s priorities_count 0 c.m_ready_list refl h) [
      | inl one ↦ inl one
      | inr e ↦ inr (rw e)
    ]

module _ (tasks : Task.Context) (s : ℕ → Bool) (one : ℕ) (one_ready : s one ≡ true) where
  next_from-IsTop :
      (n i : ℕ) (r : ReadyList.Context)
      → i + n ≡ priorities_count
      → ReadyTasks r tasks s
      → ((j : ℕ) → s j ≡ true → i ≤ level_of tasks j)
      → (a : ℕ) × (r' : ReadyList.Context) × (next_from n i r ≡ done (some a, r'))
        × IsTop tasks s a
        × ReadyTasks r' tasks s
  unfolding next_from find_next_task
  next_from-IsTop zero i r e h above =
      absurd (omega (arith, above one one_ready, level-lt tasks one))
  next_from-IsTop (suc n) i r e h above =
      let list = h.lists i (omega arith) in
      elim (Holds-cases (r.m_ready_list i) (at_level tasks s i) list) [
        | inl (b, member) ↦
            let (a, t', eq, chosen, holds) =
              next_of-Holds (r.m_ready_list i) (at_level tasks s i) list b member in
            (
              a,
              ReadyList.put r i t',
              rw eq,
              (ground (arith, chosen), λ j in_s. ground (arith, chosen, above j)),
              replaced i h holds,
            )
        | inr nobody ↦
            let (a, r', eq, top, ok) =
              next_from-IsTop n (suc i) (ReadyList.put r i (r.m_ready_list i)) (omega arith)
                (replaced i h list) (λ j in_s. ground (arith, above j, nobody j)) in
            (
              a,
              r',
              rw (next_of-nobody (r.m_ready_list i) (at_level tasks s i) list nobody) eq,
              top,
              ok,
            )
      ]

  current_from-IsTop :
      (n i : ℕ) (r : ReadyList.Context)
      → i + n ≡ priorities_count
      → ReadyTasks r tasks s
      → ((j : ℕ) → s j ≡ true → i ≤ level_of tasks j)
      → (a : ℕ) × (current_from n i r ≡ done (some a)) × IsTop tasks s a
  unfolding current_from find_current_task
  current_from-IsTop zero i r e h above =
      absurd (omega (arith, above one one_ready, level-lt tasks one))
  current_from-IsTop (suc n) i r e h above =
      let list = h.lists i (omega arith) in
      elim (Holds-cases (r.m_ready_list i) (at_level tasks s i) list) [
        | inl (b, member) ↦
            let (a, eq, chosen) =
              current_of-Holds (r.m_ready_list i) (at_level tasks s i) list b member in
            (a, rw eq, (ground (arith, chosen), λ j in_s. ground (arith, chosen, above j)))
        | inr nobody ↦
            let (a, eq, top) =
              current_from-IsTop n (suc i) r (omega arith) h
                (λ j in_s. ground (arith, above j, nobody j)) in
            (a, rw (current_of-nobody (r.m_ready_list i) (at_level tasks s i) list nobody) eq, top)
      ]

  module _ (c : Context) (h : ReadyTasks c.m_ready_list tasks s) where
    -- With a task ready, getNextTask chooses one of the highest priority among them.
    pub get_next_task-IsTop :
        IsTask tasks c.m_current
        → (a : ℕ) × (r' : ReadyList.Context) × (get_next_task c tasks
            ≡ done (
              some a,
              record c { m_current = a; m_next = a; m_ready_list = r' },
              Handed tasks c.m_current a,
            ))
          × IsTop tasks s a
          × ReadyTasks r' tasks s
    unfolding get_next_task
    get_next_task-IsTop used =
        let (a, r', eq, top, ok) =
          next_from-IsTop priorities_count 0 c.m_ready_list refl h (λ j in_s. omega arith) in
        let t = put tasks c.m_current (record (task_at tasks c.m_current) { m_state = ready }) in
        (
          a,
          r',
          rw (
            eq,
            set_state-eq tasks c.m_current ready used,
            set_state-eq t a running (h.used a top.0),
          ),
          top,
          ok,
        )

    pub get_current_task-IsTop :
        (a : ℕ) × (get_current_task c tasks
          ≡ done (
            some a,
            record c { m_current = a; m_next = a },
            put tasks a (record (task_at tasks a) { m_state = running }),
          ))
        × IsTop tasks s a
    unfolding get_current_task
    get_current_task-IsTop =
        let (a, eq, top) =
          current_from-IsTop priorities_count 0 c.m_ready_list refl h (λ j in_s. omega arith) in
        (a, rw (eq, set_state-eq tasks a running (h.used a top.0)), top)
