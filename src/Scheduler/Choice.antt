-- ===== src/Scheduler/Choice.antt =====
-- Which task the scheduler chooses.
use cortex_m3_rtos.Prelude.{
  ℕ, zero, suc, ◌+◌, ◌<◌, ◌≤◌, ◌≡◌, refl, none, some, arith, done, ap, fun_ext,
}
use native.Mathlib.Decide.{ℕ_discrete}
use cortex_m3_rtos.Api.{ready, running}
use cortex_m3_rtos.Task
use cortex_m3_rtos.Task.{Task}
use cortex_m3_rtos.Task.Laws.{task_at, IsTask, set_state-eq, put as put_task}
use cortex_m3_rtos.CircularList.Ring.{after}
use cortex_m3_rtos.ReadyList
use cortex_m3_rtos.ReadyList.{TaskList, put, find_next_task, find_current_task}
use cortex_m3_rtos.ReadyList.Ready
use cortex_m3_rtos.ReadyList.Ready.{
  IsReady, size, next_of-empty, current_of-empty, next_of-eq, current_of-eq,
}
use cortex_m3_rtos.Scheduler.{
  Context, priorities_count, next_from, get_next_task, current_from, get_current_task,
}

abbrev pub list_of : ReadyList.Context → ℕ → TaskList
list_of r q = r.m_ready_list q

-- The lists of all priorities are well-formed, with these nodes and positions of the current tasks.
abbrev pub AreReady : ReadyList.Context → (ℕ → ℕ → ℕ) → (ℕ → ℕ) → Type 0
AreReady r node p = (q : ℕ) → q < priorities_count → IsReady (list_of r q) (node q) (p q)

-- The highest priority with a task that is ready; a smaller number is a higher priority.
abbrev pub IsHighest : ReadyList.Context → ℕ → Type 0
IsHighest r q =
    (q < priorities_count) × (0 < size (list_of r q)) × ((j : ℕ) → j < q → size (list_of r j) ≡ 0)

put_same : (r : ReadyList.Context) (q : ℕ) → put r q (list_of r q) ≡ r
put_same r q = ap (λ f. record { m_ready_list = f }) (fun_ext λ j. ground arith)

module _ (r : ReadyList.Context) (node : ℕ → ℕ → ℕ) (p : ℕ → ℕ) (all : AreReady r node p) where
  find_next-empty :
      (q : ℕ) → q < priorities_count → size (list_of r q) ≡ 0 → find_next_task r q ≡ done (none, r)
  unfolding find_next_task
  find_next-empty q h e =
      rw (next_of-empty (list_of r q) (node q) (p q) (all q h) e)
        (ap (λ c. done (none, c)) (put_same r q))

  find_next-eq :
      (q : ℕ)
      → IsHighest r q
      → let k = after (size (list_of r q)) (p q) in
        find_next_task r q
        ≡ done (
          some (Ready.task_at (list_of r q) (node q) k),
          put r q (record (list_of r q) { m_current = node q k }),
        )
  unfolding find_next_task
  find_next-eq q (lt, some_task, _) =
      rw (next_of-eq (list_of r q) (node q) (p q) (all q lt) some_task)

  next_from-eq :
      (n i q : ℕ)
      → i + n ≡ priorities_count
      → i ≤ q
      → IsHighest r q
      → next_from n i r ≡ find_next_task r q
  unfolding next_from
  next_from-eq zero i q e h (lt, _, _) = absurd (omega arith)
  next_from-eq (suc n) i q e h (lt, some_task, none_above) = elim (ℕ_discrete i q) [
    | yes here ↦ rw (here, find_next-eq q (lt, some_task, none_above))
    | no on ↦
        rw (find_next-empty i (omega arith) (none_above i (omega arith)))
          (next_from-eq n (suc i) q (omega arith) (omega arith) (lt, some_task, none_above))
  ]

  next_from-none :
      (n i : ℕ)
      → i + n ≡ priorities_count
      → ((j : ℕ) → j < priorities_count → size (list_of r j) ≡ 0)
      → next_from n i r ≡ done (none, r)
  unfolding next_from
  next_from-none zero i e h = refl
  next_from-none (suc n) i e h =
      rw (find_next-empty i (omega arith) (h i (omega arith)))
        (next_from-none n (suc i) (omega arith) h)

  current_from-eq :
      (n i q : ℕ)
      → i + n ≡ priorities_count
      → i ≤ q
      → IsHighest r q
      → current_from n i r ≡ done (some (Ready.task_at (list_of r q) (node q) (p q)))
  unfolding current_from find_current_task
  current_from-eq zero i q e h (lt, _, _) = absurd (omega arith)
  current_from-eq (suc n) i q e h (lt, some_task, none_above) = elim (ℕ_discrete i q) [
    | yes here ↦ rw (here, current_of-eq (list_of r q) (node q) (p q) (all q lt) some_task)
    | no on ↦
        rw
          (current_of-empty (list_of r i) (node i) (p i) (all i (omega arith))
            (none_above i (omega arith)))
          (current_from-eq n (suc i) q (omega arith) (omega arith) (lt, some_task, none_above))
  ]

  current_from-none :
      (n i : ℕ)
      → i + n ≡ priorities_count
      → ((j : ℕ) → j < priorities_count → size (list_of r j) ≡ 0)
      → current_from n i r ≡ done none
  unfolding current_from find_current_task
  current_from-none zero i e h = refl
  current_from-none (suc n) i e h =
      rw (current_of-empty (list_of r i) (node i) (p i) (all i (omega arith)) (h i (omega arith)))
        (current_from-none n (suc i) (omega arith) h)

-- `a` leaves the processor and `b` gets it: the states of the tasks.
abbrev pub Handed : Task.Context → ℕ → ℕ → Task.Context
Handed tasks a b =
    let t = put_task tasks a (record (task_at tasks a) { m_state = ready }) in
    put_task t b (record (task_at t b) { m_state = running })

module _ (c : Context) (tasks : Task.Context) (node : ℕ → ℕ → ℕ) (p : ℕ → ℕ) (q : ℕ)
    (all : AreReady c.m_ready_list node p) (highest : IsHighest c.m_ready_list q) where
  abbrev list : TaskList
  list = list_of c.m_ready_list q

  abbrev turn : ℕ
  turn = after (size list) (p q)

  -- getNextTask, when the current task and the chosen one are in use, never stops at an assertion. It
  -- chooses the task behind the current one in the list of the highest priority that has a task ready,
  -- moves that list on, and changes no other list; the task that ran becomes ready and the chosen one
  -- running, also where they are the same.
  pub get_next_task_lem :
      IsTask tasks c.m_current
      → IsTask tasks (Ready.task_at list (node q) turn)
      → let id = Ready.task_at list (node q) turn in
        get_next_task c tasks
        ≡ done (
          some id,
          record c {
            m_current = id;
            m_next = id;
            m_ready_list = put c.m_ready_list q (record list { m_current = node q turn });
          },
          Handed tasks c.m_current id,
        )
  unfolding get_next_task
  get_next_task_lem a b = rw (
    next_from-eq c.m_ready_list node p all priorities_count 0 q refl (omega arith) highest,
    find_next-eq c.m_ready_list node p all q highest,
    set_state-eq tasks c.m_current ready a,
    set_state-eq
        (put_task tasks c.m_current (record (task_at tasks c.m_current) { m_state = ready }))
        (Ready.task_at list (node q) turn) running b,
  )

  -- getCurrentTask, when the chosen task is in use, never stops at an assertion. It chooses the current task
  -- of the highest priority that has a task ready and makes it running; the lists, and the state of the
  -- task that ran before, stay as they are.
  pub get_current_task_lem :
      IsTask tasks (Ready.task_at list (node q) (p q))
      → let id = Ready.task_at list (node q) (p q) in
        get_current_task c tasks
        ≡ done (
          some id,
          record c { m_current = id; m_next = id },
          put_task tasks id (record (task_at tasks id) { m_state = running }),
        )
  unfolding get_current_task
  get_current_task_lem b = rw (
    current_from-eq c.m_ready_list node p all priorities_count 0 q refl (omega arith) highest,
    set_state-eq tasks (Ready.task_at list (node q) (p q)) running b,
  )

-- With no task ready at any priority both choices return false and change nothing.
pub no_task_ready :
    (c : Context) (tasks : Task.Context) (node : ℕ → ℕ → ℕ) (p : ℕ → ℕ)
    → AreReady c.m_ready_list node p
    → ((j : ℕ) → j < priorities_count → size (list_of c.m_ready_list j) ≡ 0)
    → (get_next_task c tasks ≡ done (none, c, tasks))
      × (get_current_task c tasks ≡ done (none, c, tasks))
unfolding get_next_task get_current_task
no_task_ready c tasks node p all empty = (
  rw (next_from-none c.m_ready_list node p all priorities_count 0 refl empty),
  rw (current_from-none c.m_ready_list node p all priorities_count 0 refl empty),
)
