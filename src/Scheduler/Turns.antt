-- ===== src/Scheduler/Turns.antt =====
-- Round robin by the scheduler: what getNextTask chooses in consecutive context switch intervals.
use cortex_m3_rtos.Prelude.{
  ℕ, zero, suc, ◌+◌, ◌-◌, ◌%◌, ◌<◌, ◌≡◌, refl, List, [], ◌∷◌, Option, some, arith, slice, slice-ext,
  slice-shift, Outcome, done, ◌>>=◌, ap, ap₂, sym, subst, ◌∙◌, update, true, false, ◌==◌,
}
use native.Mathlib.Decide.{ℕ_discrete, dec_lt}
use native.Mathlib.Nat.{mod-lt}
use cortex_m3_rtos.Api.{ready, running}
use cortex_m3_rtos.Task
use cortex_m3_rtos.Task.Laws.{IsTask, task_at}
use cortex_m3_rtos.CircularList.Ring.{after}
use cortex_m3_rtos.ReadyList.{TaskList, put}
use cortex_m3_rtos.ReadyList.Ready
use cortex_m3_rtos.ReadyList.Ready.{size}
use cortex_m3_rtos.ReadyList.Ready.Turns.{after-mod, mod-suc, mod-zero, mod-twice}
use cortex_m3_rtos.Scheduler.{Context, get_next_task}
use cortex_m3_rtos.Scheduler.Choice.{AreReady, IsHighest, list_of, Handed, get_next_task_lem}
use cortex_m3_rtos.Scheduler.Moved.{moved, moved-AreReady, moved-IsHighest, moved-list, moved_twice}

-- The tasks that `n` calls of getNextTask choose, and the scheduler and the tasks afterwards.
unfoldable pub choices :
    ℕ → Context → Task.Context → Outcome (List (Option ℕ) × Context × Task.Context)
choices zero c tasks = done ([], c, tasks)
choices (suc n) c tasks = do
  (chosen, c', tasks') ← get_next_task c tasks
  (rest, c'', tasks'') ← choices n c' tasks'
  done (chosen ∷ rest, c'', tasks'')

-- The choice at position `k` of the list `l`.
abbrev Chosen : Context → Task.Context → (ℕ → ℕ → ℕ) → ℕ → TaskList → ℕ → Type 0
Chosen c tasks node q l j =
    let id = Ready.task_at l (node q) j in
    IsTask tasks id
    → get_next_task c tasks
      ≡ done (
        some id,
        record c {
          m_current = id;
          m_next = id;
          m_ready_list = put c.m_ready_list q (record l { m_current = node q j });
        },
        Handed tasks c.m_current id,
      )

next_in :
    (c : Context) (tasks : Task.Context) (node : ℕ → ℕ → ℕ) (p : ℕ → ℕ) (q k : ℕ) (l : TaskList)
    → AreReady c.m_ready_list node p
    → IsHighest c.m_ready_list q
    → list_of c.m_ready_list q ≡ l
    → p q ≡ k
    → k < size l
    → IsTask tasks c.m_current
    → Chosen c tasks node q l ((k + 1) % size l)
next_in c tasks node p q k l all highest e ek lt a =
    subst (Chosen c tasks node q l) (ap₂ (λ m j. after (size m) j) e ek ∙ after-mod (size l) k lt) (
      subst (λ m. Chosen c tasks node q m (after (size (list_of c.m_ready_list q)) (p q))) e
        (get_next_task_lem c tasks node p q all highest a))

-- Task `a` alone runs, of those that are in use.
abbrev pub RunsAlone : Task.Context → ℕ → Type 0
RunsAlone tasks a =
    ((task_at tasks a).m_state ≡ running)
    × ((j : ℕ) → tasks.m_data.m_status j ≡ true → (task_at tasks j).m_state ≡ running → j ≡ a)

pub Handed-RunsAlone :
    (tasks : Task.Context) (a b : ℕ)
    → ((j : ℕ) → tasks.m_data.m_status j ≡ true → (task_at tasks j).m_state ≡ running → j ≡ a)
    → RunsAlone (Handed tasks a b) b
Handed-RunsAlone tasks a b h = (
  ground arith,
  λ j used e. elim (ℕ_discrete j b) [
    | yes p ↦ p
    | no ne ↦
        let other : (b == j) ≡ false = ground arith in
        elim (ℕ_discrete j a) [
          | yes p ↦
              let same : (a == j) ≡ true = ground arith in
              let stopped : (task_at (Handed tasks a b) j).m_state ≡ ready =
                rw (other, same) refl in
              cc
          | no na ↦
              let nor : (a == j) ≡ false = ground arith in
              let kept : (task_at (Handed tasks a b) j).m_state ≡ (task_at tasks j).m_state =
                rw (other, nor) refl in
              absurd (na (h j used (sym kept ∙ e)))
        ]
  ],
)

module _ (c : Context) (node : ℕ → ℕ → ℕ) (p : ℕ → ℕ) (q : ℕ) (all : AreReady c.m_ready_list node p)
    (highest : IsHighest c.m_ready_list q) where
  abbrev pub list : TaskList
  list = list_of c.m_ready_list q

  abbrev pub id_at : ℕ → ℕ
  id_at k = Ready.task_at list (node q) k

  -- The scheduler, when the task at position `k` of the list runs.
  abbrev pub turned : ℕ → Context
  turned k = record c {
    m_current = id_at k;
    m_next = id_at k;
    m_ready_list = moved q c.m_ready_list (node q k);
  }

  pub step :
      (tasks : Task.Context) (k : ℕ)
      → k < size list
      → IsTask tasks (id_at k)
      → let j = (k + 1) % size list in
        IsTask tasks (id_at j)
        → get_next_task (turned k) tasks
          ≡ done (some (id_at j), turned j, Handed tasks (id_at k) (id_at j))
  step tasks k lt a b =
      let j = (k + 1) % size list in
      next_in (turned k) tasks node (update p q k) q k (record list { m_current = node q k })
        (moved-AreReady q c.m_ready_list node p k all highest.0 lt)
        (moved-IsHighest q c.m_ready_list (node q k) highest)
        (moved-list q c.m_ready_list (node q k)) (ground arith) lt a b
      ∙ ap
          (λ r. done (
            some (id_at j),
            record (turned j) { m_ready_list = r },
            Handed tasks (id_at k) (id_at j),
          ))
          (moved_twice q c.m_ready_list (node q k) (node q j))

  -- `n` calls from position `k` on.
  abbrev Turns : ℕ → Context → Task.Context → ℕ → Type 0
  Turns n c' tasks k =
      let last = (k + n) % size list in
      (tasks' : Task.Context) × (choices n c' tasks
        ≡ done (slice (λ j. some (id_at ((k + j) % size list))) 1 n, turned last, tasks'))
      × RunsAlone tasks' (id_at last)

  -- A first call, and those behind it.
  go_on :
      (n k : ℕ) (c' : Context) (tasks tasks1 : Task.Context)
      → let j = (k + 1) % size list in
        get_next_task c' tasks ≡ done (some (id_at j), turned j, tasks1)
        → Turns n (turned j) tasks1 j
        → Turns (suc n) c' tasks k
  unfolding choices
  go_on n k c' tasks tasks1 first (tasks', e, alone) =
      let j = (k + 1) % size list in
      let end : (j + n) % size list ≡ (k + suc n) % size list =
        mod-suc (size list) k n ∙ ap (λ i. (k + i) % size list) (omega arith) in
      (
        tasks',
        rw (first, e)
            (ap₂ (λ xs i. done (some (id_at j) ∷ xs, turned i, tasks'))
              (slice-ext _ _ 1 n (λ i _ _. ap (λ x. some (id_at x)) (mod-suc (size list) k i))
                ∙ slice-shift (λ i. some (id_at ((k + i) % size list))) 1 n)
              end),
        subst (λ i. RunsAlone tasks' (id_at i)) end alone,
      )

  choices-turned :
      (n : ℕ) (tasks : Task.Context) (k : ℕ)
      → k < size list
      → ((j : ℕ) → j < size list → IsTask tasks (id_at j))
      → RunsAlone tasks (id_at k)
      → Turns n (turned k) tasks k
  unfolding choices
  choices-turned zero tasks k lt used alone =
      let e = mod-zero (size list) k lt in
      (
        tasks,
        ap (λ j. done ([], turned j, tasks)) e,
        subst (λ j. RunsAlone tasks (id_at j)) e alone,
      )
  choices-turned (suc n) tasks k lt used alone =
      let j = (k + 1) % size list in
      let inside : j < size list = mod-lt (k + 1) (omega arith) in
      let next = Handed tasks (id_at k) (id_at j) in
      go_on n k (turned k) tasks next (step tasks k lt (used k lt) (used j inside)) (
        choices-turned n next j inside (λ i h. used i h)
          (Handed-RunsAlone tasks (id_at k) (id_at j) alone.1))

  -- Every position is reached from `k` in at most one round.
  pub reaches :
      (k i : ℕ)
      → k < size list
      → i < size list
      → (j : ℕ) × (j < size list) × ((k + suc j) % size list ≡ i)
  reaches k i hk hi = elim (dec_lt k i) [
    | yes lt ↦
        let j = (i - k) - 1 in
        (j, omega arith, mod-twice (size list) (k + suc j) (omega arith) ∙ ground arith)
    | no ge ↦
        let j = ((i + size list) - k) - 1 in
        (j, omega arith, mod-twice (size list) (k + suc j) (omega arith) ∙ ground arith)
  ]

  -- As long as the same tasks are ready, n + 1 calls of getNextTask never stop at an assertion, when the
  -- current task and the tasks of the highest priority with a task ready are in use, and no task but the
  -- current one runs. The k-th of them chooses the task k places behind the current one of that priority,
  -- counted round its list. Afterwards the task chosen last is the current one, of the scheduler and of
  -- that list, and it alone runs; the other lists and the wait list are as before. As many calls as that
  -- priority has tasks ready choose every one of them.
  pub get_next_task-turns :
      (n : ℕ) (tasks : Task.Context)
      → IsTask tasks c.m_current
      → ((j : ℕ) → j < size list → IsTask tasks (id_at j))
      → ((j : ℕ)
          → tasks.m_data.m_status j ≡ true
          → (task_at tasks j).m_state ≡ running
          → j ≡ c.m_current)
      → let last = (p q + suc n) % size list in
        ((tasks' : Task.Context) × (choices (suc n) c tasks
            ≡ done
                (slice (λ j. some (id_at ((p q + j) % size list))) 1 (suc n), turned last, tasks'))
          × RunsAlone tasks' (id_at last))
        × ((i : ℕ)
            → i < size list
            → (j : ℕ) × (j < size list) × (id_at ((p q + suc j) % size list) ≡ id_at i))
  get_next_task-turns n tasks current used alone =
      let k = (p q + 1) % size list in
      let start : p q < size list = (all q highest.0).position highest.1 in
      let inside : k < size list = mod-lt (p q + 1) (omega arith) in
      let next = Handed tasks c.m_current (id_at k) in
      (
        go_on n (p q) c tasks next
            (next_in c tasks node p q (p q) list all highest refl refl start current
              (used k inside))
            (choices-turned n next k inside (λ i h. used i h)
              (Handed-RunsAlone tasks c.m_current (id_at k) alone)),
        λ i h. let (j, lt, e) = reaches (p q) i start h in (j, lt, ap id_at e),
      )
