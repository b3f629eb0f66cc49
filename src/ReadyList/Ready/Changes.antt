-- ===== src/ReadyList/Ready/Changes.antt =====
-- Adding a task to the ready list of its priority, and taking one out.
use cortex_m3_rtos.Prelude.{
  ℕ, ◌+◌, ◌-◌, ◌<◌, ◌≡◌, refl, ◌≢◌, Bool, true, false, List, [], ◌∷◌, ◌++◌, Option, arith, ◌==◌,
  ltb, if◌then◌else◌, update, remove_at, Outcome, done,
}
use cortex_m3_rtos.Config.{max_tasks}
use cortex_m3_rtos.CircularList.{CircularList, add, find}
use cortex_m3_rtos.CircularList.Ring.{IsRing, nodes, after, contents}
use cortex_m3_rtos.CircularList.Ring.Add.{Adds, refused, accepted, add_lem}
use cortex_m3_rtos.CircularList.Ring.Remove.{without, remove_lem}
use cortex_m3_rtos.CircularList.Ring.Find.{Finds, missing, hit, find_lem, next_index_lem}
use cortex_m3_rtos.ReadyList.{TaskList, add_to, remove_from}
use cortex_m3_rtos.ReadyList.Ready.{size, task_at, IsReady}

abbrev pub tasks : TaskList → (ℕ → ℕ) → List ℕ
tasks t node = contents t.m_list node

-- The task stands at position `k`, or nowhere.
abbrev pub Absent : TaskList → (ℕ → ℕ) → ℕ → Type 0
Absent t node id = (k : ℕ) → k < size t → task_at t node k ≢ id

-- The outcomes of `add_to`.
pub data AddsTask (t : TaskList) (node : ℕ → ℕ) (p id : ℕ)
    : Outcome (Bool × TaskList) → Type 0 where
  present : (k : ℕ) → k < size t → task_at t node k ≡ id → AddsTask t node p id (done (false, t))
  no_room : Absent t node id → size t ≡ max_tasks → AddsTask t node p id (done (false, t))
  added :
      (t' : TaskList) (node' : ℕ → ℕ)
      → Absent t node id
      → IsReady t' node' (if size t == 0 then 0 else p)
      → tasks t' node' ≡ tasks t node ++ (id ∷ [])
      → (0 < size t → t'.m_current ≡ t.m_current)
      → AddsTask t node p id (done (true, t'))

-- The position of the current task of `n`, at `p`, when the one at position `k` is gone: where it is
-- the current one that goes, its successor takes over.
abbrev pub moved : ℕ → ℕ → ℕ → ℕ
moved n p k = if ltb k p then p - 1 else if k == p then (if p + 1 == n then 0 else p) else p

-- The outcomes of `remove_from`.
pub data RemovesTask (t : TaskList) (node : ℕ → ℕ) (p id : ℕ) : Outcome TaskList → Type 0 where
  absent : Absent t node id → RemovesTask t node p id (done t)
  removed :
      (k : ℕ) (t' : TaskList)
      → k < size t
      → task_at t node k ≡ id
      → IsReady t' (without k node) (moved (size t) p k)
      → tasks t' (without k node) ≡ remove_at k (tasks t node)
      → RemovesTask t node p id (done t')

module _ (t : TaskList) (node : ℕ → ℕ) (p id : ℕ) (ready : IsReady t node p) where
  -- The list with the new node `i` at the end.
  abbrev grown : CircularList → ℕ → TaskList
  grown l i = record { m_list = l; m_current = if 0 == size t then i else t.m_current }

  grown-IsReady :
      (l' : CircularList) (i : ℕ)
      → Absent t node id
      → IsRing max_tasks l' (update node (size t) i)
      → l'.m_count ≡ size t + 1
      → ((k : ℕ)
          → k < size t + 1
          → (nodes l' (update node (size t) i k)).m_data
            ≡ (if k == size t then id else task_at t node k))
      → IsReady (grown l' i) (update node (size t) i) (if size t == 0 then 0 else p)
  grown-IsReady l' i none_there ring count entries = record {
    ring = ring;
    position = λ _. ground (arith, ready.position);
    current = λ _. ground (arith, ready.position, ready.current);
    unique = λ j k hj hk e. ground (
      arith,
      ready.unique j k,
      entries j (omega arith),
      entries k (omega arith),
      none_there j,
      none_there k,
    );
  }

  add_found :
      {f : Outcome (Option ℕ)} {r : Outcome (Option ℕ × CircularList)}
      → find max_tasks t.m_list id ≡ f
      → Finds t.m_list node id 0 f
      → add max_tasks t.m_list id ≡ r
      → Adds max_tasks t.m_list node id r
      → AddsTask t node p id (add_to t id)
  unfolding add_to
  add_found ef (hit k _ lt e _) ea a = rw (ef) (present k lt e)
  add_found ef (missing all) ea (refused e) = rw (ef, ea) (no_room (λ k h. all k (omega arith) h) e)
  add_found ef (missing all) ea (accepted i l' room ring count entries cont) =
      rw (ef, ea)
        (added (grown l' i) (update node (size t) i) (λ k h. all k (omega arith) h)
          ((grown-IsReady l' i (λ k h. all k (omega arith) h) ring count entries)) cont
          (λ h. ground arith))

  -- addTask, on a well-formed list of a priority, never stops at an assertion. It returns false exactly if
  -- the task is in the list already or all max_tasks places are taken, and then changes nothing; else the
  -- task stands at the end of a well-formed list, and the current task is as before, if there was one.
  pub add_to_lem : AddsTask t node p id (add_to t id)
  add_to_lem =
      add_found refl (find_lem max_tasks t.m_list node ready.ring id) refl
        (add_lem max_tasks t.m_list node id (omega arith) ready.ring)

  removed-IsReady :
      (l' : CircularList) (k c : ℕ)
      → k < size t
      → (1 < size t → c ≡ (if k == p then node (after (size t) p) else node p))
      → IsRing max_tasks l' (without k node)
      → l'.m_count + 1 ≡ size t
      → ((j : ℕ)
          → j + 1 < size t
          → (nodes l' (without k node j)).m_data
            ≡ (if ltb j k then task_at t node j else task_at t node (j + 1)))
      → IsReady (record { m_list = l'; m_current = c }) (without k node) (moved (size t) p k)
  removed-IsReady l' k c lt e ring count entries = record {
    ring = ring;
    position = λ h. ground (arith, ready.position);
    current = λ h. ground (arith, ready.position, e);
    unique = λ i j hi hj same. ground (
      arith,
      entries i (omega arith),
      entries j (omega arith),
      ready.unique i j,
      ready.unique (i + 1) j,
      ready.unique i (j + 1),
      ready.unique (i + 1) (j + 1),
    );
  }

  remove_found :
      {f : Outcome (Option ℕ)}
      → find max_tasks t.m_list id ≡ f
      → Finds t.m_list node id 0 f
      → RemovesTask t node p id (remove_from t id)
  unfolding remove_from
  remove_found ef (missing all) = rw ef (absent (λ k h. all k (omega arith) h))
  remove_found ef (hit k _ lt e _) =
      let (l', er, ring, count, entries, cont) =
        remove_lem max_tasks t.m_list node k (omega arith) ready.ring lt in
      let next = (next_index_lem max_tasks t.m_list node ready.ring k lt).0 in
      let c : ℕ =
        if t.m_current == node k
        then (if ltb 1 (size t) then node (after (size t) k) else t.m_current)
        else t.m_current in
      let computed : remove_from t id ≡ done (record { m_list = l'; m_current = c }) =
        ground (arith, ef, er, next) in
      let c-eq : 1 < size t → c ≡ (if k == p then node (after (size t) p) else node p) =
        λ h. ground (arith, ready.current, ready.position, ready.ring.distinct k p) in
      rw computed (removed k _ lt e (removed-IsReady l' k c lt c-eq ring count entries) cont)

  -- removeTask, on a well-formed list of a priority, never stops at an assertion. It changes nothing if the
  -- task is not in the list; else the list stays well-formed and loses just that task. The current
  -- task stays the same, but for the one that is removed: its successor in the ring takes over.
  pub remove_from_lem : RemovesTask t node p id (remove_from t id)
  remove_from_lem = remove_found refl (find_lem max_tasks t.m_list node ready.ring id)

-- `t'` is a well-formed list: `t` with the task `id` at its end.
abbrev pub Appended : TaskList → (ℕ → ℕ) → ℕ → ℕ → TaskList → Type 0
Appended t node p id t' =
    (node' : ℕ → ℕ) × IsReady t' node' (if size t == 0 then 0 else p)
    × (tasks t' node' ≡ tasks t node ++ (id ∷ []))

pub has_room :
    {t : TaskList} {node : ℕ → ℕ} {p id : ℕ} {o : Outcome (Bool × TaskList)}
    → add_to t id ≡ o
    → AddsTask t node p id o
    → Absent t node id
    → size t < max_tasks
    → (t' : TaskList) × (add_to t id ≡ done (true, t')) × Appended t node p id t'
has_room e (present k lt same) none_there room = absurd (none_there k lt same)
has_room e (no_room _ full) none_there room = absurd (omega arith)
has_room e (added t' node' _ ok entries _) none_there room = (t', e, (node', ok, entries))
