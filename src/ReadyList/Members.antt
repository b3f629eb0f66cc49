-- ===== src/ReadyList/Members.antt =====
-- The list of a priority as the set of its tasks.
use cortex_m3_rtos.Prelude.{
  ℕ, ◌<◌, ◌≡◌, ◌⊎◌, refl, Bool, true, false, inl, inr, none, some, [], ◌∷◌, arith, update, Outcome,
  done, has, has-append, has-slice, slice-has, has-remove_at, Bool-cases, sym, ◌∙◌, ap,
}
use native.Mathlib.Decide.{ℕ_discrete}
use cortex_m3_rtos.Config.{max_tasks}
use cortex_m3_rtos.MemoryBuffer.Room.{pigeonhole}
use cortex_m3_rtos.CircularList.Ring.{after}
use cortex_m3_rtos.ReadyList.{TaskList, add_to, remove_from, next_of, current_of}
use cortex_m3_rtos.ReadyList.Ready.{
  IsReady, size, task_at, next_of-empty, current_of-empty, next_of-eq, current_of-eq,
}
use cortex_m3_rtos.ReadyList.Ready.Turns.{IsReady-moved}
use cortex_m3_rtos.ReadyList.Ready.Changes.{
  tasks, Absent, AddsTask, present, no_room, added, RemovesTask, absent, removed, has_room,
  add_to_lem, remove_from_lem,
}

-- The list is well-formed, and `s` says which tasks are in it.
pub record Holds (t : TaskList) (s : ℕ → Bool) : Type 0 where
  pub node : ℕ → ℕ
  pub position : ℕ
  pub ready : IsReady t node position
  pub members : (id : ℕ) → has id (tasks t node) ≡ s id
  pub below : (id : ℕ) → s id ≡ true → id < max_tasks

module _ (t : TaskList) (s : ℕ → Bool) (h : Holds t s) where
  open h use {node, position, ready, members, below}

  member-at : (k : ℕ) → k < size t → s (task_at t node k) ≡ true
  member-at k lt =
      sym (members (task_at t node k))
      ∙ has-slice (task_at t node) 0 (size t) k (omega arith) (omega arith)

  not_member-Absent : (id : ℕ) → s id ≡ false → Absent t node id
  not_member-Absent id e k lt same = ground (arith, member-at k lt, e, same)

  member-place : (id : ℕ) → s id ≡ true → (k : ℕ) × (k < size t) × (task_at t node k ≡ id)
  member-place id e =
      let (k, _, lt, same) = slice-has (task_at t node) 0 (size t) id (members id ∙ e) in
      (k, omega arith, same)

  -- A task that is not in the list finds room in it.
  room : (id : ℕ) → id < max_tasks → s id ≡ false → size t < max_tasks
  room id small e =
      pigeonhole (task_at t node) (size t) max_tasks id
        (λ k lt. below (task_at t node k) (member-at k lt)) ready.unique small
        (not_member-Absent id e)

  pub add_to-Holds :
      (id : ℕ)
      → id < max_tasks
      → s id ≡ false
      → (t' : TaskList) × (add_to t id ≡ done (true, t')) × Holds t' (update s id true)
  add_to-Holds id small e =
      let (t', eq, (node', ok, entries)) =
        has_room refl (add_to_lem t node position id ready) (not_member-Absent id e)
          (room id small e) in
      (
        t',
        eq,
        record {
          node = node';
          position = _;
          ready = ok;
          members = λ a.
              ap (has a) entries
              ∙ has-append a (tasks t node) (id ∷ [])
              ∙ ground (arith, members a);
          below = λ a i. ground (arith, small, below a);
        },
      )

  adds_member :
      {id : ℕ} {o : Outcome (Bool × TaskList)}
      → s id ≡ true
      → AddsTask t node position id o
      → o ≡ done (false, t)
  adds_member e (present _ _ _) = refl
  adds_member e (no_room _ _) = refl
  adds_member {id} e (added _ _ none_there _ _ _) =
      let (k, lt, same) = member-place id e in absurd (none_there k lt same)

  pub add_to-member : (id : ℕ) → s id ≡ true → add_to t id ≡ done (false, t)
  add_to-member id e = adds_member e (add_to_lem t node position id ready)

  removes :
      {id : ℕ} {o : Outcome TaskList}
      → RemovesTask t node position id o
      → (t' : TaskList) × (o ≡ done t') × Holds t' (update s id false)
  removes {id} (absent none_there) = (
    t,
    refl,
    record {
      node = node;
      position = position;
      ready = ready;
      members = λ a. elim (Bool-cases (s id)) [
        | inl e ↦ let (k, lt, same) = member-place id e in absurd (none_there k lt same)
        | inr e ↦ ground (arith, members a, e)
      ];
      below = λ a i. ground (arith, below a);
    },
  )
  removes {id} (removed k t' lt same ok entries) = (
    t',
    refl,
    record {
      node = _;
      position = _;
      ready = ok;
      members = λ a.
          ap (has a) entries
          ∙ has-remove_at (task_at t node) 0 (size t) k a
              (λ i j p q r w. ready.unique i j (omega arith) (omega arith)) lt
          ∙ ground (arith, members a, same);
      below = λ a i. ground (arith, below a);
    },
  )

  pub remove_from-Holds :
      (id : ℕ) → (t' : TaskList) × (remove_from t id ≡ done t') × Holds t' (update s id false)
  remove_from-Holds id = removes (remove_from_lem t node position id ready)

  size-zero : ((id : ℕ) → s id ≡ false) → size t ≡ 0
  size-zero none_in = elim (ℕ_discrete (size t) 0) [
    | yes e ↦ e
    | no some_in ↦ ground (arith, member-at 0 (omega arith), none_in (task_at t node 0))
  ]

  size-pos : (id : ℕ) → s id ≡ true → 0 < size t
  size-pos id e = let (k, lt, _) = member-place id e in omega arith

  -- Either some task is in the list, or none is.
  pub Holds-cases : ((id : ℕ) × (s id ≡ true)) ⊎ ((id : ℕ) → s id ≡ false)
  Holds-cases = elim (ℕ_discrete (size t) 0) [
    | yes e ↦ inr (λ id. elim (Bool-cases (s id)) [
      | inl member ↦ absurd (omega (arith, size-pos id member))
      | inr out ↦ out
    ])
    | no some_in ↦ inl (task_at t node 0, member-at 0 (omega arith))
  ]

  -- findNextTask and findCurrentTask choose a task of the list, where there is one, and keep its tasks.
  pub next_of-Holds :
      (id : ℕ)
      → s id ≡ true
      → (a : ℕ) × (t' : TaskList) × (next_of t ≡ done (some a, t')) × (s a ≡ true) × Holds t' s
  next_of-Holds id e =
      let some_in = size-pos id e in
      let k = after (size t) position in
      let lt : k < size t = ground (arith, ready.position some_in) in
      (
        _,
        _,
        next_of-eq t node position ready some_in,
        member-at k lt,
        record {
          node = node;
          position = k;
          ready = IsReady-moved t node position k ready lt;
          members = members;
          below = below;
        },
      )

  pub next_of-nobody : ((id : ℕ) → s id ≡ false) → next_of t ≡ done (none, t)
  next_of-nobody none_in = next_of-empty t node position ready (size-zero none_in)

  pub current_of-Holds :
      (id : ℕ) → s id ≡ true → (a : ℕ) × (current_of t ≡ done (some a)) × (s a ≡ true)
  current_of-Holds id e =
      let some_in = size-pos id e in
      (_, current_of-eq t node position ready some_in, member-at position (ready.position some_in))

  pub current_of-nobody : ((id : ℕ) → s id ≡ false) → current_of t ≡ done none
  current_of-nobody none_in = current_of-empty t node position ready (size-zero none_in)
