-- ===== src/Scheduler/Invariant/Lifetime.antt =====
-- The scheduler when a task comes into being, and when one ends.
use cortex_m3_rtos.Prelude.{ℕ, ◌≡◌, inl, inr, Bool, false, arith, ◌==◌, Bool-cases}
use cortex_m3_rtos.Task
use cortex_m3_rtos.Task.{Task}
use cortex_m3_rtos.Task.Lifetime.{with_task, without_task}
use cortex_m3_rtos.Scheduler.{Context}
use cortex_m3_rtos.Scheduler.Invariant.{WellFormed, NotWaiting, Holds-ext, waiter}

module _ {c : Context} {tasks : Task.Context} {s : ℕ → Bool} (id : ℕ)
    (h : WellFormed c tasks s) where
  -- A task whose slot is free is not ready, and does not wait.
  pub unused-not_ready : tasks.m_data.m_status id ≡ false → s id ≡ false
  unused-not_ready free = elim (Bool-cases (s id)) [
    | inl member ↦ ground (arith, h.ready_tasks.used id member, free)
    | inr out ↦ out
  ]

  pub unused-NotWaiting : tasks.m_data.m_status id ≡ false → NotWaiting c.m_wait_list id
  unused-NotWaiting free i lt w = elim (Bool-cases (waiter c.m_wait_list i == id)) [
    | inl same ↦ ground (arith, h.waiting_tasks.waiter_used i lt w, same, free)
    | inr other ↦ other
  ]

  pub with_task-WellFormed :
      (t : Task) → tasks.m_data.m_status id ≡ false → WellFormed c (with_task tasks id t) s
  with_task-WellFormed t free = record {
    ready_tasks = record {
      lists =
          λ q lt. Holds-ext (λ j. ground (arith, unused-not_ready free)) (h.ready_tasks.lists q lt);
      used = λ j e. ground (arith, h.ready_tasks.used j e);
    };
    waiting_tasks = record {
      waiter_used = λ i lt w. ground (arith, h.waiting_tasks.waiter_used i lt w);
      not_ready = h.waiting_tasks.not_ready;
      once = h.waiting_tasks.once;
    };
    asleep = λ i lt w. ground (arith, h.asleep i lt w, unused-NotWaiting free i lt w);
  }

  pub without_task-WellFormed :
      s id ≡ false → NotWaiting c.m_wait_list id → WellFormed c (without_task tasks id) s
  without_task-WellFormed out idle = record {
    ready_tasks = record {
      lists = h.ready_tasks.lists;
      used = λ j e. ground (arith, h.ready_tasks.used j e, out);
    };
    waiting_tasks = record {
      waiter_used = λ i lt w. ground (arith, h.waiting_tasks.waiter_used i lt w, idle i lt w);
      not_ready = h.waiting_tasks.not_ready;
      once = h.waiting_tasks.once;
    };
    asleep = h.asleep;
  }
