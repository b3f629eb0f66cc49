-- ===== src/Kernel/Invariant/Reachable.antt =====
-- The kernel from its constructors on, under any sequence of calls and timer interrupts.
mod Examples
use cortex_m3_rtos.Prelude.{ℕ, ◌≡◌, refl, Bool, true, false, Outcome, done, arith}
use cortex_m3_rtos.MemoryBuffer
use cortex_m3_rtos.CircularList.{Node, empty}
use cortex_m3_rtos.CircularList.Ring.{empty-IsRing}
use cortex_m3_rtos.Memory.{Memory}
use cortex_m3_rtos.Hardware.{Cpu}
use cortex_m3_rtos.Task.{Task}
use cortex_m3_rtos.Timer
use cortex_m3_rtos.Event
use cortex_m3_rtos.Queue
use cortex_m3_rtos.WaitList.{WaitItem}
use cortex_m3_rtos.Kernel.{Kernel}
use cortex_m3_rtos.Kernel.Calls.{
  new_kernel, Call, init, start, create_task, task_routine_exit, terminate, suspend, resume, sleep,
  wait_begin, wait_end, create_timer, destroy_timer, start_timer, restart_timer, stop_timer,
  create_event, destroy_event, set_event, reset_event, create_queue, destroy_queue, send, receive,
  init_section, deinit_section, enter_round, leave_section, sys_tick, only, perform, is_late,
  performs, Reachable, here, later,
}
use cortex_m3_rtos.Kernel.TaskApi
use cortex_m3_rtos.Kernel.TimerApi
use cortex_m3_rtos.Kernel.EventApi
use cortex_m3_rtos.Kernel.Invariant.{Well, Leaves, Sound, stops, leaves}
use cortex_m3_rtos.Kernel.Invariant.Tasks.{
  terminate_task-Sound, terminate-Sound, suspend-Sound, resume-Sound,
}
use cortex_m3_rtos.Kernel.Invariant.Sleep.{sleep-Sound}
use cortex_m3_rtos.Kernel.Invariant.Start.{create-Leaves, init-Sound, start-Sound}
use cortex_m3_rtos.Kernel.Invariant.Sync.{wait_begin-Leaves, wait_end-Leaves}
use cortex_m3_rtos.Kernel.Invariant.Ticks.{sys_tick_handler-Sound}
use cortex_m3_rtos.Kernel.Invariant.Objects.{
  on_event-Sound, create_event-Leaves, on_timer-Sound, create_timer-Leaves, create_queue-Leaves,
  destroy_queue-Sound, send-Leaves, receive-Leaves,
}
use cortex_m3_rtos.Kernel.Invariant.Sections.{
  init-Leaves, deinit-Sound, leave-Leaves, enter_round-Leaves,
}

only-Sound : {A : Type 0} {f : A → Kernel} {o : Outcome A} → Leaves f o → Sound (only f o)
only-Sound stops = stops
only-Sound (leaves a s ok) = leaves _ s ok

-- Every call leaves the invariant.
perform-Sound :
    (c : Call) (k : Kernel) (s : ℕ → Bool)
    → Well k s
    → (is_late c ≡ true → k.m_started ≡ true)
    → Sound (perform c k)
unfolding perform TaskApi.task_routine_exit TimerApi.destroy TimerApi.start TimerApi.restart
    TimerApi.stop EventApi.destroy EventApi.set_event EventApi.reset_event
perform-Sound (init r i) k s h late = init-Sound k s h r i
perform-Sound start k s h late = start-Sound k s h
perform-Sound (create_task t r p x b) k s h late = only-Sound (create-Leaves k s h t r p x b)
perform-Sound (task_routine_exit id) k s h late = terminate_task-Sound k s h id
perform-Sound (terminate handle) k s h late = terminate-Sound k s h handle
perform-Sound (suspend handle) k s h late = suspend-Sound k s h handle
perform-Sound (resume handle) k s h late = resume-Sound k s h handle
perform-Sound (sleep time) k s h late = sleep-Sound k s h time (late refl)
perform-Sound (wait_begin handles n all forever timeout) k s h late =
    only-Sound (wait_begin-Leaves k s h handles n all forever timeout (late refl))
perform-Sound wait_end k s h late = only-Sound (wait_end-Leaves k s h)
perform-Sound (create_timer interval) k s h late = only-Sound (create_timer-Leaves k s h interval)
perform-Sound (destroy_timer handle) k s h late = on_timer-Sound k s h Timer.destroy handle
perform-Sound (start_timer handle) k s h late = on_timer-Sound k s h Timer.start handle
perform-Sound (restart_timer handle) k s h late = on_timer-Sound k s h Timer.restart handle
perform-Sound (stop_timer handle) k s h late = on_timer-Sound k s h Timer.stop handle
perform-Sound (create_event b name) k s h late = only-Sound (create_event-Leaves k s h b name)
perform-Sound (destroy_event handle) k s h late = on_event-Sound k s h Event.destroy handle
perform-Sound (set_event handle) k s h late = on_event-Sound k s h Event.set_event handle
perform-Sound (reset_event handle) k s h late = on_event-Sound k s h Event.reset_event handle
perform-Sound (create_queue a n z b name) k s h late =
    only-Sound (create_queue-Leaves k s h a n z b name)
perform-Sound (destroy_queue handle) k s h late = destroy_queue-Sound k s h handle
perform-Sound (send handle p) k s h late = only-Sound (send-Leaves k s h handle p)
perform-Sound (receive handle p) k s h late = only-Sound (receive-Leaves k s h handle p)
perform-Sound (init_section n) k s h late = only-Sound (init-Leaves k s h n)
perform-Sound (deinit_section c) k s h late = deinit-Sound k s h c
perform-Sound (enter_round c i) k s h late = only-Sound (enter_round-Leaves k s c i h (late refl))
perform-Sound (leave_section c) k s h late = only-Sound (leave-Leaves k s h c)
perform-Sound (sys_tick r) k s h late = sys_tick_handler-Sound k s r h (late refl)

pub done-Well : {o : Outcome Kernel} (k : Kernel) → Sound o → o ≡ done k → (s : ℕ → Bool) × Well k s
done-Well k stops e = cc
done-Well k (leaves k' s ok) e = let same : k' ≡ k = cc in (s, rw (← same) ok)

-- From a state with the invariant only states with the invariant are reached.
pub Reachable-Well :
    {k k' : Kernel} {s : ℕ → Bool} → Well k s → Reachable k k' → (s' : ℕ → Bool) × Well k' s'
Reachable-Well {s} h here = (s, h)
Reachable-Well h (later before (performs c late e)) =
    let (s', ok) = Reachable-Well h before in done-Well _ (perform-Sound c _ s' ok late) e

-- No task exists yet.
new_kernel-Well :
    (nodes : ℕ → ℕ → Node) (items : ℕ → WaitItem) (tasks : ℕ → Task) (timers : ℕ → Timer.Timer)
    (events : ℕ → Event.Event) (queues : ℕ → Queue.Queue) (cpu : Cpu) (memory : Memory)
    → cpu.pend_sv ≡ false
    → Well (new_kernel nodes items tasks timers events queues cpu memory) (λ _. false)
unfolding new_kernel empty MemoryBuffer.init
new_kernel-Well nodes items tasks timers events queues cpu memory clear = record {
  scheduled = record {
    ready_tasks = record {
      lists = λ q lt. record {
        node = λ _. 0;
        position = 0;
        ready = record {
          ring = empty-IsRing _ (nodes q) (λ _. 0);
          position = λ p. absurd (omega arith);
          current = λ _. refl;
          unique = λ j k hj hk e. absurd (omega arith);
        };
        members = λ id. refl;
        below = λ id e. cc;
      };
      used = λ id e. cc;
    };
    waiting_tasks = record {
      waiter_used = λ i lt w. cc;
      not_ready = λ i lt w. refl;
      once = λ i j hi hj w v e. cc;
    };
    asleep = λ i lt w. cc;
  };
  runs_ready = λ e. cc;
  unlocked = refl;
  no_switch = clear;
}

-- In every state that the kernel reaches from its constructors on, with no PendSV pending at first, by any
-- calls of the API that return and any timer interrupts, where tasks sleep and wait and the timer
-- interrupts only once the kernel has started, for some set of tasks: each of them is in use and stands exactly once in the list of its
-- priority, and no other task is in any list; the tasks with a wait item are in use, in state
-- Waiting, outside the set, and have one item each; the task that runs, once the kernel has started, is
-- in the set; the kernel lock is free and no PendSV is pending.
pub reachable_lem :
    (nodes : ℕ → ℕ → Node) (items : ℕ → WaitItem) (tasks : ℕ → Task) (timers : ℕ → Timer.Timer)
    (events : ℕ → Event.Event) (queues : ℕ → Queue.Queue) (cpu : Cpu) (memory : Memory) (k : Kernel)
    → cpu.pend_sv ≡ false
    → Reachable (new_kernel nodes items tasks timers events queues cpu memory) k
    → (s : ℕ → Bool) × Well k s
reachable_lem nodes items tasks timers events queues cpu memory k clear =
    Reachable-Well (new_kernel-Well nodes items tasks timers events queues cpu memory clear)
