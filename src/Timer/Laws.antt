-- ===== src/Timer/Laws.antt =====
-- What the operations on timers do: source/timer/timer.hpp.
use cortex_m3_rtos.Prelude.{
  ℕ, zero, suc, ◌+◌, ◌%◌, ◌<◌, ◌≤◌, ◌≡◌, refl, ◌↔◌, inl, inr, true, false, ◌&&◌, arith, ltb, leb,
  if◌then◌else◌, update, done, Bool-cases, u32_mod, sub32, ◌∙◌,
}
use cortex_m3_rtos.Config.{max_timers}
use cortex_m3_rtos.Timer.{
  State, stopped, started, finished, Timer, Context, tick_timer, tick_from, tick, get_state,
  restart,
}

-- The slots from `i` to below `k` have been ticked, where they are in use.
record Ticks (i k now : ℕ) (c c' : Context) : Type 0 where
  status : (j : ℕ) → c'.m_data.m_status j ≡ c.m_data.m_status j
  timer :
      (j : ℕ)
      → c'.m_data.m_data j ≡ (
          if (leb i j && ltb j k) && c.m_data.m_status j
          then tick_timer now (c.m_data.m_data j)
          else c.m_data.m_data j)

abbrev ticked : Context → ℕ → ℕ → Context
ticked c i now = record {
  m_data = record c.m_data {
    m_data = update c.m_data.m_data i (tick_timer now (c.m_data.m_data i));
  };
}

tick_from-used :
    (n i : ℕ) (c : Context) (now : ℕ)
    → i < max_timers
    → c.m_data.m_status i ≡ true
    → tick_from (suc n) i c now ≡ tick_from n (i + 1) (ticked c i now) now
unfolding tick_from
tick_from-used n i c now h e = ground arith

tick_from-free :
    (n i : ℕ) (c : Context) (now : ℕ)
    → i < max_timers
    → c.m_data.m_status i ≡ false
    → tick_from (suc n) i c now ≡ tick_from n (i + 1) c now
unfolding tick_from
tick_from-free n i c now h e = ground arith

tick_from-zero : (i : ℕ) (c : Context) (now : ℕ) → tick_from zero i c now ≡ done c
unfolding tick_from
tick_from-zero i c now = refl

tick_from-Ticks :
    (n i k : ℕ) (c : Context) (now : ℕ)
    → i + n ≡ k
    → k ≤ max_timers
    → (c' : Context) × (tick_from n i c now ≡ done c') × Ticks i k now c c'
tick_from-Ticks zero i k c now e h =
    (c, tick_from-zero i c now, record { status = λ j. refl; timer = λ j. ground arith })
tick_from-Ticks (suc n) i k c now e h = elim (Bool-cases (c.m_data.m_status i)) [
  | inl used ↦
      let (c', run, r) = tick_from-Ticks n (i + 1) k (ticked c i now) now (omega arith) h in
      (
        c',
        tick_from-used n i c now (omega arith) used ∙ run,
        record { status = λ j. r.status j; timer = λ j. ground (arith, r.timer j, used) },
      )
  | inr free ↦
      let (c', run, r) = tick_from-Ticks n (i + 1) k c now (omega arith) h in
      (
        c',
        tick_from-free n i c now (omega arith) free ∙ run,
        record { status = r.status; timer = λ j. ground (arith, r.timer j, free) },
      )
]

-- What a tick at time `now` makes of a timer in use.
abbrev pub Ticked : ℕ → Timer → Timer → Type 0
Ticked now t t' =
    (t'.m_current ≡ now)
    × (t'.m_start ≡ t.m_start)
    × (t'.m_interval ≡ t.m_interval)
    × (t.m_state ≡ stopped → t'.m_state ≡ stopped)
    × (t.m_state ≡ finished → t'.m_state ≡ finished)
    × (t.m_state ≡ started
        → t'.m_state ≡ (if ltb t.m_interval (sub32 now t.m_start) then finished else started))

tick_timer-Ticked : (now : ℕ) (t : Timer) → Ticked now t (tick_timer now t)
unfolding tick_timer
tick_timer-Ticked now t =
    (refl, refl, refl, λ e. ground arith, λ e. ground arith, λ e. ground arith)

-- `tick` never stops at an assertion. It gives every timer in use the current time, turns a started one
-- whose interval has been exceeded into a finished one, and leaves the other states, the free slots and
-- which slots are in use as they are.
pub tick_lem :
    (c : Context) (now : ℕ)
    → (c' : Context) × (tick c now ≡ done c')
      × ((j : ℕ) → c'.m_data.m_status j ≡ c.m_data.m_status j)
      × ((j : ℕ)
          → ltb j max_timers && c.m_data.m_status j ≡ false
          → c'.m_data.m_data j ≡ c.m_data.m_data j)
      × ((j : ℕ)
          → j < max_timers
          → c.m_data.m_status j ≡ true
          → let t = c.m_data.m_data j in let t' = c'.m_data.m_data j in Ticked now t t')
unfolding tick
tick_lem c now =
    let (c', run, r) = tick_from-Ticks max_timers 0 max_timers c now refl (omega arith) in
    (
      c',
      run,
      r.status,
      λ j h. ground (arith, r.timer j),
      λ j h used.
          let e : c'.m_data.m_data j ≡ tick_timer now (c.m_data.m_data j) =
            ground (arith, r.timer j) in
          rw e (tick_timer-Ticked now (c.m_data.m_data j)),
    )

expired_iff :
    (s n interval : ℕ)
    → s < u32_mod
    → n < u32_mod
    → ((if ltb interval (sub32 ((s + n) % u32_mod) s) then finished else started) ≡ finished)
      ↔ (interval < n)
expired_iff s n interval hs hn = ground arith

abbrev timer_at : Context → ℕ → Timer
timer_at c id = c.m_data.m_data id

restart-eq :
    (c : Context) (id : ℕ)
    → id < max_timers
    → c.m_data.m_status id ≡ true
    → let t = timer_at c id in
      restart c id
      ≡ done (record {
        m_data = record c.m_data {
          m_data =
              update c.m_data.m_data id (record t { m_start = t.m_current; m_state = started });
        };
      })
unfolding restart
restart-eq c id h used = ground arith

get_state-eq :
    (c : Context) (id : ℕ)
    → id < max_timers
    → c.m_data.m_status id ≡ true
    → get_state c id ≡ done (timer_at c id).m_state
unfolding get_state
get_state-eq c id h used = ground arith

-- A timer in use that is restarted, and then ticked when n milliseconds, fewer than 2 ^ 32, have passed
-- since the time that it had, is finished exactly if n exceeds its interval, also when the clock has
-- wrapped round in between.
pub restart-expires :
    (c : Context) (id n : ℕ)
    → id < max_timers
    → c.m_data.m_status id ≡ true
    → (timer_at c id).m_current < u32_mod
    → n < u32_mod
    → (c1 : Context) × (c2 : Context) × (s : State) × (restart c id ≡ done c1)
      × (tick c1 (((timer_at c id).m_current + n) % u32_mod) ≡ done c2)
      × (get_state c2 id ≡ done s)
      × ((s ≡ finished) ↔ ((timer_at c id).m_interval < n))
restart-expires c id n h used hs hn =
    let now : ℕ = ((timer_at c id).m_current + n) % u32_mod in
    let t : Timer = record (timer_at c id) {
      m_start = (timer_at c id).m_current;
      m_state = started;
    } in
    let c1 : Context = record {
      m_data = record c.m_data { m_data = update c.m_data.m_data id t };
    } in
    let (c2, run, status, _, timers) = tick_lem c1 now in
    let (_, _, _, _, _, expired) = timers id h used in
    (
      c1,
      c2,
      (timer_at c2 id).m_state,
      restart-eq c id h used,
      run,
      get_state-eq c2 id h (status id ∙ used),
      ground (arith, expired, expired_iff (timer_at c id).m_current n t.m_interval hs hn),
    )
