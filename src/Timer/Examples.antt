-- ===== src/Timer/Examples.antt =====
-- A timer that is started at the end of the clock's range.
use cortex_m3_rtos.Prelude.{ℕ, ◌<◌, ◌≡◌, true, false, ◌&&◌, ltb, done}
use cortex_m3_rtos.Config.{max_timers}
use cortex_m3_rtos.Timer.{started, Context, tick}
use cortex_m3_rtos.Timer.Laws.{Ticked, tick_lem}

abbrev pub timers : Context
timers = record {
  m_data = record {
    m_data =
        λ _. record { m_start = 0; m_interval = 20; m_current = 0xffff_fff0; m_state = started };
    m_status = λ i. ltb i 2;
  };
}

tick_lem_example :
    (c' : Context) × (tick timers 21 ≡ done c')
    × ((j : ℕ) → c'.m_data.m_status j ≡ timers.m_data.m_status j)
    × ((j : ℕ)
        → ltb j max_timers && timers.m_data.m_status j ≡ false
        → c'.m_data.m_data j ≡ timers.m_data.m_data j)
    × ((j : ℕ)
        → j < max_timers
        → timers.m_data.m_status j ≡ true
        → Ticked 21 (timers.m_data.m_data j) (c'.m_data.m_data j))
tick_lem_example = tick_lem timers 21
