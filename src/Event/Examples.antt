-- ===== src/Event/Examples.antt =====
-- A set event without a name in slot 0, and one with a name in slot 1.
use cortex_m3_rtos.Prelude.{ℕ, ◌≡◌, Option, ◌==◌, ltb, if◌then◌else◌, done, arith}
use cortex_m3_rtos.Event.{set_state, Context, open_event}
use cortex_m3_rtos.Event.Laws.{Opened, open_event-Opened}

abbrev two_events : Context
two_events = record {
  m_data = record {
    m_data = λ i. record {
      m_state = set_state;
      mp_name = if i == 1 then 0x800_1000 else 0;
      m_manual_reset = i == 0;
    };
    m_status = λ i. ltb i 2;
  };
}

open_event-Opened_example :
    (r : Option ℕ) × (open_event two_events 0x800_1000 ≡ done r) × Opened two_events 0x800_1000 r
open_event-Opened_example = open_event-Opened two_events 0x800_1000 (omega arith)
