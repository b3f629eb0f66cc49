-- ===== src/Config.antt =====
-- source/config/config.hpp: the sizes that are fixed when the kernel is built.
use cortex_m3_rtos.Prelude.{ℕ}

abbrev pub core_clock_freq_hz : ℕ
core_clock_freq_hz = 72_000_000

-- Words in the stack of a task.
abbrev pub stack_size : ℕ
stack_size = 256

abbrev pub max_tasks : ℕ
max_tasks = 10

abbrev pub context_switch_interval_ms : ℕ
context_switch_interval_ms = 10

abbrev pub max_events : ℕ
max_events = 8

abbrev pub max_timers : ℕ
max_timers = 8

abbrev pub max_queues : ℕ
max_queues = 4

abbrev pub max_input_signals : ℕ
max_input_signals = 8
