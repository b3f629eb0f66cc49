-- ===== src/Serial/KernelQueues/Examples.antt =====
-- Two queues of 64 bytes, as the program creates them.
use cortex_m3_rtos.Prelude.{
  ℕ, ◌+◌, ◌-◌, ◌≤◌, u32_mod, ◌<◌, ◌≡◌, refl, true, false, [], ◌∷◌, ltb, ◌==◌, if◌then◌else◌, inl,
  arith,
}
use cortex_m3_rtos.Config.{max_queues}
use cortex_m3_rtos.Queue.{Queue}
use cortex_m3_rtos.Kernel.{Kernel}
use cortex_m3_rtos.Kernel.Examples.{two_ready}
use cortex_m3_rtos.Serial.Lines.{Line, rx, tx}
use cortex_m3_rtos.Serial.{
  finished, out_of_bounds, ◌>>=◌, Serial, usart_handler, flush_from, worker_round,
}
use cortex_m3_rtos.Serial.KernelQueues.{kernel_queues, IsByteQueue, TwoQueues, line_contents}
use cortex_m3_rtos.Serial.KernelQueues.Program.{kernel_echo, kernel_overflow}

abbrev id : Line → ℕ
id rx = 0
id tx = 1

abbrev byte_queue : ℕ → ℕ → Queue
byte_queue address n = record {
  m_current_size = n;
  m_head = if n == 0 then 0 else n - 1;
  m_tail = 0;
  m_data_max_elements = 64;
  m_data_type_size = 1;
  mp_data = address;
  mp_name = 0;
}

-- With `n` letters A received, and one left to be sent.
abbrev received : ℕ → Kernel
received n = record two_ready {
  m_objects = record two_ready.m_objects {
    queues = record {
      m_data = record {
        m_data = λ i. if i == 0 then byte_queue 0x2000_0000 n else byte_queue 0x2000_1000 1;
        m_status = λ i. ltb i 2;
      };
    };
  };
  memory = λ a. 65;
}

abbrev serial : ℕ → Serial (kernel_queues id 0x1000)
serial n = record { queues = received n; data_register = []; tx_interrupt = false }

byte_queue-IsByteQueue :
    (address n : ℕ)
    → n ≤ 64
    → 0x1001 ≤ address
    → address + 64 < u32_mod
    → IsByteQueue id 0x1000 64 (byte_queue address n)
byte_queue-IsByteQueue address n le above below = record {
  valid = record {
    some_items = omega arith;
    some_bytes = omega arith;
    fits = omega (arith, below);
    size_in = le;
    head_in = ground (arith, le);
    tail_in = omega arith;
    head_empty = λ e. ground (arith, e);
    head_last = λ more. ground (arith, more, le);
  };
  one_byte = refl;
  size = refl;
  user_apart = record { inside = omega arith; apart = inl (omega (arith, above)) };
}

lines-inside : (l : Line) → id l < max_queues
lines-inside rx = omega arith
lines-inside tx = omega arith

lines-used : (n : ℕ) (l : Line) → (received n).m_objects.queues.m_data.m_status (id l) ≡ true
lines-used n rx = refl
lines-used n tx = refl

lines-IsByteQueue :
    (n : ℕ) (l : Line)
    → n ≤ 64
    → IsByteQueue id 0x1000 64 ((received n).m_objects.queues.m_data.m_data (id l))
lines-IsByteQueue n rx le = byte_queue-IsByteQueue 0x2000_0000 n le (omega arith) (omega arith)
lines-IsByteQueue n tx le =
    byte_queue-IsByteQueue 0x2000_1000 1 (omega arith) (omega arith) (omega arith)

received-TwoQueues : (n : ℕ) → n ≤ 64 → TwoQueues id 0x1000 64 (received n)
received-TwoQueues n le = record {
  pointer = λ e. absurd (omega (arith, e));
  inside = lines-inside;
  used = lines-used n;
  queues = λ l. lines-IsByteQueue n l le;
  distinct = λ e. absurd (omega (arith, e));
  buffers_apart = inl (omega arith);
}

kernel_echo_example :
    (s' : Serial (kernel_queues id 0x1000)) × ((worker_round
          (kernel_queues id 0x1000)
          10
          (λ _. 0)
          (serial 2)
        >>= λ s1. usart_handler (kernel_queues id 0x1000) 10 s1 false true 0)
      ≡ finished s')
    × (s'.data_register ≡ 65 ∷ 65 ∷ 65 ∷ [])
    × (line_contents id 0x1000 64 s'.queues tx ≡ [])
    × (line_contents id 0x1000 64 s'.queues rx ≡ [])
    × (s'.tx_interrupt ≡ false)
kernel_echo_example =
    kernel_echo id 0x1000 64 (65 ∷ 65 ∷ []) 10 (λ _. 0) (serial 2)
      (received-TwoQueues 2 (omega arith)) refl (omega arith) (omega arith) (omega arith)
      (omega arith)

kernel_overflow_example :
    flush_from (kernel_queues id 0x1000) 65 0 (λ _. 0) (serial 64) ≡ out_of_bounds
kernel_overflow_example =
    kernel_overflow id 0x1000 64 (line_contents id 0x1000 64 (received 64) rx) 65 (λ _. 0)
      (serial 64) (received-TwoQueues 64 (omega arith)) refl (omega arith) (omega arith)
