-- ===== src/Hardware/Examples.antt =====
-- Critical sections and priorities on a processor.
use cortex_m3_rtos.Prelude.{◌<◌, ◌≡◌, ◌↔◌, ◌^◌, ◌%◌, false, arith}
use cortex_m3_rtos.Scheduler.Examples.{no_registers}
use cortex_m3_rtos.Hardware.{Cpu, CoreExceptions, Preemption, Sub, CriticalSection, priority_byte}
use cortex_m3_rtos.Hardware.Laws.{Documented, priority_byte_lem, rank}

abbrev pub cpu : Cpu
cpu = record {
  psp = 0;
  registers = no_registers;
  pend_sv = false;
  basepri = 0xc0;
  ip = λ _. 0;
  shp = λ _. 0;
}

abbrev outer : CriticalSection
outer = record { m_local_data = 0 }

priority_byte_lem_example :
    ((priority_byte Preemption.kernel Sub.low < priority_byte Preemption.user Sub.high)
      ↔ (rank Preemption.kernel Sub.low < rank Preemption.user Sub.high))
    × (0 < priority_byte Preemption.kernel Sub.low)
    × (priority_byte Preemption.kernel Sub.low < 2 ^ 8)
    × (priority_byte Preemption.kernel Sub.low % 2 ^ 4 ≡ 0)
priority_byte_lem_example = priority_byte_lem Preemption.kernel Preemption.user Sub.low Sub.high

abbrev exceptions : CoreExceptions
exceptions = record { svcall = 0xFFFF_FFFB; pend_sv = 0xFFFF_FFFE; sys_tick = 0xFFFF_FFFF }

exceptions-Documented : Documented exceptions
exceptions-Documented = record {
  svcall_number = omega arith;
  pend_sv_number = omega arith;
  sys_tick_number = omega arith;
}
