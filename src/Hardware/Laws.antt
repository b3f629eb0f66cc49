-- ===== src/Hardware/Laws.antt =====
-- The hardware critical section and the priority registers: source/hardware/armv7m/hardware.cpp.
use cortex_m3_rtos.Prelude.{
  ℕ, ◌+◌, ◌*◌, ◌%◌, ◌^◌, ◌<◌, ◌≡◌, refl, ◌↔◌, update, ltb, ◌==◌, ◌||◌, if◌then◌else◌, done, arith,
}
use cortex_m3_rtos.Hardware.{
  Cpu, Preemption, Sub, preemption_value, sub_value, priority_byte, set_interrupt_priority,
  CoreExceptions, init, set_priority, maximum_priority_number, CriticalSection, enter, leave,
}

-- A critical section always sets BASEPRI to the priority byte of its pre-emption priority with the
-- highest sub-priority, and leaving it restores the processor as it was: nested sections restore the
-- mask of the outer one.
pub leave-enter :
    (s : CriticalSection) (c : Cpu) (p : Preemption)
    → (s' : CriticalSection) × (c' : Cpu) × (enter s c p ≡ done (s', c'))
      × (c'.basepri ≡ priority_byte p Sub.high)
      × (leave s' c' ≡ c)
unfolding enter leave priority_byte
leave-enter s c Preemption.critical = (_, _, refl, refl, refl)
leave-enter s c Preemption.kernel = (_, _, refl, refl, refl)
leave-enter s c Preemption.user = (_, _, refl, refl, refl)

abbrev pub rank : Preemption → Sub → ℕ
rank p s = preemption_value p * 3 + sub_value s

-- The priority byte orders interrupts by pre-emption priority first and by sub-priority second, is never
-- the reserved value 0, and leaves the four bits clear that the device does not have.
pub priority_byte_lem :
    (p q : Preemption) (s t : Sub)
    → ((priority_byte p s < priority_byte q t) ↔ (rank p s < rank q t))
      × (0 < priority_byte p s)
      × (priority_byte p s < 2 ^ 8)
      × (priority_byte p s % 2 ^ 4 ≡ 0)
unfolding priority_byte
priority_byte_lem p q s t = ground arith

-- interrupt::priority::set writes the register of that vendor interrupt and no other; a number from 240
-- on, which the bit pattern of every negative number is, changes nothing, so that no core interrupt can
-- be set this way.
pub set_priority_lem :
    (c : Cpu) (id : ℕ) (p : Preemption) (s : Sub)
    → ((set_priority c id p s).shp ≡ c.shp)
      × (set_priority c id p s ≡ (
          if ltb id maximum_priority_number
          then record c { ip = update c.ip id (priority_byte p s) }
          else c))
unfolding set_priority set_interrupt_priority
set_priority_lem c id p s = ground arith

-- The numbers of SVCall, PendSV and SysTick are -5, -2 and -1 in the architecture.
pub record Documented (e : CoreExceptions) : Type 0 where
  pub svcall_number : e.svcall + 5 ≡ 2 ^ 32
  pub pend_sv_number : e.pend_sv + 2 ≡ 2 ^ 32
  pub sys_tick_number : e.sys_tick + 1 ≡ 2 ^ 32

-- With the exception numbers of the architecture, init gives SVCall, PendSV and SysTick one priority, so
-- that none pre-empts another: the registers 7, 10 and 11 of the core exceptions hold the priority
-- byte of Kernel and Low, and no other register of the processor changes.
pub init_lem :
    (e : CoreExceptions) (c : Cpu) (j : ℕ)
    → Documented e
    → ((init e c).shp j ≡ (
        if (j == 7) || ((j == 10) || (j == 11))
        then priority_byte Preemption.kernel Sub.low
        else c.shp j))
      × (record (init e c) { shp = c.shp } ≡ c)
unfolding init set_interrupt_priority
init_lem e c j h =
    let a : e.svcall ≡ 0xFFFF_FFFB = omega (arith, h.svcall_number) in
    let b : e.pend_sv ≡ 0xFFFF_FFFE = omega (arith, h.pend_sv_number) in
    let d : e.sys_tick ≡ 0xFFFF_FFFF = omega (arith, h.sys_tick_number) in
    (rw (init, a, b, d) (ground arith), rw (init, a, b, d) refl)
