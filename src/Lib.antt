-- ===== src/Lib.antt =====
-- A model of the kernel in source/: a pre-emptive round-robin scheduler with priorities for the ARM
-- Cortex-M3, with tasks, software timers, events, static queues, critical sections and waits.
--
-- How the parts interact. The kernel keeps one context per part. Every part with a fixed number of
-- objects stores them in a memory buffer (source/common/memory_buffer.hpp), and a handle packs the
-- type of an object with its index in the buffer. A ready list per priority is a ring of tasks
-- (source/common/circular_list.hpp); a task that waits is in the wait list with its conditions. The
-- tick of the system timer ticks the software timers, checks the conditions of all waiting tasks, and
-- moves on to the next ready task when the interval has passed. The API (source/kernel.cpp) changes
-- the contexts under the kernel lock, which keeps the tick from scheduling, and ends in a system call
-- where another task has to run; the exception handlers switch stack pointer and registers.
--
-- Files.
--   Prelude        the native naturals, 32-bit arithmetic, tests, outcomes and lists shared by all
--   Config, Api    source/config/config.hpp and the enumerations of source/kernel.hpp
--   Memory         source/common/memory.hpp: copy, compare
--   MemoryBuffer   source/common/memory_buffer.hpp; Slots has the laws that the clients use
--   CircularList   source/common/circular_list.hpp; Ring has the invariant, and a file per operation
--   Lock, SystemTimer, Timer, Event, Queue, Handle, Task
--                  the header of the same name under source/; Queue.Fifo has the view as a list
--   ReadyList, WaitConditions, WaitList, Scheduler
--                  the headers of source/scheduler; ReadyList.Ready has the view as a ring of tasks,
--                  ReadyList.Members as a set, and Scheduler.Invariant the agreement of the lists,
--                  the wait items and the states of the tasks; Scheduler.Turns has the choices
--                  in consecutive intervals, Moved the lists between them
--   Hardware       source/hardware/armv7m/hardware.cpp: priorities and hardware critical sections;
--                  the numbers of the core exceptions are a parameter; Vendor has the functions that
--                  call those of the vendor, which are a parameter, and the debug output
--   Kernel         the context, the handler mode functions of source/kernel.cpp and the handlers of
--                  hardware.cpp; below it a file for each namespace of the API, Switch for the
--                  context switch, FirstRun for the first switch to a new task, Svc for the SVC
--                  instruction, Ticks for the tick under the kernel lock, TimeSlices for the ticks
--                  while the same tasks are ready, Calls for the state after the constructors and
--                  the calls that lead on from it, and Invariant for what holds in every state
--                  that they lead to
--   Gpio           examples/blinky/gpio.hpp (serial_interrupt and using_interrupt have copies of it)
--                  on the bits of the registers; Leds has the LEDs of examples/blinky/main.cpp
--   Serial         examples/serial_interrupt/main.cpp over an interface of two queues of bytes
--                  (Lines), which KernelQueues fills with the static queues of the kernel; Bytes has
--                  the bytes in such a queue
--   Laws, Examples in these folders: theorems, and runs of them on concrete values
--
-- Conventions. A function has the name of the source in snake case and takes the context that the
-- source takes by reference; it returns the context with its result. Out arguments are results, and
-- the result false with an unassigned out argument is `none`. An assertion that fails, and a
-- breakpoint, is the outcome `halted`. Words of 32 bits are natural numbers below 2 ^ 32 with the
-- wrap-around written out. Memory of the user is a function from addresses to bytes, a pointer is an
-- address, and names are compared as pointers, as in the source. Variables and slots that the source
-- does not initialise are arguments or arbitrary content.
--
-- Bounds. Every loop of the source has a bound known at its start (the size of a buffer, the number
-- of nodes, of handles or of bytes, the number of priorities); it is a recursion on the number of
-- rounds left, so no fuel can run out. The loop of critical_section::enter has no bound: the model is
-- one round of it, and in SectionApi.Steps a step of it. The loops of debug::print and of the serial example end with the content of a
-- string or a queue, and have fuel: the theorems on them say how much is enough.
--
-- Steps. Functions that hold the hardware critical section and exception handlers of one pre-emption
-- priority are one step. An API function that makes a system call is cut there: the definition goes up
-- to where the task runs that the call has chosen. Kernel.Calls composes the calls and the interrupts
-- of the system timer as whole steps, each up to where a task runs; an interrupt inside a call finds
-- the kernel lock held, and Ticks says what it does then. SectionApi.Steps cuts the functions of a
-- critical section finer, into the calls that they make and their accesses to the lock count, and the
-- timer interrupts between any two of these. A step is one that the processor comes back
-- from: a failed assertion ends the run.
--
-- Not modelled: the messages of error::print, memory barriers, what the vendor's functions do to the
-- device, the frame that the CPU itself pushes and pops at an exception, and the idle routine; of the
-- examples the tasks that only call the API, and the set-up of clocks and of the USART. In the serial
-- example interrupts come between the loops, not between their rounds. Vendored headers, tests,
-- the other examples and build files have no model.

pub mod Prelude
pub mod Config
pub mod Api
pub mod Lock
pub mod SystemTimer
pub mod Memory
pub mod MemoryBuffer
pub mod CircularList
pub mod Timer
pub mod Event
pub mod Queue
pub mod Handle
pub mod Task
pub mod ReadyList
pub mod WaitConditions
pub mod WaitList
pub mod Scheduler
pub mod Hardware
pub mod Kernel
pub mod Gpio
pub mod Serial
