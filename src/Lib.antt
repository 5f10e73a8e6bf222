-- ===== src/Lib.antt =====
-- A model of freedom-metal, SiFive's bare-metal library for RISC-V harts, and theorems about it.
--
-- The library is a set of drivers behind vtables. A device is a struct; its operations read and
-- write control registers of the hart (CSRs) or words of memory at the addresses of the device, and
-- call the drivers of the devices above it: the interrupt controllers of a board hand their
-- interrupts to the controllers of the harts, and a clock is set from the rate of its input. What
-- is a constant of the board (addresses, numbers of sources, the wiring) comes from headers that
-- are generated per board, and is a parameter here, as is the hardware: a state with a read and a
-- write (`Registers` of Prelude/Machine.antt), and laws about it as hypotheses of the theorems,
-- such as that an accepted write reads back and that another register keeps its value. Each
-- component has an Examples file with a machine that meets its laws.
--
-- The parts:
--   Prelude    Tests, options, lists, bits and fields of words, the hardware, and the reading of a
--              64-bit counter as two words while it runs (Split).
--   Pmp        src/pmp.c and metal/pmp.h, physical memory protection: Pmp.antt holds the handle, the
--              granularities, metal_pmp_get_region and metal_pmp_set_region, Pmp/Api.antt the
--              functions on one field of a region, the lock and the initialisation. Pmp/Lanes,
--              Regions, Granularity, Calls and Locking are about RV32, Rv64 about the
--              configuration registers of RV64, where the shifts are those of an int.
--   Pll        src/drivers/sifive_fe310-g000_pll.c: the table of configurations and the search of it
--              (Search), the programming of the PLL (Configure), its polling loops (Wait), and
--              set_rate_hz and get_rate_hz (SetRate, Bypass); Init holds its start and constructors.
--   Hpm        src/hpm.c, the performance counters of a hart, on RV32: the initialisation (Init),
--              reading a counter (Read), access for lower privileges (Access).
--   Plic       src/drivers/riscv_plic0.c and the affinity macros of metal/interrupt.h: Plic.antt holds
--              the registers and the handler, Plic/Api.antt the entries of the vtable. Enable and
--              Affinity are about the contexts and sources that a call changes, Dispatch about the
--              handler of a claimed source.
--   Clint      src/drivers/riscv_clint0.c: the timer and the software interrupts (Time), and the
--              controller that an interrupt goes to (Lines).
--   Memory     src/memory.c and metal/memory.h: the memory of an address (First).
--   Lock       metal/lock.h: the harts at one lock as a step relation, every swap a step (Exclusion),
--              its start on a memory that supports atomics (Init), and the back-off (Backoff).
--   Clock      metal/clock.h: the lists of callbacks in a memory of nodes (Lists), the registrations
--              and the change of rate as lists of calls (Order), and a list that follows itself (Cycle).
--              A callback may change the clock and the nodes, and each next node is read after the
--              call; the theorems are about callbacks that change neither.
--   Interrupt  the modes and commands of metal/interrupt.h that the interrupt controllers share.
--   Cpu        src/drivers/riscv_cpu.c: Cpu.antt holds the registers of a hart and the mode of mtvec,
--              Cpu/Intc.antt the interrupt controller with its tables and trap handlers, Cpu/Api.antt
--              what a hart asks of other controllers. Dispatch is about registered handlers, Vector
--              about the modes, Bits about mie, Timer about a hart with a CLINT.
--   Clic       src/drivers/sifive_clic0.c: Clic.antt holds the bytes that configure an interrupt,
--              Clic/Control.antt the controller above that of the hart, Clic/Timer.antt its words. Masks,
--              Level, Vectored and Config are about the fields of the bytes, Dispatch about handlers.
--   Gpio       src/drivers/sifive_gpio0.c and metal/gpio.h: the outputs and functions of pins (Pins), and
--              their pending interrupts (Interrupts).
--   Uart       src/drivers/sifive_uart0.c: Uart.antt holds the driver, Uart/Api.antt its start. Baud is
--              about the divisor, Watermark about the watermarks, Wait about the polling loops, Rate
--              about the driver under a clock of Clock whose rate changes.
--   I2c        src/drivers/sifive_i2c0.c: I2c.antt holds the transfers, I2c/Baud.antt the baud rate, the
--              callbacks and the start, which use the registration of Uart/Api.antt. Poll is about the
--              timeouts, Bus about the commands that the controller is told, Write, Read and
--              Transfer about the operations, Rate about the prescaler, Twice about the baud rate set
--              twice.
--   Spi        src/drivers/sifive_spi0.c and metal/spi.h: Spi.antt holds the configuration and the exchange
--              of a byte, Spi/Transfer.antt the loops of a transfer, Spi/Baud.antt the baud rate, the
--              callbacks and the start. Quiet is about what sends nothing, Frames about one loop,
--              Send about the transfer, Rate about the divisor.
--   Pwm        src/drivers/sifive_pwm0.c, the pulse width modulator: Search is about the prescaler, Freq
--              about the frequency, Duty about the comparators.
--   Remapper   src/drivers/sifive_remapper2.c: Valid is about the registers that take a write after the
--              key, Batch about lists of entries that are enabled at once, Entries about addresses.
--   Watchdog   src/drivers/sifive_wdog0.c: Closest is about the search for a scale, Rate about the rate and
--              the timeout.
--
-- How the code is written down. A function that changes a device takes its state and returns the
-- result and the new state. An int or an unsigned word is a natural number with its wrap written
-- out. `none` in the result of a function is undefined behaviour of C (a shift by the width or
-- more, an overflow of a long) or a loop that is out of fuel. The loops that search a word for a bit
-- have the bits of the word as fuel. The polling loops of the PLL take fuel as an argument, and the
-- theorems ask for at least 6 polls and a PLL that locks within them. The loops that read a counter
-- take fuel too, and 2 rounds are enough. A loop over an affinity has 64 rounds, the bits of the
-- mask, which it cannot use up. The walks over a list of callbacks have fuel for the nodes, and the
-- theorems ask for as many units as the list has nodes, or one more. The polls of the UART have fuel,
-- and the theorems ask for a queue that drains within it. Those of the I2C ask for a clock that gains more
-- than the timeout within the fuel, whatever the device does; those of the SPI also for a queue that
-- drains.
--
-- What is not modelled: other drivers (the oscillators, the HTIF, the real-time clock, caches, error
-- devices and external interrupts), the interfaces that only pass a call through a vtable, gloss/
-- (glue to the C library),
-- segger/ (a copy of another library), and assembly beyond the CSR instructions. But for the lock a
-- call runs by itself, and memory is in order. Rates, levels and interrupts' numbers are natural
-- numbers, so negative ones are left out, and addresses do not wrap.
pub mod Prelude
pub mod Pmp
pub mod Pll
pub mod I2c
pub mod Spi
pub mod Pwm
pub mod Remapper
pub mod Watchdog
pub mod Interrupt
pub mod Clic
pub mod Cpu
pub mod Clint
pub mod Plic
pub mod Clock
pub mod Uart
pub mod Memory
pub mod Lock
pub mod Gpio
pub mod Hpm
