-- ===== src/Lib.antt =====
-- The software of QRISC-V996: the boot loader that starts Linux and serves it from machine mode
-- (bootloader/), the kernel's driver of the interrupt controller (build-os/kernel-patches/), the
-- drivers for programs without an operating system (sdk/baremetal/bm.h) and for Linux's programs
-- (sdk/linux/mmio.h) with their examples, and the program that prints the disk image
-- (build-os/vdiskcat.c).
--
-- How the parts interact. `main` sets up the UART, fills the exception table and enters the kernel
-- in supervisor mode. From then on the core enters the boot loader only for what was not delegated:
-- the kernel's calls, the machine timer's interrupt, and instructions that the core does not
-- execute (atomics, misaligned loads and stores), which are emulated with the kernel's address
-- translation; a fault of such an access is handed to the kernel.
--
-- Which file models what:
--   Base, Base/*           words of 32 and 8 bits with their wrap-around, bits, lists, signed numbers
--   Mmio                   accesses to memory-mapped registers; a device is a function of them
--   Boot/Csr, Boot/State   bootloader/csr.h and exception.h: control registers with the write masks of
--                          src/core/biriscv_defs.v, the saved context, the static variables, runs
--   Boot/Serial            bootloader/serial.c
--   Boot/Assert            bootloader/assert.c and assert.h
--   Boot/Emulation/*       bootloader/emulation.c: Access (guarded accesses, the hand-over), Decode,
--                          Atomic (trap_invalid_inst), Misaligned (trap_misaligned_ld and _st)
--   Boot/Sbi               bootloader/sbi.c
--   Boot/Syscalls          bootloader/syscalls.c
--   Boot/Exception         bootloader/exception.c, and emulation_init of emulation.c
--   Boot/Irq, Boot/Start   bootloader/main.c
--   Boot/Reset             bootloader/boot.S from start to main: the cleared section of custom.ld
--   Boot/Vector            bootloader/boot.S from isr_vector to mret: the saved and restored context
--   Boot/Executed/*        emulated instructions, the timer and the call for a character, through
--                          the whole trap, as the kernel sees them
--   Boot/Interface         bootloader/sbi_interface.h: the kernel's calls, through the vector and back
--   Boot/Holds/*           postconditions of runs, and what emulation and console leave alone
--   Intc, Intc/Init        build-os/kernel-patches/irq-xilinx-intc.c
--   Intc/Device, /Reported its registers, as src/soc/irq_ctrl.v has them
--   Intc/Device/Flows      the operations of intc_dev in the order of the kernel's flow handlers, and
--                          the loop over pending interrupts with them
--   Sdk                    sdk/soc.h and sdk/baremetal/bm.h
--   Sdk/Journal            the writes of a program to the devices, in order
--   Sdk/Examples           sdk/baremetal/examples/gpio.c, spi.c and hello_uart.c
--   Sdk/Startup            sdk/baremetal/crt0.S
--   Sdk/Linux              sdk/linux/mmio.h and sdk/linux/examples/gpio_mmap.c and hello.c
--   Disk                   build-os/vdiskcat.c
--   Tests/*                examples that the theorems apply to
-- Functions keep their names; a branch that is a function of its own is named for what it does. The
-- state is one record, `Machine`: registers, memory, the static variables and the accesses made.
-- A context is passed and returned, as the C code passes its pointer.
--
-- Between the parts. The invariant of the boot loader (Boot/Exception/Serving) is what it relies on
-- between two traps. Boot/Exception/Reach is the system: boot.S's start from any memory and
-- registers, `main`, steps of the supervisor and of the hardware that leave alone what the
-- supervisor cannot or does not write (of `mie` it writes its own interrupts, through `sie`), and
-- traps from the vector to `mret`. `IsLinked` (Boot/Reset/Cleared) says where custom.ld puts the
-- section, the static variables and the stack. Boot/Emulation/Monitor is the abstract view of LR
-- and SC. What an instruction means is stated by the architecture's fields of its word
-- (Boot/Emulation/Width), to which the masks and shifts of the handlers are related.
--
-- Bounds and fuel. The wait for the transmit buffer takes `poll_fuel` reads, and a run that needs
-- more is `stalled`; the results on what is output assume that the buffer drains within them. The
-- hexadecimal output has the room of its buffer, which is shown to suffice. The loop over pending
-- interrupts takes fuel, which is enough if it exceeds a measure that every handled interrupt
-- decreases, and five rounds are on this controller while no input is high; the loop that writes
-- the disk image takes one round more than there are bytes. The loops that clear memory get as many
-- rounds as the address space has words, which is shown to be enough.
--
-- Not modelled: payload.S embeds the two images and has no code, and behind `main` boot.S and crt0.S
-- loop for ever. The context is a value that the handlers get and return, and its place on the stack
-- of the handlers is not part of `mem`; the static variables are read from `mem` once, when `main` is
-- called, and are fields of the machine from then on. The Verilog's faults, translation and devices
-- are parameters, but for the control registers' masks and the registers of irq_ctrl.v; what `mret`
-- does to `mstatus` is left out. `delay` makes no access; the tools and the scripts are not C.
pub mod Base
pub mod Mmio
pub mod Boot
pub mod Intc
pub mod Sdk
pub mod Disk
pub mod Tests
