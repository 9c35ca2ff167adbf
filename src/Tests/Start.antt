-- ===== src/Tests/Start.antt =====
-- Examples of the start, of the kernel's calls and of the console.
use qrisc_v.Base.{ℕ, ◌≡◌, refl, arith, none, some, bit}
use qrisc_v.Base.{List, [], ◌∷◌, ◌++◌, add32}
use qrisc_v.Mmio.{Trace, written}
use qrisc_v.Boot.Csr.{mie, mideleg}
use qrisc_v.Boot.State.{Machine, ok, and_then, irq_callback}
use qrisc_v.Boot.Serial.{serial_putstr_hex, ulite_tx}
use qrisc_v.Boot.Serial.Output.{Printed, until_zero}
use qrisc_v.Boot.Serial.Hex.{IsDigits, serial_putstr_hex-Printed}
use qrisc_v.Boot.Sbi.{sbi_syscall}
use qrisc_v.Boot.Sbi.Calls.{CallEffect, call_of, sbi_syscall-CallEffect}
use qrisc_v.Boot.Exception.{emulation_init}
use qrisc_v.Boot.Start.{boot_kernel, main, embedded, uartlite_base, banner}
use qrisc_v.Boot.Start.Delegation.{Split, booted, texts, boot_kernel-Split, main-booted}
use qrisc_v.Boot.State.{IrqContext}
use qrisc_v.Boot.Assert.{failure, assert_handler}
use qrisc_v.Boot.Assert.Report.{report, assert_handler-Halted}
use qrisc_v.Boot.Serial.Output.{Halted}
use qrisc_v.Boot.Start.Delegation.{booted_table}
use qrisc_v.Boot.Syscalls.{handle_syscall}
use qrisc_v.Boot.Syscalls.Calls.{PlainEffect, plain_call_of, handle_syscall-PlainEffect}
use qrisc_v.Tests.{platform, platform-IsReady, context, stopped_at}

abbrev machine : Machine
machine = stopped_at 0x73 0

boot_kernel-Split_example :
    (m' : Machine) × (and_then
        (emulation_init machine)
        (λ _. boot_kernel platform 0x40000000 0x42000000)
      ≡ ok (record { pc = 0x40000000; mode = 1; a0 = 0; a1 = 0x42000000 }) m')
    × Split m'.csr m'.exception_table 7
    × (bit 7 (m'.csr mideleg) ≡ 0)
    × (bit 7 (m'.csr mie) ≡ 1)
    × (m'.irq_handler ≡ some irq_callback)
boot_kernel-Split_example =
    boot_kernel-Split platform 0x40000000 0x42000000 machine 7 (λ k. refl) (omega arith)

main-booted_example :
    (trace : Trace) × (main platform (embedded 0x40000000 0x42000000) machine
      ≡ ok
          (record { pc = 0x40000000; mode = 1; a0 = 0; a1 = 0x42000000 })
          (booted platform 0x40000000 (record machine { io = trace; m_uart = uartlite_base })))
    × (written (add32 uartlite_base ulite_tx) trace
        ≡ written (add32 uartlite_base ulite_tx) [] ++ texts banner)
main-booted_example =
    main-booted platform 0x40000000 0x42000000 machine (platform-IsReady uartlite_base)

sbi_syscall-CallEffect_example :
    CallEffect platform context machine (call_of 1) (sbi_syscall platform context machine)
sbi_syscall-CallEffect_example =
    sbi_syscall-CallEffect platform context machine (platform-IsReady machine.m_uart)

serial_putstr_hex-Printed_example :
    (digits : List ℕ) × IsDigits 8 0xbeef digits
    × Printed
        (until_zero (b'=' ∷ []) ++ (digits ++ b'\n' ∷ []))
        tt
        machine
        (serial_putstr_hex platform (b'=' ∷ []) 0xbeef machine)
serial_putstr_hex-Printed_example =
    serial_putstr_hex-Printed platform (b'=' ∷ []) 0xbeef machine (omega arith)
      (platform-IsReady machine.m_uart)

-- A call of the supervisor.
abbrev calling : IrqContext
calling = record context { cause = 9 }

abbrev started : Machine
started = record machine {
  exception_table = booted_table (λ _. none);
  irq_handler = some irq_callback;
}

assert_handler-Halted_example :
    Halted {A = IrqContext}
      (report (b'A' ∷ []) (b'!' ∷ []) 246)
      failure
      machine
      (assert_handler platform (b'A' ∷ []) (b'!' ∷ []) (b'c' ∷ []) 246 machine)
assert_handler-Halted_example =
    assert_handler-Halted platform (b'A' ∷ []) (b'!' ∷ []) (b'c' ∷ []) 246 machine (omega arith)
      (platform-IsReady machine.m_uart)

handle_syscall-PlainEffect_example :
    PlainEffect platform context machine (plain_call_of 1) (handle_syscall platform context machine)
handle_syscall-PlainEffect_example =
    handle_syscall-PlainEffect platform context machine (platform-IsReady machine.m_uart)
