-- ===== src/Tests/Invariant/Interface.antt =====
-- Examples of the kernel's calls from their macros.
use qrisc_v.Base.{ℕ, ◌≡◌, ◌≢◌, [], ◌∷◌, ◌++◌, codes, add32, arith}
use qrisc_v.Mmio.{written, overruns}
use qrisc_v.Boot.Csr.{mepc}
use qrisc_v.Boot.State.{Machine, ok, exited}
use qrisc_v.Boot.Serial.{ulite_tx, ulite_status}
use qrisc_v.Boot.Exception.Serving.{IsServing}
use qrisc_v.Boot.Exception.Reach.{Reach-IsServing}
use qrisc_v.Boot.Start.{uartlite_base}
use qrisc_v.Boot.Interface.{with_arguments, sbi_putchar, shutdown}
use qrisc_v.Boot.Interface.Console.{sbi_putchar-Printed, shutdown-Halted}
use qrisc_v.Tests.{platform, platform-IsReady, context}
use qrisc_v.Tests.Invariant.{
  handed_over, handed_over-Reach, platform-IsBare, platform-IsLinked, kernel,
}

handed_over-IsServing : IsServing platform platform.stack_top handed_over
handed_over-IsServing =
    Reach-IsServing platform platform-IsBare platform-IsLinked kernel handed_over-Reach

sbi_putchar-Printed_example :
    (x' : ℕ → ℕ) × (m' : Machine) × (sbi_putchar platform 0 0x100 0x40000010 b'A' context.reg
        handed_over
      ≡ ok x' m')
    × ((i : ℕ) → i ≢ 0 → x' i ≡ with_arguments 1 b'A' 0 0 context.reg i)
    × (m'.csr mepc ≡ 0x40000014)
    × (m'.mem ≡ handed_over.mem)
    × (written (add32 uartlite_base ulite_tx) m'.io
        ≡ written (add32 uartlite_base ulite_tx) handed_over.io ++ b'A' ∷ [])
    × (overruns (add32 uartlite_base ulite_tx) (add32 uartlite_base ulite_status) 3 m'.io
        ≡ overruns
            (add32 uartlite_base ulite_tx)
            (add32 uartlite_base ulite_status)
            3
            handed_over.io)
sbi_putchar-Printed_example =
    sbi_putchar-Printed platform 0 0x100 0x40000010 context.reg handed_over b'A'
      handed_over-IsServing (platform-IsReady uartlite_base) (omega arith)

shutdown-Halted_example :
    (m' : Machine) × (shutdown platform 0 0x100 0x40000010 context.reg handed_over ≡ exited 0 m')
    × (written (add32 uartlite_base ulite_tx) m'.io
        ≡ written (add32 uartlite_base ulite_tx) handed_over.io ++ codes "Shutdown...\n")
shutdown-Halted_example =
    shutdown-Halted platform 0 0x100 0x40000010 context.reg handed_over handed_over-IsServing
      (platform-IsReady uartlite_base) (omega arith)
