-- ===== src/Boot/Interface/Console.antt =====
-- A call through the whole stack: from the macro through the vector, the dispatch and the call's
-- handler to the UART, and back.
use qrisc_v.Base.{ℕ, ◌^◌, ◌<◌, ◌≡◌, ◌≢◌, refl, ◌∙◌, [], ◌∷◌, ◌++◌, codes}
use qrisc_v.Base.{ap, add32, u8, arith}
use qrisc_v.Mmio.{written, overruns}
use qrisc_v.Boot.Csr
use qrisc_v.Boot.Csr.{mscratch, mepc, mstatus, mcause}
use qrisc_v.Boot.State.{Platform, IrqContext, Machine, Run, ok, exited, and_then}
use qrisc_v.Boot.Serial.{ulite_tx, ulite_status}
use qrisc_v.Boot.Serial.Output.{IsReady, Printed, Halted, until_zero}
use qrisc_v.Boot.Exception.{exception_handler}
use qrisc_v.Boot.Exception.Dispatch.{exception_handler-Served}
use qrisc_v.Boot.Exception.Serving.{IsServing}
use qrisc_v.Boot.Sbi.Calls.{CallEffect, call_of}
use qrisc_v.Boot.Start.{uartlite_base}
use qrisc_v.Boot.Vector.{saved, entered, restore, frame_below, trap}
use qrisc_v.Boot.Interface.{with_arguments, ecall, sbi_ecall, sbi_putchar, shutdown}

module _ (env : Platform) (unwritten status pc : ℕ) (num a0 : ℕ) (x : ℕ → ℕ) (m : Machine)
    (serving : IsServing env env.stack_top m) (ready : IsReady env uartlite_base)
    (here : pc < 2 ^ 32) where
  abbrev args : ℕ → ℕ
  args = with_arguments num a0 0 0 x

  -- The machine as the core leaves it to the vector, and as the vector leaves it to the handler.
  abbrev taken : Machine
  taken = record m { csr = Csr.write (Csr.write (Csr.write m.csr mcause 9) mepc pc) mstatus status }

  abbrev inside : Machine
  inside = entered args taken

  abbrev context : IrqContext
  context = record {
    pc = pc;
    status = status;
    cause = 9;
    reg = (saved unwritten (frame_below env.stack_top) args inside).reg;
  }

  context_lem : saved unwritten (frame_below env.stack_top) args inside ≡ context
  unfolding Csr.read Csr.write Csr.kept
  context_lem = refl

  top_lem : Csr.read taken.csr mscratch ≡ env.stack_top
  unfolding Csr.read Csr.write Csr.kept
  top_lem = serving.scratch

  answered :
      CallEffect env
        (record context { pc = add32 pc 4 })
        inside
        (call_of num)
        (exception_handler env context inside)
  answered =
      exception_handler-Served env context inside serving.started (rw serving.console ready)
        (omega arith) here

  handled :
      sbi_ecall env unwritten status pc num a0 0 0 x m
      ≡ and_then (exception_handler env context inside) (restore (frame_below env.stack_top))
  unfolding sbi_ecall ecall trap
  handled = rw (top_lem, context_lem)

module _ (env : Platform) (unwritten status pc : ℕ) (x : ℕ → ℕ) (m : Machine) where
  -- With a UART that is ready, from a machine that keeps the firmware's invariant, and at a 32-bit
  -- address: `sbi_putchar` sends the low byte of its argument, without an overrun, and comes back
  -- behind its `ecall` with memory as it was, the macro's arguments in their four registers and all
  -- other registers as they were.
  pub sbi_putchar-Printed :
      (c : ℕ)
      → IsServing env env.stack_top m
      → IsReady env uartlite_base
      → pc < 2 ^ 32
      → (x' : ℕ → ℕ) × (m' : Machine) × (sbi_putchar env unwritten status pc c x m ≡ ok x' m')
        × ((i : ℕ) → i ≢ 0 → x' i ≡ with_arguments 1 c 0 0 x i)
        × (m'.csr mepc ≡ add32 pc 4)
        × (m'.mem ≡ m.mem)
        × (written (add32 m.m_uart ulite_tx) m'.io
            ≡ written (add32 m.m_uart ulite_tx) m.io ++ u8 c ∷ [])
        × (overruns (add32 m.m_uart ulite_tx) (add32 m.m_uart ulite_status) 3 m'.io
            ≡ overruns (add32 m.m_uart ulite_tx) (add32 m.m_uart ulite_status) 3 m.io)
  unfolding call_of restore Csr.read Csr.write Csr.kept
  sbi_putchar-Printed c serving ready here =
      let printed : Printed (u8 c ∷ []) _ _ _ =
        answered env unwritten status pc 1 c x m serving ready here in
      (
        _,
        _,
        handled env unwritten status pc 1 c x m serving ready here
            ∙ ap (λ (r : Run IrqContext). and_then r (restore (frame_below env.stack_top)))
                printed.returns,
        λ i h. ground arith,
        refl,
        refl,
        printed.sent,
        printed.no_overrun,
      )

  -- With a UART that is ready, from a machine that keeps the firmware's invariant, and at a 32-bit
  -- address: `sbi_shutdown` does not return; its message is sent and the run ends with 0.
  pub shutdown-Halted :
      IsServing env env.stack_top m
      → IsReady env uartlite_base
      → pc < 2 ^ 32
      → (m' : Machine) × (shutdown env unwritten status pc x m ≡ exited 0 m')
        × (written (add32 m.m_uart ulite_tx) m'.io
            ≡ written (add32 m.m_uart ulite_tx) m.io ++ codes "Shutdown...\n")
  unfolding call_of until_zero
  shutdown-Halted serving ready here =
      let halted : Halted (until_zero (codes "Shutdown...\n")) 0 _ _ =
        answered env unwritten status pc 8 0 x m serving ready here in
      (
        _,
        handled env unwritten status pc 8 0 x m serving ready here
            ∙ ap (λ (r : Run IrqContext). and_then r (restore (frame_below env.stack_top)))
                halted.halts,
        halted.sent,
      )
