-- ===== src/Boot/Exception/Dispatch.antt =====
-- What `exception_handler` does for each cause, once the start has filled the table.
use qrisc_v.Base.{ℕ, ◌%◌, ◌^◌, ◌<◌, ◌≡◌, ◌⊎◌, inl, inr}
use qrisc_v.Base.{Option, none, some, List, [], ◌∷◌, ◌++◌, codes, bit}
use qrisc_v.Base.{◌==◌, ◌||◌, if◌then◌else◌, add32, bit_and, Bool-cases, arith}
use qrisc_v.Base.Fields.{bit_and-one_bit, bit_and_low}
use qrisc_v.Boot.State.{Platform, IrqContext, Machine, Run, IrqHandler, irq_callback}
use qrisc_v.Boot.Assert.{failure, assert_fail}
use qrisc_v.Boot.Assert.Report.{◌then◌, report, assert_handler-Halted}
use qrisc_v.Boot.Serial.Output.{IsReady, Halted, Halted-exit, Halted-append}
use qrisc_v.Boot.Serial.Hex.{hex_text, serial_putstr_hex-hex_text}
use qrisc_v.Boot.Emulation.Atomic.{trap_invalid_inst}
use qrisc_v.Boot.Emulation.Misaligned.{trap_misaligned_ld, trap_misaligned_st}
use qrisc_v.Boot.Sbi.Calls.{CallEffect, call_of, sbi_syscall-CallEffect}
use qrisc_v.Boot.Irq
use qrisc_v.Boot.Irq.{raise_timer, unhandled_irq}
use qrisc_v.Boot.Exception.{
  exception_handler, handle_exception, handle_irq, table_entry, past_ecall,
}
use qrisc_v.Boot.Exception.{call}
use qrisc_v.Boot.Start.Delegation.{booted_table}

pub data Service : Type 0 where
  timer_tick atomic_inst load_inst store_inst supervisor_call unknown_irq unexpected : Service

-- The exceptions by their numbers; bit 31 marks an interrupt, whose number is in the low four bits.
abbrev pub exception_service : ℕ → Service
exception_service cause =
    if cause == 2
    then atomic_inst
    else (if cause == 4
        then load_inst
        else (if cause == 6
            then store_inst
            else (if cause == 9 then supervisor_call else unexpected)))

abbrev pub service_of : ℕ → Service
service_of cause =
    if bit 31 cause == 0
    then exception_service cause
    else (if cause % 16 == 7 then timer_tick else unknown_irq)

-- A text and a number on a line.
abbrev pub line_of : List ℕ → ℕ → List ℕ
line_of text num = text then (hex_text num ++ b'\n' ∷ [])

-- The table and the hook as the start leaves them.
abbrev pub IsStarted : Machine → Type 0
IsStarted m =
    (m.irq_handler ≡ some irq_callback)
    × ((k : ℕ) → m.exception_table k ≡ booted_table (λ _. none) k)

module _ (env : Platform) (ctx : IrqContext) (m : Machine) where
  -- Behind a call's instruction.
  abbrev pub next_pc : ℕ
  next_pc =
      if (ctx.cause == 8) || ((ctx.cause == 9) || (ctx.cause == 11)) then add32 ctx.pc 4 else ctx.pc

  abbrev pub Served : Service → Run IrqContext → Type 0
  Served timer_tick r = r ≡ raise_timer ctx m
  Served atomic_inst r = r ≡ trap_invalid_inst env ctx m
  Served load_inst r = r ≡ trap_misaligned_ld env ctx m
  Served store_inst r = r ≡ trap_misaligned_st env ctx m
  Served supervisor_call r =
      CallEffect env (record ctx { pc = add32 ctx.pc 4 }) m (call_of (ctx.reg 17)) r
  Served unknown_irq r =
      Halted (line_of (codes "ERROR: Unhandled IRQ: ") (ctx.cause % 16)) failure m r
  Served unexpected r =
      Halted
        (line_of (codes "ERROR: Unhandled exception: ") ctx.cause
          ++ (line_of (codes "       at PC: ") next_pc
              ++ report (codes "ASSERT") (codes "!\"Unhandled exception\"") 59))
        failure m r

  -- An exception without a handler.
  unhandled-Halted :
      (c : IrqContext)
      → IsReady env m.m_uart
      → c.cause < 2 ^ 32
      → c.pc < 2 ^ 32
      → Halted
          (line_of (codes "ERROR: Unhandled exception: ") c.cause
            ++ (line_of (codes "       at PC: ") c.pc
                ++ report (codes "ASSERT") (codes "!\"Unhandled exception\"") 59))
          failure
          m
          (handle_exception env none c m)
  unfolding handle_exception assert_fail
  unhandled-Halted c ready hc hp =
      Halted-append _
        (serial_putstr_hex-hex_text env (codes "ERROR: Unhandled exception: ") c.cause m hc ready)
        λ m1 s1.
          Halted-append _
            (serial_putstr_hex-hex_text env (codes "       at PC: ") c.pc m1 hp (rw s1 ready))
            λ m2 s2.
              assert_handler-Halted env (codes "ASSERT") (codes "!\"Unhandled exception\"")
                (codes "exception.c") 59 m2 (omega arith) (rw (s2, s1) ready)

  no_handler-Halted :
      IsReady env m.m_uart
      → ctx.cause < 2 ^ 32
      → ctx.pc < 2 ^ 32
      → Served unexpected (handle_exception env none (past_ecall ctx) m)
  no_handler-Halted ready hc hp =
      elim (Bool-cases ((ctx.cause == 8) || ((ctx.cause == 9) || (ctx.cause == 11)))) [
        | inl ecall ↦
            rw ecall (unhandled-Halted (record ctx { pc = add32 ctx.pc 4 }) ready hc (omega arith))
        | inr plain ↦ rw plain (unhandled-Halted ctx ready hc hp)
      ]

  unknown_irq-Halted :
      IsReady env m.m_uart → Served unknown_irq (unhandled_irq env (ctx.cause % 16) m)
  unfolding unhandled_irq
  unknown_irq-Halted ready = Halted-exit failure (
      serial_putstr_hex-hex_text env (codes "ERROR: Unhandled IRQ: ") (ctx.cause % 16) m
        (omega arith) ready)

  cause_cases :
      (c : ℕ)
      → (c ≡ 2)
        ⊎ (c ≡ 4)
        ⊎ (c ≡ 6)
        ⊎ (c ≡ 9)
        ⊎ (booted_table (λ _. none) c ≡ none) × (exception_service c ≡ unexpected)
  cause_cases c = ground arith

  exception_handler-exception :
      IsStarted m
      → IsReady env m.m_uart
      → ctx.cause < 2 ^ 32
      → ctx.pc < 2 ^ 32
      → Served
          (exception_service ctx.cause)
          (handle_exception env (table_entry env m ctx.cause) (past_ecall ctx) m)
  unfolding handle_exception call
  exception_handler-exception started ready hc hp = elim (cause_cases ctx.cause) [
    | inl e ↦ rw (started.1 ctx.cause, e)
    | inr (inl e) ↦ rw (started.1 ctx.cause, e)
    | inr (inr (inl e)) ↦ rw (started.1 ctx.cause, e)
    | inr (inr (inr (inl e))) ↦
        let answered = sbi_syscall-CallEffect env (record ctx { pc = add32 ctx.pc 4 }) m ready in
        rw (started.1 ctx.cause, e) (rw e at answered)
    | inr (inr (inr (inr (empty, other)))) ↦
        let entry : table_entry env m ctx.cause ≡ none =
          ground (arith, started.1 ctx.cause, empty) in
        rw (entry, other) (no_handler-Halted ready hc hp)
  ]

  interrupt_test : (bit_and ctx.cause (2 ^ 31) == 0) ≡ (bit 31 ctx.cause == 0)
  interrupt_test = rw (bit_and-one_bit 31 ctx.cause) (ground arith)

  handle_irq-Served :
      (hook : Option IrqHandler)
      → hook ≡ some irq_callback
      → IsReady env m.m_uart
      → Served (if ctx.cause % 16 == 7 then timer_tick else unknown_irq) (handle_irq env hook ctx m)
  unfolding handle_irq Irq.irq_callback
  handle_irq-Served hook set ready =
      let low : bit_and ctx.cause 0xF ≡ ctx.cause % 16 = bit_and_low 4 ctx.cause in
      elim (Bool-cases (ctx.cause % 16 == 7)) [
        | inl timer ↦ rw (set, low, timer)
        | inr other ↦ rw (set, low, other) (unknown_irq-Halted ready)
      ]

  -- Once the start has filled the table, and with a UART that is ready and a cause and
  -- address of 32 bits, an exception or interrupt is
  -- served by its cause: the timer's interrupt becomes a tick, the emulated instructions are
  -- emulated, the supervisor's call is answered behind its instruction, and any other prints its
  -- report and ends the run.
  pub exception_handler-Served :
      IsStarted m
      → IsReady env m.m_uart
      → ctx.cause < 2 ^ 32
      → ctx.pc < 2 ^ 32
      → Served (service_of ctx.cause) (exception_handler env ctx m)
  unfolding exception_handler
  exception_handler-Served started ready hc hp = elim (Bool-cases (bit 31 ctx.cause == 0)) [
    | inl exception ↦
        rw (interrupt_test, exception) (exception_handler-exception started ready hc hp)
    | inr interrupt ↦
        rw (interrupt_test, interrupt) (handle_irq-Served m.irq_handler started.0 ready)
  ]
