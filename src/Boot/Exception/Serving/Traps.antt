-- ===== src/Boot/Exception/Serving/Traps.antt =====
-- `exception_handler` keeps the invariant.
use qrisc_v.Base.{ℕ, ◌^◌, ◌<◌, inl, inr, Option, none, some, ◌==◌, ◌||◌}
use qrisc_v.Base.{bit_and, codes, Bool-cases, arith}
use qrisc_v.Base.Fields.{bit_and_low}
use qrisc_v.Boot.State.{Platform, IrqContext, Machine, Run, ok, Handler, IrqHandler, irq_callback}
use qrisc_v.Boot.State
use qrisc_v.Boot.State.{sbi_call, plain_call, invalid_inst, misaligned_ld, misaligned_st}
use qrisc_v.Boot.Assert.{assert_fail}
use qrisc_v.Boot.Holds.{Holds, returns, exits, Holds-bind, Same-refl}
use qrisc_v.Boot.Holds.Console.{serial_putstr_hex-Holds}
use qrisc_v.Boot.Holds.Console.{assert_handler-Holds}
use qrisc_v.Boot.Holds.Emulated.{HasWords, IsTrap}
use qrisc_v.Boot.Holds.Emulated.Atomic.{trap_invalid_inst-Holds}
use qrisc_v.Boot.Holds.Emulated.Misaligned.{trap_misaligned_ld-Holds, trap_misaligned_st-Holds}
use qrisc_v.Boot.Irq
use qrisc_v.Boot.Irq.{raise_timer, unhandled_irq}
use qrisc_v.Boot.Exception.{
  exception_handler, handle_exception, handle_irq, call, table_entry, past_ecall,
}
use qrisc_v.Boot.Exception.Serving.{IsCalm, Serves, io-IsCalm, emulated-Serves}
use qrisc_v.Boot.Exception.Serving.Calls.{
  raise_timer-Serves, sbi_syscall-Serves, handle_syscall-Serves,
}

module _ (env : Platform) (sp : ℕ) (o : Machine) where
  module _ (ctx : IrqContext) (words : HasWords ctx) where
    unhandled-Serves :
        (m : Machine)
        → IsTrap ctx m
        → IsCalm env sp o m
        → Holds (Serves env sp o) (handle_exception env none ctx m)
    unfolding handle_exception assert_fail
    unhandled-Serves m trapped h =
        Holds-bind _ (serial_putstr_hex-Holds env (io-IsCalm env sp o) _ ctx.cause m trapped.0 h)
          λ _ m1 h1.
            Holds-bind _ (serial_putstr_hex-Holds env (io-IsCalm env sp o) _ ctx.pc m1 trapped.1 h1)
              λ _ m2 h2.
                assert_handler-Holds env (io-IsCalm env sp o) (codes "ASSERT")
                  (codes "!\"Unhandled exception\"") (codes "exception.c") 59 m2 (omega arith) h2

    call-Serves :
        (handler : Handler) (m : Machine)
        → IsTrap ctx m
        → IsCalm env sp o m
        → Holds (Serves env sp o) (call env handler ctx m)
    unfolding call
    call-Serves invalid_inst m trapped h =
        emulated-Serves env sp o m h
          (trap_invalid_inst-Holds env m ctx words m trapped (Same-refl m))
    call-Serves misaligned_ld m trapped h =
        emulated-Serves env sp o m h (trap_misaligned_ld-Holds env m ctx words m (Same-refl m))
    call-Serves misaligned_st m trapped h =
        emulated-Serves env sp o m h (trap_misaligned_st-Holds env m ctx words m (Same-refl m))
    call-Serves sbi_call m trapped h = sbi_syscall-Serves env sp o ctx words m h
    call-Serves plain_call m trapped h = handle_syscall-Serves env sp o ctx words m h

    handle_exception-Serves :
        (found : Option Handler) (m : Machine)
        → IsTrap ctx m
        → IsCalm env sp o m
        → Holds (Serves env sp o) (handle_exception env found ctx m)
    unfolding handle_exception
    handle_exception-Serves none m trapped h = unhandled-Serves m trapped h
    handle_exception-Serves (some handler) m trapped h = call-Serves handler m trapped h

    low_four : bit_and ctx.cause 0xF < 2 ^ 32
    low_four = omega (arith, bit_and_low 4 ctx.cause)

    handle_irq-Serves :
        (hook : Option IrqHandler) (m : Machine)
        → IsTrap ctx m
        → IsCalm env sp o m
        → Holds (Serves env sp o) (handle_irq env hook ctx m)
    unfolding handle_irq Irq.irq_callback unhandled_irq
    handle_irq-Serves none m trapped h =
        Holds-bind _ (serial_putstr_hex-Holds env (io-IsCalm env sp o) _ ctx.cause m trapped.0 h)
          λ _ _ h'. returns (words, h')
    handle_irq-Serves (some State.irq_callback) m trapped h =
        elim (Bool-cases (bit_and ctx.cause 0xF == 7)) [
          | inl timer ↦ rw timer (raise_timer-Serves env sp o ctx words m h)
          | inr other ↦ rw other (
              Holds-bind _
                (serial_putstr_hex-Holds env (io-IsCalm env sp o) _ (bit_and ctx.cause 0xF) m
                  low_four h)
                λ _ _ _. exits)
        ]

  past_ecall-HasWords : (ctx : IrqContext) → HasWords ctx → HasWords (past_ecall ctx)
  past_ecall-HasWords ctx words =
      elim (Bool-cases ((ctx.cause == 8) || ((ctx.cause == 9) || (ctx.cause == 11)))) [
        | inl ecall ↦ rw ecall words
        | inr plain ↦ rw plain words
      ]

  past_ecall-IsTrap : (ctx : IrqContext) (m : Machine) → IsTrap ctx m → IsTrap (past_ecall ctx) m
  past_ecall-IsTrap ctx m trapped =
      elim (Bool-cases ((ctx.cause == 8) || ((ctx.cause == 9) || (ctx.cause == 11)))) [
        | inl ecall ↦ rw ecall (trapped.0, omega arith, trapped.2)
        | inr plain ↦ rw plain trapped
      ]

  -- From a machine that keeps the firmware's invariant and from registers, a cause, an address and
  -- `mtval` of 32 bits, nothing is written outside an array, and if `exception_handler` returns,
  -- the invariant still holds, the registers still hold 32-bit words, and no byte has been lost to
  -- a full transmit buffer. The invariant: the table and hook of the start, the console's address,
  -- the vector, `mscratch`, what is delegated, and the timer's interrupt off only while a tick
  -- waits.
  pub exception_handler-Serves :
      (ctx : IrqContext) (m : Machine)
      → HasWords ctx
      → IsTrap ctx m
      → IsCalm env sp o m
      → Holds (Serves env sp o) (exception_handler env ctx m)
  unfolding exception_handler
  exception_handler-Serves ctx m words trapped h =
      elim (Bool-cases (bit_and ctx.cause (2 ^ 31) == 0)) [
        | inl exception ↦ rw exception (
            handle_exception-Serves (past_ecall ctx) (past_ecall-HasWords ctx words)
              (table_entry env m ctx.cause) m (past_ecall-IsTrap ctx m trapped) h)
        | inr interrupt ↦ rw interrupt (handle_irq-Serves ctx words m.irq_handler m trapped h)
      ]
