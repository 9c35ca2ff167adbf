-- ===== src/Boot/Exception/Serving.antt =====
-- The state that the firmware relies on between two traps, and that every return of
-- `exception_handler` leaves: the table and hook of the start, the vector, what is delegated, and
-- the timer's interrupt, which is off only while its tick waits for the supervisor.
pub mod Calls
pub mod Traps
use qrisc_v.Base.{ℕ, ◌^◌, ◌≡◌, ◌⊎◌, ◌∙◌, inl, inr, Option, none, some, List, ◌==◌, ◌||◌}
use qrisc_v.Base.{bit, bit_and, bit_or, not32, codes, Bool-cases, arith}
use qrisc_v.Mmio.{Trace}
use qrisc_v.Boot.Csr
use qrisc_v.Boot.Csr.{mscratch, CsrFile, mtvec, medeleg, mideleg, mie, mip}
use qrisc_v.Boot.State.{Platform, IrqContext, Machine, Run, ok, Handler, IrqHandler, irq_callback}
use qrisc_v.Boot.State
use qrisc_v.Boot.State.{sbi_call, plain_call, invalid_inst, misaligned_ld, misaligned_st}
use qrisc_v.Boot.Assert.{assert_fail}
use qrisc_v.Base.{◌≢◌, ◌<◌, ap}
use qrisc_v.Boot.Holds.{lost, Holds, returns, exits, stalls, Holds-bind, Same, Same-refl}
use qrisc_v.Boot.Holds.Console.{serial_putstr-Holds, serial_putchar-Holds, serial_putstr_hex-Holds}
use qrisc_v.Boot.Holds.Console.{serial_haschar-Holds, serial_getchar-Holds, assert_handler-Holds}
use qrisc_v.Boot.Holds.Emulated.{HasWords, Resumes, set_reg-HasWords}
use qrisc_v.Boot.Holds.Emulated.Atomic.{trap_invalid_inst-Holds}
use qrisc_v.Boot.Holds.Emulated.Misaligned.{trap_misaligned_ld-Holds, trap_misaligned_st-Holds}
use qrisc_v.Boot.Serial.{minus_one}
use qrisc_v.Boot.Sbi.{set_timer, store_char, console_getchar, console_putchar, stop, sbi_syscall}
use qrisc_v.Boot.Sbi.{reg_arg0}
use qrisc_v.Boot.Sbi.Timer.{tick_raised}
use qrisc_v.Boot.Syscalls.{handle_syscall}
use qrisc_v.Boot.Irq
use qrisc_v.Boot.Irq.{raise_timer, unhandled_irq}
use qrisc_v.Boot.Exception.{
  exception_handler, handle_exception, handle_irq, call, table_entry, past_ecall,
}
use qrisc_v.Boot.Exception.Dispatch.{IsStarted}
use qrisc_v.Boot.Start.{uartlite_base}

-- Whether the timer's interrupt is on, or off with a tick that waits for the supervisor.
abbrev pub TickKept : CsrFile → Type 0
TickKept f = (bit 7 (f mie) ≡ 1) ⊎ ((bit 7 (f mie) ≡ 0) × (bit 5 (f mip) ≡ 1))

-- The interrupts that the supervisor enables through `sie`, and the other two of the machine.
abbrev pub OthersKept : CsrFile → CsrFile → Type 0
OthersKept f g = (j : ℕ) → j < 32 → j ≢ 7 → bit j Csr.irq_mask ≡ 1 → bit j (g mie) ≡ bit j (f mie)

-- With `sp` in `mscratch`: the handlers' stack between traps, the interrupted code's inside one.
pub record IsServing (env : Platform) (sp : ℕ) (m : Machine) : Type 0 where
  pub started : IsStarted m
  pub console : m.m_uart ≡ uartlite_base
  pub vector : m.csr mtvec ≡ env.isr_vector
  pub scratch : m.csr mscratch ≡ sp
  pub exceptions : m.csr medeleg ≡ 0xfdab
  pub interrupts : m.csr mideleg ≡ 0xff7f
  pub tick : TickKept m.csr

-- And since `o` no byte has been lost, and no interrupt but the timer's enabled or disabled.
abbrev pub IsCalm : Platform → ℕ → Machine → Machine → Type 0
IsCalm env sp o m = IsServing env sp m × (lost m ≡ lost o) × OthersKept o.csr m.csr

module _ (env : Platform) (sp : ℕ) (o : Machine) where
  abbrev pub Serves : IrqContext → Machine → Type 0
  Serves ctx m = HasWords ctx × IsCalm env sp o m

  pub io-IsCalm :
      (m : Machine) (t : Trace)
      → lost (record m { io = t }) ≡ lost m
      → IsCalm env sp o m
      → IsCalm env sp o (record m { io = t })
  io-IsCalm m t quiet (h, calm, kept) = (
    record {
      started = h.started;
      console = h.console;
      vector = h.vector;
      scratch = h.scratch;
      exceptions = h.exceptions;
      interrupts = h.interrupts;
      tick = h.tick;
    },
    quiet ∙ calm,
    kept,
  )

  -- The emulated instructions touch none of these registers.
  Same-IsServing :
      (k m : Machine)
      → Same k m
      → m.csr mtvec ≡ env.isr_vector
      → IsServing env sp k
      → IsServing env sp m
  Same-IsServing k m same vec h =
      let on = same.regs mie (ground arith) in
      let waits = same.regs mip (ground arith) in
      record {
        started = (same.hook ∙ h.started.0, λ c. rw same.table (h.started.1 c));
        console = same.console ∙ h.console;
        vector = vec;
        scratch = same.regs mscratch (ground arith) ∙ h.scratch;
        exceptions = same.regs medeleg (ground arith) ∙ h.exceptions;
        interrupts = same.regs mideleg (ground arith) ∙ h.interrupts;
        tick = rw (on, waits) h.tick;
      }

  pub emulated-Serves :
      (k : Machine) {r : Run IrqContext}
      → IsCalm env sp o k
      → Holds (Resumes env k) r
      → Holds Serves r
  emulated-Serves k h (returns (words, same, vec)) = returns (
    words,
    (
      Same-IsServing k _ same vec h.0,
      same.calm ∙ h.1,
      λ j hj ne has. ap (λ (v : ℕ). bit j v) (same.regs mie (ground arith)) ∙ h.2 j hj ne has,
    ),
  )
  emulated-Serves k h exits = exits
  emulated-Serves k h stalls = stalls
