-- ===== src/Tests/Invariant.antt =====
-- Examples of the firmware's invariant, with a machine that the start reaches.
pub mod Interface
pub mod Executed
use qrisc_v.Base.{◌≡◌, refl, ◌∙◌, arith, add32, ◌==◌, if◌then◌else◌, [], ◌++◌}
use qrisc_v.Base.{ℕ, ◌<◌, ◌^◌, update}
use qrisc_v.Boot.Csr
use qrisc_v.Boot.Csr.{mcause, mscratch}
use qrisc_v.Boot.Exception.Dispatch.{timer_tick}
use qrisc_v.Boot.Exception.Reach.{runs}
use qrisc_v.Boot.Vector.{trap, restore, saved, entered, frame_below}
use qrisc_v.Boot.Holds.{lost}
use qrisc_v.Boot.Vector.Traps.{AreWords, IsTaken, Resumed, trap-Resumed}
use qrisc_v.Boot.Emulation.Returns.{Returns}
use qrisc_v.Boot.Exception.Returning.{IsSupported, trap-Returns}
use qrisc_v.Mmio.{Trace, written}
use qrisc_v.Boot.Serial.{ulite_tx}
use qrisc_v.Boot.Irq.{raise_timer}
use qrisc_v.Boot.Sbi.Timer.{raise_timer_effect}
use qrisc_v.Boot.Holds.Emulated.{HasWords}
use qrisc_v.Boot.Csr.{mtvec}
use qrisc_v.Boot.State.{Machine, IrqContext, ok, undefined}
use qrisc_v.Boot.Holds.{Holds, lost}
use qrisc_v.Boot.Csr.{mie}
use qrisc_v.Boot.Exception.Serving.{OthersKept}
use qrisc_v.Boot.Exception.{exception_handler}
use qrisc_v.Boot.Exception.Dispatch.{Served, service_of}
use qrisc_v.Boot.Exception.Serving.{IsServing, Serves}
use qrisc_v.Boot.Exception.Serving.Traps.{exception_handler-Serves}
use qrisc_v.Boot.Exception.Reach.{
  Reach, starts, steps, traps, Reach-IsServing, Reach-Resumed, Reach-Served, trap_in_bounds,
}
use qrisc_v.Boot.Start.Copy.{IsBare}
use qrisc_v.Boot.Reset.{start}
use qrisc_v.Boot.Reset.Cleared.{IsLinked, cleared, zeroed, start_effect}
use qrisc_v.Boot.State.{sbi_call}
use qrisc_v.Base.{some, inr}
use qrisc_v.Boot.Start.{Config, main, embedded, uartlite_base, banner}
use qrisc_v.Boot.Start.Delegation.{booted, texts, main-booted}
use qrisc_v.Tests.{platform, platform-IsReady, context, stopped_at}

-- Where the linker put things, and memory as the core finds it.
pub platform-IsLinked : IsLinked platform
platform-IsLinked = record {
  aligned = (refl, refl);
  nonempty = omega arith;
  half = inr (omega arith, omega arith);
  table = (omega arith, omega arith);
  hook = (omega arith, omega arith);
  reservation = (omega arith, omega arith);
  console = (omega arith, omega arith);
  stack = omega arith;
  no_handler = refl;
  no_irq_handler = refl;
}

pub platform-IsBare : IsBare platform
platform-IsBare a h = refl

abbrev powered_on : Machine
powered_on = record (stopped_at 0x73 0) {
  csr = λ r. 0;
  m_uart = 7;
  exception_table = λ c. some sbi_call;
}

abbrev pub kernel : Config
kernel = embedded 0x40000000 0x42000000

start_effect_example :
    (mem : ℕ → ℕ) × (start platform kernel powered_on
      ≡ main platform kernel (cleared platform mem powered_on))
    × ((a : ℕ) → mem a ≡ zeroed 0x8000f000 0x80010010 powered_on.mem a)
start_effect_example = start_effect platform platform-IsBare platform-IsLinked kernel powered_on

on_reset :
    (mem : ℕ → ℕ) × (start platform kernel powered_on
      ≡ main platform kernel (cleared platform mem powered_on))
    × ((a : ℕ) → mem a ≡ zeroed 0x8000f000 0x80010010 powered_on.mem a)
on_reset = start_effect platform platform-IsBare platform-IsLinked kernel powered_on

-- The machine that `main` starts on.
abbrev begun : Machine
begun = cleared platform on_reset.0 powered_on

booting :
    (trace : Trace) × (main platform kernel begun
      ≡ ok
          (record { pc = 0x40000000; mode = 1; a0 = 0; a1 = 0x42000000 })
          (booted platform 0x40000000 (record begun { io = trace; m_uart = uartlite_base })))
    × (written (add32 uartlite_base ulite_tx) trace
        ≡ written (add32 uartlite_base ulite_tx) [] ++ texts banner)
booting = main-booted platform 0x40000000 0x42000000 begun (platform-IsReady uartlite_base)

-- The machine that the kernel starts on.
abbrev handed_over : Machine
handed_over = booted platform 0x40000000 (record begun { io = booting.0; m_uart = uartlite_base })

handed_over-Reach : Reach platform kernel handed_over
handed_over-Reach = starts powered_on _ (on_reset.1 ∙ booting.1)

-- The kernel enables its own interrupts through `sie`, and runs until the machine timer's
-- interrupt is taken.
abbrev interrupted : Machine
interrupted = record handed_over {
  csr = update (update handed_over.csr mie 0x2a2) mcause 0x80000007;
}

interrupted-Reach : Reach platform kernel interrupted
unfolding Csr.write Csr.kept
interrupted-Reach = steps handed_over-Reach (
    runs (record {
      table = refl;
      hook = refl;
      console = refl;
      reservation = refl;
      vector = refl;
      scratch = refl;
      exceptions = refl;
      interrupts = refl;
      enabled = refl;
      tick = refl;
    }))

taken : IsTaken interrupted
unfolding Csr.read Csr.write Csr.kept
taken = (omega arith, omega arith, omega arith)

pub small_stack : platform.stack_top < 2 ^ 32
small_stack = omega arith

registers-AreWords : AreWords context.reg
registers-AreWords r = ground arith

-- What the handler is called with.
abbrev inside : Machine
inside = entered context.reg interrupted

abbrev timer_trap : IrqContext
timer_trap = saved 0 (frame_below platform.stack_top) context.reg inside

timer_cause : (timer_trap.cause ≡ 0x80000007) × (timer_trap.pc ≡ 0x40000000)
unfolding Csr.read Csr.write Csr.kept
timer_cause = (refl, refl)

small_cause : (timer_trap.cause < 2 ^ 32) × (timer_trap.pc < 2 ^ 32)
small_cause = (rw (timer_cause.0) (omega arith), rw (timer_cause.1) (omega arith))

Reach-Served_example :
    Served platform timer_trap inside
      (service_of timer_trap.cause)
      (exception_handler platform timer_trap inside)
Reach-Served_example =
    Reach-Served platform platform-IsBare platform-IsLinked kernel interrupted 0 context.reg
      interrupted-Reach (platform-IsReady uartlite_base) small_cause.0 small_cause.1

served : exception_handler platform timer_trap inside ≡ raise_timer timer_trap inside
served =
    let expected : service_of timer_trap.cause ≡ timer_tick = rw (timer_cause.0) in
    rw expected at (
      Reach-Served platform platform-IsBare platform-IsLinked kernel interrupted 0 context.reg
        interrupted-Reach (platform-IsReady uartlite_base) small_cause.0 small_cause.1)

scratch_top : Csr.read interrupted.csr mscratch ≡ platform.stack_top
unfolding Csr.read Csr.write Csr.kept
scratch_top = refl

resumed :
    (frame : ℕ) (ctx : IrqContext) (m : Machine)
    → (x' : ℕ → ℕ) × (m' : Machine) × (restore frame ctx m ≡ ok x' m')
unfolding restore
resumed frame ctx m = (_, _, refl)

-- The machine after the interrupt's handler.
abbrev raised : Machine
raised = (raise_timer_effect timer_trap inside 5 (omega arith)).0

returned :
    trap platform 0 context.reg interrupted
    ≡ restore (frame_below platform.stack_top) timer_trap raised
unfolding trap
returned = rw (scratch_top, served, (raise_timer_effect timer_trap inside 5 (omega arith)).1)

ticked : (x' : ℕ → ℕ) × (m' : Machine) × (trap platform 0 context.reg interrupted ≡ ok x' m')
ticked =
    let r = resumed (frame_below platform.stack_top) timer_trap raised in (r.0, r.1, returned ∙ r.2)

Reach-Resumed_example :
    IsServing platform platform.stack_top interrupted
    × IsServing platform platform.stack_top ticked.1
    × OthersKept interrupted.csr ticked.1.csr
    × (lost ticked.1 ≡ lost interrupted)
Reach-Resumed_example =
    Reach-Resumed platform platform-IsBare platform-IsLinked kernel interrupted ticked.1 0
      context.reg ticked.0 interrupted-Reach (omega arith) registers-AreWords taken ticked.2

expected : service_of timer_trap.cause ≡ timer_tick
expected = rw (timer_cause.0)

supported : IsSupported platform timer_trap inside (service_of timer_trap.cause)
supported = rw expected tt

trap-Returns_example : Returns (trap platform 0 context.reg interrupted)
trap-Returns_example =
    trap-Returns platform platform-IsBare platform-IsLinked kernel interrupted 0 context.reg
      interrupted-Reach (platform-IsReady uartlite_base) small_cause.0 small_cause.1 supported

trap-Resumed_example :
    Holds
      (Resumed platform small_stack context.reg interrupted)
      (trap platform 0 context.reg interrupted)
trap-Resumed_example =
    trap-Resumed platform small_stack 0 context.reg interrupted (omega arith) registers-AreWords
      taken (Reach-IsServing platform platform-IsBare platform-IsLinked kernel interrupted-Reach)

trap_in_bounds_example : ¬ (trap platform 0 context.reg interrupted ≡ undefined ticked.1)
trap_in_bounds_example =
    trap_in_bounds platform platform-IsBare platform-IsLinked kernel interrupted ticked.1 0
      context.reg interrupted-Reach (omega arith) registers-AreWords taken
