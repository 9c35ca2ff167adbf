-- ===== src/Boot/Exception/Reach.antt =====
-- The machine from the reset on: boot.S and `main` hand over to the supervisor, the supervisor
-- runs, and every trap goes through the vector and `exception_handler`.
use qrisc_v.Base.{ℕ, ◌^◌, ◌<◌, ◌≡◌, ◌∙◌}
use qrisc_v.Base.{bit, arith}
use qrisc_v.Boot.Csr.{mscratch, mtvec, medeleg, mideleg, mie, mip}
use qrisc_v.Boot.State.{Platform, Machine, ok, undefined}
use qrisc_v.Boot.Holds.{Holds-ok, Holds-undefined}
use qrisc_v.Boot.Exception.{exception_handler}
use qrisc_v.Boot.Serial.Output.{IsReady}
use qrisc_v.Boot.Exception.Dispatch.{Served, service_of, exception_handler-Served}
use qrisc_v.Boot.Vector.{trap, saved, entered, frame_below}
use qrisc_v.Boot.Holds.{lost}
use qrisc_v.Boot.Exception.Serving.{OthersKept}
use qrisc_v.Boot.Vector.Traps.{AreWords, IsTaken, trap-Resumed}
use qrisc_v.Boot.Exception.Serving.{IsServing}
use qrisc_v.Boot.Start.{Config, Entry}
use qrisc_v.Boot.Start.{uartlite_base}
use qrisc_v.Boot.Start.Copy.{IsBare}
use qrisc_v.Boot.Reset.{start}
use qrisc_v.Boot.Reset.Cleared.{IsLinked}
use qrisc_v.Boot.Exception.Booting.{start-IsServing}

module _ (env : Platform) where
  -- What the supervisor and the hardware leave alone between two traps: the loader's static
  -- variables and registers, and the pending tick. Of `mie` only the machine timer's bit is among
  -- them: through `sie` the supervisor enables and disables its own interrupts.
  pub record LeftAlone (m m' : Machine) : Type 0 where
    pub table : m'.exception_table ≡ m.exception_table
    pub hook : m'.irq_handler ≡ m.irq_handler
    pub console : m'.m_uart ≡ m.m_uart
    pub reservation : m'.load_reservation ≡ m.load_reservation
    pub vector : m'.csr mtvec ≡ m.csr mtvec
    pub scratch : m'.csr mscratch ≡ m.csr mscratch
    pub exceptions : m'.csr medeleg ≡ m.csr medeleg
    pub interrupts : m'.csr mideleg ≡ m.csr mideleg
    pub enabled : bit 7 (m'.csr mie) ≡ bit 7 (m.csr mie)
    pub tick : bit 5 (m'.csr mip) ≡ bit 5 (m.csr mip)

  -- The supervisor or the hardware moves, or a trap is taken and returns.
  pub data Step : Machine → Machine → Type 0 where
    runs : {m m' : Machine} → LeftAlone m m' → Step m m'
    traps :
        {m m' : Machine} (unwritten : ℕ) (x x' : ℕ → ℕ)
        → unwritten < 2 ^ 32
        → AreWords x
        → IsTaken m
        → trap env unwritten x m ≡ ok x' m'
        → Step m m'

  -- From the reset on, whatever memory and registers held.
  pub data Reach (config : Config) : Machine → Type 0 where
    starts :
        (m : Machine) {m' : Machine} (entry : Entry)
        → start env config m ≡ ok entry m'
        → Reach config m'
    steps : {m m' : Machine} → Reach config m → Step m m' → Reach config m'

  module _ (bare : IsBare env) (linked : IsLinked env) where
    small : env.stack_top < 2 ^ 32
    small = ground (arith, linked.stack, linked.half)

    Step-IsServing :
        {m m' : Machine}
        → Step m m'
        → IsServing env env.stack_top m
        → IsServing env env.stack_top m'
    Step-IsServing (runs same) h = record {
      started = (same.hook ∙ h.started.0, λ c. rw same.table (h.started.1 c));
      console = same.console ∙ h.console;
      vector = same.vector ∙ h.vector;
      scratch = same.scratch ∙ h.scratch;
      exceptions = same.exceptions ∙ h.exceptions;
      interrupts = same.interrupts ∙ h.interrupts;
      tick = rw (same.enabled, same.tick) h.tick;
    }
    Step-IsServing (traps unwritten x x' hu words taken returned) h =
        (Holds-ok (trap-Resumed env small unwritten x _ hu words taken h) returned).3

    -- Every reachable machine keeps the firmware's invariant, with the handlers' stack in
    -- `mscratch`.
    pub Reach-IsServing :
        (config : Config) {m : Machine} → Reach config m → IsServing env env.stack_top m
    Reach-IsServing config (starts m entry returned) =
        Holds-ok (start-IsServing env bare linked config m) returned
    Reach-IsServing config (steps reached step) =
        Step-IsServing step (Reach-IsServing config reached)

    -- With the image where the linker script puts it and physical addresses in machine mode: every
    -- machine that the start from any machine, the supervisor's steps (which leave the loader's
    -- variables, the machine's registers, the timer's bit of `mie` and the pending tick alone, and
    -- enable what interrupts of its own they like) and returning traps lead to keeps the firmware's
    -- invariant, with the handlers' stack in `mscratch`; and a trap of it that returns, with a
    -- cause, an address, `mtval` and registers of 32 bits, keeps the invariant, leaves every
    -- interrupt but the machine timer's enabled exactly if it was, and loses no byte to a full
    -- transmit buffer.
    pub Reach-Resumed :
        (config : Config) (m m' : Machine) (unwritten : ℕ) (x x' : ℕ → ℕ)
        → Reach config m
        → unwritten < 2 ^ 32
        → AreWords x
        → IsTaken m
        → trap env unwritten x m ≡ ok x' m'
        → IsServing env env.stack_top m
          × IsServing env env.stack_top m'
          × OthersKept m.csr m'.csr
          × (lost m' ≡ lost m)
    Reach-Resumed config m m' unwritten x x' reached hu words taken returned =
        let serving = Reach-IsServing config reached in
        let after =
          Holds-ok (trap-Resumed env small unwritten x m hu words taken serving) returned in
        (serving, after.3, after.5, after.4)

    -- With the image where the linker script puts it, physical addresses in machine mode and a UART
    -- that is ready, a trap of any reachable machine, with a cause and an address of 32 bits, is
    -- served by its cause: the vector's context and machine meet the conditions of the dispatch.
    pub Reach-Served :
        (config : Config) (m : Machine) (unwritten : ℕ) (x : ℕ → ℕ)
        → Reach config m
        → IsReady env uartlite_base
        → let at = entered x m in
          let ctx = saved unwritten (frame_below env.stack_top) x at in
          ctx.cause < 2 ^ 32
          → ctx.pc < 2 ^ 32
          → Served env ctx at (service_of ctx.cause) (exception_handler env ctx at)
    Reach-Served config m unwritten x reached ready hc hp =
        let serving = Reach-IsServing config reached in
        let at = entered x m in
        exception_handler-Served env (saved unwritten (frame_below env.stack_top) x at) at
          serving.started (rw serving.console ready) hc hp

    -- With the image where the linker script puts it and physical addresses in machine mode: a trap
    -- of any reachable machine, whatever it is and however the UART answers, writes nothing outside
    -- an array, if the cause, the address, `mtval` and the registers have 32 bits: every number
    -- that is reported fits its buffer, and every register that a handler writes is one of the
    -- context's 32.
    pub trap_in_bounds :
        (config : Config) (m m' : Machine) (unwritten : ℕ) (x : ℕ → ℕ)
        → Reach config m
        → unwritten < 2 ^ 32
        → AreWords x
        → IsTaken m
        → ¬ (trap env unwritten x m ≡ undefined m')
    trap_in_bounds config m m' unwritten x reached hu words taken =
        Holds-undefined
          (trap-Resumed env small unwritten x m hu words taken (Reach-IsServing config reached))
