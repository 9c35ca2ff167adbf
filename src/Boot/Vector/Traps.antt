-- ===== src/Boot/Vector/Traps.antt =====
-- A whole trap: the interrupted code's stack pointer and the handlers' survive it.
use qrisc_v.Base.{ℕ, ◌^◌, ◌<◌, ◌≡◌, refl, arith}
use qrisc_v.Boot.Csr
use qrisc_v.Boot.Csr.{mscratch, mepc, mstatus, mcause, mtval, mtvec, medeleg, mideleg, mie, mip}
use qrisc_v.Boot.State.{Platform, IrqContext, Machine}
use qrisc_v.Boot.Holds.{lost, Holds, returns, Holds-bind}
use qrisc_v.Boot.Holds.Emulated.{HasWords, IsTrap}
use qrisc_v.Boot.Exception.Serving.{IsServing, IsCalm, OthersKept}
use qrisc_v.Boot.Exception.Serving.Traps.{exception_handler-Serves}
use qrisc_v.Boot.Vector.{saved, entered, restore, frame_below, trap}

-- Registers of 32 bits.
abbrev pub AreWords : (ℕ → ℕ) → Type 0
AreWords x = (i : ℕ) → x i < 2 ^ 32

-- What the core leaves when it takes an exception: a cause, an address and a value of 32 bits.
abbrev pub IsTaken : Machine → Type 0
IsTaken m =
    (Csr.read m.csr mcause < 2 ^ 32)
    × (Csr.read m.csr mepc < 2 ^ 32)
    × (Csr.read m.csr mtval < 2 ^ 32)

module _ (env : Platform) (small : env.stack_top < 2 ^ 32) where
  enter-IsServing :
      (x : ℕ → ℕ) (m : Machine) → IsServing env env.stack_top m → IsServing env (x 2) (entered x m)
  unfolding Csr.write Csr.kept
  enter-IsServing x m h = record {
    started = h.started;
    console = h.console;
    vector = h.vector;
    scratch = refl;
    exceptions = h.exceptions;
    interrupts = h.interrupts;
    tick = h.tick;
  }

  saved-HasWords :
      (unwritten sp : ℕ) (x : ℕ → ℕ) (m : Machine)
      → unwritten < 2 ^ 32
      → sp < 2 ^ 32
      → AreWords x
      → HasWords (saved unwritten sp x m)
  saved-HasWords unwritten sp x m hu hs words i = ground (arith, words i)

  saved-IsTrap :
      (unwritten sp : ℕ) (x : ℕ → ℕ) (m : Machine)
      → IsTaken m
      → IsTrap (saved unwritten sp x (entered x m)) (entered x m)
  unfolding Csr.read Csr.write Csr.kept
  saved-IsTrap unwritten sp x m taken = taken

  -- What a trap of code with the registers `x` leaves, with the machine `o` before it.
  abbrev pub Resumed : (ℕ → ℕ) → Machine → (ℕ → ℕ) → Machine → Type 0
  Resumed x o x' m =
      AreWords x'
      × (x' 0 ≡ 0)
      × (x' 2 ≡ x 2)
      × IsServing env env.stack_top m
      × (lost m ≡ lost o)
      × OthersKept o.csr m.csr

  restore-Resumed :
      (x : ℕ → ℕ) (o : Machine) (ctx : IrqContext) (m : Machine)
      → AreWords x
      → HasWords ctx
      → IsCalm env (x 2) o m
      → Holds (Resumed x o) (restore (frame_below env.stack_top) ctx m)
  unfolding restore Csr.read Csr.write Csr.kept
  restore-Resumed x o ctx m words had (h, calm, kept) = returns (
    λ i. ground (arith, had i, words 2, h.scratch),
    refl,
    h.scratch,
    record {
      started = h.started;
      console = h.console;
      vector = h.vector;
      scratch = omega (arith, small);
      exceptions = h.exceptions;
      interrupts = h.interrupts;
      tick = h.tick;
    },
    calm,
    kept,
  )

  -- With the handlers' stack at a 32-bit address, from a machine that keeps the firmware's
  -- invariant and registers, a cause, an address and `mtval` of 32 bits: if a trap returns, from
  -- `isr_vector` to `mret`, then `mscratch` holds the handlers' stack again, the invariant holds,
  -- x0 is 0, x2 is the interrupted code's whatever the handler wrote to its slot, all registers
  -- hold 32-bit words, every interrupt but the machine timer's is enabled exactly if it was, and
  -- however the UART answers, no byte has been written to its transmit buffer without a read just
  -- before that showed room.
  pub trap-Resumed :
      (unwritten : ℕ) (x : ℕ → ℕ) (m : Machine)
      → unwritten < 2 ^ 32
      → AreWords x
      → IsTaken m
      → IsServing env env.stack_top m
      → Holds (Resumed x m) (trap env unwritten x m)
  unfolding trap Csr.read Csr.write Csr.kept
  trap-Resumed unwritten x m hu words taken h = rw (h.scratch) (
      Holds-bind _
        (exception_handler-Serves env (x 2) m _ (entered x m)
          (saved-HasWords unwritten (frame_below env.stack_top) x (entered x m) hu (omega arith)
            words)
          (saved-IsTrap unwritten (frame_below env.stack_top) x m taken)
          (enter-IsServing x m h, refl, λ j hj ne has. refl))
        λ ctx m' h'. restore-Resumed x m ctx m' words h'.0 h'.1)
