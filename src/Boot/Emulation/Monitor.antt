-- ===== src/Boot/Emulation/Monitor.antt =====
-- The reservation of LR and SC as an abstract monitor: at most one address is reserved, an LR
-- reserves its own, an SC that finds its address reserved uses it up, a machine timer interrupt
-- ends any. The code keeps 0 for none, so it implements the monitor for addresses other than 0.
use qrisc_v.Base.{ℕ, ◌≡◌, ◌≢◌, refl, Bool, true, false, Option, none, some}
use qrisc_v.Base.{◌==◌, List, [], ◌∷◌, arith}
use qrisc_v.Boot.Csr
use qrisc_v.Boot.Csr.{mtval}
use qrisc_v.Boot.State.{Platform, IrqContext, Machine, Run, ok}
use qrisc_v.Boot.Holds.{Holds, returns, Holds-ok}
use qrisc_v.Boot.Irq.{raise_timer}
use qrisc_v.Boot.Sbi.Timer.{raise_timer_effect}
use qrisc_v.Boot.Emulation.Width.{rs1_field, rs2_field}
use qrisc_v.Boot.Emulation.Atomic.{source_reg, trap_invalid_inst}
use qrisc_v.Boot.Emulation.Reserve.{IsAtomic, LoadReserved, StoreReserved, StoreConditional}
use qrisc_v.Boot.Emulation.Reserve.{lr_effect, sc_effect}
use qrisc_v.Boot.Emulation.Divert.{Diverted}

-- What happens to the monitor: LR and SC by their addresses, and the timer.
pub data Event : Type 0 where
  lr sc : ℕ → Event
  tick : Event

abbrev pub Monitor : Type 0
Monitor = Option ℕ

abbrev pub holds : Monitor → ℕ → Bool
holds none addr = false
holds (some a) addr = a == addr

abbrev pub reserved_unless : Option ℕ → ℕ → Monitor → Monitor
reserved_unless none addr o = some addr
reserved_unless (some cause) addr o = o

abbrev pub used_up : Option ℕ → Bool → Monitor → Monitor
used_up none true o = none
used_up none false o = o
used_up (some cause) held o = o

-- The code's variable for a monitor.
abbrev pub Stands : Monitor → ℕ → Type 0
Stands none l = l ≡ 0
Stands (some a) l = (l ≡ a) × (a ≢ 0)

abbrev pub IsNonzero : Event → Type 0
IsNonzero (lr addr) = addr ≢ 0
IsNonzero (sc addr) = addr ≢ 0
IsNonzero tick = Unit {0}

holds_lem : (o : Monitor) (l addr : ℕ) → Stands o l → addr ≢ 0 → (l == addr) ≡ holds o addr
holds_lem none l addr e nonzero = ground arith
holds_lem (some a) l addr e nonzero = rw e.0

module _ (env : Platform) where
  -- The monitor after an event: an access that faults leaves it as it was.
  abbrev pub next : Event → Monitor → Monitor
  next (lr addr) o = reserved_unless (env.load_fault true 4 addr) addr o
  next (sc addr) o = used_up (env.store_fault true 4 addr) (holds o addr) o
  next tick o = none

  -- A trap that is the event, and the run of its handler.
  pub data Performs (ctx : IrqContext) (m : Machine) : Event → Run IrqContext → Type 0 where
    loads :
        (instr : ℕ)
        → Csr.read m.csr mtval ≡ instr
        → IsAtomic instr 0x2
        → Performs ctx m (lr (ctx.reg (rs1_field instr))) (trap_invalid_inst env ctx m)
    stores :
        (instr : ℕ)
        → Csr.read m.csr mtval ≡ instr
        → IsAtomic instr 0x3
        → Performs ctx m (sc (source_reg ctx (rs1_field instr))) (trap_invalid_inst env ctx m)
    interrupts : Performs ctx m tick (raise_timer ctx m)

  abbrev pub Leaves : Monitor → Run IrqContext → Type 0
  Leaves o r =
      (ctx' : IrqContext) × (m' : Machine) × (r ≡ ok ctx' m') × Stands o m'.load_reservation

  module _ (ctx : IrqContext) (m : Machine) (o : Monitor)
      (stands : Stands o m.load_reservation) where
    Diverted-Leaves :
        (cause addr : ℕ) (mem : ℕ → ℕ) {r : Run IrqContext}
        → Diverted env ctx cause addr m mem r
        → Leaves o r
    Diverted-Leaves cause addr mem d = (_, d.after, d.returns, rw (d.reservation) stands)

    loads-Leaves :
        (instr addr : ℕ) (fault : Option ℕ) (r : Run IrqContext)
        → addr ≢ 0
        → LoadReserved env ctx m instr addr fault r
        → Leaves (reserved_unless fault addr o) r
    loads-Leaves instr addr none r nonzero e = (_, _, e, (refl, nonzero))
    loads-Leaves instr addr (some cause) r nonzero d = Diverted-Leaves cause addr m.mem d

    stores-Leaves :
        (instr addr v : ℕ) (held : Bool) (fault : Option ℕ) (r : Run IrqContext)
        → env.store_fault true 4 addr ≡ fault
        → StoreConditional env ctx m instr addr v held r
        → Leaves (used_up fault held o) r
    stores-Leaves instr addr v false none r e d = (_, _, d, stands)
    stores-Leaves instr addr v false (some cause) r e d = (_, _, d, stands)
    stores-Leaves instr addr v true none r e d =
        let stored : StoreReserved env ctx m instr addr v none r = rw e at d in (_, _, stored, refl)
    stores-Leaves instr addr v true (some cause) r e d =
        let faulted : StoreReserved env ctx m instr addr v (some cause) r = rw e at d in
        Diverted-Leaves cause addr m.mem faulted

    -- An SC acts by the monitor.
    sc-holds :
        (instr : ℕ)
        → Csr.read m.csr mtval ≡ instr
        → IsAtomic instr 0x3
        → let addr = source_reg ctx (rs1_field instr) in
          addr ≢ 0
          → StoreConditional env ctx m instr addr
              (source_reg ctx (rs2_field instr))
              (holds o addr)
              (trap_invalid_inst env ctx m)
    sc-holds instr given decoded nonzero =
        rw (← holds_lem o m.load_reservation _ stands nonzero)
          (sc_effect env ctx m instr given decoded)

    Performs-Leaves :
        {e : Event} {r : Run IrqContext} → Performs ctx m e r → IsNonzero e → Leaves (next e o) r
    Performs-Leaves (loads instr given decoded) nonzero =
        loads-Leaves instr _ _ _ nonzero (lr_effect env ctx m instr given decoded)
    Performs-Leaves (stores instr given decoded) nonzero =
        stores-Leaves instr _ _ _ _ _ refl (sc-holds instr given decoded nonzero)
    Performs-Leaves interrupts _ =
        let raised = raise_timer_effect ctx m 5 (omega arith) in (ctx, raised.0, raised.1, raised.2)

  -- Events one after another, the last first; in between anything may happen that leaves the
  -- reservation alone.
  pub data Sequence (start : Machine) : List Event → Machine → Type 0 where
    begins : Sequence start [] start
    moves :
        {es : List Event} {m m' : Machine}
        → Sequence start es m
        → m'.load_reservation ≡ m.load_reservation
        → Sequence start es m'
    happens :
        {es : List Event} {e : Event} {m m' : Machine} {r : Run IrqContext} (ctx ctx' : IrqContext)
        → Sequence start es m
        → Performs ctx m e r
        → r ≡ ok ctx' m'
        → Sequence start (e ∷ es) m'

  abbrev pub after : List Event → Monitor → Monitor
  after [] o = o
  after (e ∷ es) o = next e (after es o)

  abbrev pub AreNonzero : List Event → Type 0
  AreNonzero [] = Unit {0}
  AreNonzero (e ∷ es) = IsNonzero e × AreNonzero es

  Leaves-ok :
      (o : Monitor) {r : Run IrqContext} {ctx' : IrqContext} {m' : Machine}
      → Leaves o r
      → r ≡ ok ctx' m'
      → Stands o m'.load_reservation
  Leaves-ok o (_, _, e, stands) returned =
      let held : Holds (λ _ m. Stands o m.load_reservation) _ = rw e (returns stands) in
      Holds-ok held returned

  -- For addresses other than 0, any sequence of LR, SC and timer interrupts, with what lies between
  -- them leaving the reservation alone, leaves in `load_reservation` the address that the abstract
  -- monitor holds after the same events, or 0 for none.
  pub Sequence-Stands :
      (o : Monitor) {start m : Machine} {es : List Event}
      → Sequence start es m
      → AreNonzero es
      → Stands o start.load_reservation
      → Stands (after es o) m.load_reservation
  Sequence-Stands o begins nonzero stands = stands
  Sequence-Stands o (moves s same) nonzero stands = rw same (Sequence-Stands o s nonzero stands)
  Sequence-Stands o (happens {es} {m} ctx ctx' s p returned) (nonzero, rest) stands =
      Leaves-ok _ (Performs-Leaves ctx m (after es o) (Sequence-Stands o s rest stands) p nonzero)
        returned

  -- For addresses other than 0, an SC after any sequence of LR, SC and timer interrupts stores and
  -- gives 0 exactly when the monitor holds its address, and otherwise gives 1 and changes neither
  -- memory nor reservation; a store that faults goes to the supervisor.
  pub sc-Monitor :
      (o : Monitor) {start m : Machine} {es : List Event} (ctx : IrqContext) (instr : ℕ)
      → Sequence start es m
      → AreNonzero es
      → Stands o start.load_reservation
      → Csr.read m.csr mtval ≡ instr
      → IsAtomic instr 0x3
      → let addr = source_reg ctx (rs1_field instr) in
        addr ≢ 0
        → StoreConditional env ctx m instr addr
            (source_reg ctx (rs2_field instr))
            (holds (after es o) addr)
            (trap_invalid_inst env ctx m)
  sc-Monitor o {m} {es} ctx instr s nonzero stands given decoded at =
      sc-holds ctx m (after es o) (Sequence-Stands o s nonzero stands) instr given decoded at
