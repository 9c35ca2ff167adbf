-- ===== src/Boot/Executed/Atomics.antt =====
-- Atomic instructions as the interrupted code sees them.
pub mod Effect
use qrisc_v.Base.{true, false, ℕ, ◌^◌, ◌<◌, ◌≡◌, ◌≢◌, refl, ◌∙◌, arith, Bool, Option, some, none}
use qrisc_v.Base.{◌==◌}
use qrisc_v.Boot.Csr
use qrisc_v.Boot.Csr.{CsrFile, mtvec, mepc, mcause, mtval}
use qrisc_v.Boot.State.{Platform, IrqContext, Machine, Run, ok}
use qrisc_v.Boot.Emulation.Access.{word_of, put_word}
use qrisc_v.Boot.Emulation.Width.{rd_field, rs1_field, rs2_field}
use qrisc_v.Boot.Emulation.Atomic.{set_reg}
use qrisc_v.Boot.Emulation.Guard.{guarded, guarded-same}
use qrisc_v.Boot.Emulation.Divert.{IsUntouched}
use qrisc_v.Boot.Emulation.Reserve
use qrisc_v.Boot.Emulation.Reserve.{IsAtomic, next_inst, resumed, lr_effect, sc_effect}
use qrisc_v.Boot.Emulation.Amo
use qrisc_v.Boot.Emulation.Amo.{Amo, funct5, Stores, amo_effect}
use qrisc_v.Boot.Exception.{exception_handler}
use qrisc_v.Boot.Exception.Serving.{IsServing}
use qrisc_v.Boot.Vector.{trap, restored}
use qrisc_v.Boot.Executed.{
  written_to, inside, context, Done, Delegated, trap-Done, trap-Delegated, dispatch_atomic,
  source_reg_lem,
}

-- LR, SC, or one of the nine.
pub data AtomicInst : Type 0 where
  lr_inst sc_inst : AtomicInst
  amo_inst : Amo → AtomicInst

-- The top five bits.
abbrev pub code_of : AtomicInst → ℕ
code_of lr_inst = 0x2
code_of sc_inst = 0x3
code_of (amo_inst op) = funct5 op

module _ (env : Platform) (unwritten : ℕ) (x : ℕ → ℕ) (m : Machine) where
  -- The store of `v` by an instruction that gives the old word, by whether it faults.
  abbrev pub Swapped : ℕ → ℕ → ℕ → ℕ → Option ℕ → Run (ℕ → ℕ) → Type 0
  Swapped rd addr old v none r =
      Done env unwritten x m (written_to rd old x) (put_word env true m.mem addr v)
        m.load_reservation r
  Swapped rd addr old v (some cause) r = Delegated env unwritten x m cause addr m.mem r

  -- The read, the operation and the store, by whether the read faults.
  abbrev pub Exchanged : Amo → ℕ → ℕ → ℕ → Option ℕ → Run (ℕ → ℕ) → Type 0
  Exchanged op rd addr src none r =
      let old = word_of env true m.mem addr in
      (v : ℕ) × Stores op src old v × Swapped rd addr old v (env.store_fault true 4 addr) r
  Exchanged op rd addr src (some cause) r = Delegated env unwritten x m cause addr m.mem r

  -- The load of LR, which reserves its address.
  abbrev pub Reserved : ℕ → ℕ → Option ℕ → Run (ℕ → ℕ) → Type 0
  Reserved rd addr none r =
      Done env unwritten x m (written_to rd (word_of env true m.mem addr) x) m.mem addr r
  Reserved rd addr (some cause) r = Delegated env unwritten x m cause addr m.mem r

  -- The store of an SC that holds the reservation, and the SC by whether it does.
  abbrev pub Released : ℕ → ℕ → ℕ → Option ℕ → Run (ℕ → ℕ) → Type 0
  Released rd addr v none r =
      Done env unwritten x m (written_to rd 0 x) (put_word env true m.mem addr v) 0 r
  Released rd addr v (some cause) r = Delegated env unwritten x m cause addr m.mem r

  abbrev pub Conditional : ℕ → ℕ → ℕ → Bool → Run (ℕ → ℕ) → Type 0
  Conditional rd addr v true r = Released rd addr v (env.store_fault true 4 addr) r
  Conditional rd addr v false r =
      Done env unwritten x m (written_to rd 1 x) m.mem m.load_reservation r

  -- The instruction by the architecture.
  abbrev pub Performed : AtomicInst → ℕ → Run (ℕ → ℕ) → Type 0
  Performed lr_inst instr r =
      let addr = x (rs1_field instr) in
      Reserved (rd_field instr) addr (env.load_fault true 4 addr) r
  Performed sc_inst instr r =
      let addr = x (rs1_field instr) in
      Conditional (rd_field instr) addr (x (rs2_field instr)) (m.load_reservation == addr) r
  Performed (amo_inst op) instr r =
      let addr = x (rs1_field instr) in
      Exchanged op (rd_field instr) addr (x (rs2_field instr)) (env.load_fault true 4 addr) r

  -- The handlers see neither the code's sp nor, in an LR, x0.
  abbrev pub IsAddressed : AtomicInst → ℕ → Type 0
  IsAddressed lr_inst instr = (rs1_field instr ≢ 0) × (rs1_field instr ≢ 2) × (rd_field instr ≢ 2)
  IsAddressed other instr = (rs1_field instr ≢ 2) × (rs2_field instr ≢ 2) × (rd_field instr ≢ 2)
