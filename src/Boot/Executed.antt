-- ===== src/Boot/Executed.antt =====
-- Emulated instructions as the interrupted code sees them: a whole trap, from the instruction that
-- the core refused to the `mret`, is the instruction of the architecture, or its fault in
-- supervisor mode.

pub mod Loads
pub mod Stores
pub mod Atomics
pub mod Timer
pub mod Calls
use qrisc_v.Base.{ℕ, ◌^◌, ◌<◌, ◌≡◌, ◌≢◌, refl, ◌∙◌, ap, arith, some, none}
use qrisc_v.Base.{◌==◌, if◌then◌else◌, add32, bit_and}
use qrisc_v.Boot.Csr
use qrisc_v.Boot.Csr.{mstatus, mtvec, mepc, mcause, mtval, mscratch, scause, stval, sepc, stvec}
use qrisc_v.Boot.State.{Platform, IrqContext, Machine, Run, ok, and_then}
use qrisc_v.Boot.Emulation.Access.{supervisor_status}
use qrisc_v.Boot.Emulation.Atomic.{set_reg, source_reg, trap_invalid_inst}
use qrisc_v.Boot.Emulation.Divert.{IsUntouched, Diverted}
use qrisc_v.Boot.Emulation.Misaligned.{trap_misaligned_ld, trap_misaligned_st}
use qrisc_v.Boot.Emulation.Outcome.{Completed}
use qrisc_v.Boot.Emulation.Reserve.{next_inst}
use qrisc_v.Boot.Exception.{exception_handler, handle_exception, call}
use qrisc_v.Boot.Exception.Dispatch.{IsStarted}
use qrisc_v.Boot.Exception.Serving.{IsServing}
use qrisc_v.Boot.Vector.{trap, restore, restored, saved, entered, frame_below, frame_size}

-- The registers after an instruction that writes `v` to `rd`; x0 stays 0.
abbrev pub written_to : ℕ → ℕ → (ℕ → ℕ) → ℕ → ℕ
written_to rd v x i = if i == 0 then 0 else (if i == rd then v else x i)

-- The machine after the vector has restored what the handler gave back.
abbrev back_from : ℕ → IrqContext → Machine → Machine
back_from top ctx' at = record at {
  csr = Csr.write (Csr.write (Csr.write at.csr mepc ctx'.pc) mstatus ctx'.status) mscratch top;
}

left_alone :
    (top : ℕ) (ctx' : IrqContext) (at : Machine) (k : ℕ)
    → k ≢ mepc
    → k ≢ mstatus
    → k ≢ mscratch
    → (back_from top ctx' at).csr k ≡ at.csr k
unfolding Csr.write Csr.kept
left_alone top ctx' at k he hs ht = ground arith

module _ (env : Platform) (unwritten : ℕ) (x : ℕ → ℕ) (m : Machine) where
  -- What the handler is called with.
  abbrev pub inside : Machine
  inside = entered x m

  abbrev pub context : IrqContext
  context = saved unwritten (frame_below env.stack_top) x inside

  -- The instruction is done: the code goes on behind it in its own mode, with registers `x'`,
  -- memory `mem` and the reservation `reserved`, and nothing else of the hart has changed.
  pub record Done (x' : ℕ → ℕ) (mem : ℕ → ℕ) (reserved : ℕ) (r : Run (ℕ → ℕ)) : Type 0 where
    pub regs : ℕ → ℕ
    pub after : Machine
    pub returns : r ≡ ok regs after
    pub registers : (i : ℕ) → regs i ≡ x' i
    pub goes_on : after.csr mepc ≡ add32 (m.csr mepc) 4
    pub mode : after.csr mstatus ≡ m.csr mstatus
    pub stack : after.csr mscratch ≡ env.stack_top
    pub memory : after.mem ≡ mem
    pub reservation : after.load_reservation ≡ reserved
    pub same : (k : ℕ) → IsUntouched k → k ≢ mscratch → after.csr k ≡ m.csr k

  -- The supervisor's handler runs instead, with the code's registers, and is told of the fault.
  pub record Delegated (cause addr : ℕ) (mem : ℕ → ℕ) (r : Run (ℕ → ℕ)) : Type 0 where
    pub regs : ℕ → ℕ
    pub after : Machine
    pub returns : r ≡ ok regs after
    pub registers : (i : ℕ) → regs i ≡ x i
    pub goes_on : after.csr mepc ≡ m.csr stvec
    pub mode : after.csr mstatus ≡ supervisor_status (m.csr mstatus)
    pub stack : after.csr mscratch ≡ env.stack_top
    pub cause_given : after.csr scause ≡ bit_and cause 0x8000000f
    pub addr_given : after.csr stval ≡ addr
    pub epc_given : after.csr sepc ≡ m.csr mepc
    pub memory : after.mem ≡ mem
    pub reservation : after.load_reservation ≡ m.load_reservation
    pub same : (k : ℕ) → IsUntouched k → k ≢ mscratch → after.csr k ≡ m.csr k

  -- The context that goes to the supervisor's handler.
  abbrev diverted : IrqContext
  diverted = record context {
    pc = Csr.read inside.csr stvec;
    status = supervisor_status context.status;
  }

  -- A register but sp, as the handlers read it, and all of them as they come back.
  pub source_reg_lem : (i : ℕ) → x 0 ≡ 0 → i ≢ 2 → source_reg context i ≡ x i
  source_reg_lem i zero ne = ground (arith, zero)

  pub registers_lem : x 0 ≡ 0 → (i : ℕ) → restored context (x 2) i ≡ x i
  registers_lem zero i = ground (arith, zero)

  inside_same : (k : ℕ) → k ≢ mscratch → inside.csr k ≡ m.csr k
  unfolding Csr.write Csr.kept
  inside_same k ne = ground arith

  module _ (small : env.stack_top < 2 ^ 32) (serving : IsServing env env.stack_top m) where
    scratch_top : Csr.read m.csr mscratch ≡ env.stack_top
    unfolding Csr.read
    scratch_top = serving.scratch

    -- With the interrupted code's stack pointer still in `mscratch`.
    pub trap-back_from :
        (ctx' : IrqContext) (at : Machine)
        → exception_handler env context inside ≡ ok ctx' at
        → at.csr mscratch ≡ x 2
        → trap env unwritten x m ≡ ok (restored ctx' (x 2)) (back_from env.stack_top ctx' at)
    unfolding trap restore Csr.read Csr.write Csr.kept
    trap-back_from ctx' at e kept =
        let top : add32 (frame_below env.stack_top) frame_size ≡ env.stack_top =
          omega (arith, small) in
        rw (serving.scratch, e, top, kept)

    module _ {r : Run IrqContext} (handled : exception_handler env context inside ≡ r) where
      pub trap-Done :
          (x' : ℕ → ℕ) (mem : ℕ → ℕ) (reserved : ℕ) (ctx' : IrqContext) (at : Machine)
          → r ≡ ok (next_inst ctx') at
          → (ctx'.pc ≡ m.csr mepc) × (ctx'.status ≡ m.csr mstatus)
          → (at.mem ≡ mem) × (at.load_reservation ≡ reserved)
          → ((k : ℕ) → IsUntouched k → at.csr k ≡ inside.csr k)
          → ((i : ℕ) → restored ctx' (x 2) i ≡ x' i)
          → Done x' mem reserved (trap env unwritten x m)
      unfolding Csr.write Csr.kept
      trap-Done x' mem reserved ctx' at e came stored only set = record {
        regs = restored ctx' (x 2);
        after = back_from env.stack_top (next_inst ctx') at;
        returns = trap-back_from (next_inst ctx') at (handled ∙ e) (only mscratch (ground arith));
        registers = set;
        goes_on = ap (λ (pc : ℕ). add32 pc 4) came.0;
        mode = came.1;
        stack = refl;
        memory = stored.0;
        reservation = stored.1;
        same = λ k u ne.
            left_alone env.stack_top (next_inst ctx') at k u.4 u.0 ne ∙ only k u ∙ inside_same k ne;
      }

      -- A load or store that the handler completes.
      pub Completed-Done :
          (x' : ℕ → ℕ) (mem : ℕ → ℕ) (ctx' : IrqContext)
          → Completed env (next_inst ctx') inside mem r
          → (ctx'.pc ≡ m.csr mepc) × (ctx'.status ≡ m.csr mstatus)
          → ((i : ℕ) → restored ctx' (x 2) i ≡ x' i)
          → Done x' mem m.load_reservation (trap env unwritten x m)
      Completed-Done x' mem ctx' d came set =
          trap-Done x' mem m.load_reservation ctx' d.after d.returns came (d.memory, d.reservation)
            (λ k u. d.same k u.0 u.1) set

      -- A fault that the handler hands on.
      pub trap-Delegated :
          (cause addr : ℕ) (mem : ℕ → ℕ)
          → x 0 ≡ 0
          → Diverted env context cause addr inside mem r
          → Delegated cause addr mem (trap env unwritten x m)
      unfolding Csr.read Csr.write Csr.kept
      trap-Delegated cause addr mem zero d = record {
        regs = restored diverted (x 2);
        after = back_from env.stack_top diverted d.after;
        returns =
            trap-back_from diverted d.after (handled ∙ d.returns) (d.same mscratch (ground arith));
        registers = λ i. ground (arith, zero);
        goes_on = refl;
        mode = refl;
        stack = refl;
        cause_given = d.cause_given;
        addr_given = d.addr_given;
        epc_given = d.epc_given;
        memory = d.memory;
        reservation = d.reservation;
        same = λ k u ne.
            left_alone env.stack_top diverted d.after k u.4 u.0 ne ∙ d.same k u ∙ inside_same k ne;
      }

    -- The handlers of the table.
    pub dispatch_atomic :
        m.csr mcause ≡ 2
        → exception_handler env context inside ≡ trap_invalid_inst env context inside
    unfolding exception_handler handle_exception call Csr.read Csr.write Csr.kept
    dispatch_atomic e = rw (e, serving.started.1 2)

    pub dispatch_load :
        m.csr mcause ≡ 4
        → exception_handler env context inside ≡ trap_misaligned_ld env context inside
    unfolding exception_handler handle_exception call Csr.read Csr.write Csr.kept
    dispatch_load e = rw (e, serving.started.1 4)

    pub dispatch_store :
        m.csr mcause ≡ 6
        → exception_handler env context inside ≡ trap_misaligned_st env context inside
    unfolding exception_handler handle_exception call Csr.read Csr.write Csr.kept
    dispatch_store e = rw (e, serving.started.1 6)
