-- ===== src/Boot/Holds/Emulated.antt =====
-- What every emulated instruction keeps: the exception table, the interrupt hook and all registers
-- but those of the trap itself; the vector is the default again, and registers hold 32-bit words.
pub mod Atomic
pub mod Misaligned
use qrisc_v.Base.{
  ℕ, zero, suc, ◌+◌, ◌*◌, ◌%◌, ◌^◌, ◌<◌, ◌≡◌, refl, ◌∙◌, inl, inr, Bool, true, false,
}
use qrisc_v.Base.{Option, none, some, Option-cases, ◌==◌, not, if◌then◌else◌, update, arith}
use qrisc_v.Base.{add32, bit_or, bit_and, u8, ◌<<◌, codes}
use qrisc_v.Base.Fields.{bit_or-lt}
use qrisc_v.Boot.Csr
use qrisc_v.Boot.Csr.{CsrFile, mtvec, mtval}
use qrisc_v.Base.{◌>>>◌}
use qrisc_v.Boot.Emulation.Misaligned.{load_len, store_len}
use qrisc_v.Boot.State.{pure, Platform, IrqContext, Machine, Run, M, csr_read}
use qrisc_v.Boot.Holds.{lost, Holds, returns, exits, Holds-bind, Same}
use qrisc_v.Mmio.{Trace}
use qrisc_v.Base.{List}
use qrisc_v.Base.{Bool-cases, ◌&&◌}
use qrisc_v.Boot.Emulation.Decode.{opcode_of, funct3_of, rs1_of, rs2_of, rd_of, sel_of}
use qrisc_v.Boot.Holds.Console.{assert_handler-Holds, serial_putstr-Holds, serial_putstr_hex-Holds}
use qrisc_v.Boot.Assert.{assert_handler, assert_fail}
use qrisc_v.Boot.Emulation.Access.{word_of, emulation_read_byte, emulation_read_word}
use qrisc_v.Boot.Emulation.Access.{emulation_write_byte, emulation_write_word, trap_to_supervisor}
use qrisc_v.Boot.Emulation.Guard.{guarded, faulted, with_csr, guarded-same, faulted-same}
use qrisc_v.Boot.Emulation.Guard.{read_byte-ok, read_byte-fault, write_byte-ok, write_byte-fault}
use qrisc_v.Boot.Emulation.Guard.{read_word-ok, read_word-fault, write_word-ok, write_word-fault}
use qrisc_v.Boot.Emulation.Divert.{IsUntouched}
use qrisc_v.Boot.Emulation.Amo.{word_of-lt}
use qrisc_v.Boot.Emulation.Atomic.{set_reg, source_reg, or_divert, skip_instruction, reserve}
use qrisc_v.Boot.Emulation.Atomic.{load_reserved, release, store_reserved, store_conditional}
use qrisc_v.Boot.Emulation.Atomic.{
  amo_store, amo_result, atomic_op, invalid_opcode, trap_invalid_inst,
}
use qrisc_v.Boot.Emulation.Misaligned.{load_loop, store_loop, extend, write_back, load_bytes}
use qrisc_v.Boot.Emulation.Misaligned.{store_bytes, trap_misaligned_ld, trap_misaligned_st}

-- What taking an exception leaves: 32-bit words in the cause, the address and `mtval`.
abbrev pub IsTrap : IrqContext → Machine → Type 0
IsTrap ctx m = (ctx.cause < 2 ^ 32) × (ctx.pc < 2 ^ 32) × (Csr.read m.csr mtval < 2 ^ 32)

-- Every register holds a 32-bit word.
abbrev pub HasWords : IrqContext → Type 0
HasWords ctx = (r : ℕ) → ctx.reg r < 2 ^ 32

abbrev pub IsSmall : Option ℕ → Type 0
IsSmall none = Unit {0}
IsSmall (some v) = v < 2 ^ 32

pub set_reg-HasWords :
    (ctx : IrqContext) (r v : ℕ) → HasWords ctx → v < 2 ^ 32 → HasWords (set_reg ctx r v)
set_reg-HasWords ctx r v words h s = ground (arith, words s)

module _ (env : Platform) (k : Machine) where
  -- How a handler ends.
  abbrev pub Resumes : IrqContext → Machine → Type 0
  Resumes ctx m = HasWords ctx × Same k m × (m.csr mtvec ≡ env.isr_vector)

  module _ (m : Machine) (same : Same k m) where
    guarded-Same : (mem : ℕ → ℕ) → Same k (record m { mem = mem; csr = guarded env m.csr })
    guarded-Same mem = record {
      table = same.table;
      hook = same.hook;
      console = same.console;
      regs = λ r u. guarded-same env m.csr r u.0 u.1 ∙ same.regs r u;
      calm = same.calm;
    }

    faulted-Same : (cause addr : ℕ) → Same k (with_csr m (faulted env cause addr m.csr))
    faulted-Same cause addr = record {
      table = same.table;
      hook = same.hook;
      console = same.console;
      regs = λ r u. faulted-same env m.csr cause addr r u.0 u.1 u.2 u.3 u.4 ∙ same.regs r u;
      calm = same.calm;
    }

    pub read_byte-Holds :
        (addr : ℕ) → Holds (λ o m'. IsSmall o × Same k m') (emulation_read_byte env addr m)
    read_byte-Holds addr = elim (Option-cases (env.load_fault true 1 addr)) [
      | inl fine ↦ rw (read_byte-ok env m addr fine) (returns (omega arith, guarded-Same m.mem))
      | inr (cause, bad) ↦
          rw (read_byte-fault env m addr bad) (returns (tt, faulted-Same cause addr))
    ]

    pub read_word-Holds :
        (addr : ℕ) → Holds (λ o m'. IsSmall o × Same k m') (emulation_read_word env addr m)
    read_word-Holds addr = elim (Option-cases (env.load_fault true 4 addr)) [
      | inl fine ↦
          rw (read_word-ok env m addr fine)
            (returns (word_of-lt env true m.mem addr, guarded-Same m.mem))
      | inr (cause, bad) ↦
          rw (read_word-fault env m addr bad) (returns (tt, faulted-Same cause addr))
    ]

    pub write_byte-Holds :
        (addr v : ℕ) → Holds (λ _ m'. Same k m') (emulation_write_byte env addr v m)
    write_byte-Holds addr v = elim (Option-cases (env.store_fault true 1 addr)) [
      | inl fine ↦ rw (write_byte-ok env m addr v fine) (returns (guarded-Same _))
      | inr (cause, bad) ↦
          rw (write_byte-fault env m addr v bad) (returns (faulted-Same cause addr))
    ]

    pub write_word-Holds :
        (addr v : ℕ) → Holds (λ _ m'. Same k m') (emulation_write_word env addr v m)
    write_word-Holds addr v = elim (Option-cases (env.store_fault true 4 addr)) [
      | inl fine ↦ rw (write_word-ok env m addr v fine) (returns (guarded-Same _))
      | inr (cause, bad) ↦
          rw (write_word-fault env m addr v bad) (returns (faulted-Same cause addr))
    ]

    pub skip_instruction-Holds :
        (ctx : IrqContext) → HasWords ctx → Holds Resumes (skip_instruction env ctx m)
    unfolding skip_instruction Csr.write Csr.kept
    skip_instruction-Holds ctx words = returns (
      words,
      record {
        table = same.table;
        hook = same.hook;
        console = same.console;
        regs = λ r u. ground (arith, same.regs r u);
        calm = same.calm;
      },
      refl,
    )

    pub trap_to_supervisor-Holds :
        (ctx : IrqContext) (epc status : ℕ)
        → HasWords ctx
        → Holds Resumes (trap_to_supervisor env ctx epc status m)
    unfolding trap_to_supervisor Csr.write Csr.read Csr.kept
    trap_to_supervisor-Holds ctx epc status words = returns (
      words,
      record {
        table = same.table;
        hook = same.hook;
        console = same.console;
        regs = λ r u. ground (arith, same.regs r u);
        calm = same.calm;
      },
      refl,
    )

  abbrev pub Ends : Run IrqContext → Type 0
  Ends r = Holds Resumes r

  pub io-Same :
      (m : Machine) (t : Trace)
      → lost (record m { io = t }) ≡ lost m
      → Same k m
      → Same k (record m { io = t })
  io-Same m t quiet same = record {
    table = same.table;
    hook = same.hook;
    console = same.console;
    regs = same.regs;
    calm = quiet ∙ same.calm;
  }

  -- Behind a guarded access: a fault is handed on, a value goes on.
  pub or_divert-Holds :
      (ctx : IrqContext) (o : Option (Unit {0})) (next : Unit {0} → M IrqContext) (m : Machine)
      → HasWords ctx
      → Same k m
      → Ends (next tt m)
      → Ends (or_divert env ctx o next m)
  unfolding or_divert
  or_divert-Holds ctx none next m words same rest =
      trap_to_supervisor-Holds m same ctx ctx.pc ctx.status words
  or_divert-Holds ctx (some tt) next m words same rest = rest

  pub or_divert-word :
      (ctx : IrqContext) (o : Option ℕ) (next : ℕ → M IrqContext) (m : Machine)
      → HasWords ctx
      → IsSmall o × Same k m
      → ((v : ℕ) → v < 2 ^ 32 → Ends (next v m))
      → Ends (or_divert env ctx o next m)
  unfolding or_divert
  or_divert-word ctx none next m words (word, same) rest =
      trap_to_supervisor-Holds m same ctx ctx.pc ctx.status words
  or_divert-word ctx (some v) next m words (word, same) rest = rest v word

  pub assert_fail-Holds :
      (reason file : List ℕ) (line : ℕ) (m : Machine)
      → line < 2 ^ 32
      → Same k m
      → Ends (assert_fail env reason file line m)
  unfolding assert_fail
  assert_fail-Holds reason file line m small same =
      assert_handler-Holds env io-Same (codes "ASSERT") reason file line m small same
