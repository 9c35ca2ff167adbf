-- ===== src/Boot/Emulation/Load.antt =====
-- `trap_misaligned_ld`: the load that the core refused, done byte by byte.
use qrisc_v.Boot.Emulation.Value.{loaded_value, gathered-loaded_value}
use qrisc_v.Boot.Emulation.Width.{load_width, load_len-load_width}
use qrisc_v.Boot.Emulation.Outcome.{
  Completed, skip_instruction-Completed, late_fault-Diverted, unknown-Diverted,
}
use qrisc_v.Boot.State.{and_then}
use qrisc_v.Base.{ℕ, ◌≡◌, refl, ◌∙◌, true}
use qrisc_v.Base.{Option, none, some, inl, inr, Option-cases, Bool-cases, add32, arith}
use qrisc_v.Base.{◌==◌, if◌then◌else◌}
use qrisc_v.Boot.Csr
use qrisc_v.Boot.Csr.{CsrFile, mstatus, mtvec, mtval, mcause}
use qrisc_v.Boot.State.{Platform, IrqContext, Machine, Run}
use qrisc_v.Boot.Emulation.Access.{word_of}
use qrisc_v.Boot.Emulation.Width.{rd_field}
use qrisc_v.Boot.Emulation.Atomic.{set_reg, or_divert, skip_instruction}
use qrisc_v.Boot.Emulation.Misaligned.{
  load_loop, load_len, extend, write_back, load_bytes, trap_misaligned_ld,
}
use qrisc_v.Boot.Emulation.Width.{rd_of-rd_field, finish-rd}
use qrisc_v.Boot.Emulation.Guard.{guarded, with_csr, guarded-same, read_word-ok, read_word-fault}
use qrisc_v.Boot.Emulation.Divert.{Diverted}
use qrisc_v.Boot.Emulation.Reserve.{next_inst, first_fault-Diverted}
use qrisc_v.Boot.Emulation.Bytes.{
  first_fault, load_faults, gathered, OnlyGuarded, LoadEnd, load_loop-LoadEnd,
}

loop_lem :
    (env : Platform) (addr len : ℕ) (m : Machine)
    → LoadEnd env addr m len
        (first_fault (load_faults env addr) len 0)
        (load_loop env len 0 addr 0 m)
unfolding gathered
loop_lem env addr len m = load_loop-LoadEnd env addr len 0 len m (omega arith)

module _ (env : Platform) (ctx : IrqContext) (m : Machine) where
  -- The destination gets the value, unless it is register 0.
  abbrev pub with_loaded : ℕ → ℕ → IrqContext
  with_loaded addr instr =
      if rd_field instr == 0
      then ctx
      else set_reg ctx (rd_field instr) (loaded_value env m.mem addr instr)

  -- The bytes at `addr`, by the first of them whose load faults.
  abbrev pub LoadMoved : ℕ → ℕ → Option (ℕ × ℕ) → Run IrqContext → Type 0
  LoadMoved addr instr none r = Completed env (next_inst (with_loaded addr instr)) m m.mem r
  LoadMoved addr instr (some (i, cause)) r = Diverted env ctx cause (add32 addr i) m m.mem r

  -- The instruction, by the width of its load.
  abbrev pub LoadDecoded : ℕ → ℕ → Option ℕ → Run IrqContext → Type 0
  LoadDecoded addr instr none r = Diverted env ctx (m.csr mcause) (m.csr mtval) m m.mem r
  LoadDecoded addr instr (some len) r =
      LoadMoved addr instr (first_fault (load_faults env addr) len 0) r

  -- The fetch of the instruction at the context's address, by whether it faults.
  abbrev pub LoadFetched : ℕ → Option ℕ → Run IrqContext → Type 0
  LoadFetched addr none r =
      let instr = word_of env true m.mem ctx.pc in LoadDecoded addr instr (load_width instr) r
  LoadFetched addr (some cause) r = Diverted env ctx cause ctx.pc m m.mem r

  write_back_lem :
      (addr instr v : ℕ) (at : Machine)
      → extend instr v ≡ loaded_value env m.mem addr instr
      → write_back env ctx instr v at ≡ skip_instruction env (with_loaded addr instr) at
  unfolding write_back
  write_back_lem addr instr v at e = elim (Bool-cases (rd_field instr == 0)) [
    | inl none_wanted ↦ rw (rd_of-rd_field instr, none_wanted)
    | inr wanted ↦ rw (finish-rd env ctx instr (extend instr v), rd_of-rd_field instr, wanted, e)
  ]

  moved_lem :
      (addr instr len : ℕ) (g : CsrFile) (o : Option (ℕ × ℕ)) (r : Run (Option ℕ))
      → OnlyGuarded m.csr g
      → load_len instr ≡ some len
      → LoadEnd env addr (with_csr m g) len o r
      → LoadMoved addr instr o (and_then r λ v. or_divert env ctx v (write_back env ctx instr))
  unfolding or_divert
  moved_lem addr instr len g none r only e (f, ends, after) =
      rw
        (
          ends,
          write_back_lem addr instr (gathered env addr m.mem len) (with_csr m f)
              (gathered-loaded_value env m.mem addr instr len e),
        )
        (skip_instruction-Completed env (with_loaded addr instr) m m.mem f
          (λ x hs ht. after x hs ht ∙ only x hs ht))
  moved_lem addr instr len g (some (i, cause)) r only e (f, ends, after) = rw ends (
      late_fault-Diverted env ctx m m.mem f (λ x hs ht. after x hs ht ∙ only x hs ht)
        (write_back env ctx instr) cause (add32 addr i))

  decoded_lem :
      (addr instr : ℕ) (g : CsrFile) (o : Option ℕ)
      → OnlyGuarded m.csr g
      → load_len instr ≡ o
      → LoadDecoded addr instr o (load_bytes env ctx addr instr o (with_csr m g))
  unfolding load_bytes
  decoded_lem addr instr g none only e = unknown-Diverted env ctx m m.mem g only
  decoded_lem addr instr g (some len) only e =
      moved_lem addr instr len g (first_fault (load_faults env addr) len 0) _ only e
        (loop_lem env addr len (with_csr m g))

  -- A misaligned load (LH, LW, LHU or LWU by its fields) gives the bytes at its address as the
  -- architecture does, and goes on behind the instruction. A fault of the fetch or of a byte goes
  -- to the supervisor with the address that faulted and no register changed; an instruction that is
  -- no load goes there as it came.
  pub misaligned_load_effect :
      LoadFetched
        (Csr.read m.csr mtval)
        (env.load_fault true 4 ctx.pc)
        (trap_misaligned_ld env ctx m)
  unfolding trap_misaligned_ld
  misaligned_load_effect = elim (Option-cases (env.load_fault true 4 ctx.pc)) [
    | inl fine ↦
        rw
          (
            fine,
            read_word-ok env m ctx.pc fine,
            ← load_len-load_width (word_of env true m.mem ctx.pc),
          )
          (decoded_lem (Csr.read m.csr mtval) (word_of env true m.mem ctx.pc) (guarded env m.csr) _
            (guarded-same env m.csr) refl)
    | inr (cause, bad) ↦
        rw (bad, read_word-fault env m ctx.pc bad)
          (first_fault-Diverted env ctx m
            (λ instr. load_bytes env ctx (Csr.read m.csr mtval) instr (load_len instr)) cause
            ctx.pc)
  ]
