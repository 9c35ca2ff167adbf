-- ===== src/Boot/Emulation/Reserve.antt =====
-- LR and SC: the reservation, the word that moves, and the fault that stops either.
use qrisc_v.Base.{ℕ, ◌≡◌, refl, Bool, true, false, Option, none, some, inl, inr}
use qrisc_v.Base.{◌==◌, Bool-cases, Option-cases, add32}
use qrisc_v.Boot.Csr
use qrisc_v.Boot.Csr.{mtvec, mtval, stvec}
use qrisc_v.Boot.State.{Platform, IrqContext, Machine, Run, ok}
use qrisc_v.Boot.Emulation.Access.{word_of, put_word}
use qrisc_v.Boot.Emulation.Width.{
  opcode_field, funct3_field, funct5_field, rd_field, rs1_field, rs2_field,
}
use qrisc_v.Boot.Emulation.Atomic.{set_reg, source_reg, or_divert}
use qrisc_v.Boot.Emulation.Atomic.{
  reserve, release, load_reserved, store_reserved, store_conditional, trap_invalid_inst,
}
use qrisc_v.Boot.Emulation.Width.{
  opcode_of-opcode_field, funct3_of-funct3_field, sel_of-funct5_field, rs1_of-rs1_field,
  rs2_of-rs2_field, finish-rd,
}
use qrisc_v.Boot.Emulation.Guard.{guarded, faulted, with_csr, read_word-ok, read_word-fault}
use qrisc_v.Boot.Emulation.Guard.{write_word-ok, write_word-fault, faulted-cause, faulted-addr}
use qrisc_v.Boot.Emulation.Guard.{faulted-same}
use qrisc_v.Boot.Emulation.Divert.{Diverted, trap_to_supervisor-Diverted}

-- A word-wide instruction of the atomic extension, with the given top five bits.
abbrev pub IsAtomic : ℕ → ℕ → Type 0
IsAtomic instr sel =
    (opcode_field instr ≡ 0x2f) × (funct3_field instr ≡ 0x2) × (funct5_field instr ≡ sel)

-- The context behind the instruction, and the machine with the default vector again.
abbrev pub next_inst : IrqContext → IrqContext
next_inst ctx = record ctx { pc = add32 ctx.pc 4 }

abbrev pub resumed : Platform → Machine → Machine
resumed env m = record m { csr = Csr.write (guarded env m.csr) mtvec env.isr_vector }

module _ (env : Platform) (ctx : IrqContext) (m : Machine) where
  -- A fault of a first access is handed to the supervisor.
  pub first_fault-Diverted :
      {A : Type 0} (next : A → Machine → Run IrqContext) (cause addr : ℕ)
      → Diverted env ctx cause addr m m.mem
          (or_divert env {A = A} ctx none next (with_csr m (faulted env cause addr m.csr)))
  unfolding or_divert
  first_fault-Diverted next cause addr =
      trap_to_supervisor-Diverted env ctx m (with_csr m (faulted env cause addr m.csr)) cause addr
        (faulted-cause env m.csr cause addr) (faulted-addr env m.csr cause addr)
        (λ r u. faulted-same env m.csr cause addr r u.0 u.1 u.2 u.3 u.4) refl

  -- LR at `addr`, by whether the load faults.
  abbrev pub LoadReserved : ℕ → ℕ → Option ℕ → Run IrqContext → Type 0
  LoadReserved instr addr none r =
      r
      ≡ ok (next_inst (set_reg ctx (rd_field instr) (word_of env true m.mem addr)))
          (record (resumed env m) { load_reservation = addr })
  LoadReserved instr addr (some cause) r = Diverted env ctx cause addr m m.mem r

  pub load_reserved_lem :
      (instr : ℕ)
      → let addr = ctx.reg (rs1_field instr) in
        LoadReserved instr addr (env.load_fault true 4 addr) (load_reserved env ctx instr m)
  unfolding load_reserved
  load_reserved_lem instr =
      rw (rs1_of-rs1_field instr)
        (elim (Option-cases (env.load_fault true 4 (ctx.reg (rs1_field instr)))) [
          | inl fine ↦ rw (
            fine,
            read_word-ok env m (ctx.reg (rs1_field instr)) fine,
            finish-rd env ctx instr (word_of env true m.mem (ctx.reg (rs1_field instr))),
          )
          | inr (cause, bad) ↦
              rw (bad, read_word-fault env m (ctx.reg (rs1_field instr)) bad)
                (first_fault-Diverted (reserve env ctx instr (ctx.reg (rs1_field instr))) cause
                  (ctx.reg (rs1_field instr)))
        ])

  -- SC of `v` at `addr`, by whether the reservation is for the address and the store faults.
  abbrev pub StoreReserved : ℕ → ℕ → ℕ → Option ℕ → Run IrqContext → Type 0
  StoreReserved instr addr v none r =
      r
      ≡ ok (next_inst (set_reg ctx (rd_field instr) 0))
          (record (resumed env m) { mem = put_word env true m.mem addr v; load_reservation = 0 })
  StoreReserved instr addr v (some cause) r = Diverted env ctx cause addr m m.mem r

  abbrev pub StoreConditional : ℕ → ℕ → ℕ → Bool → Run IrqContext → Type 0
  StoreConditional instr addr v true r = StoreReserved instr addr v (env.store_fault true 4 addr) r
  StoreConditional instr addr v false r =
      r
      ≡ ok (next_inst (set_reg ctx (rd_field instr) 1))
          (record m { csr = Csr.write m.csr mtvec env.isr_vector })

  store_reserved_lem :
      (instr addr v : ℕ)
      → StoreReserved instr addr v
          (env.store_fault true 4 addr)
          (store_reserved env ctx instr addr v m)
  unfolding store_reserved
  store_reserved_lem instr addr v = elim (Option-cases (env.store_fault true 4 addr)) [
    | inl fine ↦ rw (fine, write_word-ok env m addr v fine, finish-rd env ctx instr 0)
    | inr (cause, bad) ↦
        rw (bad, write_word-fault env m addr v bad)
          (first_fault-Diverted {A = Unit {0}} (λ _. release env ctx instr) cause addr)
  ]

  pub store_conditional_lem :
      (instr : ℕ)
      → let addr = source_reg ctx (rs1_field instr) in
        StoreConditional instr addr
          (source_reg ctx (rs2_field instr))
          (m.load_reservation == addr)
          (store_conditional env ctx instr m)
  unfolding store_conditional
  store_conditional_lem instr =
      rw (rs1_of-rs1_field instr, rs2_of-rs2_field instr)
        (elim (Bool-cases (m.load_reservation == source_reg ctx (rs1_field instr))) [
          | inl same ↦ rw same (store_reserved_lem instr _ _)
          | inr other ↦ rw (other, finish-rd env ctx instr 1)
        ])

  -- The handler's choice among the atomic instructions.
  pub trap_invalid_inst-lr :
      (instr : ℕ)
      → Csr.read m.csr mtval ≡ instr
      → IsAtomic instr 0x2
      → trap_invalid_inst env ctx m ≡ load_reserved env ctx instr m
  unfolding trap_invalid_inst
  trap_invalid_inst-lr instr e h = rw (
    e,
    opcode_of-opcode_field instr,
    funct3_of-funct3_field instr,
    sel_of-funct5_field instr,
    h.0,
    h.1,
    h.2,
  )

  pub trap_invalid_inst-sc :
      (instr : ℕ)
      → Csr.read m.csr mtval ≡ instr
      → IsAtomic instr 0x3
      → trap_invalid_inst env ctx m ≡ store_conditional env ctx instr m
  unfolding trap_invalid_inst
  trap_invalid_inst-sc instr e h = rw (
    e,
    opcode_of-opcode_field instr,
    funct3_of-funct3_field instr,
    sel_of-funct5_field instr,
    h.0,
    h.1,
    h.2,
  )

  -- With an LR in `mtval`: it loads the word at the address in its register and reserves that
  -- address; if the load faults, the supervisor gets the fault.
  pub lr_effect :
      (instr : ℕ)
      → Csr.read m.csr mtval ≡ instr
      → IsAtomic instr 0x2
      → let addr = ctx.reg (rs1_field instr) in
        LoadReserved instr addr (env.load_fault true 4 addr) (trap_invalid_inst env ctx m)
  lr_effect instr e h = rw (trap_invalid_inst-lr instr e h) (load_reserved_lem instr)

  -- With an SC in `mtval`: it stores its register and gives 0 exactly when the reservation is for
  -- its address, and drops the reservation; otherwise it gives 1 and touches neither memory nor
  -- reservation. If the store faults, the supervisor gets the fault and the reservation stays.
  pub sc_effect :
      (instr : ℕ)
      → Csr.read m.csr mtval ≡ instr
      → IsAtomic instr 0x3
      → let addr = source_reg ctx (rs1_field instr) in
        StoreConditional instr addr
          (source_reg ctx (rs2_field instr))
          (m.load_reservation == addr)
          (trap_invalid_inst env ctx m)
  sc_effect instr e h = rw (trap_invalid_inst-sc instr e h) (store_conditional_lem instr)
