-- ===== src/Boot/Holds/Emulated/Atomic.antt =====
-- Atomic instructions resume as every emulated instruction does.
use qrisc_v.Base.{ℕ, ◌^◌, ◌<◌, inl, inr}
use qrisc_v.Base.{Option, none, some, ◌==◌, arith}
use qrisc_v.Base.{codes}
use qrisc_v.Boot.Csr
use qrisc_v.Boot.Csr.{CsrFile, mtvec, mtval}
use qrisc_v.Boot.State.{Platform, IrqContext, Machine}
use qrisc_v.Boot.Holds.{Holds-bind, Same}
use qrisc_v.Base.{Bool-cases, ◌&&◌}
use qrisc_v.Boot.Emulation.Decode.{opcode_of, funct3_of, rs1_of, rs2_of, rd_of, sel_of}
use qrisc_v.Boot.Emulation.Width.{rd_field, finish-rd}
use qrisc_v.Boot.Emulation.Atomic.{finish}
use qrisc_v.Boot.Holds.Console.{serial_putstr_hex-Holds}
use qrisc_v.Boot.Emulation.Atomic.{source_reg, reserve}
use qrisc_v.Boot.Emulation.Atomic.{load_reserved, release, store_reserved, store_conditional}
use qrisc_v.Boot.Emulation.Atomic.{amo_store, atomic_op, invalid_opcode, trap_invalid_inst}
use qrisc_v.Boot.Holds.Emulated.{
  IsTrap, HasWords, Ends, set_reg-HasWords, read_word-Holds, write_word-Holds,
  skip_instruction-Holds, io-Same, or_divert-Holds, or_divert-word, assert_fail-Holds,
}

module _ (env : Platform) (k : Machine) where
  module _ (ctx : IrqContext) (words : HasWords ctx) where
    source_reg-lt : (r : ℕ) → source_reg ctx r < 2 ^ 32
    source_reg-lt r = ground (arith, words r)

    reserved-Same :
        (m : Machine) (addr : ℕ) → Same k m → Same k (record m { load_reservation = addr })
    reserved-Same m addr same = record {
      table = same.table;
      hook = same.hook;
      console = same.console;
      regs = same.regs;
      calm = same.calm;
    }

    -- The destination is a register that there is.
    pub finish-Holds :
        (instr v : ℕ) (m : Machine)
        → Same k m
        → v < 2 ^ 32
        → Ends env k (finish env ctx (rd_of instr) v m)
    finish-Holds instr v m same small = rw (finish-rd env ctx instr v) (
        skip_instruction-Holds env k m same _ (set_reg-HasWords ctx (rd_field instr) v words small))

    load_reserved-Holds :
        (instr : ℕ) (m : Machine) → Same k m → Ends env k (load_reserved env ctx instr m)
    unfolding load_reserved reserve
    load_reserved-Holds instr m same =
        Holds-bind _ (read_word-Holds env k m same (ctx.reg (rs1_of instr))) λ o m' h.
          or_divert-word env k ctx o (reserve env ctx instr (ctx.reg (rs1_of instr))) m' words h
            λ v small. finish-Holds instr v _ (reserved-Same m' (ctx.reg (rs1_of instr)) h.1) small

    store_reserved-Holds :
        (instr addr v : ℕ) (m : Machine)
        → Same k m
        → Ends env k (store_reserved env ctx instr addr v m)
    unfolding store_reserved release
    store_reserved-Holds instr addr v m same =
        Holds-bind _ (write_word-Holds env k m same addr v) λ o m' h.
          or_divert-Holds env k ctx o (λ _. release env ctx instr) m' words h
            (finish-Holds instr 0 _ (reserved-Same m' 0 h) (omega arith))

    store_conditional-Holds :
        (instr : ℕ) (m : Machine) → Same k m → Ends env k (store_conditional env ctx instr m)
    unfolding store_conditional
    store_conditional-Holds instr m same =
        let addr = source_reg ctx (rs1_of instr) in
        elim (Bool-cases (m.load_reservation == addr)) [
          | inl held ↦
              rw held (store_reserved-Holds instr addr (source_reg ctx (rs2_of instr)) m same)
          | inr lost ↦ rw lost (finish-Holds instr 1 m same (omega arith))
        ]

    amo_store-Holds :
        (instr addr old : ℕ) (o : Option ℕ) (m : Machine)
        → old < 2 ^ 32
        → Same k m
        → Ends env k (amo_store env ctx instr addr old o m)
    unfolding amo_store
    amo_store-Holds instr addr old none m small same =
        assert_fail-Holds env k _ _ 246 m (omega arith) same
    amo_store-Holds instr addr old (some v) m small same =
        Holds-bind _ (write_word-Holds env k m same addr v)
          λ o m' h. or_divert-Holds env k ctx o _ m' words h (finish-Holds instr old m' h small)

    atomic_op-Holds : (instr : ℕ) (m : Machine) → Same k m → Ends env k (atomic_op env ctx instr m)
    unfolding atomic_op
    atomic_op-Holds instr m same =
        Holds-bind _ (read_word-Holds env k m same (source_reg ctx (rs1_of instr))) λ o m' h.
          or_divert-word env k ctx o _ m' words h
            λ v small. amo_store-Holds instr (source_reg ctx (rs1_of instr)) v _ m' small h.1

    invalid_opcode-Holds :
        (instr : ℕ) (m : Machine)
        → instr < 2 ^ 32
        → ctx.pc < 2 ^ 32
        → Same k m
        → Ends env k (invalid_opcode env ctx instr m)
    unfolding invalid_opcode
    invalid_opcode-Holds instr m code here same =
        Holds-bind _ (serial_putstr_hex-Holds env (io-Same env k) _ instr m code same) λ _ m1 h1.
          Holds-bind _ (serial_putstr_hex-Holds env (io-Same env k) _ ctx.pc m1 here h1)
            λ _ m2 h2. assert_fail-Holds env k _ _ 265 m2 (omega arith) h2

    pub trap_invalid_inst-Holds :
        (m : Machine) → IsTrap ctx m → Same k m → Ends env k (trap_invalid_inst env ctx m)
    unfolding trap_invalid_inst
    trap_invalid_inst-Holds m trapped same =
        let instr = Csr.read m.csr mtval in
        let amo = opcode_of instr == 0x2f in
        let word = funct3_of instr == 0x2 in
        elim (Bool-cases (amo && (word && sel_of instr == 0x2))) [
          | inl lr ↦ rw lr (load_reserved-Holds instr m same)
          | inr no_lr ↦ elim (Bool-cases (amo && (word && sel_of instr == 0x3))) [
            | inl sc ↦ rw (no_lr, sc) (store_conditional-Holds instr m same)
            | inr no_sc ↦ elim (Bool-cases amo) [
              | inr other ↦
                  rw (no_lr, no_sc, other) (invalid_opcode-Holds instr m trapped.2 trapped.1 same)
              | inl atomic ↦ elim (Bool-cases word) [
                | inl w ↦ rw (no_lr, no_sc, atomic, w) (atomic_op-Holds instr m same)
                | inr narrow ↦
                    rw (no_lr, no_sc, atomic, narrow)
                      (assert_fail-Holds env k (codes "!\"error\"") (codes "emulation.c") 258 m
                        (omega arith) same)
              ]
            ]
          ]
        ]
