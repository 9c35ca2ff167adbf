-- ===== src/Boot/Emulation/Atomic.antt =====
-- `trap_invalid_inst`: the atomic instructions, which the core has not.
use qrisc_v.Base.{ℕ, Bool, Option, none, some, codes}
use qrisc_v.Base.{◌==◌, ltb, not, ◌&&◌, if◌then◌else◌, update, add32, bit_and, bit_or, bit_xor}
use qrisc_v.Base.Int.{ltb_ℤ, int32}
use qrisc_v.Boot.Csr.{mtvec, mtval}
use qrisc_v.Boot.State.{Platform, IrqContext, M, undefined, pure, gets, modify, csr_read, csr_write}
use qrisc_v.Boot.State.{◌>>=◌, ◌>>◌}
use qrisc_v.Boot.Serial.{serial_putstr_hex}
use qrisc_v.Boot.Assert.{assert_fail}
use qrisc_v.Boot.Emulation.Access.{emulation_read_word, emulation_write_word, trap_to_supervisor}
use qrisc_v.Boot.Emulation.Decode.{opcode_of, funct3_of, sel_of, rd_of, rs1_of, rs2_of}

-- `(int32_t)a < (int32_t)b`.
abbrev pub slt : ℕ → ℕ → Bool
slt a b = ltb_ℤ (int32 a) (int32 b)

-- The macros `min` and `max`, on the two readings of a word.
unfoldable pub min_signed : ℕ → ℕ → ℕ
min_signed a b = if slt a b then a else b

unfoldable pub max_signed : ℕ → ℕ → ℕ
max_signed a b = if slt b a then a else b

unfoldable pub min_unsigned : ℕ → ℕ → ℕ
min_unsigned a b = if ltb a b then a else b

unfoldable pub max_unsigned : ℕ → ℕ → ℕ
max_unsigned a b = if ltb b a then a else b

-- The value that an atomic operation stores; `none` is the `default:` of the switch.
unfoldable pub amo_result : ℕ → ℕ → ℕ → Option ℕ
unfolding min_signed max_signed min_unsigned max_unsigned
amo_result sel src data_read =
    if sel == 0x0
    then some (add32 src data_read)
    else (if sel == 0x1
        then some src
        else (if sel == 0x4
            then some (bit_xor src data_read)
            else (if sel == 0xC
                then some (bit_and src data_read)
                else (if sel == 0x8
                    then some (bit_or src data_read)
                    else (if sel == 0x10
                        then some (min_signed src data_read)
                        else (if sel == 0x14
                            then some (max_signed src data_read)
                            else (if sel == 0x18
                                then some (min_unsigned src data_read)
                                else (if sel == 0x1C
                                    then some (max_unsigned src data_read)
                                    else none))))))))

-- The size of `ctx->reg`.
abbrev pub num_gp_reg : ℕ
num_gp_reg = 32

abbrev pub set_reg : IrqContext → ℕ → ℕ → IrqContext
set_reg ctx r v = record ctx { reg = update ctx.reg r v }

-- A source register, where the code reads register 0 as 0.
abbrev pub source_reg : IrqContext → ℕ → ℕ
source_reg ctx r = if not (r == 0) then ctx.reg r else 0

module _ (env : Platform) where
  -- The end of all three handlers: `ctx->pc += 4`, and the vector back to the default.
  unfoldable pub skip_instruction : IrqContext → M IrqContext
  skip_instruction ctx = do
    let next = record ctx { pc = add32 ctx.pc 4 }
    csr_write mtvec env.isr_vector
    pure next

  -- A result to a register, where an index past the array's end is a write outside it.
  unfoldable pub finish : IrqContext → ℕ → ℕ → M IrqContext
  unfolding skip_instruction
  finish ctx rd v = if ltb rd num_gp_reg then skip_instruction (set_reg ctx rd v) else undefined

  -- What follows a guarded access: give up on a fault, else go on with the value.
  unfoldable pub or_divert :
      {A : Type 0} → IrqContext → Option A → (A → M IrqContext) → M IrqContext
  unfolding trap_to_supervisor
  or_divert ctx none next = trap_to_supervisor env ctx ctx.pc ctx.status
  or_divert ctx (some v) next = next v

  -- LR, once the word is read: remember the address.
  unfoldable pub reserve : IrqContext → ℕ → ℕ → ℕ → M IrqContext
  unfolding finish
  reserve ctx instr addr data_read = do
    modify (λ m. record m { load_reservation = addr })
    finish ctx (rd_of instr) data_read

  unfoldable pub load_reserved : IrqContext → ℕ → M IrqContext
  unfolding reserve or_divert
  load_reserved ctx instr = do
    let addr = ctx.reg (rs1_of instr)
    data_read ← emulation_read_word env addr
    or_divert ctx data_read (reserve ctx instr addr)

  -- SC, once the word is written: the reservation is used up.
  unfoldable pub release : IrqContext → ℕ → M IrqContext
  unfolding finish
  release ctx instr = do modify (λ m. record m { load_reservation = 0 }); finish ctx (rd_of instr) 0

  unfoldable pub store_reserved : IrqContext → ℕ → ℕ → ℕ → M IrqContext
  unfolding release or_divert
  store_reserved ctx instr addr data_write = do
    stored ← emulation_write_word env addr data_write
    or_divert ctx stored (λ _. release ctx instr)

  unfoldable pub store_conditional : IrqContext → ℕ → M IrqContext
  unfolding store_reserved finish
  store_conditional ctx instr = do
    let addr = source_reg ctx (rs1_of instr)
    let data_write = source_reg ctx (rs2_of instr)
    reserved ← gets (λ m. m.load_reservation)
    if reserved == addr
        then store_reserved ctx instr addr data_write
        else finish ctx (rd_of instr) 1

  -- The store of an atomic operation, once its result is known.
  unfoldable pub amo_store : IrqContext → ℕ → ℕ → ℕ → Option ℕ → M IrqContext
  unfolding finish or_divert
  amo_store ctx instr addr data_read none =
      assert_fail env (codes "!\"error\"") (codes "emulation.c") 246
  amo_store ctx instr addr data_read (some data_write) = do
    stored ← emulation_write_word env addr data_write
    or_divert ctx stored (λ _. finish ctx (rd_of instr) data_read)

  unfoldable pub atomic_op : IrqContext → ℕ → M IrqContext
  unfolding amo_store
  atomic_op ctx instr = do
    let addr = source_reg ctx (rs1_of instr)
    let src = source_reg ctx (rs2_of instr)
    loaded ← emulation_read_word env addr
    or_divert ctx loaded
        (λ data_read. amo_store ctx instr addr data_read (amo_result (sel_of instr) src data_read))

  -- `ERROR: Invalid opcode`: the run ends.
  unfoldable pub invalid_opcode : IrqContext → ℕ → M IrqContext
  invalid_opcode ctx instr = do
    serial_putstr_hex env (codes "ERROR: Invalid opcode: ") instr
    serial_putstr_hex env (codes "       at PC: ") ctx.pc
    assert_fail env (codes "!\"error\"") (codes "emulation.c") 265

  unfoldable pub trap_invalid_inst : IrqContext → M IrqContext
  unfolding load_reserved store_conditional atomic_op invalid_opcode
  trap_invalid_inst ctx = do
    instr ← csr_read mtval
    if opcode_of instr == 0x2f && (funct3_of instr == 0x2 && sel_of instr == 0x2)
        then load_reserved ctx instr
        else (if opcode_of instr == 0x2f && (funct3_of instr == 0x2 && sel_of instr == 0x3)
            then store_conditional ctx instr
            else (if opcode_of instr == 0x2f
                then (if funct3_of instr == 0x2
                    then atomic_op ctx instr
                    else assert_fail env (codes "!\"error\"") (codes "emulation.c") 258)
                else invalid_opcode ctx instr))
