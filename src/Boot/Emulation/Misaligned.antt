-- ===== src/Boot/Emulation/Misaligned.antt =====
-- `trap_misaligned_ld` and `trap_misaligned_st`: loads and stores at addresses that are no multiple
-- of their width, done byte by byte.
use qrisc_v.Base.{ℕ, zero, suc, ◌+◌, ◌*◌, Option, none, some}
use qrisc_v.Base.{◌==◌, not, ◌&&◌, if◌then◌else◌, add32, bit_and, bit_or, u8, ◌<<◌, ◌>>>◌}
use qrisc_v.Boot.Csr.{mtval}
use qrisc_v.Boot.State.{Platform, IrqContext, M, pure, csr_read, ◌>>=◌}
use qrisc_v.Boot.Emulation.Access.{
  emulation_read_byte, emulation_read_word, emulation_write_byte, trap_to_supervisor,
}
use qrisc_v.Boot.Emulation.Atomic.{finish, source_reg, or_divert, skip_instruction}
use qrisc_v.Boot.Emulation.Decode.{
  rd_of, rs2_of, matches, is_load_word, is_load_half, insn_match_lh, insn_match_sh, insn_match_sw,
}

-- `len`: the bytes to move, none for an instruction that the handler does not know.
unfoldable pub load_len : ℕ → Option ℕ
load_len instr =
    if is_load_word instr then some 4 else (if is_load_half instr then some 2 else none)

unfoldable pub store_len : ℕ → Option ℕ
store_len instr =
    if matches instr insn_match_sw
    then some 4
    else (if matches instr insn_match_sh then some 2 else none)

-- `LH` copies the sign of the half into the upper half.
unfoldable pub extend : ℕ → ℕ → ℕ
extend instr v =
    if matches instr insn_match_lh && not (bit_and v 0x8000 == 0) then bit_or v 0xFFFF0000 else v

module _ (env : Platform) where
  -- The loop at byte `i`, with `n` bytes to go; `none` is the return from inside it.
  unfoldable pub load_loop : ℕ → ℕ → ℕ → ℕ → M (Option ℕ)
  load_loop zero i addr acc = pure (some acc)
  load_loop (suc n) i addr acc = do
    data_read ← emulation_read_byte env (add32 addr i)
    elim data_read [
      | none ↦ pure none
      | some v ↦ load_loop n (i + 1) addr (bit_or acc (v << (8 * i)))
    ]

  unfoldable pub store_loop : ℕ → ℕ → ℕ → ℕ → M (Option (Unit {0}))
  store_loop zero i addr v = pure (some tt)
  store_loop (suc n) i addr v = do
    stored ← emulation_write_byte env (add32 addr i) (u8 (v >>> (8 * i)))
    elim stored [ none ↦ pure none | some _ ↦ store_loop n (i + 1) addr v ]

  -- The destination is written unless it is register 0.
  unfoldable pub write_back : IrqContext → ℕ → ℕ → M IrqContext
  unfolding finish skip_instruction
  write_back ctx instr v =
      if not (rd_of instr == 0)
      then finish env ctx (rd_of instr) (extend instr v)
      else skip_instruction env ctx

  unfoldable pub load_bytes : IrqContext → ℕ → ℕ → Option ℕ → M IrqContext
  unfolding write_back or_divert trap_to_supervisor
  load_bytes ctx addr instr none = trap_to_supervisor env ctx ctx.pc ctx.status
  load_bytes ctx addr instr (some len) = do
    loaded ← load_loop len 0 addr 0
    or_divert env ctx loaded (write_back ctx instr)

  unfoldable pub trap_misaligned_ld : IrqContext → M IrqContext
  unfolding load_bytes
  trap_misaligned_ld ctx = do
    addr ← csr_read mtval
    fetched ← emulation_read_word env ctx.pc
    or_divert env ctx fetched (λ instr. load_bytes ctx addr instr (load_len instr))

  unfoldable pub store_bytes : IrqContext → ℕ → ℕ → Option ℕ → M IrqContext
  unfolding store_loop or_divert skip_instruction trap_to_supervisor
  store_bytes ctx addr instr none = trap_to_supervisor env ctx ctx.pc ctx.status
  store_bytes ctx addr instr (some len) = do
    stored ← store_loop len 0 addr (source_reg ctx (rs2_of instr))
    or_divert env ctx stored (λ _. skip_instruction env ctx)

  unfoldable pub trap_misaligned_st : IrqContext → M IrqContext
  unfolding store_bytes
  trap_misaligned_st ctx = do
    addr ← csr_read mtval
    fetched ← emulation_read_word env ctx.pc
    or_divert env ctx fetched (λ instr. store_bytes ctx addr instr (store_len instr))
