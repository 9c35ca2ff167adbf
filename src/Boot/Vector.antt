-- ===== src/Boot/Vector.antt =====
-- bootloader/boot.S from `isr_vector` to `mret`: the registers go into a context on the handler's
-- stack and come back from it. The stack pointer is exchanged with `mscratch` first, so slot 2 gets
-- the handler's and not the interrupted one, which comes back from `mscratch`; slot 0 is not
-- written, and holds whatever the stack did. The handlers return the context that they are given.
pub mod Traps
use qrisc_v.Base.{ℕ, ◌+◌, ◌*◌, ◌-◌, ◌%◌, ◌^◌, ◌==◌, if◌then◌else◌, add32}
use qrisc_v.Boot.Csr
use qrisc_v.Boot.Csr.{mscratch, mepc, mstatus, mcause}
use qrisc_v.Boot.State.{Platform, IrqContext, Machine, M, pure, csr_write, ◌>>=◌, ◌>>◌}
use qrisc_v.Boot.State.{csr_swap}
use qrisc_v.Boot.Exception.{exception_handler}

-- The bytes of a context: 3 words and 32 registers.
abbrev pub frame_size : ℕ
frame_size = 35 * 4

-- `addi sp, sp, -(35*4)`
abbrev pub frame_below : ℕ → ℕ
frame_below sp = (sp + 2 ^ 32 - frame_size) % 2 ^ 32

-- The 35 stores, from registers `x`, with the unwritten slot's old content.
abbrev pub saved : ℕ → ℕ → (ℕ → ℕ) → Machine → IrqContext
saved unwritten sp x m = record {
  pc = Csr.read m.csr mepc;
  status = Csr.read m.csr mstatus;
  cause = Csr.read m.csr mcause;
  reg = λ i. if i == 0 then unwritten else (if i == 2 then sp else x i);
}

-- The registers after the loads and the exchange of `sp`.
abbrev pub restored : IrqContext → ℕ → ℕ → ℕ
restored ctx sp i = if i == 0 then 0 else (if i == 2 then sp else ctx.reg i)

-- `csrrw sp, mscratch, sp` leaves the interrupted stack pointer in `mscratch`.
abbrev pub entered : (ℕ → ℕ) → Machine → Machine
entered x m = record m { csr = Csr.write m.csr mscratch (x 2) }

-- What is loaded back, and the second exchange.
unfoldable pub restore : ℕ → IrqContext → M (ℕ → ℕ)
restore frame ctx = do
  csr_write mepc ctx.pc
  csr_write mstatus ctx.status
  sp ← csr_swap mscratch (add32 frame frame_size)
  pure (restored ctx sp)

-- A trap of code with the registers `x`, up to the `mret`.
unfoldable pub trap : Platform → ℕ → (ℕ → ℕ) → M (ℕ → ℕ)
unfolding restore
trap env unwritten x = do
  top ← csr_swap mscratch (x 2)
  ctx ← (λ m. exception_handler env (saved unwritten (frame_below top) x m) m)
  restore (frame_below top) ctx
