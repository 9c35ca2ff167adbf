-- ===== src/Boot/Emulation/Store.antt =====
-- `trap_misaligned_st`: the store that the core refused, done byte by byte.
use qrisc_v.Boot.Emulation.Width.{rs2_of-rs2_field}
use qrisc_v.Boot.Emulation.Width.{store_width, store_len-store_width}
use qrisc_v.Base.{ap₂}
use qrisc_v.Base.{ℕ, ◌^◌, ◌<◌, ◌≡◌, ◌≢◌, refl, ◌∙◌, true}
use qrisc_v.Base.{Option, none, some, inl, inr, Option-cases, u8, add32, ◌>>>◌, arith}
use qrisc_v.Base.{update}
use qrisc_v.Boot.Csr
use qrisc_v.Boot.Csr.{CsrFile, mtval, mcause}
use qrisc_v.Boot.State.{Platform, IrqContext, Machine, Run, and_then}
use qrisc_v.Boot.Emulation.Access.{byte_at, word_of, put_byte, put_word}
use qrisc_v.Boot.Emulation.Width.{rs2_of-rs2_field}
use qrisc_v.Boot.Emulation.Width.{rs2_field}
use qrisc_v.Boot.Emulation.Atomic.{source_reg, or_divert, skip_instruction}
use qrisc_v.Boot.Emulation.Misaligned.{store_loop, store_len, store_bytes, trap_misaligned_st}
use qrisc_v.Boot.Emulation.Guard.{guarded, with_csr, guarded-same, read_word-ok, read_word-fault}
use qrisc_v.Boot.Emulation.Divert.{Diverted}
use qrisc_v.Boot.Emulation.Reserve.{next_inst, first_fault-Diverted}
use qrisc_v.Boot.Emulation.Bytes.{
  first_fault, store_faults, scattered, OnlyGuarded, StoreEnd, store_loop-StoreEnd,
}
use qrisc_v.Boot.Emulation.Outcome.{
  Completed, skip_instruction-Completed, late_fault-Diverted, unknown-Diverted,
}

module _ (env : Platform) (ctx : IrqContext) (m : Machine) where
  -- The bytes at `addr`, by the first of them whose store faults: those before it are written.
  abbrev pub StoreMoved : ℕ → ℕ → ℕ → Option (ℕ × ℕ) → Run IrqContext → Type 0
  StoreMoved addr v len none r = Completed env (next_inst ctx) m (scattered env addr v m.mem len) r
  StoreMoved addr v len (some (i, cause)) r =
      Diverted env ctx cause (add32 addr i) m (scattered env addr v m.mem i) r

  -- The instruction, by the width of its store.
  abbrev pub StoreDecoded : ℕ → ℕ → Option ℕ → Run IrqContext → Type 0
  StoreDecoded addr v none r = Diverted env ctx (m.csr mcause) (m.csr mtval) m m.mem r
  StoreDecoded addr v (some len) r =
      StoreMoved addr v len (first_fault (store_faults env addr) len 0) r

  -- The fetch of the instruction at the context's address, by whether it faults.
  abbrev pub StoreFetched : ℕ → Option ℕ → Run IrqContext → Type 0
  StoreFetched addr none r =
      let instr = word_of env true m.mem ctx.pc in
      StoreDecoded addr (source_reg ctx (rs2_field instr)) (store_width instr) r
  StoreFetched addr (some cause) r = Diverted env ctx cause ctx.pc m m.mem r

  moved_lem :
      (addr v len : ℕ) (g : CsrFile) (o : Option (ℕ × ℕ)) (r : Run (Option (Unit {0})))
      → OnlyGuarded m.csr g
      → StoreEnd env addr (with_csr m g) m.mem v len o r
      → StoreMoved addr v len o
          (and_then r λ done. or_divert env ctx done (λ _. skip_instruction env ctx))
  unfolding or_divert
  moved_lem addr v len g none r only (f, ends, after) = rw ends (
      skip_instruction-Completed env ctx m (scattered env addr v m.mem len) f
        (λ x hs ht. after x hs ht ∙ only x hs ht))
  moved_lem addr v len g (some (i, cause)) r only (f, ends, after) = rw ends (
      late_fault-Diverted env ctx m (scattered env addr v m.mem i) f
        (λ x hs ht. after x hs ht ∙ only x hs ht) {A = Unit {0}} (λ _. skip_instruction env ctx)
        cause (add32 addr i))

  loop_lem :
      (addr v len : ℕ) (g : CsrFile)
      → StoreEnd env addr
          (with_csr m g)
          m.mem
          v
          len
          (first_fault (store_faults env addr) len 0)
          (store_loop env len 0 addr v (with_csr m g))
  unfolding scattered
  loop_lem addr v len g =
      store_loop-StoreEnd env addr len 0 len v m.mem (with_csr m g) (omega arith) refl

  decoded_lem :
      (addr instr : ℕ) (g : CsrFile) (o : Option ℕ)
      → OnlyGuarded m.csr g
      → StoreDecoded addr
          (source_reg ctx (rs2_field instr))
          o
          (store_bytes env ctx addr instr o (with_csr m g))
  unfolding store_bytes
  decoded_lem addr instr g none only = unknown-Diverted env ctx m m.mem g only
  decoded_lem addr instr g (some len) only = rw (rs2_of-rs2_field instr) (
      moved_lem addr (source_reg ctx (rs2_field instr)) len g
        (first_fault (store_faults env addr) len 0) _ only
        (loop_lem addr (source_reg ctx (rs2_field instr)) len g))

  -- A misaligned store (SH or SW by its fields) writes the bytes of its register at its address and
  -- goes on behind the instruction. A fault of the fetch or of a byte goes to the supervisor with
  -- the address that faulted, when the bytes before it are written; an instruction that is no store
  -- goes there as it came.
  pub misaligned_store_effect :
      StoreFetched
        (Csr.read m.csr mtval)
        (env.load_fault true 4 ctx.pc)
        (trap_misaligned_st env ctx m)
  unfolding trap_misaligned_st
  misaligned_store_effect = elim (Option-cases (env.load_fault true 4 ctx.pc)) [
    | inl fine ↦
        rw
          (
            fine,
            read_word-ok env m ctx.pc fine,
            ← store_len-store_width (word_of env true m.mem ctx.pc),
          )
          (decoded_lem (Csr.read m.csr mtval) (word_of env true m.mem ctx.pc) (guarded env m.csr)
            (store_len (word_of env true m.mem ctx.pc)) (guarded-same env m.csr))
    | inr (cause, bad) ↦
        rw (bad, read_word-fault env m ctx.pc bad)
          (first_fault-Diverted env ctx m
            (λ instr. store_bytes env ctx (Csr.read m.csr mtval) instr (store_len instr)) cause
            ctx.pc)
  ]

-- The physical bytes of a word are four.
abbrev pub IsApart : Platform → ℕ → Type 0
IsApart env addr =
    (byte_at env true addr 0 ≢ byte_at env true addr 1)
    × (byte_at env true addr 0 ≢ byte_at env true addr 2)
    × (byte_at env true addr 0 ≢ byte_at env true addr 3)
    × (byte_at env true addr 1 ≢ byte_at env true addr 2)
    × (byte_at env true addr 1 ≢ byte_at env true addr 3)
    × (byte_at env true addr 2 ≢ byte_at env true addr 3)

put_byte-update :
    (env : Platform) (addr i w : ℕ) (mem : ℕ → ℕ)
    → put_byte env true mem (add32 addr i) (u8 w) ≡ update mem (byte_at env true addr i) (u8 w)
unfolding put_byte
put_byte-update env addr i w mem =
    let again : add32 (add32 addr i) 0 ≡ add32 addr i = omega arith in
    let once : u8 (u8 w) ≡ u8 w = omega arith in
    ap₂ (λ (p b : ℕ). update mem (env.phys true p) b) again once

module _ (env : Platform) (addr v : ℕ) (mem : ℕ → ℕ) where
  -- Byte by byte or at once, a word is stored the same.
  pub scattered-put_word : scattered env addr v mem 4 ≡ put_word env true mem addr v
  unfolding scattered put_word
  scattered-put_word =
      let whole : v >>> 0 ≡ v = omega arith in
      rw (
        whole,
        put_byte-update env addr 0 v mem,
        put_byte-update env addr 1 (v >>> 8),
        put_byte-update env addr 2 (v >>> 16),
        put_byte-update env addr 3 (v >>> 24),
      )

  -- A word that was stored is read back, if its four bytes are four in memory.
  pub word_of-put_word :
      IsApart env addr → v < 2 ^ 32 → word_of env true (put_word env true mem addr v) addr ≡ v
  unfolding word_of put_word
  word_of-put_word apart h = ground arith

  -- A misaligned store can be read back by a misaligned load.
  pub word_of-scattered :
      IsApart env addr → v < 2 ^ 32 → word_of env true (scattered env addr v mem 4) addr ≡ v
  word_of-scattered apart h = rw scattered-put_word (word_of-put_word apart h)
