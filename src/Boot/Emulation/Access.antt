-- ===== src/Boot/Emulation/Access.antt =====
-- The four guarded accesses: inline assembly that points the exception vector at a label behind the
-- access and sets `MPRV`, so that an exception of the access is a result and not a crash.
use qrisc_v.Base.{ℕ, ◌+◌, ◌*◌, ◌/◌, ◌^◌, Bool, Option, none, some}
use qrisc_v.Base.{◌==◌, update, u8, add32, bit, not32, ◌<<◌, ◌>>>◌, bit_and, bit_or}
use qrisc_v.Boot.State.{IrqContext, csr_read}
use qrisc_v.Boot.Csr
use qrisc_v.Boot.Csr.{mstatus, mtvec, mepc, mcause, mtval, stval, scause, sepc, stvec}
use qrisc_v.Boot.State.{Platform, Machine, M, pure, gets, modify, csr_write, csr_set, csr_clear}
use qrisc_v.Boot.State.{◌>>=◌, ◌>>◌}

abbrev pub mstatus_mprv : ℕ
mstatus_mprv = 0x00020000

-- Whether loads and stores go through the supervisor's translation.
abbrev pub mprv : Machine → Bool
mprv m = bit 17 (Csr.read m.csr mstatus) == 1

module _ (env : Platform) where
  -- The physical address of the byte at `addr + i`.
  abbrev pub byte_at : Bool → ℕ → ℕ → ℕ
  byte_at p addr i = env.phys p (add32 addr i)

  -- A word in memory, the lowest byte first.
  unfoldable pub word_of : Bool → (ℕ → ℕ) → ℕ → ℕ
  word_of p mem addr =
      u8 (mem (byte_at p addr 0))
      + 2 ^ 8 * u8 (mem (byte_at p addr 1))
      + 2 ^ 16 * u8 (mem (byte_at p addr 2))
      + 2 ^ 24 * u8 (mem (byte_at p addr 3))

  unfoldable pub put_byte : Bool → (ℕ → ℕ) → ℕ → ℕ → ℕ → ℕ
  put_byte p mem addr v = update mem (byte_at p addr 0) (u8 v)

  unfoldable pub put_word : Bool → (ℕ → ℕ) → ℕ → ℕ → ℕ → ℕ
  put_word p mem addr v =
      update
        (update (update (update mem (byte_at p addr 0) (u8 v)) (byte_at p addr 1) (u8 (v / 2 ^ 8)))
          (byte_at p addr 2) (u8 (v / 2 ^ 16)))
        (byte_at p addr 3) (u8 (v / 2 ^ 24))

  -- The hart takes the exception: it records cause and address and jumps to `mtvec`.
  unfoldable pub take_fault : ℕ → ℕ → M (Unit {0})
  take_fault cause addr = do
    csr_write mcause cause
    csr_write mtval addr
    csr_write mepc env.recover
    modify
        (λ m. record m { csr = Csr.write m.csr mstatus (env.trap_status (Csr.read m.csr mstatus)) })

  -- The instructions before the access, and the one behind it.
  unfoldable pub enter : M (Unit {0})
  enter = do csr_set mstatus mstatus_mprv; csr_write mtvec env.recover

  unfoldable pub leave : M (Unit {0})
  leave = csr_clear mstatus mstatus_mprv

  -- One load or store that may fault: `fail` is 1 unless the access completed. After a fault the
  -- value is whatever the register held, and no caller looks at it: `none`.
  unfoldable pub attempt : {A : Type 0} → Option ℕ → ℕ → M A → M (Option A)
  unfolding take_fault
  attempt none addr access = do v ← access; pure (some v)
  attempt (some cause) addr access = do take_fault cause addr; pure none

  unfoldable pub load_attempt : ℕ → ℕ → M ℕ → M (Option ℕ)
  unfolding attempt
  load_attempt width addr access m = attempt (env.load_fault (mprv m) width addr) addr access m

  unfoldable pub store_attempt : ℕ → ℕ → M (Unit {0}) → M (Option (Unit {0}))
  unfolding attempt
  store_attempt width addr access m = attempt (env.store_fault (mprv m) width addr) addr access m

  unfoldable pub emulation_read_byte : ℕ → M (Option ℕ)
  unfolding enter leave load_attempt
  emulation_read_byte addr = do
    enter
    v ← load_attempt 1 addr (gets (λ m. u8 (m.mem (byte_at (mprv m) addr 0))))
    leave
    pure v

  unfoldable pub emulation_read_word : ℕ → M (Option ℕ)
  unfolding enter leave load_attempt
  emulation_read_word addr = do
    enter
    v ← load_attempt 4 addr (gets (λ m. word_of (mprv m) m.mem addr))
    leave
    pure v

  unfoldable pub emulation_write_byte : ℕ → ℕ → M (Option (Unit {0}))
  unfolding enter leave store_attempt
  emulation_write_byte addr v = do
    enter
    done ← store_attempt 1 addr (modify (λ m. record m { mem = put_byte (mprv m) m.mem addr v }))
    leave
    pure done

  unfoldable pub emulation_write_word : ℕ → ℕ → M (Option (Unit {0}))
  unfolding enter leave store_attempt
  emulation_write_word addr v = do
    enter
    done ← store_attempt 4 addr (modify (λ m. record m { mem = put_word (mprv m) m.mem addr v }))
    leave
    pure done

-- MSTATUS_SPP, _MPP, _SIE and _SPIE: the bits that a trap into supervisor mode rewrites.
abbrev pub mstatus_sie : ℕ
mstatus_sie = 0x00000002

abbrev pub mstatus_spie : ℕ
mstatus_spie = 0x00000020

abbrev pub mstatus_mpie : ℕ
mstatus_mpie = 0x00000080

abbrev pub mstatus_spp : ℕ
mstatus_spp = 0x00000100

abbrev pub mstatus_mpp : ℕ
mstatus_mpp = 0x00001800

-- The status with which the supervisor's trap handler is entered.
unfoldable pub supervisor_status : ℕ → ℕ
supervisor_status status =
    let cleared = bit_or (bit_or (bit_or mstatus_spp mstatus_mpp) mstatus_sie) mstatus_spie in
    bit_or
      (bit_or (bit_or (bit_and status (not32 cleared)) (bit_and (status >>> 3) mstatus_spp))
        (bit_or 0x0800 mstatus_mpie))
      (bit_and status mstatus_sie << 4)

unfoldable pub trap_to_supervisor : Platform → IrqContext → ℕ → ℕ → M IrqContext
unfolding supervisor_status
trap_to_supervisor env ctx epc status = do
  csr_write mtvec env.isr_vector
  tval ← csr_read mtval
  csr_write stval tval
  cause ← csr_read mcause
  csr_write scause cause
  csr_write sepc epc
  vector ← csr_read stvec
  pure (record ctx { pc = vector; status = supervisor_status status })
