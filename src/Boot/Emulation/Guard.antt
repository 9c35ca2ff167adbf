-- ===== src/Boot/Emulation/Guard.antt =====
-- What a guarded access does: with `MPRV` set it reads or writes memory through the supervisor's
-- translation, or it records the fault. It always leaves the vector at its own label.
use qrisc_v.Base.Fields.{bit_and_idem}
use qrisc_v.Base.{ℕ, ◌≡◌, ◌≢◌, refl, true}
use qrisc_v.Base.{none, some, ◌==◌, bit, bit-lt, bit_or, bit_and, u8}
use qrisc_v.Base.{max, arith}
use qrisc_v.Base.Bits.{bit-bit_or}
use qrisc_v.Boot.Csr
use qrisc_v.Boot.Csr.{CsrFile, mstatus, mtvec, mepc, mcause, mtval, mip, sip}
use qrisc_v.Boot.State.{Platform, Machine, ok}
use qrisc_v.Boot.Emulation.Access.{mstatus_mprv, word_of, put_byte, put_word, byte_at}
use qrisc_v.Boot.Emulation.Access.{emulation_read_byte, emulation_read_word}
use qrisc_v.Boot.Emulation.Access.{emulation_write_byte, emulation_write_word}

-- The registers during a guarded access, after one that completed, and after one that faulted.
unfoldable pub entered : Platform → CsrFile → CsrFile
entered env f = Csr.write (Csr.set_bits f mstatus mstatus_mprv) mtvec env.recover

unfoldable pub left : CsrFile → CsrFile
left f = Csr.clear_bits f mstatus mstatus_mprv

abbrev pub guarded : Platform → CsrFile → CsrFile
guarded env f = left (entered env f)

unfoldable pub trapped : Platform → ℕ → ℕ → CsrFile → CsrFile
trapped env cause addr f =
    let g = Csr.write (Csr.write (Csr.write f mcause cause) mtval addr) mepc env.recover in
    Csr.write g mstatus (env.trap_status (Csr.read g mstatus))

abbrev pub faulted : Platform → ℕ → ℕ → CsrFile → CsrFile
faulted env cause addr f = left (trapped env cause addr (entered env f))

abbrev pub with_csr : Machine → CsrFile → Machine
with_csr m f = record m { csr = f }

max-one : (x : ℕ) → max x 1 ≡ 1 → (max x 1 == 1) ≡ true
max-one x h = ground arith

-- The access runs with the supervisor's translation.
entered-mprv :
    (env : Platform) (f : CsrFile) → (bit 17 (Csr.read (entered env f) mstatus) == 1) ≡ true
unfolding entered Csr.read Csr.write Csr.set_bits Csr.kept
entered-mprv env f =
    let high : bit 17 (bit_or (f mstatus) mstatus_mprv) ≡ max (bit 17 (f mstatus)) 1 =
      bit-bit_or 17 (f mstatus) mstatus_mprv in
    let small = bit-lt 17 (f mstatus) in ground arith

module _ (env : Platform) (m : Machine) (addr : ℕ) where
  pub read_byte-ok :
      env.load_fault true 1 addr ≡ none
      → emulation_read_byte env addr m
        ≡ ok (some (u8 (m.mem (byte_at env true addr 0)))) (with_csr m (guarded env m.csr))
  unfolding emulation_read_byte entered left
  read_byte-ok h = rw (entered-mprv env m.csr, h, entered-mprv env m.csr)

  pub read_word-ok :
      env.load_fault true 4 addr ≡ none
      → emulation_read_word env addr m
        ≡ ok (some (word_of env true m.mem addr)) (with_csr m (guarded env m.csr))
  unfolding emulation_read_word entered left
  read_word-ok h = rw (entered-mprv env m.csr, h, entered-mprv env m.csr)

  pub read_byte-fault :
      {cause : ℕ}
      → env.load_fault true 1 addr ≡ some cause
      → emulation_read_byte env addr m ≡ ok none (with_csr m (faulted env cause addr m.csr))
  unfolding emulation_read_byte entered left trapped
  read_byte-fault h = rw (entered-mprv env m.csr, h)

  pub read_word-fault :
      {cause : ℕ}
      → env.load_fault true 4 addr ≡ some cause
      → emulation_read_word env addr m ≡ ok none (with_csr m (faulted env cause addr m.csr))
  unfolding emulation_read_word entered left trapped
  read_word-fault h = rw (entered-mprv env m.csr, h)

  -- The machine after a completed write.
  abbrev pub with_mem : (ℕ → ℕ) → Machine
  with_mem mem = record m { mem = mem; csr = guarded env m.csr }

  pub write_byte-ok :
      (v : ℕ)
      → env.store_fault true 1 addr ≡ none
      → emulation_write_byte env addr v m ≡ ok (some tt) (with_mem (put_byte env true m.mem addr v))
  unfolding emulation_write_byte entered left
  write_byte-ok v h = rw (entered-mprv env m.csr, h, entered-mprv env m.csr)

  pub write_word-ok :
      (v : ℕ)
      → env.store_fault true 4 addr ≡ none
      → emulation_write_word env addr v m ≡ ok (some tt) (with_mem (put_word env true m.mem addr v))
  unfolding emulation_write_word entered left
  write_word-ok v h = rw (entered-mprv env m.csr, h, entered-mprv env m.csr)

  pub write_byte-fault :
      (v : ℕ) {cause : ℕ}
      → env.store_fault true 1 addr ≡ some cause
      → emulation_write_byte env addr v m ≡ ok none (with_csr m (faulted env cause addr m.csr))
  unfolding emulation_write_byte entered left trapped
  write_byte-fault v h = rw (entered-mprv env m.csr, h)

  pub write_word-fault :
      (v : ℕ) {cause : ℕ}
      → env.store_fault true 4 addr ≡ some cause
      → emulation_write_word env addr v m ≡ ok none (with_csr m (faulted env cause addr m.csr))
  unfolding emulation_write_word entered left trapped
  write_word-fault v h = rw (entered-mprv env m.csr, h)

module _ (env : Platform) (f : CsrFile) where
  -- A guarded access touches no other register.
  pub guarded-same : (r : ℕ) → r ≢ mstatus → r ≢ mtvec → guarded env f r ≡ f r
  unfolding entered left Csr.clear_bits Csr.set_bits Csr.write Csr.read Csr.kept
  guarded-same r hs ht = ground arith

  -- A fault leaves its cause and its address for the handler.
  pub faulted-cause :
      (cause addr : ℕ)
      → bit_and (faulted env cause addr f mcause) 0x8000000f ≡ bit_and cause 0x8000000f
  unfolding entered left trapped Csr.clear_bits Csr.set_bits Csr.write Csr.read Csr.kept
  faulted-cause cause addr = bit_and_idem cause 0x8000000f

  pub faulted-addr : (cause addr : ℕ) → faulted env cause addr f mtval ≡ addr
  unfolding entered left trapped Csr.clear_bits Csr.set_bits Csr.write Csr.read Csr.kept
  faulted-addr cause addr = refl

  pub faulted-same :
      (cause addr r : ℕ)
      → r ≢ mstatus
      → r ≢ mtvec
      → r ≢ mcause
      → r ≢ mtval
      → r ≢ mepc
      → faulted env cause addr f r ≡ f r
  unfolding entered left trapped Csr.clear_bits Csr.set_bits Csr.write Csr.read Csr.kept
  faulted-same cause addr r hs ht hc hv he = ground arith
