-- ===== src/Boot/Emulation/Divert.antt =====
-- `emulation_trap_to_supervisor`: a fault of an emulated access is handed to the supervisor, as if
-- it had happened there.
use qrisc_v.Base.{inl, inr, ◌⊎◌}
use qrisc_v.Base.{
  ℕ, zero, suc, ◌*◌, ◌/◌, ◌%◌, ◌^◌, ◌<◌, ◌≡◌, ◌≢◌, refl, ◌∙◌, Bool, true, min, max, bit,
}
use qrisc_v.Base.{holds_below, holds_below_lem, ◌==◌, ◌&&◌, if◌then◌else◌, bit_and, bit-lt, arith}
use qrisc_v.Base.Bits.{bit-bit_and, bit-bit_or}
use qrisc_v.Base.Fields.{bit_and-one_bit}
use qrisc_v.Boot.Csr
use qrisc_v.Boot.Csr.{mstatus, mtvec, mepc, mcause, mtval, scause, stval, sepc, stvec}
use qrisc_v.Boot.State.{Platform, IrqContext, Machine, Run, ok}
use qrisc_v.Boot.Emulation.Access.{supervisor_status, trap_to_supervisor}

-- The registers that neither a guarded access nor a trap to the supervisor writes.
abbrev pub IsUntouched : ℕ → Type 0
IsUntouched r =
    (r ≢ mstatus)
    × (r ≢ mtvec)
    × (r ≢ mcause)
    × (r ≢ mtval)
    × (r ≢ mepc)
    × (r ≢ scause)
    × (r ≢ stval)
    × (r ≢ sepc)

-- A run that gives up: the supervisor's handler is to run, with the fault's cause and address and
-- the instruction's own address; the registers are as they were, and memory is `mem`.
pub record Diverted (env : Platform) (ctx : IrqContext) (cause addr : ℕ) (m : Machine) (mem : ℕ → ℕ)
    (r : Run IrqContext) : Type 0 where
  pub after : Machine
  pub returns :
      r ≡ ok (record ctx { pc = Csr.read m.csr stvec; status = supervisor_status ctx.status }) after
  pub vector : after.csr mtvec ≡ env.isr_vector
  pub cause_given : after.csr scause ≡ bit_and cause 0x8000000f
  pub addr_given : after.csr stval ≡ addr
  pub epc_given : after.csr sepc ≡ ctx.pc
  pub memory : after.mem ≡ mem
  pub reservation : after.load_reservation ≡ m.load_reservation
  pub same : (r : ℕ) → IsUntouched r → after.csr r ≡ m.csr r

abbrev handed_over : Platform → ℕ → Machine → Machine
handed_over env epc at =
    let f = Csr.write at.csr mtvec env.isr_vector in
    let g = Csr.write f stval (Csr.read f mtval) in
    let h = Csr.write g scause (Csr.read g mcause) in record at { csr = Csr.write h sepc epc }

module _ (env : Platform) (ctx : IrqContext) (m at : Machine) where
  -- The hand-over, from a machine that differs from `m` only by the accesses made.
  pub trap_to_supervisor-Diverted :
      (cause addr : ℕ)
      → bit_and (at.csr mcause) 0x8000000f ≡ bit_and cause 0x8000000f
      → at.csr mtval ≡ addr
      → ((r : ℕ) → IsUntouched r → at.csr r ≡ m.csr r)
      → at.load_reservation ≡ m.load_reservation
      → Diverted env ctx cause addr m at.mem (trap_to_supervisor env ctx ctx.pc ctx.status at)
  unfolding trap_to_supervisor Csr.write Csr.read Csr.kept
  trap_to_supervisor-Diverted cause addr hc ha hs hr = record {
    after = handed_over env ctx.pc at;
    returns = rw (← hs stvec (omega arith));
    vector = refl;
    cause_given = hc;
    addr_given = ha;
    epc_given = refl;
    memory = refl;
    reservation = hr;
    same = λ r u. kept_same r u ∙ hs r u;
  }
    where
      kept_same : (r : ℕ) → IsUntouched r → (handed_over env ctx.pc at).csr r ≡ at.csr r
      kept_same r u = ground arith

-- Each bit of the status that the supervisor is entered with: where the fault came from and whether
-- interrupts were on is recorded, interrupts are off, and the return is into supervisor mode.
abbrev pub status_bit : ℕ → ℕ → ℕ
status_bit status k =
    if k == 8
    then bit 11 status
    else (if k == 11
        then 1
        else (if k == 12
            then 0
            else (if k == 1
                then 0
                else (if k == 5 then bit 1 status else (if k == 7 then 1 else bit k status)))))

-- The bits of the masks.
kept_bit : ℕ → ℕ
kept_bit k =
    if k == 8
    then 0
    else (if k == 11
        then 0
        else (if k == 12 then 0 else (if k == 1 then 0 else (if k == 5 then 0 else 1))))

masks_agree : ℕ → Bool
masks_agree k =
    (bit k 0xffffe6dd == kept_bit k)
    && ((bit k 0x100 == (if k == 8 then 1 else 0))
        && ((bit k 0x880 == (if k == 7 then 1 else (if k == 11 then 1 else 0)))
            && ((bit k 32 == (if k == 5 then 1 else 0)) && (bit k 0 == 0))))

masks_table : holds_below masks_agree 32 ≡ true
unfolding holds_below masks_agree kept_bit
masks_table = refl

-- The status bit by bit, before the masks are looked up.
bits_of_parts :
    (status k : ℕ)
    → bit k (supervisor_status status)
      ≡ max
          (max
            (max (min (bit k status) (bit k 0xffffe6dd)) (min (bit k (status / 8)) (bit k 0x100)))
            (bit k 0x880))
          (bit k (bit 1 status * 32))
unfolding supervisor_status
bits_of_parts status k =
    let shifted : bit_and status 2 * 16 % 2 ^ 32 ≡ bit 1 status * 32 =
      omega (arith, bit_and-one_bit 1 status, bit-lt 1 status) in
    rw (shifted, bit-bit_or, bit-bit_or, bit-bit_or, bit-bit_and, bit-bit_and)

bit-scaled : (k b : ℕ) → b < 2 → bit k (b * 32) ≡ (if b == 0 then bit k 0 else bit k 32)
bit-scaled k zero h = refl
bit-scaled k (suc zero) h = refl
bit-scaled k (suc (suc b)) h = absurd (omega arith)

abbrev Combined : ℕ → ℕ → Type 0
Combined status k =
    max
      (max (max (min (bit k status) (bit k 0xffffe6dd)) (min (bit k (status / 8)) (bit k 0x100)))
        (bit k 0x880))
      (if bit 1 status == 0 then bit k 0 else bit k 32)
    ≡ status_bit status k

-- Where no field lies.
same_bit :
    (k : ℕ)
    → masks_agree k ≡ true
    → k ≢ 8 × (k ≢ 11) × (k ≢ 12) × (k ≢ 1) × (k ≢ 5) × (k ≢ 7)
    → (bit k 0xffffe6dd ≡ 1)
      × (bit k 0x100 ≡ 0)
      × (bit k 0x880 ≡ 0)
      × (bit k 32 ≡ 0)
      × (bit k 0 ≡ 0)
unfolding masks_agree kept_bit
same_bit k h ne = ground arith

plain_bit :
    (status k : ℕ)
    → masks_agree k ≡ true
    → k ≢ 8 × (k ≢ 11) × (k ≢ 12) × (k ≢ 1) × (k ≢ 5) × (k ≢ 7)
    → Combined status k
plain_bit status k h ne =
    let e = same_bit k h ne in
    rw (e.0, e.1, e.2, e.3, e.4) (ground (arith, bit-lt k status, bit-lt k (status / 8)))

-- The six bits of the fields.
field_bit :
    (status k : ℕ) → (k ≡ 8) ⊎ (k ≡ 11) ⊎ (k ≡ 12) ⊎ (k ≡ 1) ⊎ (k ≡ 5) ⊎ (k ≡ 7) → Combined status k
field_bit status k (inl e) = rw e (ground arith)
field_bit status k (inr (inl e)) = rw e (ground arith)
field_bit status k (inr (inr (inl e))) = rw e (ground arith)
field_bit status k (inr (inr (inr (inl e)))) = rw e (ground arith)
field_bit status k (inr (inr (inr (inr (inl e))))) = rw e (ground arith)
field_bit status k (inr (inr (inr (inr (inr e))))) = rw e (ground arith)

field_or_plain :
    (k : ℕ)
    → ((k ≡ 8) ⊎ (k ≡ 11) ⊎ (k ≡ 12) ⊎ (k ≡ 1) ⊎ (k ≡ 5) ⊎ (k ≡ 7))
      ⊎ (k ≢ 8 × (k ≢ 11) × (k ≢ 12) × (k ≢ 1) × (k ≢ 5) × (k ≢ 7))
field_or_plain k = ground arith

-- In the status with which a fault is handed on, bit 8 is the mode that faulted and bit 5 whether
-- its interrupts were on; interrupts are off, the return is into supervisor mode with interrupts
-- on for machine mode, and each other of the 32 bits is kept.
pub supervisor_status-bit :
    (status k : ℕ) → k < 32 → bit k (supervisor_status status) ≡ status_bit status k
supervisor_status-bit status k h =
    rw (bits_of_parts status k, bit-scaled k (bit 1 status) (bit-lt 1 status))
      (elim (field_or_plain k) [
        | inl field ↦ field_bit status k field
        | inr plain ↦ plain_bit status k (holds_below_lem masks_agree 32 k masks_table h) plain
      ])
