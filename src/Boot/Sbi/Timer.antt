-- ===== src/Boot/Sbi/Timer.antt =====
-- The timer between kernel and firmware: a call arms the machine timer, its interrupt becomes a
-- tick of the supervisor's.
use qrisc_v.Base.{ℕ, ◌+◌, ◌<◌, ◌≡◌, refl, Bool, true, min}
use qrisc_v.Base.{
  holds_below, holds_below_lem, ◌&&◌, ◌==◌, if◌then◌else◌, bit, bit-lt, bit_and, bit_or, not32,
  arith,
}
use qrisc_v.Base.Bits.{bit-bit_and, bit-bit_or}
use qrisc_v.Boot.Csr
use qrisc_v.Boot.Csr.{CsrFile, mie, mip, sip, mtimecmp, sr_ip_mtip, sr_ip_stip}
use qrisc_v.Boot.State.{IrqContext, Machine, ok}
use qrisc_v.Boot.Sbi.{set_timer}
use qrisc_v.Boot.Irq.{raise_timer}

-- Whether the machine timer's interrupt is enabled, and whether a tick waits for the supervisor.
abbrev pub armed : CsrFile → ℕ
armed f = bit 7 (f mie)

abbrev pub ticked : CsrFile → ℕ
ticked f = bit 5 (f mip)

-- The bits of the masks that the five writes use.
masks_agree : ℕ → Bool
masks_agree k =
    (bit k (not32 0x222) + bit k 0x222 == 1)
    && ((bit k 32 == (if k == 5 then 1 else 0))
        && ((bit k (not32 32) == (if k == 5 then 0 else 1))
            && ((bit k 128 == (if k == 7 then 1 else 0))
                && ((bit k (not32 128) == (if k == 7 then 0 else 1))
                    && (if k == 5
                        then (bit k 0x222 == 1) && (bit k 0xaaa == 1)
                        else (if k == 7
                            then (bit k 0x222 == 0) && (bit k 0xaaa == 1)
                            else true))))))

masks_table : holds_below masks_agree 32 ≡ true
unfolding holds_below masks_agree
masks_table = refl

module _ (f : CsrFile) (k : ℕ) (h : k < 32) where
  agree : masks_agree k ≡ true
  agree = holds_below_lem masks_agree 32 k masks_table h

  pub set_mtie :
      bit k (Csr.set_bits f mie sr_ip_mtip mie)
      ≡ (if k == 7 then 1 else min (bit k (f mie)) (bit k 0xaaa))
  unfolding Csr.set_bits Csr.write Csr.read Csr.kept masks_agree
  set_mtie =
      rw (bit-bit_and k (bit_or (f mie) 128) 0xaaa, bit-bit_or k (f mie) 128)
        (ground (arith, agree, bit-lt k (f mie)))

  pub clear_mtie :
      bit k (Csr.clear_bits f mie sr_ip_mtip mie)
      ≡ (if k == 7 then 0 else min (bit k (f mie)) (bit k 0xaaa))
  unfolding Csr.clear_bits Csr.write Csr.read Csr.kept masks_agree
  clear_mtie =
      rw (bit-bit_and k (bit_and (f mie) (not32 128)) 0xaaa, bit-bit_and k (f mie) (not32 128))
        (ground (arith, agree, bit-lt k (f mie)))

  pub clear_mtip :
      bit k (Csr.clear_bits f mip sr_ip_mtip mip)
      ≡ (if k == 7 then 0 else min (bit k (f mip)) (bit k 0xaaa))
  unfolding Csr.clear_bits Csr.write Csr.read Csr.kept masks_agree
  clear_mtip =
      rw (bit-bit_and k (bit_and (f mip) (not32 128)) 0xaaa, bit-bit_and k (f mip) (not32 128))
        (ground (arith, agree, bit-lt k (f mip)))

  pub set_stip : bit k (Csr.set_bits f sip sr_ip_stip mip) ≡ (if k == 5 then 1 else bit k (f mip))
  unfolding Csr.set_bits Csr.write Csr.read masks_agree
  set_stip =
      rw
        (
          bit-bit_or k (bit_and (f mip) (not32 0x222))
              (bit_and (bit_or (bit_and (f mip) 0x222) 32) 0x222),
          bit-bit_and k (f mip) (not32 0x222),
          bit-bit_and k (bit_or (bit_and (f mip) 0x222) 32) 0x222,
          bit-bit_or k (bit_and (f mip) 0x222) 32,
          bit-bit_and k (f mip) 0x222,
        )
        (ground (arith, agree, bit-lt k (f mip), bit-lt k 0x222))

  pub clear_stip :
      bit k (Csr.clear_bits f sip sr_ip_stip mip) ≡ (if k == 5 then 0 else bit k (f mip))
  unfolding Csr.clear_bits Csr.write Csr.read masks_agree
  clear_stip =
      rw
        (
          bit-bit_or k (bit_and (f mip) (not32 0x222))
              (bit_and (bit_and (bit_and (f mip) 0x222) (not32 32)) 0x222),
          bit-bit_and k (f mip) (not32 0x222),
          bit-bit_and k (bit_and (bit_and (f mip) 0x222) (not32 32)) 0x222,
          bit-bit_and k (bit_and (f mip) 0x222) (not32 32),
          bit-bit_and k (f mip) 0x222,
        )
        (ground (arith, agree, bit-lt k (f mip), bit-lt k 0x222))

clear_mtie-mip : (f : CsrFile) → Csr.clear_bits f mie sr_ip_mtip mip ≡ f mip
unfolding Csr.clear_bits Csr.write
clear_mtie-mip f = refl

-- After the three writes that raise the tick, it waits.
pub tick_raised :
    (f : CsrFile)
    → let g = Csr.clear_bits (Csr.set_bits f sip sr_ip_stip) mie sr_ip_mtip in
      bit 5 (Csr.clear_bits g mip sr_ip_mtip mip) ≡ 1
tick_raised f =
    let g = Csr.clear_bits (Csr.set_bits f sip sr_ip_stip) mie sr_ip_mtip in
    rw (
      clear_mtip g 5 (omega arith),
      clear_mtie-mip (Csr.set_bits f sip sr_ip_stip),
      set_stip f 5 (omega arith),
    )

module _ (ctx : IrqContext) (m : Machine) (k : ℕ) (h : k < 32) where
  -- SBI_SET_TIMER sets the compare register, enables the machine timer's interrupt and withdraws
  -- the supervisor's tick; bit by bit, nothing else of `mie` (among the interrupts there are) and
  -- `mip` changes, and no register does.
  pub set_timer_effect :
      (a0 : ℕ)
      → (m' : Machine) × (set_timer ctx a0 m ≡ ok ctx m')
        × (m'.csr mtimecmp ≡ a0)
        × (bit k (m'.csr mie) ≡ (if k == 7 then 1 else min (bit k (m.csr mie)) (bit k 0xaaa)))
        × (bit k (m'.csr mip) ≡ (if k == 5 then 0 else bit k (m.csr mip)))
  unfolding set_timer Csr.set_bits Csr.clear_bits Csr.write Csr.read Csr.kept
  set_timer_effect a0 =
      let f = Csr.write m.csr mtimecmp a0 in
      let g = Csr.set_bits f mie sr_ip_mtip in
      (
        record m { csr = Csr.clear_bits g sip sr_ip_stip },
        refl,
        refl,
        set_mtie f k h,
        clear_stip g k h,
      )

  -- The machine timer's interrupt is turned into the supervisor's tick: it is disabled and
  -- withdrawn, the tick is raised, and a reservation is lost.
  pub raise_timer_effect :
      (m' : Machine) × (raise_timer ctx m ≡ ok ctx m')
      × (m'.load_reservation ≡ 0)
      × (bit k (m'.csr mie) ≡ (if k == 7 then 0 else min (bit k (m.csr mie)) (bit k 0xaaa)))
      × (bit k (m'.csr mip)
          ≡ (if k == 7 then 0 else min (if k == 5 then 1 else bit k (m.csr mip)) (bit k 0xaaa)))
  unfolding raise_timer Csr.set_bits Csr.clear_bits Csr.write Csr.read Csr.kept
  raise_timer_effect =
      let f = Csr.set_bits m.csr sip sr_ip_stip in
      let g = Csr.clear_bits f mie sr_ip_mtip in
      (
        record m { csr = Csr.clear_bits g mip sr_ip_mtip; load_reservation = 0 },
        refl,
        refl,
        clear_mtie f k h,
        rw (← set_stip m.csr k h) (clear_mtip g k h),
      )
