-- ===== src/Boot/Csr.antt =====
-- bootloader/csr.h: the control and status registers and the four access macros. Which bits a
-- register keeps, and that `sip` is a view of `mip`, is the core's, src/core/biriscv_csr_regfile.v.
use qrisc_v.Base.{ℕ, ◌^◌, bit_and, bit_or, ◌==◌, if◌then◌else◌, update, not32}

abbrev pub mstatus : ℕ
mstatus = 0x300

abbrev pub medeleg : ℕ
medeleg = 0x302

abbrev pub mideleg : ℕ
mideleg = 0x303

abbrev pub mie : ℕ
mie = 0x304

abbrev pub mtvec : ℕ
mtvec = 0x305

abbrev pub mscratch : ℕ
mscratch = 0x340

abbrev pub mepc : ℕ
mepc = 0x341

abbrev pub mcause : ℕ
mcause = 0x342

-- Named by its number in the source, as `mbadaddr` or `mtval`.
abbrev pub mtval : ℕ
mtval = 0x343

abbrev pub mip : ℕ
mip = 0x344

abbrev pub stvec : ℕ
stvec = 0x105

abbrev pub sepc : ℕ
sepc = 0x141

abbrev pub scause : ℕ
scause = 0x142

-- `sbadaddr` or `stval`.
abbrev pub stval : ℕ
stval = 0x143

abbrev pub sip : ℕ
sip = 0x144

-- The core's own register for the timer's next interrupt.
abbrev pub mtimecmp : ℕ
mtimecmp = 0x7c0

-- Bits of `mip`, `sip` and `mie`, by the number of the interrupt.
abbrev pub irq_s_timer : ℕ
irq_s_timer = 5

abbrev pub irq_m_timer : ℕ
irq_m_timer = 7

abbrev pub sr_ip_stip : ℕ
sr_ip_stip = 2 ^ irq_s_timer

abbrev pub sr_ip_mtip : ℕ
sr_ip_mtip = 2 ^ irq_m_timer

-- The bits of `mip` that `sip` shows: the three interrupts of the supervisor.
abbrev pub sip_mask : ℕ
sip_mask = 0x222

-- The six interrupts that the core has.
abbrev pub irq_mask : ℕ
irq_mask = 0xaaa

abbrev pub CsrFile : Type 0
CsrFile = ℕ → ℕ

unfoldable pub read : CsrFile → ℕ → ℕ
read f r = if r == sip then bit_and (f mip) sip_mask else f r

-- The bits that a register keeps of a value written to it.
unfoldable pub kept : ℕ → ℕ → ℕ
kept r v =
    if r == mip
    then bit_and v irq_mask
    else (if r == mie
        then bit_and v irq_mask
        else (if r == medeleg
            then bit_and v 0xffff
            else (if r == mideleg
                then bit_and v 0xffff
                else (if r == mcause
                    then bit_and v 0x8000000f
                    else (if r == scause then bit_and v 0x8000000f else v)))))

unfoldable pub write : CsrFile → ℕ → ℕ → CsrFile
unfolding kept
write f r v =
    if r == sip
    then update f mip (bit_or (bit_and (f mip) (not32 sip_mask)) (bit_and v sip_mask))
    else update f r (kept r v)

-- `csrrs` and `csrrc`: the macros drop the old value that they read.
unfoldable pub set_bits : CsrFile → ℕ → ℕ → CsrFile
unfolding read write
set_bits f r b = write f r (bit_or (read f r) b)

unfoldable pub clear_bits : CsrFile → ℕ → ℕ → CsrFile
unfolding read write
clear_bits f r b = write f r (bit_and (read f r) (not32 b))
