-- ===== src/Tests/Emulation.antt =====
-- Examples of emulated instructions.
use qrisc_v.Base.{ℕ, ◌^◌, ◌<◌, ◌≡◌, ◌==◌, refl, arith, none, bit}
use qrisc_v.Boot.Csr
use qrisc_v.Boot.Csr.{mtval}
use qrisc_v.Boot.Emulation.Access.{supervisor_status}
use qrisc_v.Boot.Emulation.Width.{opcode_field, funct3_field, funct5_field, rs1_field, rs2_field}
use qrisc_v.Boot.Emulation.Atomic.{source_reg, trap_invalid_inst}
use qrisc_v.Boot.Emulation.Divert.{status_bit, supervisor_status-bit}
use qrisc_v.Boot.Emulation.Reserve.{IsAtomic, LoadReserved, StoreConditional, lr_effect, sc_effect}
use qrisc_v.Boot.Emulation.Amo.{amoadd, funct5, Exchanged}
use qrisc_v.Boot.Emulation.Amo.{amo_effect}
use qrisc_v.Tests.{platform, context, stopped_at}

-- lr.w x5, (x6); sc.w x5, x7, (x6); amoadd.w x5, x7, (x6); lw x5, 0(x6); sw x7, 0(x6).
abbrev pub lr_w : ℕ
lr_w = 0x100322af

abbrev pub sc_w : ℕ
sc_w = 0x187322af

abbrev amoadd_w : ℕ
amoadd_w = 0x007322af

abbrev pub lw : ℕ
lw = 0x00032283

abbrev pub sw : ℕ
sw = 0x00732023

pub decoded-lr : IsAtomic lr_w 0x2
unfolding opcode_field funct3_field funct5_field
decoded-lr = (refl, refl, refl)

pub decoded-sc : IsAtomic sc_w 0x3
unfolding opcode_field funct3_field funct5_field
decoded-sc = (refl, refl, refl)

decoded-amoadd :
    (opcode_field amoadd_w ≡ 0x2f)
    × (funct3_field amoadd_w ≡ 0x2)
    × (funct5_field amoadd_w ≡ funct5 amoadd)
unfolding opcode_field funct3_field funct5_field
decoded-amoadd = (refl, refl, refl)

pub given : (instr value : ℕ) → value < 2 ^ 32 → Csr.read (stopped_at instr value).csr mtval ≡ value
unfolding Csr.read
given instr value h = ground arith

lr_effect_example :
    LoadReserved platform context
      (stopped_at lr_w lr_w)
      lr_w
      (context.reg (rs1_field lr_w))
      none
      (trap_invalid_inst platform context (stopped_at lr_w lr_w))
lr_effect_example =
    lr_effect platform context (stopped_at lr_w lr_w) lr_w (given lr_w lr_w (omega arith))
      decoded-lr

sc_effect_example :
    StoreConditional platform context
      (stopped_at sc_w sc_w)
      sc_w
      (source_reg context (rs1_field sc_w))
      (source_reg context (rs2_field sc_w))
      (0 == source_reg context (rs1_field sc_w))
      (trap_invalid_inst platform context (stopped_at sc_w sc_w))
sc_effect_example =
    sc_effect platform context (stopped_at sc_w sc_w) sc_w (given sc_w sc_w (omega arith))
      decoded-sc

small_source : source_reg context (rs2_field amoadd_w) < 2 ^ 32
unfolding rs2_field
small_source = omega arith

amo_effect_example :
    Exchanged platform context
      (stopped_at amoadd_w amoadd_w)
      amoadd
      amoadd_w
      (source_reg context (rs1_field amoadd_w))
      (source_reg context (rs2_field amoadd_w))
      none
      (trap_invalid_inst platform context (stopped_at amoadd_w amoadd_w))
amo_effect_example =
    amo_effect platform context (stopped_at amoadd_w amoadd_w) amoadd amoadd_w
      (given amoadd_w amoadd_w (omega arith)) decoded-amoadd small_source

supervisor_status-bit_example : bit 8 (supervisor_status 0x822) ≡ status_bit 0x822 8
supervisor_status-bit_example = supervisor_status-bit 0x822 8 (omega arith)
