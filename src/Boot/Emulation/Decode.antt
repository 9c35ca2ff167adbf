-- ===== src/Boot/Emulation/Decode.antt =====
-- The fields of an instruction word, as the handlers take them out.
use qrisc_v.Base.{ℕ, Bool, ◌||◌, ◌==◌, bit_and, ◌>>>◌}

unfoldable pub opcode_of : ℕ → ℕ
opcode_of instr = bit_and instr 0x7f

unfoldable pub funct3_of : ℕ → ℕ
funct3_of instr = bit_and (instr >>> 12) 0x7

unfoldable pub sel_of : ℕ → ℕ
sel_of instr = instr >>> 27

unfoldable pub rd_of : ℕ → ℕ
rd_of instr = bit_and (instr >>> 7) 0x1f

unfoldable pub rs1_of : ℕ → ℕ
rs1_of instr = bit_and (instr >>> 15) 0x1f

unfoldable pub rs2_of : ℕ → ℕ
rs2_of instr = bit_and (instr >>> 20) 0x1f

abbrev pub insn_match_lh : ℕ
insn_match_lh = 0x1003

abbrev pub insn_match_lw : ℕ
insn_match_lw = 0x2003

abbrev pub insn_match_lhu : ℕ
insn_match_lhu = 0x5003

abbrev pub insn_match_lwu : ℕ
insn_match_lwu = 0x6003

abbrev pub insn_match_sh : ℕ
insn_match_sh = 0x1023

abbrev pub insn_match_sw : ℕ
insn_match_sw = 0x2023

-- The masks are the same for the six.
abbrev pub insn_mask : ℕ
insn_mask = 0x707f

unfoldable pub matches : ℕ → ℕ → Bool
matches instr pattern = bit_and instr insn_mask == pattern

unfoldable pub is_load_word : ℕ → Bool
unfolding matches
is_load_word instr = matches instr insn_match_lw || matches instr insn_match_lwu

unfoldable pub is_load_half : ℕ → Bool
unfolding matches
is_load_half instr = matches instr insn_match_lh || matches instr insn_match_lhu
