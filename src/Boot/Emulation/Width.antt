-- ===== src/Boot/Emulation/Width.antt =====
-- The architecture's fields of an instruction (its opcode, functions and registers by their places
-- in the word), and the width of a load or store by them.
use qrisc_v.Base.{ℕ, ◌+◌, ◌*◌, ◌/◌, ◌%◌, ◌^◌, ◌≡◌, ◌∙◌, ap, Option, none, some}
use qrisc_v.Base.{◌==◌, ◌||◌, if◌then◌else◌, bit_and, arith}
use qrisc_v.Base.Fields.{bit_and_split, bit_and_low}
use qrisc_v.Base.{ltb, true, refl}
use qrisc_v.Boot.State.{Platform, IrqContext}
use qrisc_v.Boot.Emulation.Atomic.{finish, set_reg, skip_instruction}
use qrisc_v.Boot.Emulation.Decode.{opcode_of, funct3_of, sel_of, rd_of, rs1_of, rs2_of}
use qrisc_v.Boot.Emulation.Decode.{matches, is_load_word, is_load_half}
use qrisc_v.Boot.Emulation.Misaligned.{load_len, store_len}

abbrev pub opcode_field : ℕ → ℕ
opcode_field instr = instr % 2 ^ 7

abbrev pub funct3_field : ℕ → ℕ
funct3_field instr = instr / 2 ^ 12 % 2 ^ 3

-- The top five bits of an atomic instruction, and the registers.
abbrev pub funct5_field : ℕ → ℕ
funct5_field instr = instr / 2 ^ 27

abbrev pub rd_field : ℕ → ℕ
rd_field instr = instr / 2 ^ 7 % 2 ^ 5

abbrev pub rs1_field : ℕ → ℕ
rs1_field instr = instr / 2 ^ 15 % 2 ^ 5

abbrev pub rs2_field : ℕ → ℕ
rs2_field instr = instr / 2 ^ 20 % 2 ^ 5

-- The handlers take out the same.
pub opcode_of-opcode_field : (instr : ℕ) → opcode_of instr ≡ opcode_field instr
unfolding opcode_of
opcode_of-opcode_field instr = bit_and_low 7 instr

pub funct3_of-funct3_field : (instr : ℕ) → funct3_of instr ≡ funct3_field instr
unfolding funct3_of
funct3_of-funct3_field instr = bit_and_low 3 (instr / 2 ^ 12)

pub sel_of-funct5_field : (instr : ℕ) → sel_of instr ≡ funct5_field instr
unfolding sel_of
sel_of-funct5_field instr = refl

pub rd_of-rd_field : (instr : ℕ) → rd_of instr ≡ rd_field instr
unfolding rd_of
rd_of-rd_field instr = bit_and_low 5 (instr / 2 ^ 7)

pub rs1_of-rs1_field : (instr : ℕ) → rs1_of instr ≡ rs1_field instr
unfolding rs1_of
rs1_of-rs1_field instr = bit_and_low 5 (instr / 2 ^ 15)

pub rs2_of-rs2_field : (instr : ℕ) → rs2_of instr ≡ rs2_field instr
unfolding rs2_of
rs2_of-rs2_field instr = bit_and_low 5 (instr / 2 ^ 20)

-- The destination's field is within the array.
pub finish-rd :
    (env : Platform) (ctx : IrqContext) (instr v : ℕ)
    → finish env ctx (rd_of instr) v ≡ skip_instruction env (set_reg ctx (rd_field instr) v)
unfolding finish
finish-rd env ctx instr v =
    let fits : ltb (rd_field instr) 32 ≡ true = ground arith in rw (rd_of-rd_field instr, fits)

-- LH, LW, LHU and LWU.
abbrev pub load_width : ℕ → Option ℕ
load_width instr =
    if opcode_field instr == 3
    then (if (funct3_field instr == 2) || (funct3_field instr == 6)
        then some 4
        else (if (funct3_field instr == 1) || (funct3_field instr == 5) then some 2 else none))
    else none

-- SH and SW.
abbrev pub store_width : ℕ → Option ℕ
store_width instr =
    if opcode_field instr == 35
    then (if funct3_field instr == 2
        then some 4
        else (if funct3_field instr == 1 then some 2 else none))
    else none

mask_fields : (instr : ℕ) → bit_and instr 0x707f ≡ funct3_field instr * 2 ^ 12 + opcode_field instr
mask_fields instr =
    let parts : instr ≡ instr / 2 ^ 12 * 2 ^ 12 + instr % 2 ^ 12 = omega arith in
    ap (λ (x : ℕ). bit_and x 0x707f) parts
    ∙ bit_and_split 12 (instr / 2 ^ 12) 7 (instr % 2 ^ 12) 0x7f (omega arith) (omega arith)
    ∙ rw (bit_and_low 3 (instr / 2 ^ 12), bit_and_low 7 (instr % 2 ^ 12)) (omega arith)

pub matches-fields :
    (instr pattern : ℕ)
    → matches instr pattern ≡ (funct3_field instr * 2 ^ 12 + opcode_field instr == pattern)
unfolding matches
matches-fields instr pattern = ap (λ (x : ℕ). x == pattern) (mask_fields instr)

pub load_len-load_width : (instr : ℕ) → load_len instr ≡ load_width instr
unfolding load_len is_load_word is_load_half
load_len-load_width instr =
    rw
      (
        matches-fields instr 0x2003,
        matches-fields instr 0x6003,
        matches-fields instr 0x1003,
        matches-fields instr 0x5003,
      )
      (ground arith)

pub store_len-store_width : (instr : ℕ) → store_len instr ≡ store_width instr
unfolding store_len
store_len-store_width instr =
    rw (matches-fields instr 0x2023, matches-fields instr 0x1023) (ground arith)
