-- ===== src/Boot/Emulation/Value.antt =====
-- The value of a misaligned load: the bytes that the loop gathers, extended, are the word or half
-- at the address as the architecture gives it.
use qrisc_v.Base.{◌||◌, sym}
use qrisc_v.Boot.Emulation.Width.{funct3_field, load_width, matches-fields, load_len-load_width}
use qrisc_v.Base.{ℕ, ◌+◌, ◌-◌, ◌*◌, ◌^◌, ◌<◌, ◌≡◌, ◌∙◌, true}
use qrisc_v.Base.{some, inl, inr, Bool-cases, u8, add32, ◌<<◌, bit_or, bit_and, arith}
use qrisc_v.Base.{◌==◌, ltb, if◌then◌else◌}
use qrisc_v.Base.Fields.{bit_or_disjoint, bit_and-one_bit}
use qrisc_v.Boot.State.{Platform}
use qrisc_v.Boot.Emulation.Access.{byte_at, word_of}
use qrisc_v.Boot.Emulation.Decode.{matches, is_load_word}
use qrisc_v.Boot.Emulation.Decode.{insn_match_lh}
use qrisc_v.Boot.Emulation.Misaligned.{load_len, extend}
use qrisc_v.Boot.Emulation.Bytes.{gathered, byte_of}

-- A shifted byte joins the bytes below it.
join : (k r q : ℕ) → r < 2 ^ k → q * 2 ^ k < 2 ^ 32 → bit_or r (q << k) ≡ q * 2 ^ k + r
join k r q h fits =
    let whole : q << k ≡ q * 2 ^ k = grind arith in rw whole (bit_or_disjoint k r q h)

-- The lower half of a word in memory.
unfoldable pub half_of : Platform → (ℕ → ℕ) → ℕ → ℕ
half_of env mem addr =
    u8 (mem (byte_at env true addr 0)) + 2 ^ 8 * u8 (mem (byte_at env true addr 1))

byte_of-byte_at :
    (env : Platform) (addr : ℕ) (mem : ℕ → ℕ) (i : ℕ)
    → byte_of env addr mem i ≡ u8 (mem (byte_at env true addr i))
byte_of-byte_at env addr mem i =
    let again : add32 (add32 addr i) 0 ≡ add32 addr i = omega arith in rw (again, byte_at)

gathered-two :
    (env : Platform) (addr : ℕ) (mem : ℕ → ℕ) → gathered env addr mem 2 ≡ half_of env mem addr
unfolding gathered half_of
gathered-two env addr mem =
    let b0 = byte_of env addr mem 0 in
    let b1 = byte_of env addr mem 1 in
    let e0 : bit_or 0 (b0 << 0) ≡ b0 * 2 ^ 0 + 0 = join 0 0 b0 (omega arith) (omega arith) in
    let f0 : b0 * 2 ^ 0 + 0 ≡ b0 = omega arith in
    rw
      (
        e0,
        f0,
        join 8 b0 b1 (omega arith) (omega arith),
        byte_of-byte_at env addr mem 0,
        byte_of-byte_at env addr mem 1,
      )
      (omega arith)

gathered-four :
    (env : Platform) (addr : ℕ) (mem : ℕ → ℕ) → gathered env addr mem 4 ≡ word_of env true mem addr
unfolding gathered word_of half_of
gathered-four env addr mem =
    let low = gathered-two env addr mem in
    let h = half_of env mem addr in
    let b2 = byte_of env addr mem 2 in
    let b3 = byte_of env addr mem 3 in
    rw
      (
        low,
        join 16 h b2 (omega arith) (omega arith),
        join 24 (b2 * 2 ^ 16 + h) b3 (omega arith) (omega arith),
        byte_of-byte_at env addr mem 2,
        byte_of-byte_at env addr mem 3,
      )
      (omega arith)

-- What the architecture says that a load gives: the word, or the half with its sign or zeros above.
abbrev pub sign_extended : ℕ → ℕ
sign_extended h = if ltb h (2 ^ 15) then h else h + (2 ^ 32 - 2 ^ 16)

abbrev pub loaded_value : Platform → (ℕ → ℕ) → ℕ → ℕ → ℕ
loaded_value env mem addr instr =
    if (funct3_field instr == 2) || (funct3_field instr == 6)
    then word_of env true mem addr
    else (if funct3_field instr == 1
        then sign_extended (half_of env mem addr)
        else half_of env mem addr)

-- The same, by the masks that the handler compares.
abbrev masked_value : Platform → (ℕ → ℕ) → ℕ → ℕ → ℕ
masked_value env mem addr instr =
    if is_load_word instr
    then word_of env true mem addr
    else (if matches instr insn_match_lh
        then sign_extended (half_of env mem addr)
        else half_of env mem addr)

masked-loaded_value :
    (env : Platform) (mem : ℕ → ℕ) (addr instr len : ℕ)
    → load_len instr ≡ some len
    → masked_value env mem addr instr ≡ loaded_value env mem addr instr
unfolding is_load_word
masked-loaded_value env mem addr instr len e =
    let wide : load_width instr ≡ some len = sym (load_len-load_width instr) ∙ e in
    rw (matches-fields instr 0x2003, matches-fields instr 0x6003, matches-fields instr 0x1003)
      (ground (arith, wide))

sign_test : (h : ℕ) → h < 2 ^ 16 → (bit_and h 0x8000 == 0) ≡ ltb h (2 ^ 15)
sign_test h small = rw (bit_and-one_bit 15 h) (ground arith)

extend_half : (h : ℕ) → h < 2 ^ 16 → bit_or h 0xFFFF0000 ≡ h + (2 ^ 32 - 2 ^ 16)
extend_half h small = omega (arith, bit_or_disjoint 16 h 0xffff small)

extend-word : (instr v : ℕ) → is_load_word instr ≡ true → extend instr v ≡ v
unfolding extend is_load_word matches
extend-word instr v h = ground arith

extend-half :
    (instr h : ℕ)
    → h < 2 ^ 16
    → extend instr h ≡ (if matches instr insn_match_lh then sign_extended h else h)
unfolding extend
extend-half instr h small = elim (Bool-cases (matches instr insn_match_lh)) [
  | inl signed ↦ rw (signed, sign_test h small, extend_half h small) (ground arith)
  | inr plain ↦ rw plain
]

half_of-lt : (env : Platform) (mem : ℕ → ℕ) (addr : ℕ) → half_of env mem addr < 2 ^ 16
unfolding half_of
half_of-lt env mem addr = omega arith

gathered-masked_value :
    (env : Platform) (mem : ℕ → ℕ) (addr instr len : ℕ)
    → load_len instr ≡ some len
    → extend instr (gathered env addr mem len) ≡ masked_value env mem addr instr
unfolding load_len
gathered-masked_value env mem addr instr len e = elim (Bool-cases (is_load_word instr)) [
  | inl word ↦
      let four : len ≡ 4 = ground arith in
      rw (four, word, gathered-four env addr mem) (extend-word instr _ word)
  | inr half ↦
      let two : len ≡ 2 = ground arith in
      rw (two, half, gathered-two env addr mem) (extend-half instr _ (half_of-lt env mem addr))
]

-- The gathered bytes, extended, are the architecture's value.
pub gathered-loaded_value :
    (env : Platform) (mem : ℕ → ℕ) (addr instr len : ℕ)
    → load_len instr ≡ some len
    → extend instr (gathered env addr mem len) ≡ loaded_value env mem addr instr
gathered-loaded_value env mem addr instr len e =
    gathered-masked_value env mem addr instr len e ∙ masked-loaded_value env mem addr instr len e
