-- ===== src/Boot/Emulation/Amo.antt =====
-- The nine read-modify-write instructions: what each stores, and what the handler does with it.
use qrisc_v.Base.{
  ℕ, ◌+◌, ◌%◌, ◌^◌, ◌<◌, ◌≤◌, ◌≡◌, ◌≢◌, ◌⊎◌, refl, ◌∙◌, Bool, true, Option, none, some,
}
use qrisc_v.Base.{inl, inr, Option-cases, arith}
use qrisc_v.Base.{bit_and, bit_or, bit_xor}
use qrisc_v.Base.Int.{int32, ◌≤ℤ◌}
use qrisc_v.Boot.Csr
use qrisc_v.Boot.Csr.{mtvec, mtval}
use qrisc_v.Boot.State.{Platform, IrqContext, Machine, Run, ok}
use qrisc_v.Boot.Emulation.Access.{word_of, put_word}
use qrisc_v.Boot.Emulation.Width.{
  rd_field, rs1_field, rs2_field, funct5_field, opcode_field, funct3_field,
}
use qrisc_v.Boot.Emulation.Atomic.{set_reg, source_reg, or_divert, skip_instruction, amo_result}
use qrisc_v.Boot.Emulation.Atomic.{amo_store, atomic_op, trap_invalid_inst}
use qrisc_v.Boot.Emulation.Width.{
  opcode_of-opcode_field, funct3_of-funct3_field, sel_of-funct5_field, rs1_of-rs1_field,
  rs2_of-rs2_field, finish-rd,
}
use qrisc_v.Boot.Emulation.Atomic.{finish}
use qrisc_v.Boot.Emulation.Decode.{rd_of}
use qrisc_v.Boot.Emulation.Guard.{guarded, faulted, with_csr, read_word-ok, read_word-fault}
use qrisc_v.Boot.Emulation.Guard.{write_word-ok, write_word-fault, faulted-cause, faulted-addr}
use qrisc_v.Boot.Emulation.Guard.{faulted-same, guarded-same}
use qrisc_v.Boot.Emulation.Divert.{Diverted, trap_to_supervisor-Diverted}
use qrisc_v.Boot.Emulation.Reserve.{next_inst, first_fault-Diverted}

-- The instructions of the atomic extension, by their top five bits.
pub data Amo : Type 0 where
  amoadd amoswap amoxor amoand amoor amomin amomax amominu amomaxu : Amo

abbrev pub funct5 : Amo → ℕ
funct5 amoadd = 0x0
funct5 amoswap = 0x1
funct5 amoxor = 0x4
funct5 amoand = 0xc
funct5 amoor = 0x8
funct5 amomin = 0x10
funct5 amomax = 0x14
funct5 amominu = 0x18
funct5 amomaxu = 0x1c

-- `r` is the one of `a` and `b` that is below both, in an order.
abbrev pub IsLeast : (ℕ → ℕ → Type 0) → ℕ → ℕ → ℕ → Type 0
IsLeast Le a b r = ((r ≡ a) ⊎ (r ≡ b)) × Le r a × Le r b

abbrev pub IsGreatest : (ℕ → ℕ → Type 0) → ℕ → ℕ → ℕ → Type 0
IsGreatest Le a b r = ((r ≡ a) ⊎ (r ≡ b)) × Le a r × Le b r

abbrev pub SignedLe : ℕ → ℕ → Type 0
SignedLe a b = int32 a ≤ℤ int32 b

-- What the architecture says that an instruction stores, from its register and the old word.
abbrev pub Stores : Amo → ℕ → ℕ → ℕ → Type 0
Stores amoadd src old r = r ≡ (src + old) % 2 ^ 32
Stores amoswap src old r = r ≡ src
Stores amoxor src old r = r ≡ bit_xor src old
Stores amoand src old r = r ≡ bit_and src old
Stores amoor src old r = r ≡ bit_or src old
Stores amomin src old r = IsLeast SignedLe src old r
Stores amomax src old r = IsGreatest SignedLe src old r
Stores amominu src old r = IsLeast ◌≤◌ src old r
Stores amomaxu src old r = IsGreatest ◌≤◌ src old r

-- On operands of 32 bits, each of the nine codes gives a result, and the result is the
-- architecture's.
pub amo_result-Stores :
    (op : Amo) (src old : ℕ)
    → src < 2 ^ 32
    → old < 2 ^ 32
    → (r : ℕ) × (amo_result (funct5 op) src old ≡ some r) × Stores op src old r
unfolding amo_result
amo_result-Stores amoadd src old hs ho = (_, refl, refl)
amo_result-Stores amoswap src old hs ho = (_, refl, refl)
amo_result-Stores amoxor src old hs ho = (_, refl, refl)
amo_result-Stores amoand src old hs ho = (_, refl, refl)
amo_result-Stores amoor src old hs ho = (_, refl, refl)
amo_result-Stores amomin src old hs ho = (_, refl, ground arith)
amo_result-Stores amomax src old hs ho = (_, refl, ground arith)
amo_result-Stores amominu src old hs ho = (_, refl, ground arith)
amo_result-Stores amomaxu src old hs ho = (_, refl, ground arith)

-- No other code gives one.
pub amo_result-none :
    (sel src old : ℕ) → ((op : Amo) → sel ≢ funct5 op) → amo_result sel src old ≡ none
unfolding amo_result
amo_result-none sel src old ne = ground (
  arith,
  ne amoadd,
  ne amoswap,
  ne amoxor,
  ne amoand,
  ne amoor,
  ne amomin,
  ne amomax,
  ne amominu,
  ne amomaxu,
)

pub word_of-lt :
    (env : Platform) (p : Bool) (mem : ℕ → ℕ) (addr : ℕ) → word_of env p mem addr < 2 ^ 32
unfolding word_of
word_of-lt env p mem addr = omega arith

module _ (env : Platform) (ctx : IrqContext) (m : Machine) where
  -- The machine after a completed load, where the store begins.
  abbrev loaded : Machine
  loaded = with_csr m (guarded env m.csr)

  -- A fault of a second access is handed to the supervisor too.
  pub second_fault-Diverted :
      {A : Type 0} (next : A → Machine → Run IrqContext) (cause addr : ℕ)
      → Diverted env ctx cause addr m m.mem (
          or_divert env {A = A} ctx none next
            (with_csr loaded (faulted env cause addr (guarded env m.csr))))
  unfolding or_divert
  second_fault-Diverted next cause addr =
      trap_to_supervisor-Diverted env ctx m
        (with_csr loaded (faulted env cause addr (guarded env m.csr))) cause addr
        (faulted-cause env (guarded env m.csr) cause addr)
        (faulted-addr env (guarded env m.csr) cause addr)
        (λ r u.
          faulted-same env (guarded env m.csr) cause addr r u.0 u.1 u.2 u.3 u.4
          ∙ guarded-same env m.csr r u.0 u.1)
        refl

  -- The store of `v` after a load that gave `old`, by whether the store faults.
  abbrev pub Swapped : ℕ → ℕ → ℕ → ℕ → Option ℕ → Run IrqContext → Type 0
  Swapped instr addr old v none r =
      r
      ≡ ok (next_inst (set_reg ctx (rd_field instr) old)) (record m {
        mem = put_word env true m.mem addr v;
        csr = Csr.write (guarded env (guarded env m.csr)) mtvec env.isr_vector;
      })
  Swapped instr addr old v (some cause) r = Diverted env ctx cause addr m m.mem r

  amo_store_lem :
      (instr addr old v : ℕ)
      → Swapped instr addr old v
          (env.store_fault true 4 addr)
          (amo_store env ctx instr addr old (some v) loaded)
  unfolding amo_store skip_instruction
  amo_store_lem instr addr old v = elim (Option-cases (env.store_fault true 4 addr)) [
    | inl fine ↦ rw (fine, write_word-ok env loaded addr v fine, finish-rd env ctx instr old)
    | inr (cause, bad) ↦
        rw (bad, write_word-fault env loaded addr v bad)
          (second_fault-Diverted {A = Unit {0}} (λ _. finish env ctx (rd_of instr) old) cause addr)
  ]

  -- The whole instruction at `addr`, by whether the load faults.
  abbrev pub Exchanged : Amo → ℕ → ℕ → ℕ → Option ℕ → Run IrqContext → Type 0
  Exchanged op instr addr src none r =
      let old = word_of env true m.mem addr in
      (v : ℕ) × Stores op src old v × Swapped instr addr old v (env.store_fault true 4 addr) r
  Exchanged op instr addr src (some cause) r = Diverted env ctx cause addr m m.mem r

  trap_invalid_inst-amo :
      (op : Amo) (instr : ℕ)
      → Csr.read m.csr mtval ≡ instr
      → (opcode_field instr ≡ 0x2f) × (funct3_field instr ≡ 0x2) × (funct5_field instr ≡ funct5 op)
      → trap_invalid_inst env ctx m ≡ atomic_op env ctx instr m
  unfolding trap_invalid_inst
  trap_invalid_inst-amo amoadd instr e h = rw (
    e,
    opcode_of-opcode_field instr,
    funct3_of-funct3_field instr,
    sel_of-funct5_field instr,
    h.0,
    h.1,
    h.2,
  )
  trap_invalid_inst-amo op instr e h = rw (
    e,
    opcode_of-opcode_field instr,
    funct3_of-funct3_field instr,
    sel_of-funct5_field instr,
    h.0,
    h.1,
    h.2,
  )

  -- With one of the nine instructions in `mtval`, and 32 bits in its source register: it writes to
  -- memory what the architecture says of its register and the word
  -- there, and gives the old word; a fault of the load or of the store changes neither registers
  -- nor memory and goes to the supervisor.
  pub amo_effect :
      (op : Amo) (instr : ℕ)
      → Csr.read m.csr mtval ≡ instr
      → (opcode_field instr ≡ 0x2f) × (funct3_field instr ≡ 0x2) × (funct5_field instr ≡ funct5 op)
      → source_reg ctx (rs2_field instr) < 2 ^ 32
      → let addr = source_reg ctx (rs1_field instr) in
        Exchanged op instr addr
          (source_reg ctx (rs2_field instr))
          (env.load_fault true 4 addr)
          (trap_invalid_inst env ctx m)
  unfolding atomic_op
  amo_effect op instr e h small =
      let addr = source_reg ctx (rs1_field instr) in
      let src = source_reg ctx (rs2_field instr) in
      let old = word_of env true m.mem addr in
      rw
        (
          trap_invalid_inst-amo op instr e h,
          rs1_of-rs1_field instr,
          rs2_of-rs2_field instr,
          sel_of-funct5_field instr,
        )
        (elim (Option-cases (env.load_fault true 4 addr)) [
          | inl fine ↦
              let stored = amo_result-Stores op src old small (word_of-lt env true m.mem addr) in
              rw (fine, read_word-ok env m addr fine)
                (stored.0, stored.2, rw (h.2, stored.1) (amo_store_lem instr addr old stored.0))
          | inr (cause, bad) ↦
              rw (bad, read_word-fault env m addr bad)
                (first_fault-Diverted env ctx m
                  (λ data_read.
                    amo_store env ctx instr addr data_read
                      (amo_result (funct5_field instr) src data_read))
                  cause addr)
        ])
