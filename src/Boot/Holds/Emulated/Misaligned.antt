-- ===== src/Boot/Holds/Emulated/Misaligned.antt =====
-- Misaligned loads and stores resume as every emulated instruction does.
use qrisc_v.Base.{ℕ, zero, suc, ◌+◌, ◌*◌, ◌^◌, ◌<◌}
use qrisc_v.Base.{Option, none, some, arith}
use qrisc_v.Base.{add32, bit_or, u8, ◌<<◌}
use qrisc_v.Base.Fields.{bit_or-lt}
use qrisc_v.Boot.Csr
use qrisc_v.Boot.Csr.{CsrFile, mtvec, mtval}
use qrisc_v.Base.{◌>>>◌}
use qrisc_v.Boot.Emulation.Misaligned.{load_len, store_len}
use qrisc_v.Boot.State.{pure, Platform, IrqContext, Machine, M}
use qrisc_v.Base.{Bool-cases, inl, inr, ◌==◌}
use qrisc_v.Boot.Emulation.Decode.{rd_of}
use qrisc_v.Boot.Holds.Emulated.Atomic.{finish-Holds}
use qrisc_v.Boot.Holds.{Holds, returns, Holds-bind, Same}
use qrisc_v.Boot.Emulation.Decode.{rs2_of}
use qrisc_v.Boot.Emulation.Atomic.{source_reg, skip_instruction}
use qrisc_v.Boot.Emulation.Misaligned.{load_loop, store_loop, extend, write_back, load_bytes}
use qrisc_v.Boot.Emulation.Misaligned.{store_bytes, trap_misaligned_ld, trap_misaligned_st}
use qrisc_v.Boot.Holds.Emulated.{
  HasWords, IsSmall, Ends, read_byte-Holds, read_word-Holds, write_byte-Holds,
  skip_instruction-Holds, trap_to_supervisor-Holds, or_divert-Holds, or_divert-word,
}

module _ (env : Platform) (k : Machine) where
  module _ (ctx : IrqContext) (words : HasWords ctx) where
    extend-lt : (instr v : ℕ) → v < 2 ^ 32 → extend instr v < 2 ^ 32
    unfolding extend
    extend-lt instr v small = ground (arith, bit_or-lt 32 v 0xFFFF0000 small)

    load_loop-Holds :
        (n i addr acc : ℕ) (m : Machine)
        → acc < 2 ^ 32
        → Same k m
        → Holds (λ o m'. IsSmall o × Same k m') (load_loop env n i addr acc m)
    unfolding load_loop
    load_loop-Holds zero i addr acc m small same = returns (small, same)
    load_loop-Holds (suc n) i addr acc m small same =
        Holds-bind _ (read_byte-Holds env k m same (add32 addr i)) λ o m' h.
          elim o
              as (λ o.
                IsSmall o × Same k m'
                → Holds (λ o m'. IsSmall o × Same k m')
                    (elim o as (λ _. M (Option ℕ)) [
                      | none ↦ pure none
                      | some v ↦ load_loop env n (i + 1) addr (bit_or acc (v << (8 * i)))
                    ]
                      m')) [
                        | none ↦ λ g. returns (tt, g.1)
                        | some v ↦ λ g.
                            load_loop-Holds n (i + 1) addr (bit_or acc (v << (8 * i))) m'
                              (bit_or-lt 32 acc (v << (8 * i)) small (omega arith)) g.1
                      ]
            h

    store_loop-Holds :
        (n i addr v : ℕ) (m : Machine)
        → Same k m
        → Holds (λ _ m'. Same k m') (store_loop env n i addr v m)
    unfolding store_loop
    store_loop-Holds zero i addr v m same = returns same
    store_loop-Holds (suc n) i addr v m same =
        Holds-bind _ (write_byte-Holds env k m same (add32 addr i) (u8 (v >>> (8 * i)))) λ o m' h.
          elim o
            as (λ o.
              Holds (λ _ m'. Same k m')
                (elim o as (λ _. M (Option (Unit {0}))) [
                  | none ↦ pure none
                  | some _ ↦ store_loop env n (i + 1) addr v
                ]
                  m')) [ none ↦ returns h | some _ ↦ store_loop-Holds n (i + 1) addr v m' h ]

    write_back-Holds :
        (instr v : ℕ) (m : Machine)
        → v < 2 ^ 32
        → Same k m
        → Ends env k (write_back env ctx instr v m)
    unfolding write_back
    write_back-Holds instr v m small same = elim (Bool-cases (rd_of instr == 0)) [
      | inl none_wanted ↦ rw none_wanted (skip_instruction-Holds env k m same ctx words)
      | inr wanted ↦
          rw wanted
            (finish-Holds env k ctx words instr (extend instr v) m same (extend-lt instr v small))
    ]

    load_bytes-Holds :
        (addr instr : ℕ) (o : Option ℕ) (m : Machine)
        → Same k m
        → Ends env k (load_bytes env ctx addr instr o m)
    unfolding load_bytes
    load_bytes-Holds addr instr none m same =
        trap_to_supervisor-Holds env k m same ctx ctx.pc ctx.status words
    load_bytes-Holds addr instr (some len) m same =
        Holds-bind _ (load_loop-Holds len 0 addr 0 m (omega arith) same) λ o m' h.
          or_divert-word env k ctx o (write_back env ctx instr) m' words h
            λ v small. write_back-Holds instr v m' small h.1

    pub trap_misaligned_ld-Holds :
        (m : Machine) → Same k m → Ends env k (trap_misaligned_ld env ctx m)
    unfolding trap_misaligned_ld
    trap_misaligned_ld-Holds m same = Holds-bind _ (read_word-Holds env k m same ctx.pc) λ o m' h.
        or_divert-word env k ctx o _ m' words h
          λ instr _. load_bytes-Holds (Csr.read m.csr mtval) instr (load_len instr) m' h.1

    store_bytes-Holds :
        (addr instr : ℕ) (o : Option ℕ) (m : Machine)
        → Same k m
        → Ends env k (store_bytes env ctx addr instr o m)
    unfolding store_bytes
    store_bytes-Holds addr instr none m same =
        trap_to_supervisor-Holds env k m same ctx ctx.pc ctx.status words
    store_bytes-Holds addr instr (some len) m same =
        Holds-bind _ (store_loop-Holds len 0 addr (source_reg ctx (rs2_of instr)) m same) λ o m' h.
          or_divert-Holds env k ctx o (λ _. skip_instruction env ctx) m' words h
            (skip_instruction-Holds env k m' h ctx words)

    pub trap_misaligned_st-Holds :
        (m : Machine) → Same k m → Ends env k (trap_misaligned_st env ctx m)
    unfolding trap_misaligned_st
    trap_misaligned_st-Holds m same = Holds-bind _ (read_word-Holds env k m same ctx.pc) λ o m' h.
        or_divert-word env k ctx o _ m' words h
          λ instr _. store_bytes-Holds (Csr.read m.csr mtval) instr (store_len instr) m' h.1
