-- ===== src/Tests/Traps.antt =====
-- Examples of several traps in a row.
use qrisc_v.Base.{ℕ, ◌^◌, ◌<◌, ◌≡◌, ◌≢◌, refl, arith, true, none, some, [], ◌∷◌}
use qrisc_v.Boot.State.{IrqContext, Machine, ok}
use qrisc_v.Boot.Emulation.Access.{put_word, word_of}
use qrisc_v.Boot.Emulation.Width.{rs1_field, rs2_field, rd_field}
use qrisc_v.Boot.Emulation.Atomic.{source_reg, set_reg, trap_invalid_inst}
use qrisc_v.Boot.Emulation.Reserve.{StoreConditional, lr_effect, next_inst, resumed}
use qrisc_v.Boot.Emulation.Monitor.{lr, Sequence, begins, moves}
use qrisc_v.Boot.Emulation.Monitor.{happens, loads, holds, sc-Monitor}
use qrisc_v.Boot.Emulation.RoundTrip.{IsStoreWord, store_then_load}
use qrisc_v.Boot.Emulation.RoundTrip.{misaligned-RoundTrip}
use qrisc_v.Tests.{platform, context, stopped_at}
use qrisc_v.Tests.Emulation.{lr_w, sc_w, lw, sw, decoded-lr, decoded-sc, given}

-- The address in x6.
address :
    (context.reg (rs1_field lr_w) ≡ 0x40001000) × (source_reg context (rs1_field sc_w) ≡ 0x40001000)
unfolding rs1_field
address = (refl, refl)

-- An LR, then the kernel runs up to an SC.
abbrev loaded : Machine
loaded = record (resumed platform (stopped_at lr_w lr_w)) {
  load_reservation = context.reg (rs1_field lr_w);
}

abbrev at_sc : Machine
at_sc = record (stopped_at sc_w sc_w) { load_reservation = context.reg (rs1_field lr_w) }

one_lr : Sequence platform (stopped_at lr_w lr_w) (lr (context.reg (rs1_field lr_w)) ∷ []) at_sc
one_lr =
    moves
      (happens context _ begins (loads lr_w (given lr_w lr_w (omega arith)) decoded-lr) (
        lr_effect platform context (stopped_at lr_w lr_w) lr_w (given lr_w lr_w (omega arith))
          decoded-lr))
      refl

lr_nonzero : context.reg (rs1_field lr_w) ≢ 0
lr_nonzero = rw (address.0) (omega arith)

sc_nonzero : source_reg context (rs1_field sc_w) ≢ 0
sc_nonzero = rw (address.1) (omega arith)

sc-Monitor_example :
    StoreConditional platform context at_sc sc_w
      (source_reg context (rs1_field sc_w))
      (source_reg context (rs2_field sc_w))
      (holds (some (context.reg (rs1_field lr_w))) (source_reg context (rs1_field sc_w)))
      (trap_invalid_inst platform context at_sc)
sc-Monitor_example =
    sc-Monitor platform none context sc_w one_lr (lr_nonzero, tt) refl
      (given sc_w sc_w (omega arith)) decoded-sc sc_nonzero

-- sw x7, 0(x6) at the context's address, and lw x5, 0(x6) behind it.
abbrev both : Machine
both = record (stopped_at 0 0) {
  mem = put_word platform true (put_word platform true (λ a. a) 0x40000000 sw) 0x40000004 lw;
}

abbrev behind : IrqContext
behind = record context { pc = 0x40000004 }

abbrev moved : ℕ
moved = source_reg context (rs2_field (word_of platform true both.mem 0x40000000))

moved-lt : moved < 2 ^ 32
unfolding rs2_field word_of put_word
moved-lt = omega arith

fetched_sw : IsStoreWord (word_of platform true both.mem 0x40000000)
unfolding word_of put_word
fetched_sw = (refl, refl)

fetched_lw :
    word_of platform true (put_word platform true both.mem 0x40001001 moved) 0x40000004 ≡ lw
unfolding word_of put_word
fetched_lw = refl

lw_register : rd_field lw ≢ 0
unfolding rd_field
lw_register = omega arith

misaligned-RoundTrip_example :
    let v = source_reg context (rs2_field (word_of platform true both.mem 0x40000000)) in
    let stored = put_word platform true both.mem 0x40001001 v in
    (after : Machine) × (store_then_load platform 0x40001001 context behind both
      ≡ ok
          (next_inst (set_reg behind (rd_field (word_of platform true stored 0x40000004)) v))
          after)
    × (after.mem ≡ stored)
misaligned-RoundTrip_example =
    misaligned-RoundTrip platform 0x40001001 context behind both (λ i. refl, λ i. refl)
      (omega arith, omega arith, omega arith, omega arith, omega arith, omega arith) refl refl
      moved-lt fetched_sw (rw fetched_lw (refl, refl)) (rw fetched_lw lw_register)
