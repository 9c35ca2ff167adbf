-- ===== src/Boot/Reset.antt =====
-- bootloader/boot.S from `start` to the call of `main`. The stack pointer's register is not part of
-- the machine; the static variables are what memory holds at the linker's addresses when `main` is
-- called, so the section that is cleared decides them.
pub mod Cleared
use qrisc_v.Base.{ℕ, zero, suc, ◌+◌, ◌*◌, ◌^◌, Bool, none, if◌then◌else◌, ltb, add32}
use qrisc_v.Base.Int.{ltb_ℤ, int32}
use qrisc_v.Base.{false}
use qrisc_v.Boot.Csr
use qrisc_v.Boot.Csr.{mtvec}
use qrisc_v.Boot.State.{Platform, Machine, M, ok, stalled, modify, csr_write, ◌>>=◌, ◌>>◌}
use qrisc_v.Boot.Emulation.Access.{word_of, put_word}
use qrisc_v.Boot.Exception.{cause_max_exc}
use qrisc_v.Boot.Start.{Config, Entry, main}

-- The branch of the loop compares signed numbers.
abbrev pub blt : ℕ → ℕ → Bool
blt a b = ltb_ℤ (int32 a) (int32 b)

-- More words than the address space has.
unfoldable pub clear_fuel : ℕ
clear_fuel = 2 ^ 30

module _ (env : Platform) where
  -- The test is behind the store: the first word is cleared in any case.
  unfoldable pub bss_clear : ℕ → ℕ → ℕ → M (Unit {0})
  bss_clear zero t0 t1 m = stalled m
  bss_clear (suc n) t0 t1 m =
      let m' = record m { mem = put_word env false m.mem t0 0 } in
      let next = add32 t0 4 in
      let rest = bss_clear n next t1 m' in if blt next t1 then rest else ok tt m'

  -- The static variables as memory has them: pointers, the number of the UART's address, and the
  -- reserved address.
  abbrev pub statics : Machine → Machine
  statics m =
      let at = λ (a : ℕ). word_of env false m.mem a in
      let image = env.image in
      record m {
        exception_table = λ c.
            if ltb c cause_max_exc
            then image.handler_at (at (image.exception_table + 4 * c))
            else none;
        irq_handler = image.irq_handler_at (at image.irq_handler);
        load_reservation = at image.load_reservation;
        m_uart = at image.m_uart;
      }

  unfoldable pub start : Config → M Entry
  unfolding bss_clear
  start config = do
    csr_write mtvec env.isr_vector
    bss_clear clear_fuel env.image.bss_start env.image.bss_end
    modify statics
    main env config
