-- ===== src/Boot/Reset/Cleared.antt =====
-- What `main` finds: boot.S clears the section and nothing else, so the static variables are zero.
use qrisc_v.Base.{
  ℕ, zero, suc, ◌+◌, ◌-◌, ◌*◌, ◌/◌, ◌%◌, ◌^◌, ◌≤◌, ◌<◌, ◌≡◌, ◌⊎◌, refl, ◌∙◌, fun_ext,
}
use qrisc_v.Base.{inl, inr, true, false, none, ◌&&◌, leb, ltb, if◌then◌else◌, add32}
use qrisc_v.Base.{arith, Bool-cases}
use qrisc_v.Boot.Csr
use qrisc_v.Boot.Csr.{mtvec}
use qrisc_v.Boot.State.{Platform, Image, Machine, Run, ok}
use qrisc_v.Boot.Emulation.Access.{word_of, put_word}
use qrisc_v.Boot.Start.{Config, main}
use qrisc_v.Boot.Start.Copy.{IsBare, bare_word, bare_put}
use qrisc_v.Boot.Reset.{blt, clear_fuel, bss_clear, statics, start}

-- A section in one half of the address space, where signed and unsigned comparisons agree.
abbrev pub IsInHalf : ℕ → ℕ → Type 0
IsInHalf lo hi = (hi < 2 ^ 31) ⊎ ((2 ^ 31 ≤ lo) × (hi < 2 ^ 32))

-- `n` bytes of the section.
abbrev pub IsInside : Image → ℕ → ℕ → Type 0
IsInside image a n = (image.bss_start ≤ a) × (a + n ≤ image.bss_end)

-- What the linker script makes of the image.
pub record IsLinked (env : Platform) : Type 0 where
  pub aligned : (env.image.bss_start % 4 ≡ 0) × (env.image.bss_end % 4 ≡ 0)
  pub nonempty : env.image.bss_start < env.image.bss_end
  pub half : IsInHalf env.image.bss_start env.image.bss_end
  pub table : IsInside env.image env.image.exception_table 64
  pub hook : IsInside env.image env.image.irq_handler 4
  pub reservation : IsInside env.image env.image.load_reservation 4
  pub console : IsInside env.image env.image.m_uart 4
  pub stack : env.stack_top < env.image.bss_end
  pub no_handler : env.image.handler_at 0 ≡ none
  pub no_irq_handler : env.image.irq_handler_at 0 ≡ none

-- Memory with zeros from `lo` up to `hi`.
abbrev pub zeroed : ℕ → ℕ → (ℕ → ℕ) → ℕ → ℕ
zeroed lo hi mem a = if leb lo a && ltb a hi then 0 else mem a

blt-ltb : (a b : ℕ) → a ≤ b → IsInHalf a b → blt a b ≡ ltb a b
blt-ltb a b le h = ground arith

pub zeroed_step :
    (lo hi : ℕ) (mem now : ℕ → ℕ) (a : ℕ)
    → lo + 4 ≤ hi
    → now a ≡ zeroed lo (lo + 4) mem a
    → zeroed (lo + 4) hi now a ≡ zeroed lo hi mem a
zeroed_step lo hi mem now a le h = ground (arith, h)

module _ (env : Platform) (bare : IsBare env) where
  word_zeroed :
      (mem : ℕ → ℕ) (lo a : ℕ)
      → lo + 4 ≤ 2 ^ 32
      → put_word env false mem lo 0 a ≡ zeroed lo (lo + 4) mem a
  word_zeroed mem lo a h = rw (bare_put env bare mem lo 0 h) (ground arith)

  -- What clearing up to `hi` leaves behind.
  abbrev pub ClearEnd : ℕ → ℕ → Machine → Run (Unit {0}) → Type 0
  ClearEnd lo hi m r =
      (mem : ℕ → ℕ) × (r ≡ ok tt (record m { mem = mem }))
      × ((a : ℕ) → mem a ≡ zeroed lo hi m.mem a)

  bss_clear-ClearEnd :
      (n k lo : ℕ) (m : Machine)
      → k < n
      → IsInHalf lo (lo + 4 * suc k)
      → ClearEnd lo (lo + 4 * suc k) m (bss_clear env n lo (lo + 4 * suc k) m)
  unfolding bss_clear
  bss_clear-ClearEnd zero k lo m fuel half = absurd (omega arith)
  bss_clear-ClearEnd (suc n) zero lo m fuel half =
      let next : add32 lo 4 ≡ lo + 4 = omega arith in
      let last : blt (lo + 4) (lo + 4) ≡ false =
        blt-ltb (lo + 4) (lo + 4) (omega arith) (ground arith) ∙ ground arith in
      rw (next, last) (_, refl, λ a. word_zeroed m.mem lo a (omega arith))
  bss_clear-ClearEnd (suc n) (suc k) lo m fuel half =
      let next : add32 lo 4 ≡ lo + 4 = omega arith in
      let end : lo + 4 * suc (suc k) ≡ lo + 4 + 4 * suc k = omega arith in
      let now = put_word env false m.mem lo 0 in
      let more : blt (lo + 4) (lo + 4 + 4 * suc k) ≡ true =
        blt-ltb (lo + 4) _ (omega arith) (ground arith) ∙ ground arith in
      let rest =
        bss_clear-ClearEnd n k (lo + 4) (record m { mem = now }) (omega arith) (ground arith) in
      rw (next, end, more)
        (
          rest.0,
          rest.1,
          λ a.
              rest.2 a
              ∙ zeroed_step lo (lo + 4 + 4 * suc k) m.mem now a (omega arith)
                  (word_zeroed m.mem lo a (omega arith)),
        )

-- The machine that `main` starts on, with memory `mem`.
abbrev pub cleared : Platform → (ℕ → ℕ) → Machine → Machine
cleared env mem m = record m {
  mem = mem;
  csr = Csr.write m.csr mtvec env.isr_vector;
  exception_table = λ c. none;
  irq_handler = none;
  load_reservation = 0;
  m_uart = 0;
}

module _ (env : Platform) (bare : IsBare env) (linked : IsLinked env) where
  abbrev IsZeroed : (ℕ → ℕ) → (ℕ → ℕ) → Type 0
  IsZeroed mem now = (a : ℕ) → now a ≡ zeroed env.image.bss_start env.image.bss_end mem a

  word_zero :
      (mem now : ℕ → ℕ) (a : ℕ)
      → IsZeroed mem now
      → IsInside env.image a 4
      → word_of env false now a ≡ 0
  word_zero mem now a h inside =
      let top : env.image.bss_end ≤ 2 ^ 32 = ground (arith, linked.half) in
      rw (bare_word env bare now a (omega arith), h (a + 0), h (a + 1), h (a + 2), h (a + 3))
        (ground arith)

  table_lem :
      (mem now : ℕ → ℕ) (c : ℕ)
      → IsZeroed mem now
      → (if ltb c 16
          then env.image.handler_at (word_of env false now (env.image.exception_table + 4 * c))
          else none)
        ≡ none
  table_lem mem now c h = elim (Bool-cases (ltb c 16)) [
    | inr outside ↦ rw outside
    | inl entry ↦
        let at = env.image.exception_table + 4 * c in
        let inside : IsInside env.image at 4 = ground (arith, linked.table) in
        rw (entry, word_zero mem now at h inside) (linked.no_handler)
  ]

  statics_lem :
      (mem now : ℕ → ℕ) (m : Machine)
      → IsZeroed mem now
      → statics env (record m { mem = now }) ≡ record m {
        mem = now;
        exception_table = λ c. none;
        irq_handler = none;
        load_reservation = 0;
        m_uart = 0;
      }
  statics_lem mem now m h =
      let table : (λ (c : ℕ).
        if ltb c 16
        then env.image.handler_at (word_of env false now (env.image.exception_table + 4 * c))
        else none)
          ≡ (λ c. none) =
        fun_ext λ c. table_lem mem now c h in
      rw (
        table,
        word_zero mem now env.image.irq_handler h linked.hook,
        word_zero mem now env.image.load_reservation h linked.reservation,
        word_zero mem now env.image.m_uart h linked.console,
        linked.no_irq_handler,
      )

  -- The number of words, less one.
  abbrev more_words : ℕ
  more_words = (env.image.bss_end - env.image.bss_start) / 4 - 1

  size_lem : env.image.bss_start + 4 * suc more_words ≡ env.image.bss_end
  size_lem = omega (arith, linked.aligned, linked.nonempty)

  fuel_lem : more_words < clear_fuel
  unfolding clear_fuel
  fuel_lem = ground (arith, linked.half)

  section-ClearEnd :
      (m : Machine)
      → ClearEnd env bare env.image.bss_start env.image.bss_end m
          (bss_clear env clear_fuel env.image.bss_start env.image.bss_end m)
  section-ClearEnd m = rw size_lem at (
      bss_clear-ClearEnd env bare clear_fuel more_words env.image.bss_start m fuel_lem
        (rw size_lem linked.half))

  -- With the sections and variables where the linker script puts them and physical addresses in
  -- machine mode: the start always comes to `main`, with zeros in every byte of the section and
  -- every other byte as it was, no handler in the table, no hook, no reservation, no console, and
  -- the vector set.
  pub start_effect :
      (config : Config) (m : Machine)
      → (mem : ℕ → ℕ) × (start env config m ≡ main env config (cleared env mem m))
        × ((a : ℕ) → mem a ≡ zeroed env.image.bss_start env.image.bss_end m.mem a)
  unfolding start
  start_effect config m =
      let vectored = record m { csr = Csr.write m.csr mtvec env.isr_vector } in
      let ends = section-ClearEnd vectored in
      (ends.0, rw (ends.1, statics_lem m.mem ends.0 vectored ends.2), ends.2)
