-- ===== src/Sdk/Startup.antt =====
-- sdk/baremetal/crt0.S: from the reset to the call of `main`. The hart is what the code sets up:
-- the enabled interrupts, the stack pointer, the arguments of `main`, and memory.
use qrisc_v.Base.{rounded, ℕ, zero, suc, ◌+◌, ◌-◌, ◌*◌, ◌/◌, ◌^◌, ◌≤◌, ◌<◌, ◌≡◌, refl, ◌∙◌, arith}
use qrisc_v.Base.{true, false, Option, none, some, leb, if◌then◌else◌}
use qrisc_v.Base.{add32, update, ◌%◌, ◌==◌}
use qrisc_v.Boot.Reset.Cleared.{zeroed, zeroed_step}

pub record Hart : Type 0 where
  pub mie : ℕ
  pub sp : ℕ
  pub a0 : ℕ
  pub a1 : ℕ
  pub mem : ℕ → ℕ

-- The symbols of link.ld.
pub record Symbols : Type 0 where
  pub stack_top : ℕ
  pub bss_start : ℕ
  pub bss_end : ℕ

-- Four bytes of zeros.
abbrev word_zeroed : ℕ → (ℕ → ℕ) → ℕ → ℕ
word_zeroed t0 mem =
    update (update (update (update mem (add32 t0 0) 0) (add32 t0 1) 0) (add32 t0 2) 0) (add32 t0 3)
      0

-- `sw zero, 0(t0)`: at an address that is no multiple of four the core traps
-- (src/core/biriscv_lsu.v), and the start-up has set no vector.
unfoldable pub store_zero : ℕ → (ℕ → ℕ) → Option (ℕ → ℕ)
store_zero t0 mem = if t0 % 4 == 0 then some (word_zeroed t0 mem) else none

-- The test is before the store: an empty section is left alone. `none` is a trap, or the end of
-- the rounds.
unfoldable pub clear_loop : ℕ → ℕ → ℕ → (ℕ → ℕ) → Option (ℕ → ℕ)
unfolding store_zero
clear_loop zero t0 t1 mem = none
clear_loop (suc n) t0 t1 mem =
    let rest : Option (ℕ → ℕ) = elim (store_zero t0 mem) [
      | none ↦ none
      | some mem' ↦ clear_loop n (add32 t0 4) t1 mem'
    ] in
    if leb t1 t0 then some mem else rest

-- More rounds than there are words.
unfoldable pub clear_rounds : ℕ
clear_rounds = 2 ^ 30 + 1

abbrev ready : Symbols → Option (ℕ → ℕ) → Option Hart
ready s none = none
ready s (some mem) = some (record { mie = 0; sp = s.stack_top; a0 = 0; a1 = 0; mem = mem })

-- What `main` is called on.
unfoldable pub crt0_start : Symbols → Hart → Option Hart
unfolding clear_loop
crt0_start s h = ready s (clear_loop clear_rounds s.bss_start s.bss_end h.mem)

word_zeroed-zeroed :
    (lo : ℕ) (mem : ℕ → ℕ) (a : ℕ)
    → lo + 4 ≤ 2 ^ 32
    → word_zeroed lo mem a ≡ zeroed lo (lo + 4) mem a
word_zeroed-zeroed lo mem a h = ground arith

abbrev LoopEnd : ℕ → ℕ → (ℕ → ℕ) → Option (ℕ → ℕ) → Type 0
LoopEnd lo hi mem r = (mem' : ℕ → ℕ) × (r ≡ some mem') × ((a : ℕ) → mem' a ≡ zeroed lo hi mem a)

clear_loop-LoopEnd :
    (n k lo hi : ℕ) (mem : ℕ → ℕ)
    → k < n
    → lo % 4 ≡ 0
    → lo + 4 * k < 2 ^ 32
    → (hi ≤ lo + 4 * k) × (lo + 4 * k < hi + 4)
    → LoopEnd lo (lo + 4 * k) mem (clear_loop n lo hi mem)
unfolding clear_loop store_zero
clear_loop-LoopEnd zero k lo hi mem fuel even top h = absurd (omega arith)
clear_loop-LoopEnd (suc n) zero lo hi mem fuel even top h =
    let done : leb hi lo ≡ true = ground (arith, h) in rw done (mem, refl, λ a. ground arith)
clear_loop-LoopEnd (suc n) (suc k) lo hi mem fuel even top h =
    let more : leb hi lo ≡ false = ground (arith, h) in
    let next : add32 lo 4 ≡ lo + 4 = omega arith in
    let end : lo + 4 * suc k ≡ lo + 4 + 4 * k = omega arith in
    let rest =
      clear_loop-LoopEnd n k (lo + 4) hi (word_zeroed lo mem) (omega arith) (omega (arith, even))
        (omega arith) (omega (arith, h)) in
    rw (more, even, next, end)
      (
        rest.0,
        rest.1,
        λ a.
            rest.2 a
            ∙ zeroed_step lo (lo + 4 + 4 * k) mem (word_zeroed lo mem) a (omega arith)
                (word_zeroed-zeroed lo mem a (omega arith)),
      )

fuel_lem : (lo hi : ℕ) → lo ≤ hi → hi + 3 < 2 ^ 32 → (hi - lo + 3) / 4 < clear_rounds
unfolding clear_rounds
fuel_lem lo hi le top = omega arith

-- With a section that starts at a multiple of four and ends at least four bytes before the end of
-- the address space: `main` is always reached, with interrupts off, the stack pointer at its top,
-- two zero arguments, zeros in every byte of the section rounded up to words, and every other byte
-- as it was.
pub crt0_start_effect :
    (s : Symbols) (h : Hart)
    → s.bss_start % 4 ≡ 0
    → s.bss_start ≤ s.bss_end
    → s.bss_end + 3 < 2 ^ 32
    → (mem : ℕ → ℕ) × (crt0_start s h
        ≡ some (record { mie = 0; sp = s.stack_top; a0 = 0; a1 = 0; mem = mem }))
      × ((a : ℕ)
          → mem a ≡ zeroed s.bss_start (s.bss_start + rounded (s.bss_end - s.bss_start)) h.mem a)
unfolding crt0_start
crt0_start_effect s h even le top =
    let k = (s.bss_end - s.bss_start + 3) / 4 in
    let ends =
      clear_loop-LoopEnd clear_rounds k s.bss_start s.bss_end h.mem
        (fuel_lem s.bss_start s.bss_end le top) even (omega (arith, le, top)) (omega (arith, le)) in
    let size : 4 * k ≡ rounded (s.bss_end - s.bss_start) = omega arith in
    (ends.0, rw (ends.1), rw size at (ends.2))
