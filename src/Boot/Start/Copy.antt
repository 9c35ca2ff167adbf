-- ===== src/Boot/Start/Copy.antt =====
-- `flash_memcpy`: the words that it copies, rounded up to whole words, and the asserts before it.
use qrisc_v.Boot.State.{Run}
use qrisc_v.Base.{ℕ, zero, suc, ◌+◌, ◌-◌, ◌*◌, ◌/◌, ◌%◌, ◌^◌, ◌≤◌, ◌<◌, ◌≡◌, ◌⊎◌, refl, ◌∙◌, ap}
use qrisc_v.Base.{false, ◌&&◌, ltb, leb, if◌then◌else◌, u8, add32, update, arith}
use qrisc_v.Base.Fields.{bit_and_low}
use qrisc_v.Boot.State.{Platform, Machine, ok}
use qrisc_v.Boot.Emulation.Access.{byte_at, word_of, put_word}
use qrisc_v.Boot.Start.{copy_loop, flash_memcpy}

-- In machine mode, without translation, an address is its own physical address.
abbrev pub IsBare : Platform → Type 0
IsBare env = (a : ℕ) → a < 2 ^ 32 → env.phys false a ≡ a

-- Two regions of `n` bytes that lie in the address space and share none.
abbrev pub IsDisjoint : ℕ → ℕ → ℕ → Type 0
IsDisjoint n dst src = (dst + n ≤ 2 ^ 32) × (src + n ≤ 2 ^ 32) × ((dst + n ≤ src) ⊎ (src + n ≤ dst))

-- Memory with `n` bytes of `src` at `dst`.
abbrev pub copied : ℕ → ℕ → ℕ → (ℕ → ℕ) → ℕ → ℕ
copied n dst src mem a = if leb dst a && ltb a (dst + n) then u8 (mem (src + (a - dst))) else mem a

module _ (env : Platform) (bare : IsBare env) where
  bare_byte : (a i : ℕ) → a + i < 2 ^ 32 → byte_at env false a i ≡ a + i
  bare_byte a i h =
      let inside : add32 a i ≡ a + i = omega arith in
      ap (λ (x : ℕ). env.phys false x) inside ∙ bare (a + i) h

  pub bare_word :
      (mem : ℕ → ℕ) (a : ℕ)
      → a + 4 ≤ 2 ^ 32
      → word_of env false mem a
        ≡ u8 (mem (a + 0))
          + 2 ^ 8 * u8 (mem (a + 1))
          + 2 ^ 16 * u8 (mem (a + 2))
          + 2 ^ 24 * u8 (mem (a + 3))
  unfolding word_of
  bare_word mem a h = rw (
    bare_byte a 0 (omega arith),
    bare_byte a 1 (omega arith),
    bare_byte a 2 (omega arith),
    bare_byte a 3 (omega arith),
  )

  pub bare_put :
      (mem : ℕ → ℕ) (a v : ℕ)
      → a + 4 ≤ 2 ^ 32
      → put_word env false mem a v
        ≡ update
            (update
              (update (update mem (a + 0) (u8 v)) (a + 1) (u8 (v / 2 ^ 8)))
              (a + 2)
              (u8 (v / 2 ^ 16)))
            (a + 3)
            (u8 (v / 2 ^ 24))
  unfolding put_word
  bare_put mem a v h = rw (
    bare_byte a 0 (omega arith),
    bare_byte a 1 (omega arith),
    bare_byte a 2 (omega arith),
    bare_byte a 3 (omega arith),
  )

  -- The four bytes that one step writes.
  word_bytes :
      (b0 b1 b2 b3 : ℕ)
      → let v = u8 b0 + 2 ^ 8 * u8 b1 + 2 ^ 16 * u8 b2 + 2 ^ 24 * u8 b3 in
        (u8 v ≡ u8 b0)
        × (u8 (v / 2 ^ 8) ≡ u8 b1)
        × (u8 (v / 2 ^ 16) ≡ u8 b2)
        × (u8 (v / 2 ^ 24) ≡ u8 b3)
  word_bytes b0 b1 b2 b3 = omega arith

  at_offset : (mem : ℕ → ℕ) (dst src a k : ℕ) → a ≡ dst + k → mem (src + (a - dst)) ≡ mem (src + k)
  at_offset mem dst src a k e =
      let offset : src + (a - dst) ≡ src + k = omega arith in ap mem offset

  word_copied :
      (mem : ℕ → ℕ) (dst src a : ℕ)
      → dst + 4 ≤ 2 ^ 32
      → src + 4 ≤ 2 ^ 32
      → put_word env false mem dst (word_of env false mem src) a ≡ copied 4 dst src mem a
  word_copied mem dst src a hd hs =
      let b = word_bytes (mem (src + 0)) (mem (src + 1)) (mem (src + 2)) (mem (src + 3)) in
      rw (bare_word mem src hs, bare_put mem dst _ hd, b.0, b.1, b.2, b.3)
        (ground (
          arith,
          at_offset mem dst src a 0,
          at_offset mem dst src a 1,
          at_offset mem dst src a 2,
          at_offset mem dst src a 3,
        ))

  -- Copying a word, then the rest.
  copied_step :
      (n dst src : ℕ) (mem now : ℕ → ℕ) (a : ℕ)
      → IsDisjoint (n + 4) dst src
      → ((x : ℕ) → now x ≡ copied 4 dst src mem x)
      → copied n (dst + 4) (src + 4) now a ≡ copied (n + 4) dst src mem a
  copied_step n dst src mem now a d h =
      ground (arith, h a, h (src + 4 + (a - (dst + 4))), at_later mem dst src a)
    where
      at_later :
          (mem : ℕ → ℕ) (dst src a : ℕ)
          → dst + 4 ≤ a
          → mem (src + 4 + (a - (dst + 4))) ≡ mem (src + (a - dst))
      at_later mem dst src a le =
          let same : src + 4 + (a - (dst + 4)) ≡ src + (a - dst) = omega arith in ap mem same

  -- What a copy of `n` bytes leaves behind.
  abbrev pub CopyEnd : ℕ → ℕ → ℕ → Machine → Run (Unit {0}) → Type 0
  CopyEnd n dst src m r =
      (mem : ℕ → ℕ) × (r ≡ ok tt (record m { mem = mem }))
      × ((a : ℕ) → mem a ≡ copied n dst src m.mem a)

  copied_none : (dst src : ℕ) (mem : ℕ → ℕ) (a : ℕ) → mem a ≡ copied 0 dst src mem a
  copied_none dst src mem a = ground arith

  copy_loop-CopyEnd :
      (words dst src : ℕ) (m : Machine)
      → IsDisjoint (words * 4) dst src
      → CopyEnd (words * 4) dst src m (copy_loop env words dst src m)
  unfolding copy_loop
  copy_loop-CopyEnd zero dst src m d =
      let nothing : zero * 4 ≡ 0 = omega arith in
      rw nothing (m.mem, refl, copied_none dst src m.mem)
  copy_loop-CopyEnd (suc zero) dst src m d =
      (_, refl, λ a. word_copied m.mem dst src a (omega arith) (omega arith))
  copy_loop-CopyEnd (suc (suc words)) dst src m d =
      let size : suc (suc words) * 4 ≡ suc words * 4 + 4 = omega arith in
      let next_dst : add32 dst 4 ≡ dst + 4 = omega arith in
      let next_src : add32 src 4 ≡ src + 4 = omega arith in
      let now = put_word env false m.mem dst (word_of env false m.mem src) in
      let rest =
        copy_loop-CopyEnd (suc words) (dst + 4) (src + 4) (record m { mem = now }) (ground arith) in
      rw (next_dst, next_src, size)
        (
          rest.0,
          rest.1,
          λ a.
              rest.2 a
              ∙ copied_step (suc words * 4) dst src m.mem now a (rw size at d)
                  (λ x. word_copied m.mem dst src x (omega arith) (omega arith)),
        )

  -- Where addresses are physical, and with word-aligned addresses of regions that do not overlap,
  -- the copy moves the bytes of `length` rounded up to words, and changes no other.
  pub flash_memcpy-CopyEnd :
      (dst src length : ℕ) (m : Machine)
      → dst % 4 ≡ 0
      → src % 4 ≡ 0
      → IsDisjoint ((length + 3) / 4 * 4) dst src
      → CopyEnd ((length + 3) / 4 * 4) dst src m (flash_memcpy env dst src length m)
  unfolding flash_memcpy
  flash_memcpy-CopyEnd dst src length m hd hs d =
      rw (bit_and_low 2 src, bit_and_low 2 dst, hd, hs)
        (copy_loop-CopyEnd ((length + 3) / 4) dst src m d)
