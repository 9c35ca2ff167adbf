-- ===== src/Disk/Copy.antt =====
-- The image is written once, in order, up to its end or to the first write that takes nothing.
use qrisc_v.Base.{ℕ, zero, suc, ◌+◌, ◌-◌, ◌≤◌, ◌<◌, ◌≡◌, refl, inl, inr}
use qrisc_v.Base.{some, [], ◌∷◌, ltb, Bool-cases, arith}
use qrisc_v.Base.{sym}
use mathlib.Core.Path.{subst}
use qrisc_v.Disk.{Calls, Chunks, disk_size, copy_out, cons_chunk}

-- Chunks that follow each other from an offset on, after `k` writes: each is what its write took,
-- and after the last one the image is complete or the next write takes nothing.
pub data InOrder (calls : Calls) : ℕ → ℕ → Chunks → Type 0 where
  complete : {k : ℕ} → InOrder calls k disk_size []
  refused :
      {k off : ℕ}
      → off < disk_size
      → calls.write k off (disk_size - off) ≡ 0
      → InOrder calls k off []
  chunk :
      {k off n : ℕ} {cs : Chunks}
      → calls.write k off (disk_size - off) ≡ n
      → 0 < n
      → InOrder calls (k + 1) (off + n) cs
      → InOrder calls k off ((off, n) ∷ cs)

module _ (calls : Calls) (fits : (k off len : ℕ) → calls.write k off len ≤ len) where
  -- If no write takes more than it is given, the loop ends within one round more than there are
  -- bytes to write, and has then written the image in order from the offset on, without a gap, up
  -- to its end or to the first write that takes nothing.
  pub copy_out-InOrder :
      (fuel k off : ℕ)
      → off ≤ disk_size
      → disk_size - off < fuel
      → (cs : Chunks) × (copy_out calls fuel k off ≡ some cs) × InOrder calls k off cs
  unfolding copy_out cons_chunk
  copy_out-InOrder zero k off h enough = absurd (omega arith)
  copy_out-InOrder (suc fuel) k off h enough = elim (Bool-cases (ltb off disk_size)) [
    | inr at_end ↦
        let e : off ≡ disk_size = ground (arith, at_end) in
        ([], rw at_end, subst (λ o. InOrder calls k o []) (sym e) complete)
    | inl inside ↦ elim (Bool-cases (ltb 0 (calls.write k off (disk_size - off)))) [
      | inr nothing ↦
          ([], rw (inside, nothing), refused (ground (arith, inside)) (ground (arith, nothing)))
      | inl some_taken ↦
          let n = calls.write k off (disk_size - off) in
          let small = fits k off (disk_size - off) in
          let positive : 0 < n = ground (arith, some_taken) in
          let (cs, runs, ordered) =
            copy_out-InOrder fuel (k + 1) (off + n) (omega arith) (omega arith) in
          ((off, n) ∷ cs, rw (inside, some_taken, runs), chunk refl positive ordered)
    ]
  ]
