-- ===== src/Intc/Device/Elsewhere.antt =====
-- Accesses to other devices: they switch and acknowledge none of the controller's inputs, and an
-- input that is high at one of them becomes pending.
use qrisc_v.Base.{ℕ, ◌%◌, ◌<◌, ◌≡◌, refl, ◌∙◌, false, max, arith}
use qrisc_v.Base.{[], ◌∷◌, ◌++◌, ◌==◌, bit, bit-lt, bit_and, add32}
use qrisc_v.Base.Bits.{bit-bit_and, bit-bit_or}
use qrisc_v.Mmio.{Trace, load, store}
use qrisc_v.Intc.{ier, iar, sie, cie}
use qrisc_v.Intc.Device.{others, enabled, pending}
use qrisc_v.Intc.Device.{others_zero}

-- Accesses that write none of the controller's registers.
abbrev pub IsElsewhere : ℕ → Trace → Type 0
IsElsewhere base [] = Unit
IsElsewhere base (load a v ∷ t) = IsElsewhere base t
IsElsewhere base (store a v ∷ t) =
    ((a == add32 base ier) ≡ false)
    × ((a == add32 base sie) ≡ false)
    × ((a == add32 base cie) ≡ false)
    × ((a == add32 base iar) ≡ false)
    × IsElsewhere base t

module _ (base : ℕ) (lines : Trace → ℕ) (j : ℕ) where
  abbrev pub is_on : Trace → ℕ
  is_on t = bit j (enabled base lines t)

  abbrev pub is_waiting : Trace → ℕ
  is_waiting t = bit j (pending base lines t)

  abbrev pub is_high : Trace → ℕ
  is_high t = bit j (lines t % 16)

  -- Whether the input is high at one of the accesses behind `t`.
  unfoldable pub raised : Trace → Trace → ℕ
  raised [] t = 0
  raised (e ∷ more) t = max (is_high (more ++ t)) (raised more t)

  pub elsewhere-on : (more t : Trace) → IsElsewhere base more → is_on (more ++ t) ≡ is_on t
  unfolding enabled
  elsewhere-on [] t h = refl
  elsewhere-on (load a v ∷ more) t h = elsewhere-on more t h
  elsewhere-on (store a v ∷ more) t (hi, hs, hc, ha, h) = rw (hi, hs, hc) (elsewhere-on more t h)

  -- A read, or a write that acknowledges nothing.
  pub load-waiting :
      (a v : ℕ) (t : Trace) → is_waiting (load a v ∷ t) ≡ max (is_high t) (is_waiting t)
  unfolding pending
  load-waiting a v t = bit-bit_or j (lines t % 16) (pending base lines t)

  pub store-waiting :
      (a v : ℕ) (t : Trace)
      → j < 4
      → (a == add32 base iar) ≡ false
      → is_waiting (store a v ∷ t) ≡ max (is_high t) (is_waiting t)
  unfolding pending
  store-waiting a v t hj other =
      rw
        (
          other,
          bit-bit_or j (lines t % 16) (bit_and (pending base lines t) (others 0)),
          bit-bit_and j (pending base lines t) (others 0),
          others_zero j 0 hj (omega arith) base lines t,
        )
        (ground (arith, bit-lt j (pending base lines t)))

  max_assoc : (a b c : ℕ) → max a (max b c) ≡ max (max a b) c
  max_assoc a b c = ground arith

  pub elsewhere-waiting :
      (more t : Trace)
      → j < 4
      → IsElsewhere base more
      → is_waiting (more ++ t) ≡ max (raised more t) (is_waiting t)
  unfolding raised
  elsewhere-waiting [] t hj h = ground arith
  elsewhere-waiting (load a v ∷ more) t hj h =
      load-waiting a v (more ++ t)
      ∙ rw (elsewhere-waiting more t hj h)
          (max_assoc (is_high (more ++ t)) (raised more t) (is_waiting t))
  elsewhere-waiting (store a v ∷ more) t hj (hi, hs, hc, ha, h) =
      store-waiting a v (more ++ t) hj ha
      ∙ rw (elsewhere-waiting more t hj h)
          (max_assoc (is_high (more ++ t)) (raised more t) (is_waiting t))
