-- ===== src/Intc/Device.antt =====
-- The driver on the controller of this SoC (src/soc/irq_ctrl.v): four inputs, each enabled or not
-- and pending or not. Its registers are functions of the accesses made and of the input lines.
pub mod Elsewhere
pub mod Flows
use qrisc_v.Base.{ℕ, ◌+◌, ◌-◌, ◌*◌, ◌/◌, ◌%◌, ◌<◌, ◌≡◌, ◌≢◌, refl, ◌∙◌, Bool, true, false, max}
use qrisc_v.Base.{[], ◌∷◌, ◌==◌, ◌&&◌, if◌then◌else◌, bit, bit-lt, bit_and, bit_or, add32, ◌<<◌}
use qrisc_v.Base.{holds_below, holds_below_lem, ==_refl, arith}
use qrisc_v.Base.Bits.{bit-bit_and, bit-bit_or}
use qrisc_v.Mmio.{Trace, load, store}
use qrisc_v.Intc.{ier, iar, sie, cie, xintc_write, IrqData}
use qrisc_v.Intc.{intc_enable_or_unmask, intc_disable_or_mask, intc_ack, intc_mask_ack}

-- What a write to IAR acknowledges; and the inputs that a mask leaves out.
abbrev pub acked : ℕ → ℕ → ℕ → ℕ
acked base a v = if a == add32 base iar then v else 0

abbrev pub others : ℕ → ℕ
others mask = 15 - mask % 16

module _ (base : ℕ) (lines : Trace → ℕ) where
  -- `irq_enable_q`, by the writes to IER, SIE and CIE.
  unfoldable pub enabled : Trace → ℕ
  enabled [] = 0
  enabled (load a v ∷ t) = enabled t
  enabled (store a v ∷ t) =
      if a == add32 base ier
      then v % 16
      else (if a == add32 base sie
          then bit_or (enabled t) (v % 16)
          else (if a == add32 base cie then bit_and (enabled t) (others v) else enabled t))

  -- `irq_pending_q`: an input that is high stays pending, an acknowledged one that is low does not.
  unfoldable pub pending : Trace → ℕ
  pending [] = 0
  pending (load a v ∷ t) = bit_or (lines t % 16) (pending t)
  pending (store a v ∷ t) = bit_or (lines t % 16) (bit_and (pending t) (others (acked base a v)))

apart : (base a b : ℕ) → (a < 32) × (b < 32) × (a ≢ b) → (add32 base a == add32 base b) ≡ false
apart base a b h = ground arith

mask_test : ℕ → ℕ → Bool
mask_test j k =
    (bit j ((1 << k) % 16) == (if j == k then 1 else 0))
    && ((bit j (others (1 << k)) == (if j == k then 0 else 1)) && (bit j (others 0) == 1))

mask_table : holds_below (λ n. mask_test (n % 4) (n / 4)) 16 ≡ true
unfolding holds_below mask_test
mask_table = refl

module _ (j k : ℕ) (hj : j < 4) (hk : k < 4) where
  agree : mask_test j k ≡ true
  agree =
      let low : (j + 4 * k) % 4 ≡ j = omega arith in
      let high : (j + 4 * k) / 4 ≡ k = omega arith in
      rw (low, high) at
        (holds_below_lem (λ n. mask_test (n % 4) (n / 4)) 16 (j + 4 * k) mask_table (omega arith))

  mask_bit : bit j ((1 << k) % 16) ≡ (if j == k then 1 else 0)
  unfolding mask_test
  mask_bit = ground (arith, agree)

  others_bit : bit j (others (1 << k)) ≡ (if j == k then 0 else 1)
  unfolding mask_test
  others_bit = ground (arith, agree)

  module _ (base : ℕ) (lines : Trace → ℕ) (t : Trace) where
    -- Whether input `j` is high at an access, enabled, or pending.
    abbrev high : Trace → ℕ
    high t' = bit j (lines t' % 16)

    abbrev on : Trace → ℕ
    on t' = bit j (enabled base lines t')

    abbrev waits : Trace → ℕ
    waits t' = bit j (pending base lines t')

    disable_lem : on (store (add32 base cie) (1 << k) ∷ t) ≡ (if j == k then 0 else on t)
    unfolding enabled
    disable_lem =
        rw
          (
            apart base cie ier (omega arith, omega arith, omega arith),
            apart base cie sie (omega arith, omega arith, omega arith),
            ==_refl (add32 base cie),
            bit-bit_and j (enabled base lines t) (others (1 << k)),
            others_bit,
          )
          (ground (arith, bit-lt j (enabled base lines t)))

    enable_lem : on (store (add32 base sie) (1 << k) ∷ t) ≡ (if j == k then 1 else on t)
    unfolding enabled
    enable_lem =
        rw
          (
            apart base sie ier (omega arith, omega arith, omega arith),
            ==_refl (add32 base sie),
            bit-bit_or j (enabled base lines t) ((1 << k) % 16),
            mask_bit,
          )
          (ground (arith, bit-lt j (enabled base lines t)))

    -- An acknowledgement enables and disables nothing.
    ack-on : (v : ℕ) → on (store (add32 base iar) v ∷ t) ≡ on t
    unfolding enabled
    ack-on v = rw (
      apart base iar ier (omega arith, omega arith, omega arith),
      apart base iar sie (omega arith, omega arith, omega arith),
      apart base iar cie (omega arith, omega arith, omega arith),
    )

    ack_lem :
        waits (store (add32 base iar) (1 << k) ∷ t) ≡ max (high t) (if j == k then 0 else waits t)
    unfolding pending
    ack_lem =
        rw
          (
            ==_refl (add32 base iar),
            bit-bit_or j (lines t % 16) (bit_and (pending base lines t) (others (1 << k))),
            bit-bit_and j (pending base lines t) (others (1 << k)),
            others_bit,
          )
          (ground (arith, bit-lt j (pending base lines t), bit-lt j (lines t % 16)))

    others_zero : bit j (others 0) ≡ 1
    unfolding mask_test
    others_zero = ground (arith, agree)

    -- A write to another register acknowledges nothing.
    other-waits :
        (reg v : ℕ)
        → (add32 base reg == add32 base iar) ≡ false
        → waits (store (add32 base reg) v ∷ t) ≡ max (high t) (waits t)
    unfolding pending
    other-waits reg v other =
        rw
          (
            other,
            bit-bit_or j (lines t % 16) (bit_and (pending base lines t) (others 0)),
            bit-bit_and j (pending base lines t) (others 0),
            others_zero,
          )
          (ground (arith, bit-lt j (pending base lines t)))

-- The sets of enabled and of pending inputs after each of the four operations.
abbrev pub Sets : ℕ → (Trace → ℕ) → Trace → IrqData → ℕ → Type 0
Sets base lines t d j =
    let on = λ (t' : Trace). bit j (enabled base lines t') in
    let waits = λ (t' : Trace). bit j (pending base lines t') in
    let high = λ (t' : Trace). bit j (lines t' % 16) in
    let masked = intc_disable_or_mask false base d t in
    (on (intc_enable_or_unmask false base d t) ≡ (if j == d.hwirq then 1 else on t))
    × (waits (intc_enable_or_unmask false base d t) ≡ (
        if d.is_level
        then max (high (store (add32 base iar) (1 << d.hwirq) ∷ t))
            (max (high t) (if j == d.hwirq then 0 else waits t))
        else max (high t) (waits t)))
    × (on masked ≡ (if j == d.hwirq then 0 else on t))
    × (waits masked ≡ max (high t) (waits t))
    × (on (intc_ack false base d t) ≡ on t)
    × (waits (intc_ack false base d t) ≡ max (high t) (if j == d.hwirq then 0 else waits t))
    × (on (intc_mask_ack false base d t) ≡ (if j == d.hwirq then 0 else on t))
    × (waits (intc_mask_ack false base d t)
        ≡ max (high masked) (if j == d.hwirq then 0 else waits masked))

-- What the four operations of the driver do to the sets of enabled and of pending inputs, with the
-- controller in the hart's byte order, for an interrupt among the four and any input `j`: unmasking
-- enables its input alone and acknowledges it if it is a level's, and only then, masking disables
-- it alone, acknowledging enables and disables nothing, and after acknowledging the input is
-- pending only if its line was high during the write; `mask_ack` masks and acknowledges.
pub operations-Sets :
    (base : ℕ) (lines : Trace → ℕ) (t : Trace) (d : IrqData) (j : ℕ)
    → j < 4
    → d.hwirq < 4
    → Sets base lines t d j
unfolding intc_enable_or_unmask intc_disable_or_mask intc_ack intc_mask_ack xintc_write
operations-Sets base lines t d j hj hk =
    let k = d.hwirq in
    let masked = store (add32 base cie) (1 << k) ∷ t in
    (
      unmasked d.is_level,
      unmasked_waits d.is_level,
      disable_lem j k hj hk base lines t,
      other-waits j k hj hk base lines t cie (1 << k)
          (apart base cie iar (omega arith, omega arith, omega arith)),
      ack-on j k hj hk base lines t (1 << k),
      ack_lem j k hj hk base lines t,
      ack-on j k hj hk base lines masked (1 << k) ∙ disable_lem j k hj hk base lines t,
      ack_lem j k hj hk base lines masked,
    )
  where
    unmasked :
        (is_level : Bool)
        → bit j (
            enabled base lines (
              xintc_write false base sie
                (1 << d.hwirq)
                (if is_level then xintc_write false base iar (1 << d.hwirq) t else t)))
          ≡ (if j == d.hwirq then 1 else bit j (enabled base lines t))
    unmasked false = enable_lem j d.hwirq hj hk base lines t
    unmasked true =
        enable_lem j d.hwirq hj hk base lines (store (add32 base iar) (1 << d.hwirq) ∷ t)
        ∙ rw (ack-on j d.hwirq hj hk base lines t (1 << d.hwirq))

    sie_waits :
        (t' : Trace)
        → bit j (pending base lines (store (add32 base sie) (1 << d.hwirq) ∷ t'))
          ≡ max (bit j (lines t' % 16)) (bit j (pending base lines t'))
    sie_waits t' =
        other-waits j d.hwirq hj hk base lines t' sie (1 << d.hwirq)
          (apart base sie iar (omega arith, omega arith, omega arith))

    unmasked_waits :
        (is_level : Bool)
        → bit j (
            pending base lines (
              xintc_write false base sie
                (1 << d.hwirq)
                (if is_level then xintc_write false base iar (1 << d.hwirq) t else t)))
          ≡ (if is_level
              then max (bit j (lines (store (add32 base iar) (1 << d.hwirq) ∷ t) % 16)) (
                  max
                    (bit j (lines t % 16))
                    (if j == d.hwirq then 0 else bit j (pending base lines t)))
              else max (bit j (lines t % 16)) (bit j (pending base lines t)))
    unmasked_waits false = sie_waits t
    unmasked_waits true =
        sie_waits (store (add32 base iar) (1 << d.hwirq) ∷ t)
        ∙ rw (ack_lem j d.hwirq hj hk base lines t)
