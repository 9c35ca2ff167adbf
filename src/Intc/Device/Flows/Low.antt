-- ===== src/Intc/Device/Flows/Low.antt =====
-- While no input of the controller is high: what is pending only becomes less, and the handling of
-- an interrupt ends what it handles and leaves the other inputs as they were.
use qrisc_v.Base.{ℕ, ◌%◌, ◌<◌, ◌≡◌, ◌≢◌, refl, ◌∙◌, arith, true, false}
use qrisc_v.Base.{[], ◌∷◌, ◌++◌, append_assoc, ◌==◌, if◌then◌else◌, bit}
use qrisc_v.Base.{min, add32, ◌<<◌}
use qrisc_v.Base.Bits.{bit-bit_and}
use qrisc_v.Base.{zero, suc}
use qrisc_v.Intc.{intc_dev, intc_ack, intc_mask_ack, intc_enable_or_unmask, xintc_write}
use qrisc_v.Intc.Device.Flows.{
  masked_at, inside_at, acked_again, again, not_iar, again-on, edge-EdgeEnd,
}
use qrisc_v.Mmio.{Trace, store}
use qrisc_v.Intc.{Flow, edge, level}
use qrisc_v.Intc.{iar, sie, cie}
use qrisc_v.Intc.Reported.{served}
use qrisc_v.Intc.Device.{enabled, pending, ack_lem}
use qrisc_v.Intc.Device.Elsewhere.{IsElsewhere, is_on, is_waiting, is_high, raised}
use qrisc_v.Intc.Device.Elsewhere.{elsewhere-waiting, store-waiting}
use qrisc_v.Intc.Device.Flows.{FlowHandlers, IsDocumented, handle_mapped}

bit-zero : (k : ℕ) → bit k 0 ≡ 0
bit-zero zero = refl
bit-zero (suc k) = bit-zero k

module _ (base : ℕ) (lines : Trace → ℕ) where
  -- No input is high from `t` on.
  abbrev pub IsLow : Trace → Type 0
  IsLow t = (more : Trace) → lines (more ++ t) % 16 ≡ 0

  pub IsLow-append : (more t : Trace) → IsLow t → IsLow (more ++ t)
  IsLow-append more t low later = rw (← append_assoc later more t) (low (later ++ more))

  pub low_input : (j : ℕ) (more t : Trace) → IsLow t → is_high base lines j (more ++ t) ≡ 0
  low_input j more t low = rw (low more) (bit-zero j)

  raised-low : (j : ℕ) (more t : Trace) → IsLow t → raised base lines j more t ≡ 0
  unfolding raised
  raised-low j [] t low = refl
  raised-low j (e ∷ more) t low = rw (raised-low j more t low, low_input j more t low)

  -- Whether an input is enabled and pending.
  abbrev pub is_served : ℕ → Trace → ℕ
  is_served j t = bit j (served base lines t)

  pub is_served-min :
      (j : ℕ) (t : Trace) → is_served j t ≡ min (is_waiting base lines j t) (is_on base lines j t)
  is_served-min j t = bit-bit_and j (pending base lines t) (enabled base lines t)

  module _ (k j : ℕ) (hk : k < 4) (hj : j < 4) (more t : Trace) (elsewhere : IsElsewhere base more)
      (low : IsLow t) where
    level-waiting :
        is_waiting base lines j (again base lines k j hk hj more t elsewhere)
        ≡ (if j == k then 0 else is_waiting base lines j t)
    level-waiting =
        let m1 = masked_at base lines k j hk hj more t elsewhere in
        let m2 = store (add32 base iar) (1 << k) ∷ m1 in
        let m3 = inside_at base lines k j hk hj more t elsewhere in
        let m4 = acked_again base lines k j hk hj more t elsewhere in
        let sie_lem =
          not_iar base lines k j hk hj more t elsewhere sie (omega arith, omega arith) in
        let cie_lem =
          not_iar base lines k j hk hj more t elsewhere cie (omega arith, omega arith) in
        let low1 : IsLow m1 = IsLow-append (store (add32 base cie) (1 << k) ∷ []) t low in
        let low2 : IsLow m2 = IsLow-append (store (add32 base iar) (1 << k) ∷ []) m1 low1 in
        let low3 : IsLow m3 = IsLow-append more m2 low2 in
        let low4 : IsLow m4 = IsLow-append (store (add32 base iar) (1 << k) ∷ []) m3 low3 in
        let masked = store-waiting base lines j (add32 base cie) (1 << k) t hj cie_lem in
        let first = ack_lem j k hj hk base lines m1 in
        let later = elsewhere-waiting base lines j more m2 hj elsewhere in
        let second = ack_lem j k hj hk base lines m3 in
        let last = store-waiting base lines j (add32 base sie) (1 << k) m4 hj sie_lem in
        ground (
          arith,
          masked,
          first,
          later,
          second,
          last,
          low_input j [] t low,
          low_input j [] m1 low1,
          raised-low j more m2 low2,
          low_input j [] m3 low3,
          low_input j [] m4 low4,
        )

    -- The handled input is done with, and the others are as they were.
    abbrev Settled : Trace → Type 0
    Settled t' =
        (is_waiting base lines j t' ≡ (if j == k then 0 else is_waiting base lines j t))
        × (j ≢ k → is_on base lines j t' ≡ is_on base lines j t)

    pub FlowEnd-Settled :
        (f : FlowHandlers)
        → IsDocumented f
        → (kind : Flow) → Settled (handle_mapped f base kind k (λ at. more ++ at) t)
    unfolding handle_mapped intc_ack intc_mask_ack intc_enable_or_unmask xintc_write
    FlowEnd-Settled f documented edge =
        let acked = store (add32 base iar) (1 << k) ∷ t in
        let called = documented (intc_dev false base) (record { hwirq = k; is_level = false }) in
        let end = edge-EdgeEnd base lines k j hk hj more t elsewhere in
        let low1 : IsLow acked = IsLow-append (store (add32 base iar) (1 << k) ∷ []) t low in
        rw ((called (λ at. more ++ at) t).0) (
          end.1 ∙ rw (raised-low j more acked low1, low_input j [] t low) (ground arith),
          λ ne. end.0,
        )
    FlowEnd-Settled f documented level =
        let called = documented (intc_dev false base) (record { hwirq = k; is_level = true }) in
        let on = again-on base lines k j hk hj more t elsewhere in
        rw ((called (λ at. more ++ at) t).1) (level-waiting, λ ne. on ∙ ground (arith, ne))

    pub FlowEnd-IsLow :
        (f : FlowHandlers)
        → IsDocumented f
        → (kind : Flow) → IsLow (handle_mapped f base kind k (λ at. more ++ at) t)
    unfolding handle_mapped intc_ack intc_mask_ack intc_enable_or_unmask xintc_write
    FlowEnd-IsLow f documented edge =
        let called = documented (intc_dev false base) (record { hwirq = k; is_level = false }) in
        rw ((called (λ at. more ++ at) t).0)
          (IsLow-append more _ (IsLow-append (store (add32 base iar) (1 << k) ∷ []) t low))
    FlowEnd-IsLow f documented level =
        let called = documented (intc_dev false base) (record { hwirq = k; is_level = true }) in
        let a = 1 << k in
        rw ((called (λ at. more ++ at) t).1) (
          IsLow-append (store (add32 base sie) a ∷ store (add32 base iar) a ∷ []) _ (
            IsLow-append more _
              (IsLow-append (store (add32 base iar) a ∷ store (add32 base cie) a ∷ []) t low)))
