-- ===== src/Intc/Device/Flows.antt =====
-- The driver's operations in the order in which the kernel's flow handlers call them: an interrupt
-- of either kind is armed again, no edge is lost, and a level that has gone is not reported again.
pub mod Low
pub mod Root
use qrisc_v.Base.{ℕ, ◌<◌, ◌≤◌, ◌≡◌, ◌≢◌, ◌∙◌, true, false, max, arith}
use qrisc_v.Base.{◌∷◌, ◌++◌, ◌==◌, if◌then◌else◌, add32, ◌<<◌}
use qrisc_v.Base.{zero, suc, bit, bit-lt, bit_and, Bool-cases, inl, inr}
use qrisc_v.Base.Fields.{bit_and-one_bit}
use qrisc_v.Mmio.{Trace, store}
use qrisc_v.Intc.{iar, sie, cie, xintc_write, IrqData, IrqChip, intc_dev}
use qrisc_v.Intc.{Chip, Flow, edge, level, xintc_map}
use qrisc_v.Intc.{intc_enable_or_unmask, intc_ack, intc_mask_ack}
use qrisc_v.Intc.Device.{apart, disable_lem, enable_lem, ack-on, ack_lem}
use qrisc_v.Intc.Device.Elsewhere.{
  IsElsewhere, is_on, is_waiting, is_high, raised, elsewhere-on, elsewhere-waiting, store-waiting,
}

-- The kernel's two handlers: they get the chip's operations, the interrupt, and what its handler
-- does to the devices.
pub record FlowHandlers : Type 0 where
  pub handle_edge_irq : IrqChip → IrqData → (Trace → Trace) → Trace → Trace
  pub handle_level_irq : IrqChip → IrqData → (Trace → Trace) → Trace → Trace

-- As the kernel documents them: an edge is acknowledged before its handler runs, a level is masked
-- and acknowledged before it and unmasked behind it.
abbrev pub IsDocumented : FlowHandlers → Type 0
IsDocumented f =
    (c : IrqChip) (d : IrqData) (act : Trace → Trace) (t : Trace)
    → (f.handle_edge_irq c d act t ≡ act (c.irq_ack d t))
      × (f.handle_level_irq c d act t ≡ c.irq_unmask d (act (c.irq_mask_ack d t)))

-- An interrupt as it was mapped.
unfoldable pub handle_mapped : FlowHandlers → ℕ → Flow → ℕ → (Trace → Trace) → Trace → Trace
handle_mapped f base edge hw act t =
    f.handle_edge_irq (intc_dev false base) (record { hwirq = hw; is_level = false }) act t
handle_mapped f base level hw act t =
    f.handle_level_irq (intc_dev false base) (record { hwirq = hw; is_level = true }) act t

-- The kind of an input by its bit of the property `xlnx,kind-of-intr`: 1 for an edge.
abbrev pub flow_of : Chip → ℕ → Flow
flow_of chip k = if bit k chip.intr_mask == 1 then edge else level

one_input : (v k : ℕ) → k < 4 → (bit_and v (1 << k) == 0) ≡ (bit k v == 0)
one_input v zero h = rw (bit_and-one_bit 0 v) (ground arith)
one_input v (suc zero) h = rw (bit_and-one_bit 1 v) (ground arith)
one_input v (suc (suc zero)) h = rw (bit_and-one_bit 2 v) (ground arith)
one_input v (suc (suc (suc zero))) h = rw (bit_and-one_bit 3 v) (ground arith)
one_input v (suc (suc (suc (suc k)))) h = absurd (omega arith)

xintc_map-flow_of : (chip : Chip) (k : ℕ) → k < 4 → xintc_map chip k ≡ flow_of chip k
unfolding xintc_map
xintc_map-flow_of chip k h =
    rw (one_input chip.intr_mask k h) (elim (Bool-cases (bit k chip.intr_mask == 0)) [
      | inl clear ↦
          let one : (bit k chip.intr_mask == 1) ≡ false = ground (arith, clear) in rw (clear, one)
      | inr set ↦
          let one : (bit k chip.intr_mask == 1) ≡ true =
            ground (arith, set, bit-lt k chip.intr_mask) in
          rw (set, one)
    ])

-- The two inputs: `k` is handled, `j` is any. `more` are the accesses of the handler.
module _ (base : ℕ) (lines : Trace → ℕ) (k j : ℕ) (hk : k < 4) (hj : j < 4) (more t : Trace)
    (elsewhere : IsElsewhere base more) where
  abbrev acked_at : Trace
  acked_at = store (add32 base iar) (1 << k) ∷ t

  -- An edge: no input is switched, and one is pending if it was, unless it is the handled one, or
  -- if it has been high since.
  abbrev pub EdgeEnd : Trace → Type 0
  EdgeEnd t' =
      (is_on base lines j t' ≡ is_on base lines j t)
      × (is_waiting base lines j t'
          ≡ max (raised base lines j more acked_at)
              (max (is_high base lines j t) (if j == k then 0 else is_waiting base lines j t)))

  edge-EdgeEnd : EdgeEnd (more ++ acked_at)
  edge-EdgeEnd = (
    elsewhere-on base lines j more acked_at elsewhere ∙ ack-on j k hj hk base lines t (1 << k),
    elsewhere-waiting base lines j more acked_at hj elsewhere ∙ rw (ack_lem j k hj hk base lines t),
  )

  abbrev masked_at : Trace
  masked_at = store (add32 base cie) (1 << k) ∷ t

  -- When the handler of a level has run, and after the acknowledgement behind it.
  abbrev inside_at : Trace
  inside_at = more ++ store (add32 base iar) (1 << k) ∷ masked_at

  abbrev acked_again : Trace
  acked_again = store (add32 base iar) (1 << k) ∷ inside_at

  -- A level: its handler runs with the input off, and behind it the input is on; of the inputs the
  -- handled one is pending only if it is still high then, and no other that was is lost.
  abbrev pub LevelEnd : Trace → Type 0
  LevelEnd t' =
      (is_on base lines j inside_at ≡ (if j == k then 0 else is_on base lines j t))
      × (is_on base lines j t' ≡ (if j == k then 1 else is_on base lines j t))
      × (is_waiting base lines k t'
          ≡ max (is_high base lines k acked_again) (is_high base lines k inside_at))
      × (j ≢ k → is_waiting base lines j t ≤ is_waiting base lines j t')

  inside-on : is_on base lines j inside_at ≡ (if j == k then 0 else is_on base lines j t)
  inside-on =
      elsewhere-on base lines j more _ elsewhere
      ∙ ack-on j k hj hk base lines masked_at (1 << k)
      ∙ disable_lem j k hj hk base lines t

  abbrev again : Trace
  again = store (add32 base sie) (1 << k) ∷ acked_again

  again-on : is_on base lines j again ≡ (if j == k then 1 else is_on base lines j t)
  again-on =
      enable_lem j k hj hk base lines acked_again
      ∙ rw (ack-on j k hj hk base lines inside_at (1 << k), inside-on) (ground arith)

  not_iar : (r : ℕ) → (r < 32) × (r ≢ iar) → (add32 base r == add32 base iar) ≡ false
  not_iar r h = apart base r iar (h.0, omega arith, h.1)

  again-waiting :
      is_waiting base lines k again
      ≡ max (is_high base lines k acked_again) (is_high base lines k inside_at)
  again-waiting =
      store-waiting base lines k (add32 base sie) (1 << k) acked_again hk
        (not_iar sie (omega arith, omega arith))
      ∙ rw (ack_lem k k hk hk base lines inside_at) (ground arith)

  others_wait : j ≢ k → is_waiting base lines j t ≤ is_waiting base lines j again
  others_wait ne =
      let first = ack_lem j k hj hk base lines masked_at in
      let masked =
        store-waiting base lines j (add32 base cie) (1 << k) t hj
          (not_iar cie (omega arith, omega arith)) in
      let later =
        elsewhere-waiting base lines j more (store (add32 base iar) (1 << k) ∷ masked_at) hj
          elsewhere in
      let second = ack_lem j k hj hk base lines inside_at in
      let last =
        store-waiting base lines j (add32 base sie) (1 << k) acked_again hj
          (not_iar sie (omega arith, omega arith)) in
      ground (arith, first, masked, later, second, last)

  level-LevelEnd : LevelEnd again
  level-LevelEnd = (inside-on, again-on, again-waiting, others_wait)

  -- By the kind that the interrupt was mapped as.
  abbrev pub FlowEnd : Flow → Trace → Type 0
  FlowEnd edge t' = EdgeEnd t'
  FlowEnd level t' = LevelEnd t'

  kind-FlowEnd :
      (f : FlowHandlers)
      → IsDocumented f
      → (kind : Flow) → FlowEnd kind (handle_mapped f base kind k (λ at. more ++ at) t)
  unfolding handle_mapped intc_ack intc_mask_ack intc_enable_or_unmask xintc_write
  kind-FlowEnd f documented edge =
      let called = documented (intc_dev false base) (record { hwirq = k; is_level = false }) in
      rw ((called (λ at. more ++ at) t).0) edge-EdgeEnd
  kind-FlowEnd f documented level =
      let called = documented (intc_dev false base) (record { hwirq = k; is_level = true }) in
      rw ((called (λ at. more ++ at) t).1) level-LevelEnd

  -- With flow handlers that call the chip's operations as the kernel documents it, a controller in
  -- the hart's byte order, an interrupt `k` (mapped as an edge or a level by its bit of
  -- `intr_mask`) and any input `j` among the four, and a handler of the device that writes none of
  -- the controller's registers: an edge switches no input, and an edge of any input since the
  -- acknowledgement stays pending; a level is off while its handler runs and on behind it, is
  -- pending then only if it is still high, and no other pending input is lost.
  pub handle_mapped-FlowEnd :
      (f : FlowHandlers)
      → IsDocumented f
      → (chip : Chip)
      → FlowEnd (flow_of chip k) (handle_mapped f base (xintc_map chip k) k (λ at. more ++ at) t)
  handle_mapped-FlowEnd f documented chip =
      rw (xintc_map-flow_of chip k hk) (kind-FlowEnd f documented (flow_of chip k))
