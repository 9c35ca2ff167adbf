-- ===== src/Intc/Device/Flows/Root.antt =====
-- The root controller's handler on the controller of this SoC: with no input high, it handles what
-- is enabled and pending, and ends.
use qrisc_v.Base.{ℕ, ◌+◌, ◌<◌, ◌≡◌, ◌≢◌, ◌∙◌, ap, sym, arith, inl, inr, false}
use qrisc_v.Base.{List, [], ◌∷◌, ◌++◌, ◌==◌, if◌then◌else◌, bit-lt, Bool-cases}
use qrisc_v.Base.{some}
use qrisc_v.Mmio.{Trace, load}
use qrisc_v.Intc.{Chip, Kernel, xintc_map, xintc_get_irq, xintc_read, handle_loop, no_irq}
use qrisc_v.Intc.Drain.{Drained, quiet, handled, IsProgress, handle_loop-Drained}
use qrisc_v.Intc.Reported.{IsController, IsIdle, served, xintc_get_irq-Lowest}
use qrisc_v.Intc.Device.{enabled}
use qrisc_v.Intc.Device.Elsewhere.{IsElsewhere}
use qrisc_v.Intc.Device.Elsewhere.{load-waiting}
use qrisc_v.Intc.Device.Flows.{FlowHandlers, IsDocumented, handle_mapped}
use qrisc_v.Intc.Device.Flows.Low.{
  IsLow, IsLow-append, low_input, is_served, is_served-min, FlowEnd-Settled, FlowEnd-IsLow,
}

-- The kernel's part: an interrupt of the domain is handled as the driver mapped it, and the handler
-- of its device makes the accesses `act`, none of them a write to the controller.
pub record IsHandled (k : Kernel) (chip : Chip) (lines : Trace → ℕ) (f : FlowHandlers)
    (act : ℕ → Trace → Trace) : Type 0 where
  pub device : IsController k chip lines
  pub documented : IsDocumented f
  pub mapped : (j : ℕ) → j < 4 → k.find_mapping chip.root_domain j ≢ no_irq
  pub handles :
      (j : ℕ) (t : Trace)
      → j < 4
      → k.handle_one (k.find_mapping chip.root_domain j) t
        ≡ handle_mapped f chip.base (xintc_map chip j) j (λ at. act j t ++ at) t
  pub elsewhere : (j : ℕ) (t : Trace) → IsElsewhere chip.base (act j t)

module _ (k : Kernel) (chip : Chip) (lines : Trace → ℕ) (f : FlowHandlers) (act : ℕ → Trace → Trace)
    (kernel : IsHandled k chip lines f act) where
  abbrev wants : ℕ → Trace → ℕ
  wants i t = is_served chip.base lines i t

  -- The number of inputs that are enabled and pending.
  abbrev work : Trace → ℕ
  work t = wants 0 t + (wants 1 t + (wants 2 t + wants 3 t))

  abbrev report : Trace → ℕ × Trace
  report t = xintc_get_irq k false chip t

  report-IsLow : (t : Trace) → IsLow chip.base lines t → IsLow chip.base lines (report t).1
  unfolding xintc_get_irq xintc_read
  report-IsLow t low = IsLow-append chip.base lines (_ ∷ []) t low

  read_wants :
      (i a v : ℕ) (t : Trace) → IsLow chip.base lines t → wants i (load a v ∷ t) ≡ wants i t
  unfolding enabled
  read_wants i a v t low =
      rw
        (
          is_served-min chip.base lines i (load a v ∷ t),
          is_served-min chip.base lines i t,
          load-waiting chip.base lines i a v t,
          low_input chip.base lines i [] t low,
        )
        (ground arith)

  -- A report leaves what is enabled and pending.
  report-wants : (i : ℕ) (t : Trace) → IsLow chip.base lines t → wants i (report t).1 ≡ wants i t
  unfolding xintc_get_irq xintc_read
  report-wants i t low = read_wants i _ _ t low

  abbrev flow : ℕ → Trace → Trace
  flow j t = handle_mapped f chip.base (xintc_map chip j) j (λ at. act j t ++ at) t

  handled-wants :
      (j i : ℕ) (t : Trace)
      → j < 4
      → i < 4
      → IsLow chip.base lines t
      → wants i (k.handle_one (k.find_mapping chip.root_domain j) t)
        ≡ (if i == j then 0 else wants i t)
  handled-wants j i t hj hi low =
      let settled =
        FlowEnd-Settled chip.base lines j i hj hi (act j t) t (kernel.elsewhere j t) low f
          kernel.documented (xintc_map chip j) in
      let before = is_served-min chip.base lines i t in
      rw (kernel.handles j t hj) (elim (Bool-cases (i == j)) [
        | inl same ↦ rw (is_served-min chip.base lines i (flow j t), settled.0, same) (ground arith)
        | inr other ↦ rw (
          is_served-min chip.base lines i (flow j t),
          settled.0,
          settled.1 (ground (arith, other)),
          other,
          before,
        )
      ])

  handled-IsLow :
      (j : ℕ) (t : Trace)
      → j < 4
      → IsLow chip.base lines t
      → IsLow chip.base lines (k.handle_one (k.find_mapping chip.root_domain j) t)
  handled-IsLow j t hj low = rw (kernel.handles j t hj) (
      FlowEnd-IsLow chip.base lines j j hj hj (act j t) t (kernel.elsewhere j t) low f
        kernel.documented (xintc_map chip j))

  one_less :
      (j : ℕ) (t t' : Trace)
      → j < 4
      → wants j t ≡ 1
      → ((i : ℕ) → i < 4 → wants i t' ≡ (if i == j then 0 else wants i t))
      → work t' < work t
  one_less j t t' hj one less =
      let w0 = less 0 (omega arith) in
      let w1 = less 1 (omega arith) in
      let w2 = less 2 (omega arith) in
      let w3 = less 3 (omega arith) in rw (w0, w1, w2, w3) (ground (arith, one))

  -- One round of the loop, on an interrupt that was reported.
  round_less :
      (t : Trace)
      → IsLow chip.base lines t
      → (report t).0 ≢ no_irq
      → IsLow chip.base lines (k.handle_one (report t).0 (report t).1)
        × (work (k.handle_one (report t).0 (report t).1) < work t)
  round_less t low ne = elim (xintc_get_irq-Lowest k chip lines kernel.device t) [
    | inl (j, lowest, e) ↦
        let now = report-IsLow t low in
        let u = k.handle_one (k.find_mapping chip.root_domain j) (report t).1 in
        rw e (
          handled-IsLow j (report t).1 lowest.0 now,
          one_less j t u lowest.0 lowest.1
              (λ i hi. handled-wants j i (report t).1 lowest.0 hi now ∙ rw (report-wants i t low)),
        )
    | inr (idle, e) ↦ absurd (ne e)
  ]

  root-IsProgress : IsProgress k false chip (IsLow chip.base lines) work
  root-IsProgress t t' p low got ne =
      let now : (report t).0 ≢ no_irq = λ e. ne (sym (ap (λ r. r.0) got) ∙ e) in
      rw got at (round_less t low now)

  quiet-IsIdle :
      (t : Trace)
      → IsLow chip.base lines t
      → (report t).0 ≡ no_irq
      → IsIdle (served chip.base lines (report t).1)
  quiet-IsIdle t low none_left = elim (xintc_get_irq-Lowest k chip lines kernel.device t) [
    | inl (j, lowest, e) ↦ absurd (kernel.mapped j lowest.0 (sym e ∙ none_left))
    | inr (idle, e) ↦ λ i hi. report-wants i t low ∙ idle i hi
  ]

  Drained-IsIdle :
      {t u : Trace} {ps : List ℕ}
      → IsLow chip.base lines t
      → Drained k false chip t ps u
      → IsIdle (served chip.base lines u)
  Drained-IsIdle {t} low (quiet got) = rw got at (quiet-IsIdle t low (ap (λ r. r.0) got))
  Drained-IsIdle {t} low (handled {t' = t'} {p = p} got ne rest) =
      Drained-IsIdle (root-IsProgress t t' p low got ne).0 rest

  work_bound : (t : Trace) → work t < 5
  work_bound t =
      let m = served chip.base lines t in
      ground (arith, bit-lt 0 m, bit-lt 1 m, bit-lt 2 m, bit-lt 3 m)

  -- On this controller, in the hart's byte order, with its four inputs mapped by the domain, flow
  -- handlers that call the chip's operations as the kernel documents it, and device handlers that
  -- write none of the controller's registers: when no input is high from the start on, the loop
  -- of the root controller's handler ends within five rounds, has handled exactly the
  -- interrupts that were reported, in their order, and leaves none that is enabled and pending.
  pub handle_loop_effect :
      (t : Trace)
      → IsLow chip.base lines t
      → (ps : List ℕ) × (u : Trace) × (handle_loop k false chip 5 t ≡ some (ps, u))
        × Drained k false chip t ps u
        × IsIdle (served chip.base lines u)
  handle_loop_effect t low =
      let (ps, u, runs, drained) =
        handle_loop-Drained k false chip (IsLow chip.base lines) work root-IsProgress 5 t low
          (work_bound t) in
      (ps, u, runs, drained, Drained-IsIdle low drained)
