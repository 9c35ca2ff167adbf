-- ===== src/Intc/Drain.antt =====
-- The loop over the pending interrupts (build-os/kernel-patches/irq-xilinx-intc.c): when it ends,
-- and what it has handled by then.
use qrisc_v.Base.{ℕ, zero, suc, ◌<◌, ◌≡◌, ◌≢◌, refl, ap, inl, inr, Bool, arith}
use qrisc_v.Base.{some, List, [], ◌∷◌, ◌==◌, ==_ne, Bool-cases}
use qrisc_v.Mmio.{Trace}
use qrisc_v.Intc.{
  chained_exit, xil_intc_irq_handler, Chip, Kernel, no_irq, xintc_get_irq, handle_loop,
  cons_handled,
}

-- Each interrupt of the list was the one that the controller reported, and was handled before the
-- next report; the last report says that none is pending.
pub data Drained (k : Kernel) (be : Bool) (chip : Chip) : Trace → List ℕ → Trace → Type 0 where
  quiet : {t t' : Trace} → xintc_get_irq k be chip t ≡ (no_irq, t') → Drained k be chip t [] t'
  handled :
      {t t' u : Trace} {p : ℕ} {ps : List ℕ}
      → xintc_get_irq k be chip t ≡ (p, t')
      → p ≢ no_irq
      → Drained k be chip (k.handle_one p t') ps u
      → Drained k be chip t (p ∷ ps) u

-- While `Inv` holds, which a report keeps, handling an interrupt that was reported leaves less
-- work.
abbrev pub IsProgress : Kernel → Bool → Chip → (Trace → Type 0) → (Trace → ℕ) → Type 0
IsProgress k be chip Inv work =
    (t t' : Trace) (p : ℕ)
    → Inv t
    → xintc_get_irq k be chip t ≡ (p, t')
    → p ≢ no_irq
    → Inv (k.handle_one p t') × (work (k.handle_one p t') < work t)

module _ (k : Kernel) (be : Bool) (chip : Chip) where
  handle_loop-quiet :
      (t : Trace) {t' : Trace} (n : ℕ)
      → xintc_get_irq k be chip t ≡ (no_irq, t')
      → handle_loop k be chip (suc n) t ≡ some ([], t')
  unfolding handle_loop
  handle_loop-quiet t n h = rw h

  handle_loop-handled :
      (t : Trace) {t' u : Trace} {p : ℕ} {ps : List ℕ} (n : ℕ)
      → xintc_get_irq k be chip t ≡ (p, t')
      → p ≢ no_irq
      → handle_loop k be chip n (k.handle_one p t') ≡ some (ps, u)
      → handle_loop k be chip (suc n) t ≡ some (p ∷ ps, u)
  unfolding handle_loop cons_handled
  handle_loop-handled t {p = p} n h ne rest = rw (h, ==_ne p no_irq ne, rest)

module _ (k : Kernel) (be : Bool) (chip : Chip) (Inv : Trace → Type 0) (work : Trace → ℕ) where
  -- The loop alone, as the root controller's handler runs it.
  pub handle_loop-Drained :
      IsProgress k be chip Inv work
      → (n : ℕ) (t : Trace) → Inv t
      → work t < n
      → (ps : List ℕ) × (u : Trace) × (handle_loop k be chip n t ≡ some (ps, u))
        × Drained k be chip t ps u
  handle_loop-Drained progress zero t inv h = absurd (omega arith)
  handle_loop-Drained progress (suc n) t inv h = elim (Bool-cases (report.0 == no_irq)) [
    | inl none_left ↦
        let got : report ≡ (no_irq, report.1) =
          ap (λ p. (p, report.1)) (ground (arith, none_left)) in
        ([], report.1, handle_loop-quiet k be chip t n got, quiet got)
    | inr some_left ↦
        let ne : report.0 ≢ no_irq = ground (arith, some_left) in
        let less = progress t report.1 report.0 inv refl ne in
        let (ps, u, runs, drained) =
          handle_loop-Drained progress n (k.handle_one report.0 report.1) less.0
            (omega (arith, h, less.1)) in
        (report.0 ∷ ps, u, handle_loop-handled k be chip t n refl ne runs, handled refl ne drained)
  ]
    where
      report : ℕ × Trace
      report = xintc_get_irq k be chip t

  -- With an invariant that holds when the loop starts, if handling a reported interrupt keeps it
  -- and leaves less work, both handlers end within as many rounds as there is work then and one
  -- more: the loop, which is all of the root controller's handler, has then handled exactly the
  -- interrupts that were reported, in their order, until none was; and the handler behind another
  -- controller does that between entering and leaving it.
  pub xil_intc_irq_handler-Drained :
      IsProgress k be chip Inv work
      → (enter leave : Trace → Trace) (n : ℕ) (t : Trace) → Inv (enter t)
      → work (enter t) < n
      → (ps : List ℕ) × (u : Trace) × (handle_loop k be chip n (enter t) ≡ some (ps, u))
        × (xil_intc_irq_handler k be chip enter leave n t ≡ some (ps, leave u))
        × Drained k be chip (enter t) ps u
  unfolding xil_intc_irq_handler chained_exit
  xil_intc_irq_handler-Drained progress enter leave n t inv h =
      let (ps, u, runs, drained) = handle_loop-Drained progress n (enter t) inv h in
      (ps, u, runs, rw runs, drained)
