-- ===== src/Intc/Init/Setup.antt =====
-- How `xilinx_intc_of_init` ends: with the driver in place and hooked, with nothing in place, or,
-- without the parent's interrupt, with a domain that stays registered.
use qrisc_v.Base.{add32, List, [], ◌∷◌, ◌++◌}
use qrisc_v.Base.{ℕ, ◌≡◌, ◌≢◌, ◌⊎◌, inl, inr, refl, Bool, true, false, none, some, arith}
use qrisc_v.Base.{◌==◌, if◌then◌else◌, Bool-cases}
use qrisc_v.Base.Int.{ℤ, pos, ltb_ℤ}
use qrisc_v.Mmio.{Trace, Answer, written}
use qrisc_v.Base.{==_refl, ==_ne, bit_and, ◌∙◌, ap}
use qrisc_v.Intc.{Chip, swap32, ier, iar, mer, xintc_write, xintc_read}
use qrisc_v.Intc.Init.{einval}
use qrisc_v.Intc.Init.{Tree, Driver, Init, returned, bug, chained, root}
use qrisc_v.Intc.Init.{setup_controller}

-- `told` are the devices once the controller has been set up.
module _ (tree : Tree) (d : Driver) where
  -- The chip is known, its domain exists, and interrupts reach it.
  abbrev pub IsHooked : Trace → Driver → Type 0
  IsHooked told d' =
      (chip : Chip) × (d'.io ≡ told)
      × (d'.xintc_irqc ≡ some chip)
      × (chip.root_domain ≡ tree.add_domain (tree.num_intr_inputs).1)
      × (d'.domains ≡ tree.add_domain (tree.num_intr_inputs).1 ∷ d.domains)
      × (tree.add_domain (tree.num_intr_inputs).1 ≢ 0)
      × ((tree.parent ≡ false) ⊎ (tree.parent_irq ≢ 0))
      × (d'.hook
          ≡ some (if tree.parent then chained tree.parent_irq chip else root chip.root_domain))

  -- As before, the controller aside.
  abbrev pub IsUnhooked : Driver → Type 0
  IsUnhooked d' = (d'.xintc_irqc ≡ d.xintc_irqc) × (d'.hook ≡ d.hook) × (d'.domains ≡ d.domains)

  -- The parent's interrupt is missing: the chip is given up, its domain stays, and the controller
  -- as it was set up.
  abbrev pub IsOrphaned : Trace → ℤ → Driver → Type 0
  IsOrphaned told ret d' =
      (d'.io ≡ told)
      × (tree.parent ≡ true)
      × (tree.parent_irq ≡ 0)
      × (ret ≡ einval)
      × (d'.xintc_irqc ≡ none)
      × (d'.hook ≡ d.hook)
      × (d'.domains ≡ tree.add_domain (tree.num_intr_inputs).1 ∷ d.domains)
      × (tree.add_domain (tree.num_intr_inputs).1 ≢ 0)

  abbrev pub Ends : Trace → Init → Type 0
  Ends told (returned ret d') =
      (IsHooked told d' × (ret ≡ pos 0))
      ⊎ (IsUnhooked d'
          × (((ltb_ℤ ret (pos 0) ≡ true) × (d'.io ≡ d.io))
              ⊎ ((tree.add_domain (tree.num_intr_inputs).1 ≡ 0) × (d'.io ≡ told))))
      ⊎ IsOrphaned told ret d'
  Ends told (bug d') = tree.iomap ≡ 0

-- The value that reaches a little-endian controller: the driver's, or its bytes reversed.
abbrev pub sent_as : Bool → ℕ → ℕ
sent_as be v = if be then swap32 v else v

written-own :
    (be : Bool) (base reg v : ℕ) (t : Trace)
    → written (add32 base reg) (xintc_write be base reg v t)
      ≡ written (add32 base reg) t ++ sent_as be v ∷ []
unfolding xintc_write written
written-own true base reg v t = rw (==_refl (add32 base reg))
written-own false base reg v t = rw (==_refl (add32 base reg))

written-other :
    (be : Bool) (base reg v a : ℕ) (t : Trace)
    → add32 base reg ≢ a
    → written a (xintc_write be base reg v t) ≡ written a t
unfolding xintc_write written
written-other true base reg v a t ne = rw (==_ne (add32 base reg) a ne)
written-other false base reg v a t ne = rw (==_ne (add32 base reg) a ne)

written-read :
    (answer : Answer) (be : Bool) (base reg a : ℕ) (t : Trace)
    → written a (xintc_read answer be base reg t).1 ≡ written a t
unfolding xintc_read written
written-read answer true base reg a t = refl
written-read answer false base reg a t = refl

module _ (answer : Answer) (base : ℕ) (be : Bool) (t : Trace) where
  abbrev acked : Trace
  acked = xintc_write be base iar 0xffffffff (xintc_write be base ier 0 t)

  abbrev enabled : Trace
  enabled = xintc_write be base mer 3 acked

  -- Enabling the controller, in either byte order, writes to no other register.
  setup_controller-other :
      (a : ℕ)
      → add32 base mer ≢ a
      → written a (setup_controller answer base be t).1 ≡ written a acked
  unfolding setup_controller
  setup_controller-other a ne =
      elim (Bool-cases (bit_and (xintc_read answer be base mer enabled).0 3 == 0)) [
        | inl ignored ↦ rw ignored (
            written-other true base mer 3 a _ ne
            ∙ written-read answer be base mer a enabled
            ∙ written-other be base mer 3 a acked ne)
        | inr taken ↦
            rw taken
              (written-read answer be base mer a enabled ∙ written-other be base mer 3 a acked ne)
      ]

  -- The set-up turns all inputs off and acknowledges them, once each, in the byte order that it
  -- starts with; and enabling the controller writes neither register again.
  pub setup_controller-written :
      let done = (setup_controller answer base be t).1 in
      (written (add32 base 0x08) done ≡ written (add32 base 0x08) t ++ sent_as be 0 ∷ [])
      × (written (add32 base 0x0c) done ≡ written (add32 base 0x0c) t ++ sent_as be 0xffffffff ∷ [])
  setup_controller-written = (
    setup_controller-other (add32 base ier) (omega arith)
        ∙ written-other be base iar 0xffffffff (add32 base ier) _ (omega arith)
        ∙ written-own be base ier 0 t,
    setup_controller-other (add32 base iar) (omega arith)
        ∙ written-own be base iar 0xffffffff (xintc_write be base ier 0 t)
        ∙ ap (λ (l : List ℕ). l ++ sent_as be 0xffffffff ∷ [])
            (written-other be base ier 0 (add32 base iar) t (omega arith)),
  )
