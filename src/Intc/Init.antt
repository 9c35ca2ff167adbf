-- ===== src/Intc/Init.antt =====
-- `xilinx_intc_of_init` (build-os/kernel-patches/irq-xilinx-intc.c): the set-up from the device
-- tree, with its error paths. What the kernel's functions give is the record `Tree`.
pub mod Setup
use qrisc_v.Base.{ℕ, ◌+◌, Bool, true, false, Option, none, some, ◌==◌, not, if◌then◌else◌, bit_and}
use qrisc_v.Base.Int.{ℤ, pos, negsuc, ltb_ℤ}
use qrisc_v.Base.{List, ◌∷◌}
use qrisc_v.Mmio.{Trace, Answer}
use qrisc_v.Intc.{Chip, ier, iar, mer, mer_me, mer_hie, xintc_write, xintc_read}

pub record Tree : Type 0 where
  -- Whether `kzalloc` gives memory, and the address that `of_iomap` gives, 0 if none.
  pub allocates : Bool
  pub iomap : ℕ
  -- What `of_property_read_u32` returns for the two properties, and the values that it reads.
  pub num_intr_inputs : ℤ × ℕ
  pub kind_of_intr : ℤ × ℕ
  -- The domain that `irq_domain_add_linear` makes for so many inputs, 0 if none.
  pub add_domain : ℕ → ℕ
  -- Whether there is a parent controller, and its interrupt, 0 if none.
  pub parent : Bool
  pub parent_irq : ℕ

-- How interrupts reach the driver: through a parent's interrupt, or as the root handler.
pub data Hook : Type 0 where
  chained : ℕ → Chip → Hook
  root : ℕ → Hook

-- The static variables `xintc_irqc` and `xintc_is_be`, the devices, the hook, and the kernel's
-- domains.
pub record Driver : Type 0 where
  pub xintc_irqc : Option Chip
  pub xintc_is_be : Bool
  pub io : Trace
  pub hook : Option Hook
  -- The domains that are registered with the kernel, the latest first.
  pub domains : List ℕ

-- The function returns, or stops in `BUG_ON`.
pub data Init : Type 0 where
  returned : ℤ → Driver → Init
  bug : Driver → Init

abbrev pub einval : ℤ
einval = negsuc 21

abbrev pub enomem : ℤ
enomem = negsuc 11

-- `err_alloc:`
unfoldable pub err_alloc : ℤ → Driver → Init
err_alloc ret d = returned ret (record d { xintc_irqc = none })

-- The writes to the controller: everything off and acknowledged, then the master enable, whose
-- read decides the byte order.
unfoldable pub setup_controller : Answer → ℕ → Bool → Trace → Bool × Trace
setup_controller answer base be t =
    let off = xintc_write be base ier 0 t in
    let acked = xintc_write be base iar 0xffffffff off in
    let enabled = xintc_write be base mer (mer_hie + mer_me) acked in
    let (v, read) = xintc_read answer be base mer enabled in
    if bit_and v (mer_hie + mer_me) == 0
    then (true, xintc_write true base mer (mer_hie + mer_me) read)
    else (be, read)

module _ (tree : Tree) where
  unfoldable pub set_hook : Chip → Driver → Init
  unfolding err_alloc
  set_hook chip d =
      if tree.parent
      then (if not (tree.parent_irq == 0)
          then returned (pos 0) (record d { hook = some (chained tree.parent_irq chip) })
          else err_alloc einval d)
      else returned (pos 0) (record d { hook = some (root chip.root_domain) })

  -- From `irq_domain_add_linear` on; `ret` is what the last read of a property returned.
  unfoldable pub make_domain : ℤ → Chip → Driver → Init
  unfolding set_hook err_alloc
  make_domain ret chip d =
      let domain = tree.add_domain (tree.num_intr_inputs).1 in
      if domain == 0
      then err_alloc ret d
      else (let chip' = record chip { root_domain = domain } in
          set_hook chip' (record d { xintc_irqc = some chip'; domains = domain ∷ d.domains }))

  -- From the second property on.
  unfoldable pub configure : Answer → Chip → Driver → Init
  unfolding make_domain setup_controller
  configure answer chip d =
      let (ret, kind) = tree.kind_of_intr in
      let mask = if ltb_ℤ ret (pos 0) then 0 else kind in
      let chip' = record chip { intr_mask = mask } in
      let (be, io) = setup_controller answer chip.base d.xintc_is_be d.io in
      make_domain ret chip' (record d { xintc_irqc = some chip'; xintc_is_be = be; io = io })

  -- The function, by what `xintc_irqc` holds.
  unfoldable pub init_once : Answer → Driver → Option Chip → Init
  unfolding configure err_alloc
  init_once answer d (some _) = returned einval d
  init_once answer d none =
      let chip : Chip = record { base = tree.iomap; root_domain = 0; intr_mask = 0 } in
      let mapped = record d { xintc_irqc = some chip } in
      if not tree.allocates
      then returned enomem d
      else (if tree.iomap == 0
          then bug mapped
          else (if ltb_ℤ (tree.num_intr_inputs).0 (pos 0)
              then err_alloc (tree.num_intr_inputs).0 mapped
              else configure answer chip mapped))

  unfoldable pub xilinx_intc_of_init : Answer → Driver → Init
  unfolding init_once
  xilinx_intc_of_init answer d = init_once answer d d.xintc_irqc
