-- ===== src/Intc.antt =====
-- build-os/kernel-patches/irq-xilinx-intc.c: the kernel's driver of the interrupt controller. What
-- the kernel gives it (memory, the device tree, interrupt domains, the handling of one interrupt)
-- is the record `Kernel`. Log output is left out.
pub mod Drain
pub mod Device
pub mod Reported
pub mod Init
use qrisc_v.Base.{ℕ, zero, suc, ◌+◌, ◌*◌, ◌/◌, ◌%◌, ◌^◌, Bool, true, false, Option, none, some}
use qrisc_v.Base.{List, [], ◌∷◌, ◌++◌, ◌==◌, not, if◌then◌else◌, u8, u32, add32, bit_and, ◌<<◌}
use qrisc_v.Mmio.{Trace, Answer, store, after_read}

-- Offsets of the registers.
abbrev pub ier : ℕ
ier = 0x08

abbrev pub iar : ℕ
iar = 0x0c

abbrev pub sie : ℕ
sie = 0x10

abbrev pub cie : ℕ
cie = 0x14

abbrev pub ivr : ℕ
ivr = 0x18

abbrev pub mer : ℕ
mer = 0x1c

abbrev pub mer_me : ℕ
mer_me = 1

abbrev pub mer_hie : ℕ
mer_hie = 2

-- -1 as an `unsigned int`.
abbrev pub no_irq : ℕ
no_irq = 0xffffffff

-- A 32-bit number with its bytes in the other order.
unfoldable pub swap32 : ℕ → ℕ
swap32 v = u8 v * 2 ^ 24 + u8 (v / 2 ^ 8) * 2 ^ 16 + u8 (v / 2 ^ 16) * 2 ^ 8 + u8 (v / 2 ^ 24)

-- `struct xintc_irq_chip`.
pub record Chip : Type 0 where
  pub base : ℕ
  pub root_domain : ℕ
  pub intr_mask : ℕ

-- `struct irq_data`, as far as the driver reads it.
pub record IrqData : Type 0 where
  pub hwirq : ℕ
  pub is_level : Bool

-- Which flow handler an interrupt gets, and whether it is marked as a level interrupt.
pub data Flow : Type 0 where
  edge level : Flow

pub record Kernel : Type 0 where
  pub answer : Answer
  -- The interrupt that a domain maps a hardware number to; 0 if it maps none.
  pub find_mapping : ℕ → ℕ → ℕ
  -- What handling one interrupt does to the devices.
  pub handle_one : ℕ → Trace → Trace

-- `xintc_write` and `xintc_read`; `be` is the static key `xintc_is_be`.
unfoldable pub xintc_write : Bool → ℕ → ℕ → ℕ → Trace → Trace
unfolding swap32
xintc_write be base reg v t =
    if be then store (add32 base reg) (swap32 v) ∷ t else store (add32 base reg) v ∷ t

unfoldable pub xintc_read : Answer → Bool → ℕ → ℕ → Trace → ℕ × Trace
unfolding swap32
xintc_read answer be base reg t =
    let v = u32 (answer t (add32 base reg)) in
    let t' = after_read answer (add32 base reg) t in if be then (swap32 v, t') else (v, t')

module _ (be : Bool) (base : ℕ) where
  -- The operations of `intc_dev`. `1 << hwirq` is a shift of an `int`.
  unfoldable pub intc_enable_or_unmask : IrqData → Trace → Trace
  unfolding xintc_write
  intc_enable_or_unmask d t =
      let mask = 1 << d.hwirq in
      let t' = if d.is_level then xintc_write be base iar mask t else t in
      xintc_write be base sie mask t'

  unfoldable pub intc_disable_or_mask : IrqData → Trace → Trace
  unfolding xintc_write
  intc_disable_or_mask d t = xintc_write be base cie (1 << d.hwirq) t

  unfoldable pub intc_ack : IrqData → Trace → Trace
  unfolding xintc_write
  intc_ack d t = xintc_write be base iar (1 << d.hwirq) t

  unfoldable pub intc_mask_ack : IrqData → Trace → Trace
  unfolding xintc_write
  intc_mask_ack d t =
      let mask = 1 << d.hwirq in xintc_write be base iar mask (xintc_write be base cie mask t)

-- `struct irq_chip`, as far as the driver fills it in.
pub record IrqChip : Type 0 where
  pub irq_unmask : IrqData → Trace → Trace
  pub irq_mask : IrqData → Trace → Trace
  pub irq_ack : IrqData → Trace → Trace
  pub irq_mask_ack : IrqData → Trace → Trace

abbrev pub intc_dev : Bool → ℕ → IrqChip
intc_dev be base = record {
  irq_unmask = intc_enable_or_unmask be base;
  irq_mask = intc_disable_or_mask be base;
  irq_ack = intc_ack be base;
  irq_mask_ack = intc_mask_ack be base;
}

-- `xintc_map`: the bit of `intr_mask` says whether the input is an edge.
unfoldable pub xintc_map : Chip → ℕ → Flow
xintc_map chip hw = if not (bit_and chip.intr_mask (1 << hw) == 0) then edge else level

-- One more handled interrupt.
unfoldable pub cons_handled : ℕ → Option (List ℕ × Trace) → Option (List ℕ × Trace)
cons_handled p none = none
cons_handled p (some (ps, u)) = some (p ∷ ps, u)

module _ (k : Kernel) (be : Bool) (chip : Chip) where
  unfoldable pub xintc_get_irq : Trace → ℕ × Trace
  unfolding xintc_read
  xintc_get_irq t =
      let (hwirq, t') = xintc_read k.answer be chip.base ivr t in
      let irq = if hwirq == no_irq then no_irq else k.find_mapping chip.root_domain hwirq in
      (irq, t')

  -- The loop of `xil_intc_irq_handler` and `xil_intc_handle_irq`: the interrupts that it handled,
  -- in order, unless the fuel ran out.
  unfoldable pub handle_loop : ℕ → Trace → Option (List ℕ × Trace)
  unfolding cons_handled
  handle_loop zero t = none
  handle_loop (suc n) t =
      let (pending, t') = xintc_get_irq t in
      let rest = handle_loop n (k.handle_one pending t') in
      if pending == no_irq then some ([], t') else cons_handled pending rest

  -- `chained_irq_exit`, behind a loop that ended.
  unfoldable pub chained_exit : (Trace → Trace) → Option (List ℕ × Trace) → Option (List ℕ × Trace)
  chained_exit leave none = none
  chained_exit leave (some (ps, u)) = some (ps, leave u)

  -- The handler behind another controller: the loop between what `chained_irq_enter` and
  -- `chained_irq_exit` do to the devices.
  unfoldable pub xil_intc_irq_handler :
      (Trace → Trace) → (Trace → Trace) → ℕ → Trace → Option (List ℕ × Trace)
  unfolding handle_loop chained_exit
  xil_intc_irq_handler enter leave n t = chained_exit leave (handle_loop n (enter t))
