-- ===== src/Boot/Irq.antt =====
-- The interrupt handler of bootloader/main.c: a machine timer interrupt becomes a supervisor timer
-- interrupt, and ends any reservation (`emulation_take_irq`).
use qrisc_v.Base.{ℕ, codes, ◌==◌, if◌then◌else◌, bit_and}
use qrisc_v.Boot.Csr.{mie, mip, sip, sr_ip_mtip, sr_ip_stip, irq_m_timer}
use qrisc_v.Boot.State.{Platform, IrqContext, M, pure, exit, modify, csr_set, csr_clear}
use qrisc_v.Boot.State.{◌>>◌}
use qrisc_v.Boot.Serial.{serial_putstr_hex}
use qrisc_v.Boot.Assert.{failure}

unfoldable pub emulation_take_irq : M (Unit {0})
emulation_take_irq = modify (λ m. record m { load_reservation = 0 })

unfoldable pub raise_timer : IrqContext → M IrqContext
unfolding emulation_take_irq
raise_timer ctx = do
  emulation_take_irq
  csr_set sip sr_ip_stip
  csr_clear mie sr_ip_mtip
  csr_clear mip sr_ip_mtip
  pure ctx

module _ (env : Platform) where
  unfoldable pub unhandled_irq : ℕ → M IrqContext
  unhandled_irq cause = do
    serial_putstr_hex env (codes "ERROR: Unhandled IRQ: ") cause
    exit failure

  unfoldable pub irq_callback : IrqContext → M IrqContext
  unfolding raise_timer unhandled_irq
  irq_callback ctx =
      let cause = bit_and ctx.cause 0xF in
      if cause == irq_m_timer then raise_timer ctx else unhandled_irq cause
