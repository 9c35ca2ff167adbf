-- ===== src/Boot/Start/Delegation.antt =====
-- What the start hands to supervisor mode, and what it keeps and has a handler for.
use qrisc_v.Mmio.{Trace, written, store}
use qrisc_v.Boot.Serial.{ulite_control}
use qrisc_v.Base.{add32}
use qrisc_v.Base.{ℕ, ◌^◌, ◌<◌, ◌≡◌, ◌⊎◌, refl}
use qrisc_v.Base.{Bool, true, false, ◌==◌, ◌&&◌, if◌then◌else◌, bit, update, arith}
use qrisc_v.Base.{
  Option, none, some, holds_below, holds_below_lem, bit_and, not32, List, [], ◌∷◌, ◌++◌,
}
use qrisc_v.Boot.Csr
use qrisc_v.Boot.Csr.{CsrFile, mstatus, medeleg, mideleg, mie, mepc, mscratch, mtvec, irq_m_timer}
use qrisc_v.Boot.State.{Platform, Machine, ok, Handler, and_then, irq_callback}
use qrisc_v.Boot.State.{sbi_call, invalid_inst, misaligned_ld, misaligned_st}
use qrisc_v.Boot.Serial.{serial_init, ulite_tx}
use qrisc_v.Boot.Serial.Output.{
  IsReady, until_zero, Printed, Printed-nothing, Printed-append, serial_putstr-Printed,
}
use qrisc_v.Boot.Exception.{exception_set_handler, exception_set_irq_handler, emulation_init}
use qrisc_v.Boot.Start.{kept_causes, boot_kernel, print_all, banner, main, embedded, uartlite_base}

-- The registers that the start writes.
abbrev pub booted_csr : Platform → ℕ → CsrFile → CsrFile
booted_csr env entry f =
    let a = Csr.write f mie (2 ^ irq_m_timer) in
    let b = Csr.write a mstatus 0x880 in
    let c = Csr.write b medeleg (not32 kept_causes) in
    let d = Csr.write c mideleg (not32 (2 ^ irq_m_timer)) in
    let e = Csr.write d mepc entry in Csr.write e mscratch env.stack_top

-- The four handlers in the table, over what it held.
abbrev pub booted_table : (ℕ → Option Handler) → ℕ → Option Handler
booted_table t =
    update
      (update (update (update t 2 (some invalid_inst)) 4 (some misaligned_ld)) 6
        (some misaligned_st))
      9 (some sbi_call)

abbrev pub booted : Platform → ℕ → Machine → Machine
booted env entry m = record m {
  csr = booted_csr env entry m.csr;
  exception_table = booted_table m.exception_table;
  irq_handler = some irq_callback;
}

abbrev is_some : Option Handler → Bool
is_some none = false
is_some (some _) = true

module _ (env : Platform) (entry dtb : ℕ) (m : Machine) where
  -- The kernel is entered at its address in supervisor mode, with 0 and the device tree's address.
  pub boot_kernel-booted :
      and_then (emulation_init m) (λ _. boot_kernel env entry dtb)
      ≡ ok (record { pc = entry; mode = 1; a0 = 0; a1 = dtb }) (booted env entry m)
  unfolding emulation_init boot_kernel exception_set_handler exception_set_irq_handler Csr.write
      Csr.read Csr.kept
  boot_kernel-booted = refl

-- A cause is delegated and has no handler here, or is kept and has one.
abbrev pub Split : CsrFile → (ℕ → Option Handler) → ℕ → Type 0
Split f t c =
    ((bit c (f medeleg) ≡ 1) × (t c ≡ none))
    ⊎ ((bit c (f medeleg) ≡ 0) × ((h : Handler) × (t c ≡ some h)))

abbrev delegated : ℕ
delegated = bit_and (not32 kept_causes) 0xffff

split_test : ℕ → Bool
split_test c =
    if is_some (booted_table (λ _. none) c) then bit c delegated == 0 else bit c delegated == 1

split_table : holds_below split_test 16 ≡ true
unfolding holds_below split_test
split_table = refl

booted-Split :
    (env : Platform) (entry : ℕ) (m : Machine) (c : ℕ)
    → ((k : ℕ) → m.exception_table k ≡ none)
    → c < 16
    → Split (booted env entry m).csr (booted env entry m).exception_table c
unfolding split_test Csr.write Csr.kept
booted-Split env entry m c empty h =
    let tested : split_test c ≡ true = holds_below_lem split_test 16 c split_table h in
    ground (arith, empty c)

irq_test : ℕ → Bool
irq_test c =
    if c == 7
    then (bit c (bit_and (not32 (2 ^ 7)) 0xffff) == 0) && (bit c (2 ^ 7) == 1)
    else (bit c (bit_and (not32 (2 ^ 7)) 0xffff) == 1) && (bit c (2 ^ 7) == 0)

irq_table : holds_below irq_test 16 ≡ true
unfolding holds_below irq_test
irq_table = refl

booted_irqs :
    (env : Platform) (entry : ℕ) (m : Machine) (c : ℕ)
    → c < 16
    → let f = (booted env entry m).csr in
      (bit c (f mideleg) ≡ (if c == 7 then 0 else 1)) × (bit c (f mie) ≡ (if c == 7 then 1 else 0))
unfolding irq_test Csr.write Csr.kept
booted_irqs env entry m c h =
    let tested : irq_test c ≡ true = holds_below_lem irq_test 16 c irq_table h in ground arith

-- From an empty table, the start enters the kernel in supervisor mode with 0 and the address of its
-- device tree. Then every exception `c` below 16 is either delegated to the supervisor or has a
-- handler here, never both; and of the interrupts the machine timer's is the only one that is kept
-- and the only one enabled, and the hook for it is set.
pub boot_kernel-Split :
    (env : Platform) (entry dtb : ℕ) (m : Machine) (c : ℕ)
    → ((k : ℕ) → m.exception_table k ≡ none)
    → c < 16
    → (m' : Machine) × (and_then (emulation_init m) (λ _. boot_kernel env entry dtb)
        ≡ ok (record { pc = entry; mode = 1; a0 = 0; a1 = dtb }) m')
      × Split m'.csr m'.exception_table c
      × (bit c (m'.csr mideleg) ≡ (if c == 7 then 0 else 1))
      × (bit c (m'.csr mie) ≡ (if c == 7 then 1 else 0))
      × (m'.irq_handler ≡ some irq_callback)
boot_kernel-Split env entry dtb m c empty h =
    let irqs = booted_irqs env entry m c h in
    (
      booted env entry m,
      boot_kernel-booted env entry dtb m,
      booted-Split env entry m c empty h,
      irqs.0,
      irqs.1,
      refl,
    )

-- The texts of a list of strings, one after another.
unfoldable pub texts : List (List ℕ) → List ℕ
texts [] = []
texts (s ∷ rest) = until_zero s ++ texts rest

pub print_all-Printed :
    (env : Platform) (ss : List (List ℕ)) (m : Machine)
    → IsReady env m.m_uart
    → Printed (texts ss) tt m (print_all env ss m)
unfolding print_all texts
print_all-Printed env [] m ready = Printed-nothing tt m
print_all-Printed env (s ∷ ss) m ready =
    Printed-append (λ _. print_all env ss) (serial_putstr-Printed env s m ready)
      λ m' same. print_all-Printed env ss m' (rw same ready)

-- Where a UART is ready, the start of an embedded kernel prints the banner, fills the table, and
-- enters the kernel in supervisor mode with 0 and the device tree's address.
pub main-booted :
    (env : Platform) (payload dtb : ℕ) (m : Machine)
    → IsReady env uartlite_base
    → (trace : Trace) × (main env (embedded payload dtb) m
        ≡ ok
            (record { pc = payload; mode = 1; a0 = 0; a1 = dtb })
            (booted env payload (record m { io = trace; m_uart = uartlite_base })))
      × (written (add32 uartlite_base ulite_tx) trace
          ≡ written (add32 uartlite_base ulite_tx) m.io ++ texts banner)
unfolding main serial_init written
main-booted env payload dtb m ready =
    let after_init : Machine = record m {
      io = store (add32 uartlite_base ulite_control) 0x13 ∷ m.io;
      m_uart = uartlite_base;
    } in
    let printed = print_all-Printed env banner after_init ready in
    (printed.trace, rw (printed.returns) (boot_kernel-booted env payload dtb _), printed.sent)
