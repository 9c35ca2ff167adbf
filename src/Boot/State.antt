-- ===== src/Boot/State.antt =====
-- The state that the boot loader works on: its static variables, the registers of the hart that its
-- inline assembly reaches, memory as supervisor mode sees it, and the accesses to devices. A run
-- that reaches `_exit` ends there (boot.S loops for ever); `stalled` is a wait for a device that
-- outlasted its fuel, and `undefined` a write outside an array.
use qrisc_v.Base.{ℕ, Bool, Option, ◌∷◌}
use qrisc_v.Base.{u32}
use qrisc_v.Mmio.{store, Trace, Answer, after_read}
use qrisc_v.Boot.Csr
use qrisc_v.Boot.Csr.{CsrFile}

-- The functions that the exception table and the interrupt hook point to.
pub data Handler : Type 0 where
  invalid_inst misaligned_ld misaligned_st sbi_call plain_call : Handler

pub data IrqHandler : Type 0 where
  irq_callback : IrqHandler

-- Where the linker puts the cleared section and the static variables, and which function is at an
-- address, none at the null pointer.
pub record Image : Type 0 where
  pub bss_start : ℕ
  pub bss_end : ℕ
  pub exception_table : ℕ
  pub irq_handler : ℕ
  pub load_reservation : ℕ
  pub m_uart : ℕ
  pub handler_at : ℕ → Option Handler
  pub irq_handler_at : ℕ → Option IrqHandler

-- What the hardware and the linker decide. The Boolean says whether `mstatus.MPRV` is set, so
-- whether an access goes through the supervisor's address translation.
pub record Platform : Type 0 where
  pub answer : Answer
  -- The cause of the exception that a load (a store) of so many bytes at an address raises.
  pub load_fault : Bool → ℕ → ℕ → Option ℕ
  pub store_fault : Bool → ℕ → ℕ → Option ℕ
  -- The physical address of a byte.
  pub phys : Bool → ℕ → ℕ
  -- What taking an exception in machine mode makes of `mstatus`.
  pub trap_status : ℕ → ℕ
  -- The linker's addresses: the exception vector, the label behind a guarded access, the stack.
  pub isr_vector : ℕ
  pub recover : ℕ
  pub stack_top : ℕ
  pub image : Image
  -- How many reads of a status register a wait is given.
  pub poll_fuel : ℕ

-- `struct irq_context`: the registers of the interrupted code, as the vector saved them.
pub record IrqContext : Type 0 where
  pub pc : ℕ
  pub status : ℕ
  pub cause : ℕ
  pub reg : ℕ → ℕ

pub record Machine : Type 0 where
  pub io : Trace
  pub mem : ℕ → ℕ
  pub csr : CsrFile
  pub m_uart : ℕ
  pub load_reservation : ℕ
  pub exception_table : ℕ → Option Handler
  pub irq_handler : Option IrqHandler

pub data Run (A : Type 0) : Type 0 where
  ok : A → Machine → Run A
  exited : ℕ → Machine → Run A
  stalled : Machine → Run A
  undefined : Machine → Run A

abbrev pub M : Type 0 → Type 0
M A = Machine → Run A

module _ {A B : Type 0} where
  abbrev pub and_then : Run A → (A → M B) → Run B
  and_then (ok a m) k = k a m
  and_then (exited code m) k = exited code m
  and_then (stalled m) k = stalled m
  and_then (undefined m) k = undefined m

  infixl 5 ◌>>=◌ ◌>>◌
  abbrev pub ◌>>=◌ : M A → (A → M B) → M B
  x >>= k = λ m. and_then (x m) k

  abbrev pub ◌>>◌ : M A → M B → M B
  x >> y = x >>= λ _. y

abbrev pub pure : {A : Type 0} → A → M A
pure = ok

abbrev pub gets : {A : Type 0} → (Machine → A) → M A
gets f m = ok (f m) m

abbrev pub modify : (Machine → Machine) → M (Unit {0})
modify f m = ok tt (f m)

abbrev pub csr_read : ℕ → M ℕ
csr_read r = gets (λ m. Csr.read m.csr r)

abbrev pub csr_write : ℕ → ℕ → M (Unit {0})
csr_write r v = modify (λ m. record m { csr = Csr.write m.csr r v })

abbrev pub csr_set : ℕ → ℕ → M (Unit {0})
csr_set r b = modify (λ m. record m { csr = Csr.set_bits m.csr r b })

abbrev pub csr_clear : ℕ → ℕ → M (Unit {0})
csr_clear r b = modify (λ m. record m { csr = Csr.clear_bits m.csr r b })

-- `csr_swap`, and the assembly's `csrrw`.
abbrev pub csr_swap : ℕ → ℕ → M ℕ
csr_swap r v m = ok (Csr.read m.csr r) (record m { csr = Csr.write m.csr r v })

-- `_exit`: the registers stay as they are for whoever looks.
abbrev pub exit : {A : Type 0} → ℕ → M A
exit = exited

module _ (env : Platform) where
  abbrev pub mmio_read : ℕ → M ℕ
  mmio_read a m = ok (u32 (env.answer m.io a)) (record m { io = after_read env.answer a m.io })

  abbrev pub mmio_write : ℕ → ℕ → M (Unit {0})
  mmio_write a v = modify (λ m. record m { io = store a v ∷ m.io })
