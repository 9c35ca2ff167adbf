-- ===== src/Boot/Interface.antt =====
-- bootloader/sbi_interface.h: the calls as a supervisor's program makes them. `ecall` is an
-- exception with cause 9, taken at the instruction's address and resumed through `mepc`; `mret`'s
-- change of mode and what the core saves in `mstatus` (`status`) are the hardware's.
pub mod Console
use qrisc_v.Base.{ℕ, ◌==◌, if◌then◌else◌}
use qrisc_v.Boot.Csr
use qrisc_v.Boot.Csr.{mcause, mepc, mstatus}
use qrisc_v.Boot.State.{Platform, Machine, M, pure, csr_write, ◌>>=◌, ◌>>◌}
use qrisc_v.Boot.Exception.{cause_ecall_s}
use qrisc_v.Boot.Sbi.{sbi_console_putchar, sbi_shutdown}
use qrisc_v.Boot.Vector.{trap}

-- The four registers that the macro sets.
abbrev pub with_arguments : ℕ → ℕ → ℕ → ℕ → (ℕ → ℕ) → ℕ → ℕ
with_arguments num a0 a1 a2 x i =
    if i == 10
    then a0
    else (if i == 11 then a1 else (if i == 12 then a2 else (if i == 17 then num else x i)))

module _ (env : Platform) (unwritten status pc : ℕ) where
  -- The core takes the exception.
  unfoldable pub ecall : (ℕ → ℕ) → M (ℕ → ℕ)
  ecall x = do
    csr_write mcause cause_ecall_s
    csr_write mepc pc
    csr_write mstatus status
    trap env unwritten x

  -- The registers behind the call; its value is the one in a0, register 10.
  unfoldable pub sbi_ecall : ℕ → ℕ → ℕ → ℕ → (ℕ → ℕ) → M (ℕ → ℕ)
  unfolding ecall
  sbi_ecall num a0 a1 a2 x = ecall (with_arguments num a0 a1 a2 x)

  abbrev pub sbi_ecall_0 : ℕ → (ℕ → ℕ) → M (ℕ → ℕ)
  sbi_ecall_0 num = sbi_ecall num 0 0 0

  abbrev pub sbi_ecall_1 : ℕ → ℕ → (ℕ → ℕ) → M (ℕ → ℕ)
  sbi_ecall_1 num a0 = sbi_ecall num a0 0 0

  abbrev pub sbi_ecall_2 : ℕ → ℕ → ℕ → (ℕ → ℕ) → M (ℕ → ℕ)
  sbi_ecall_2 num a0 a1 = sbi_ecall num a0 a1 0

  abbrev pub sbi_putchar : ℕ → (ℕ → ℕ) → M (ℕ → ℕ)
  sbi_putchar c = sbi_ecall_1 sbi_console_putchar c

  abbrev pub shutdown : (ℕ → ℕ) → M (ℕ → ℕ)
  shutdown = sbi_ecall_0 sbi_shutdown
