-- ===== src/Boot/Exception.antt =====
-- bootloader/exception.c: the table of exception handlers, the interrupt hook, and the dispatch. A
-- function pointer in the table is a constructor of `Handler`; `call` is the call through it.
pub mod Dispatch
pub mod Serving
pub mod Booting
pub mod Reach
pub mod Returning
use qrisc_v.Base.{ℕ, ◌^◌, Bool, Option, none, some, codes, ◌==◌, ◌||◌}
use qrisc_v.Base.{ltb, not, if◌then◌else◌, update, add32, bit_and}
use qrisc_v.Boot.State.{Platform, IrqContext, Machine, M, pure, gets, modify, Handler, IrqHandler}
use qrisc_v.Boot.State.{invalid_inst, misaligned_ld, misaligned_st, sbi_call, plain_call}
use qrisc_v.Boot.State.{◌>>=◌, ◌>>◌, and_then}
use qrisc_v.Boot.State
use qrisc_v.Boot.Serial.{serial_putstr_hex}
use qrisc_v.Boot.Assert.{assert_fail}
use qrisc_v.Boot.Emulation.Atomic.{trap_invalid_inst}
use qrisc_v.Boot.Emulation.Misaligned.{trap_misaligned_ld, trap_misaligned_st}
use qrisc_v.Boot.Sbi.{sbi_syscall}
use qrisc_v.Boot.Syscalls.{handle_syscall}
use qrisc_v.Boot.Irq

abbrev pub cause_illegal_instruction : ℕ
cause_illegal_instruction = 2

abbrev pub cause_misaligned_load : ℕ
cause_misaligned_load = 4

abbrev pub cause_misaligned_store : ℕ
cause_misaligned_store = 6

abbrev pub cause_ecall_u : ℕ
cause_ecall_u = 8

abbrev pub cause_ecall_s : ℕ
cause_ecall_s = 9

abbrev pub cause_ecall_m : ℕ
cause_ecall_m = 11

abbrev pub cause_interrupt : ℕ
cause_interrupt = 2 ^ 31

-- CAUSE_PAGE_FAULT_STORE + 1
abbrev pub cause_max_exc : ℕ
cause_max_exc = 16

unfoldable pub exception_set_irq_handler : IrqHandler → M (Unit {0})
exception_set_irq_handler handler = modify (λ m. record m { irq_handler = some handler })

-- A number outside the table would be a write out of bounds; the callers pass constants.
unfoldable pub exception_set_handler : ℕ → Handler → M (Unit {0})
exception_set_handler cause handler =
    modify (λ m. record m { exception_table = update m.exception_table cause (some handler) })

unfoldable pub exception_set_syscall_handler : Handler → M (Unit {0})
unfolding exception_set_handler
exception_set_syscall_handler handler = do
  exception_set_handler cause_ecall_u handler
  exception_set_handler cause_ecall_s handler
  exception_set_handler cause_ecall_m handler

-- emulation.c registers its three handlers.
unfoldable pub emulation_init : M (Unit {0})
unfolding exception_set_handler
emulation_init = do
  exception_set_handler cause_illegal_instruction invalid_inst
  exception_set_handler cause_misaligned_load misaligned_ld
  exception_set_handler cause_misaligned_store misaligned_st

-- The causes whose instruction is stepped over.
abbrev pub is_ecall : ℕ → Bool
is_ecall cause = (cause == cause_ecall_u) || ((cause == cause_ecall_s) || (cause == cause_ecall_m))

abbrev pub past_ecall : IrqContext → IrqContext
past_ecall ctx = if is_ecall ctx.cause then record ctx { pc = add32 ctx.pc 4 } else ctx

module _ (env : Platform) where
  unfoldable pub call : Handler → IrqContext → M IrqContext
  call invalid_inst ctx = trap_invalid_inst env ctx
  call misaligned_ld ctx = trap_misaligned_ld env ctx
  call misaligned_st ctx = trap_misaligned_st env ctx
  call sbi_call ctx = sbi_syscall env ctx
  call plain_call ctx = handle_syscall env ctx

  -- The interrupt hook; without one the interrupt is only reported.
  unfoldable pub handle_irq : Option IrqHandler → IrqContext → M IrqContext
  handle_irq (some State.irq_callback) ctx = Irq.irq_callback env ctx
  handle_irq none ctx = do
    serial_putstr_hex env (codes "ERROR: Unhandled IRQ: ") ctx.cause
    pure ctx

  unfoldable pub handle_exception : Option Handler → IrqContext → M IrqContext
  unfolding call
  handle_exception (some handler) ctx = call handler ctx
  handle_exception none ctx = do
    serial_putstr_hex env (codes "ERROR: Unhandled exception: ") ctx.cause
    serial_putstr_hex env (codes "       at PC: ") ctx.pc
    assert_fail env (codes "!\"Unhandled exception\"") (codes "exception.c") 59

  -- The entry for a cause, none outside the table.
  abbrev pub table_entry : Machine → ℕ → Option Handler
  table_entry m cause = if ltb cause cause_max_exc then m.exception_table cause else none

  unfoldable pub exception_handler : IrqContext → M IrqContext
  unfolding handle_irq handle_exception
  exception_handler ctx m =
      if not (bit_and ctx.cause cause_interrupt == 0)
      then handle_irq m.irq_handler ctx m
      else handle_exception (table_entry m ctx.cause) (past_ecall ctx) m
