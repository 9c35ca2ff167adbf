-- ===== src/Boot/Syscalls.antt =====
-- bootloader/syscalls.c: a smaller set of calls, for programs without a kernel. Nothing in the boot
-- loader registers it.
pub mod Calls
use qrisc_v.Base.{◌+◌, codes, ◌==◌, if◌then◌else◌}
use qrisc_v.Boot.State.{Platform, IrqContext, M}
use qrisc_v.Boot.Assert.{failure}
use qrisc_v.Boot.Sbi.{reg_arg0, sbi_shutdown, sbi_console_putchar, sbi_console_getchar}
use qrisc_v.Boot.Sbi.{stop, console_putchar, console_getchar}

module _ (env : Platform) where
  unfoldable pub handle_syscall : IrqContext → M IrqContext
  unfolding stop console_putchar console_getchar
  handle_syscall ctx =
      let a0 = ctx.reg reg_arg0 in
      let which = ctx.reg (reg_arg0 + 7) in
      if which == sbi_shutdown
      then stop env (codes "Shutdown...\n") failure
      else (if which == sbi_console_putchar
          then console_putchar env ctx a0
          else (if which == sbi_console_getchar
              then console_getchar env ctx
              else stop env (codes "Unhandled SYSCALL, stopping...\n") failure))
