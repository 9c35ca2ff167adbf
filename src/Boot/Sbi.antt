-- ===== src/Boot/Sbi.antt =====
-- bootloader/sbi.c: the calls that the kernel makes of the firmware. The fences need no work on one
-- hart; the numbers that the switch does not name end the run.
pub mod Calls
pub mod Timer
use qrisc_v.Base.{ℕ, ◌+◌, ◌%◌, ◌^◌, Bool, true, false, List, [], ◌∷◌, codes, ◌==◌, ◌||◌, u8}
use qrisc_v.Base.{if◌then◌else◌}
use qrisc_v.Boot.Csr.{mtimecmp, mie, sip, sr_ip_mtip, sr_ip_stip}
use qrisc_v.Boot.State.{Platform, IrqContext, M, pure, exit, csr_write, csr_set, csr_clear}
use qrisc_v.Boot.State.{◌>>=◌, ◌>>◌, and_then}
use qrisc_v.Boot.Serial.{serial_putchar, serial_putstr, serial_haschar, serial_getchar, minus_one}
use qrisc_v.Boot.Assert.{failure}
use qrisc_v.Boot.Emulation.Atomic.{set_reg}

abbrev pub reg_arg0 : ℕ
reg_arg0 = 10

abbrev pub sbi_set_timer : ℕ
sbi_set_timer = 0

abbrev pub sbi_console_putchar : ℕ
sbi_console_putchar = 1

abbrev pub sbi_console_getchar : ℕ
sbi_console_getchar = 2

abbrev pub sbi_remote_fence_i : ℕ
sbi_remote_fence_i = 5

abbrev pub sbi_remote_sfence_vma : ℕ
sbi_remote_sfence_vma = 6

abbrev pub sbi_shutdown : ℕ
sbi_shutdown = 8

unfoldable pub set_mtimecmp : ℕ → M (Unit {0})
set_mtimecmp next = csr_write mtimecmp next

-- The case SBI_SET_TIMER.
unfoldable pub set_timer : IrqContext → ℕ → M IrqContext
unfolding set_mtimecmp
set_timer ctx a0 = do set_mtimecmp a0; csr_set mie sr_ip_mtip; csr_clear sip sr_ip_stip; pure ctx

module _ (env : Platform) where
  -- What is stored once a character is known to be there.
  unfoldable pub store_char : IrqContext → M IrqContext
  store_char ctx = do c ← serial_getchar env; pure (set_reg ctx reg_arg0 c)

  -- The case SBI_CONSOLE_GETCHAR, the same in syscalls.c.
  unfoldable pub console_getchar : IrqContext → M IrqContext
  unfolding store_char
  console_getchar ctx = do
    has ← serial_haschar env
    if has then store_char ctx else pure (set_reg ctx reg_arg0 minus_one)

  -- The case SBI_CONSOLE_PUTCHAR, likewise.
  unfoldable pub console_putchar : IrqContext → ℕ → M IrqContext
  console_putchar ctx a0 = do serial_putchar env (u8 a0); pure ctx

  -- A message, and the end of the run.
  unfoldable pub stop : List ℕ → ℕ → M IrqContext
  stop message code = do serial_putstr env message; exit code

  unfoldable pub sbi_syscall : IrqContext → M IrqContext
  unfolding set_timer console_getchar console_putchar stop
  sbi_syscall ctx =
      let a0 = ctx.reg reg_arg0 in
      let which = ctx.reg (reg_arg0 + 7) in
      if which == sbi_shutdown
      then stop (codes "Shutdown...\n") 0
      else (if which == sbi_console_putchar
          then console_putchar ctx a0
          else (if which == sbi_console_getchar
              then console_getchar ctx
              else (if which == sbi_set_timer
                  then set_timer ctx a0
                  else (if (which == sbi_remote_fence_i) || (which == sbi_remote_sfence_vma)
                      then pure ctx
                      else stop (codes "SBI: Unhandled SYSCALL, stopping...\n") failure))))
