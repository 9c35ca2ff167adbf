-- ===== src/Boot/Syscalls/Calls.antt =====
-- What each call of a plain program does, by its number.
use qrisc_v.Base.{ℕ, ◌≡◌, ◌⊎◌, inl, inr, false, ◌==◌, if◌then◌else◌, u8, [], ◌∷◌}
use qrisc_v.Base.{codes, arith}
use qrisc_v.Boot.State.{Platform, IrqContext, Machine, Run}
use qrisc_v.Boot.Assert.{failure}
use qrisc_v.Boot.Serial.Output.{IsReady, until_zero, Printed, Halted}
use qrisc_v.Boot.Sbi.Calls.{
  Received, stop-Halted, console_putchar-Printed, console_getchar-Received,
}
use qrisc_v.Boot.Syscalls.{handle_syscall}

pub data PlainCall : Type 0 where
  shutdown_call putchar_call getchar_call unknown_call : PlainCall

abbrev pub plain_call_of : ℕ → PlainCall
plain_call_of which =
    if which == 8
    then shutdown_call
    else (if which == 1 then putchar_call else (if which == 2 then getchar_call else unknown_call))

number_cases :
    (w : ℕ)
    → (w ≡ 8) ⊎ (w ≡ 1) ⊎ (w ≡ 2) ⊎ (((w == 8) ≡ false) × ((w == 1) ≡ false) × ((w == 2) ≡ false))
number_cases w = ground arith

module _ (env : Platform) (ctx : IrqContext) (m : Machine) where
  abbrev pub PlainEffect : PlainCall → Run IrqContext → Type 0
  PlainEffect shutdown_call r = Halted (until_zero (codes "Shutdown...\n")) failure m r
  PlainEffect putchar_call r = Printed (u8 (ctx.reg 10) ∷ []) ctx m r
  PlainEffect getchar_call r = Received env ctx m r
  PlainEffect unknown_call r =
      Halted (until_zero (codes "Unhandled SYSCALL, stopping...\n")) failure m r

  -- With a UART that is ready, a plain program's call prints or receives a character by its number;
  -- a shutdown and any other number print their message and end the run with -1.
  pub handle_syscall-PlainEffect :
      IsReady env m.m_uart → PlainEffect (plain_call_of (ctx.reg 17)) (handle_syscall env ctx m)
  unfolding handle_syscall
  handle_syscall-PlainEffect ready = elim (number_cases (ctx.reg 17)) [
    | inl e ↦ rw e (stop-Halted env ctx m (codes "Shutdown...\n") failure ready)
    | inr (inl e) ↦ rw e (console_putchar-Printed env ctx m (ctx.reg 10) ready)
    | inr (inr (inl e)) ↦ rw e (console_getchar-Received env ctx m)
    | inr (inr (inr e)) ↦
        rw (e.0, e.1, e.2)
          (stop-Halted env ctx m (codes "Unhandled SYSCALL, stopping...\n") failure ready)
  ]
