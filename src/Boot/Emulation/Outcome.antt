-- ===== src/Boot/Emulation/Outcome.antt =====
-- How the misaligned handlers end: with the instruction done, or with a fault handed on.
use qrisc_v.Base.{arith}
use qrisc_v.Base.{ℕ, ◌≡◌, ◌≢◌, refl, ◌∙◌, ap, none, bit_and}
use qrisc_v.Boot.Csr
use qrisc_v.Boot.Csr.{CsrFile, mstatus, mtvec, mtval, mcause}
use qrisc_v.Boot.State.{Platform, IrqContext, Machine, Run, ok}
use qrisc_v.Boot.Emulation.Access.{trap_to_supervisor}
use qrisc_v.Boot.Emulation.Atomic.{or_divert, skip_instruction}
use qrisc_v.Boot.Emulation.Guard.{faulted, faulted-cause, faulted-addr, faulted-same}
use qrisc_v.Boot.Emulation.Divert.{Diverted, trap_to_supervisor-Diverted}
use qrisc_v.Boot.Emulation.Reserve.{next_inst}
use qrisc_v.Boot.Emulation.Bytes.{OnlyGuarded}

-- A run that returns `ctx'` with memory `mem`, the default vector in place, and nothing else of the
-- machine changed but `mstatus`.
pub record Completed (env : Platform) (ctx' : IrqContext) (m : Machine) (mem : ℕ → ℕ)
    (r : Run IrqContext) : Type 0 where
  pub after : Machine
  pub returns : r ≡ ok ctx' after
  pub vector : after.csr mtvec ≡ env.isr_vector
  pub memory : after.mem ≡ mem
  pub reservation : after.load_reservation ≡ m.load_reservation
  pub devices : after.io ≡ m.io
  pub same : (r : ℕ) → r ≢ mstatus → r ≢ mtvec → after.csr r ≡ m.csr r

module _ (env : Platform) (ctx : IrqContext) (m : Machine) (mem : ℕ → ℕ) (f : CsrFile)
    (only : OnlyGuarded m.csr f) where
  pub skip_instruction-Completed :
      Completed env
        (next_inst ctx)
        m
        mem
        (skip_instruction env ctx (record m { mem = mem; csr = f }))
  unfolding skip_instruction Csr.write Csr.kept
  skip_instruction-Completed = record {
    after = record m { mem = mem; csr = Csr.write f mtvec env.isr_vector };
    returns = refl;
    vector = refl;
    memory = refl;
    reservation = refl;
    devices = refl;
    same = λ r hs ht. written r ht ∙ only r hs ht;
  }
    where
      written : (r : ℕ) → r ≢ mtvec → Csr.write f mtvec env.isr_vector r ≡ f r
      written r ht = ground arith

  -- A fault after any number of guarded accesses.
  pub late_fault-Diverted :
      {A : Type 0} (next : A → Machine → Run IrqContext) (cause addr : ℕ)
      → Diverted env ctx cause addr m mem (
          or_divert env {A = A} ctx none next
            (record m { mem = mem; csr = faulted env cause addr f }))
  unfolding or_divert
  late_fault-Diverted next cause addr =
      trap_to_supervisor-Diverted env ctx m (record m { mem = mem; csr = faulted env cause addr f })
        cause addr (faulted-cause env f cause addr) (faulted-addr env f cause addr)
        (λ r u. faulted-same env f cause addr r u.0 u.1 u.2 u.3 u.4 ∙ only r u.0 u.1) refl

  -- An instruction that the handler does not know: the exception itself is handed on.
  pub unknown-Diverted :
      Diverted env ctx
        (m.csr mcause)
        (m.csr mtval)
        m
        mem
        (trap_to_supervisor env ctx ctx.pc ctx.status (record m { mem = mem; csr = f }))
  unknown-Diverted =
      trap_to_supervisor-Diverted env ctx m (record m { mem = mem; csr = f }) (m.csr mcause)
        (m.csr mtval)
        (ap (λ (c : ℕ). bit_and c 0x8000000f) (only mcause (ground arith) (ground arith)))
        (only mtval (ground arith) (ground arith)) (λ r u. only r u.0 u.1) refl
