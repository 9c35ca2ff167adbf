-- ===== src/Boot/Executed/Timer.antt =====
-- The timer as the kernel sees it: its call arms the machine timer, and the timer's interrupt comes
-- back to the interrupted instruction with a tick for the supervisor.
use qrisc_v.Base.{ℕ, ◌≡◌}
use qrisc_v.Base.{bit, add32}
use qrisc_v.Boot.Csr
use qrisc_v.Boot.Csr.{CsrFile, mepc, mstatus, mscratch, mie, mip, sip, mtimecmp}
use qrisc_v.Boot.Csr.{sr_ip_mtip, sr_ip_stip}
use qrisc_v.Boot.State.{Platform, IrqContext, Machine, Run, ok}
use qrisc_v.Boot.Irq
use qrisc_v.Boot.Executed.{inside, context}

-- The registers after the tick is raised, and after the timer is set.
abbrev raised_csr : CsrFile → CsrFile
raised_csr f =
    Csr.clear_bits (Csr.clear_bits (Csr.set_bits f sip sr_ip_stip) mie sr_ip_mtip) mip sr_ip_mtip

abbrev armed_csr : ℕ → CsrFile → CsrFile
armed_csr next f =
    Csr.clear_bits (Csr.set_bits (Csr.write f mtimecmp next) mie sr_ip_mtip) sip sr_ip_stip

module _ (env : Platform) (unwritten : ℕ) (x : ℕ → ℕ) (m : Machine) (k : ℕ) where
  -- The code goes on at `pc` with its registers and its memory, and with the bits `on` and `waits`
  -- of the enabled and of the waiting interrupts.
  pub record Served (pc on waits : ℕ) (reserved compare : ℕ) (r : Run (ℕ → ℕ)) : Type 0 where
    pub regs : ℕ → ℕ
    pub after : Machine
    pub returns : r ≡ ok regs after
    pub registers : (i : ℕ) → regs i ≡ x i
    pub goes_on : after.csr mepc ≡ pc
    pub mode : after.csr mstatus ≡ m.csr mstatus
    pub stack : after.csr mscratch ≡ env.stack_top
    pub memory : after.mem ≡ m.mem
    pub reservation : after.load_reservation ≡ reserved
    pub enabled : bit k (after.csr mie) ≡ on
    pub waiting : bit k (after.csr mip) ≡ waits
    pub next_at : after.csr mtimecmp ≡ compare

  abbrev at_tick : Machine
  at_tick = record (inside env unwritten x m) {
    csr = raised_csr (inside env unwritten x m).csr;
    load_reservation = 0;
  }

  abbrev at_call : Machine
  at_call = record (inside env unwritten x m) {
    csr = armed_csr (x 10) (inside env unwritten x m).csr;
  }

  abbrev called : IrqContext
  called = record (context env unwritten x m) { pc = add32 (context env unwritten x m).pc 4 }
