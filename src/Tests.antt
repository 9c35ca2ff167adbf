-- ===== src/Tests.antt =====
-- The hardware and the state that the examples run on.
pub mod Emulation
pub mod Start
pub mod Devices
pub mod Sdk
pub mod Invariant
pub mod Traps
pub mod Loading
use qrisc_v.Base.{ℕ, ◌+◌, Bool, none, ◌==◌, ◌≡◌, refl, if◌then◌else◌, List, [], true}
use qrisc_v.Mmio.{Trace, clears}
use qrisc_v.Boot.Csr
use qrisc_v.Boot.Csr.{mtval, stvec, mie, mip, mtvec}
use qrisc_v.Boot.State.{Platform, IrqContext, Machine}
use qrisc_v.Boot.Emulation.Access.{put_word}
use qrisc_v.Boot.Serial.Output.{IsReady}

-- No access faults, addresses are physical, and every register of a device reads 0.
abbrev pub platform : Platform
platform = record {
  answer = λ t a. 0;
  load_fault = λ mprv len a. none;
  store_fault = λ mprv len a. none;
  phys = λ mprv a. a;
  trap_status = λ s. s;
  isr_vector = 0x80000020;
  recover = 0x80000400;
  stack_top = 0x80010000;
  image = record {
    bss_start = 0x8000f000;
    bss_end = 0x80010010;
    exception_table = 0x8000f000;
    irq_handler = 0x8000f040;
    load_reservation = 0x8000f044;
    m_uart = 0x8000f048;
    handler_at = λ a. none;
    irq_handler_at = λ a. none;
  };
  poll_fuel = 1;
}

pub platform-IsReady : (base : ℕ) → IsReady platform base
unfolding clears
platform-IsReady base t = refl

-- The interrupted code is at 0x40000000; x6 is an address, x7 a value, x17 the number of a call.
abbrev pub context : IrqContext
context = record {
  pc = 0x40000000;
  status = 0x800;
  cause = 2;
  reg = λ r.
      if r == 6 then 0x40001000 else (if r == 7 then 0x89abcdef else (if r == 17 then 1 else 0x41));
}

-- The instruction is in memory, and `mtval` is given.
abbrev pub stopped_at : ℕ → ℕ → Machine
stopped_at instr value = record {
  io = [];
  mem = put_word platform true (λ a. a) 0x40000000 instr;
  csr = λ r. if r == mtval then value else (if r == stvec then 0xc0000100 else 0);
  m_uart = 0x100000;
  load_reservation = 0;
  exception_table = λ k. none;
  irq_handler = none;
}
